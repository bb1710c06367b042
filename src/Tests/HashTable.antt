-- ===== src/Tests/HashTable.antt =====
-- A table of numbers whose low byte is the key; the item behind pointer `p` is `p * 3`.
use onyxnet.Prelude.{
  Bool, if◌then◌else◌, false, ℕ, ◌+◌, ◌*◌, ◌%◌, ◌^◌, ◌<◌, ◌≢◌, All, ◌≡◌, refl, sym, ap, ◌∙◌, true,
  Option, some, none, List, [], ◌∷◌, length, subst, set, replicate, ◌==◌, ==_iff, ==_refl, arith,
}
use onyxnet.HashTable.{Funcs, Table, init, deinit, find, assign, assign_in, remove}
use onyxnet.HashTable.Chain.{pointer_of, Node, copied, match_in, replace_in, delete_in}
use onyxnet.HashTable.Chain.Laws.{IsKeyed}
use onyxnet.HashTable.Valid.{IsValid}
use onyxnet.HashTable.Written.{IsAssigned}
use onyxnet.HashTable.Assign.{assign_lem}
use onyxnet.HashTable.Absent.{IsRemoved}
use onyxnet.HashTable.Remove.{remove-IsRemoved}
use onyxnet.HashTable.Iterate.{
  begin, next, move_next, first_chain, walk, addresses_of, all_nodes, top_of,
}
use onyxnet.HashTable.Iterate.Visit.{pointers, walk-begin}
use onyxnet.HashTable.Ideal.{answer, Op, found, assigned, removed, no_entries, answers, calls}
use onyxnet.HashTable.Ideal.Represents.{Represents, alike}
use onyxnet.HashTable.Ideal.Refine.{calls-answers}
use onyxnet.HashTable.Search.{search, find-search}
use onyxnet.HashTable.Life.{init_lem, deinit_lem}

abbrev pub memory : ℕ → ℕ
memory p = p * 3

abbrev pub low_byte : Funcs ℕ
low_byte = record { hash = λ k size. k % 256; same = λ a b size. a % 256 == b % 256 }

pub keyed : IsKeyed (λ (k : ℕ). k % 256) (λ a b. a % 256 == b % 256)
keyed = record {
  same_refl = λ a. ==_refl (a % 256);
  same_symm = λ a b. ground arith;
  same_trans = λ a b c e e'. ground arith;
  hash-same = λ a b e. (==_iff (a % 256) (b % 256)).0 e;
}

abbrev fresh : Table ℕ
fresh = init 8 0 low_byte

fresh-IsValid : IsValid memory low_byte fresh
fresh-IsValid = (init_lem memory low_byte 8 0 keyed).0

room : fresh.item_count + 1 < 2 ^ 64
unfolding init
room = omega arith

assign_lem_example :
    (result : ℕ) × (t' : Table ℕ) × (assign memory true (some 4096) fresh 100 ≡ some (result, t'))
    × IsAssigned memory low_byte fresh t' 100 4096 result
assign_lem_example = assign_lem memory low_byte fresh 100 4096 fresh-IsValid room

-- The table with the item 300, whose low byte is 44, in slot 12.
abbrev one_item : Table ℕ
one_item = record {
  top =
      some
        (set (replicate 32 []) 12 (record { address = 4096; code = 44; stored = copied 300 } ∷ []));
  top_size = 32;
  item_size = 8;
  item_count = 1;
  flags = 0;
  funcs = some low_byte;
}

first_assigned : assign memory true (some 4096) fresh 100 ≡ some (4112, one_item)
unfolding init assign assign_in match_in
first_assigned = refl

-- An item with the same low byte takes the place of the first.
assigned_again :
    assign memory true (some 8192) one_item 356
    ≡ some (
      4112,
      record one_item {
        top = some (
            set
              (replicate 32 [])
              12
              (record { address = 4096; code = 44; stored = copied 1068 } ∷ []));
      },
    )
unfolding assign assign_in match_in replace_in
assigned_again = refl

one_item-IsValid : IsValid memory low_byte one_item
one_item-IsValid =
    let (result, t', step, done) = assign_lem memory low_byte fresh 100 4096 fresh-IsValid room in
    subst (IsValid memory low_byte)
      (ap (λ (o : Option (ℕ × Table ℕ)). elim o [ none ↦ fresh | some r ↦ r.1 ])
        (sym step ∙ first_assigned))
      done.valid

find-search_example :
    find memory one_item 356
    ≡ some (search memory (λ q. 1068 % 256 == q % 256) (all_nodes (top_of one_item)))
find-search_example = find-search memory low_byte one_item 356 one_item-IsValid

finds : find memory one_item 356 ≡ some 4112
unfolding find match_in
finds = refl

remove-IsRemoved_example :
    (result : ℕ) × (freed : List ℕ) × (t' : Table ℕ) × (remove memory one_item 100
      ≡ some (result, freed, t'))
    × IsRemoved memory low_byte one_item t' 100 result freed
remove-IsRemoved_example =
    remove-IsRemoved memory low_byte one_item 100 one_item-IsValid (omega arith)

removes :
    remove memory one_item 100
    ≡ some (1, 4096 ∷ [], record one_item { top = some (replicate 32 []); item_count = 0 })
unfolding remove match_in delete_in
removes = refl

deinit_lem_example :
    ((deinit one_item).0 ≡ addresses_of (all_nodes (top_of one_item)))
    × (length ((deinit one_item).0) ≡ 1)
    × ((p : ℕ)
        → (find memory ((deinit one_item).1) p ≡ some 0)
          × (remove memory ((deinit one_item).1) p ≡ some (0, [], (deinit one_item).1)))
    × ((room : Bool) (fresh : Option ℕ) (p : ℕ)
        → assign memory room fresh ((deinit one_item).1) p
          ≡ (if room then none else some (0, (deinit one_item).1)))
deinit_lem_example = deinit_lem memory low_byte one_item one_item-IsValid

iterates : walk 2 (begin one_item) ≡ 4112 ∷ []
unfolding walk begin next move_next first_chain
iterates = refl

one_node : All (λ (n : Node ℕ). pointer_of n.address n.stored ≢ 0) (all_nodes (top_of one_item))
unfolding all_nodes
one_node = (omega arith, tt)

walk-begin_example :
    (walk 1 (begin one_item) ≡ pointers (all_nodes (top_of one_item)))
    × (length (all_nodes (top_of one_item)) ≡ 1)
walk-begin_example = walk-begin memory low_byte one_item 1 one_item-IsValid one_node (omega arith)

-- An item is assigned and found, a node for a second is refused, and the first is removed.
abbrev some_calls : List Op
some_calls =
    assigned 100 true (some 4096)
    ∷ found 356
    ∷ assigned 5 false none
    ∷ found 5
    ∷ removed 356
    ∷ found 100
    ∷ []

calls-answers_example :
    let said = answers memory (alike memory low_byte 8 false) false some_calls no_entries in
    (t' : Table ℕ) × (calls memory some_calls (init 8 0 low_byte) ≡ some (said.0, t'))
    × Represents memory low_byte 8 false t' said.1
calls-answers_example = calls-answers memory low_byte 8 0 some_calls keyed (omega arith)

answered :
    (answers memory (alike memory low_byte 8 false) false some_calls no_entries).0
    ≡ 4112 ∷ 4112 ∷ 0 ∷ 0 ∷ 1 ∷ 0 ∷ []
unfolding answers answer
answered = refl
