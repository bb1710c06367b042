-- ===== src/Tests/Sweep.antt =====
-- A table that keeps the pointers of its users, with three items, of which a loop removes two.
use onyxnet.Prelude.{
  ℕ, ◌≡◌, refl, sym, ap, ◌∙◌, subst, Bool, true, not, Option, none, some, List, [], ◌∷◌, All, set,
  replicate, ◌==◌, arith,
}
use onyxnet.HashTable.{Table, init, assign, assign_in, remove}
use onyxnet.HashTable.Chain.{pointed, match_in, delete_in}
use onyxnet.HashTable.Valid.{IsValid}
use onyxnet.HashTable.Ideal.{Op, assigned, calls, call}
use onyxnet.HashTable.Ideal.Refine.{calls-answers}
use onyxnet.HashTable.Iterate.{all_nodes, top_of, first_chain, move_next}
use onyxnet.HashTable.Iterate.Visit.{pointers}
use onyxnet.HashTable.Iterate.Live.{live_begin, live_next}
use onyxnet.HashTable.Iterate.Sweep.{sweep, kept, IsNode, Apart, sweep_lem}
use onyxnet.Tests.HashTable.{memory, low_byte, keyed}

abbrev three_calls : List Op
three_calls =
    assigned 100 true (some 4096) ∷ assigned 5 true (some 8192) ∷ assigned 4 true (some 6144) ∷ []

-- The items of 100 and 4 are in one chain.
abbrev three_items : Table ℕ
three_items = record {
  top = some (
      set
        (set (replicate 32 []) 12 (
          record { address = 6144; code = 12; stored = pointed 4 }
          ∷ record { address = 4096; code = 44; stored = pointed 100 }
          ∷ []))
        15 (record { address = 8192; code = 15; stored = pointed 5 } ∷ []));
  top_size = 32;
  item_size = 8;
  item_count = 3;
  flags = 1;
  funcs = some low_byte;
}

makes : calls memory three_calls (init 8 1 low_byte) ≡ some (100 ∷ 5 ∷ 4 ∷ [], three_items)
unfolding calls call init assign assign_in match_in
makes = refl

three_items-IsValid : IsValid memory low_byte three_items
three_items-IsValid =
    let (t', made, r) = calls-answers memory low_byte 8 1 three_calls keyed (omega arith) in
    subst (IsValid memory low_byte)
      (ap (λ (o : Option (List ℕ × Table ℕ)). elim o [ none ↦ t' | some r ↦ r.1 ])
        (sym made ∙ makes))
      r.valid

-- The item of 5 stays.
abbrev drops : ℕ → Bool
drops p = not (p == 5)

each_IsNode : All (IsNode memory) (all_nodes (top_of three_items))
unfolding all_nodes
each_IsNode = (
  record { real = omega arith; pointed = omega arith; leads = refl },
  (
    record { real = omega arith; pointed = omega arith; leads = refl },
    (record { real = omega arith; pointed = omega arith; leads = refl }, tt),
  ),
)

nodes-Apart : Apart (all_nodes (top_of three_items))
unfolding all_nodes
nodes-Apart = ((omega arith, (omega arith, tt)), ((omega arith, tt), (tt, tt)))

sweep_lem_example :
    (t' : Table ℕ) × (sweep memory drops 4 (live_begin three_items) three_items
      ≡ some (pointers (all_nodes (top_of three_items)), t'))
    × IsValid memory low_byte t'
    × (all_nodes (top_of t') ≡ kept memory drops (all_nodes (top_of three_items)))
sweep_lem_example =
    sweep_lem memory drops low_byte three_items 4 three_items-IsValid (omega arith) each_IsNode
      nodes-Apart (omega arith)

-- Both nodes of the chain are gone.
sweeps :
    sweep memory drops 4 (live_begin three_items) three_items
    ≡ some (
      4 ∷ 100 ∷ 5 ∷ [],
      record three_items {
        top = some (
            set
              (replicate 32 [])
              15
              (record { address = 8192; code = 15; stored = pointed 5 } ∷ []));
        item_count = 1;
      },
    )
unfolding sweep live_begin live_next first_chain move_next remove match_in delete_in
sweeps = refl
