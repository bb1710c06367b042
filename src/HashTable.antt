-- ===== src/HashTable.antt =====
-- lib/onyxutil/hashtable.cpp and hashtable.h: a table of 32 chains. The data behind a pointer is a
-- value of `K`, and `memory` says which; pointers are numbers, and 0 is NULL. A chain is the list of
-- its nodes from `top[slot]` along `next`, each with its address. What `malloc` returns is an
-- argument. `none` is a fault: a null table or function that is used, a slot past the table, or a
-- node that is gone.
pub mod Chain
pub mod Valid
pub mod Slots
pub mod Frame
pub mod Written
pub mod Assign
pub mod Absent
pub mod Remove
pub mod Life
pub mod Iterate
pub mod Search
pub mod Ideal
pub mod Full
use onyxnet.Prelude.{
  ℕ, zero, suc, ◌+◌, ◌-◌, ◌%◌, ◌^◌, Bool, true, false, ◌&&◌, Option, none, some, List, [], ◌∷◌,
  ◌++◌, map, get_elem?, set, replicate, ◌==◌, if◌then◌else◌,
}
use Prim.Native.Nat.{bit_and}
use onyxnet.Memory.{◌>>=◌, add_size, sub_size}
use onyxnet.HashTable.Chain.{
  pointer_of, Node, match_in, replace_in, delete_in, Stored, copied, pointed,
}

-- `hash_func` and `comp_func`; the second is true where the code's returns 0. They are set together
-- by `init` and cleared together by `deinit`.
pub record Funcs (K : Type 0) : Type 0 where
  pub hash : K → ℕ → ℕ
  pub same : K → K → ℕ → Bool

-- `hash_table_t`
pub record Table (K : Type 0) : Type 0 where
  pub top : Option (List (List (Node K)))
  pub top_size : ℕ
  pub item_size : ℕ
  pub item_count : ℕ
  pub flags : ℕ
  pub funcs : Option (Funcs K)

abbrev pub table_size : ℕ
table_size = 32

-- `hash_table_init`
unfoldable pub init : {K : Type 0} → ℕ → ℕ → Funcs K → Table K
init size flags f = record {
  top = none;
  top_size = 0;
  item_size = size;
  item_count = 0;
  flags = flags;
  funcs = some f;
}

-- The two loops of `hash_table_deinit`: the addresses that they free, in order.
abbrev pub free_chain : {K : Type 0} → List (Node K) → List ℕ
free_chain [] = []
free_chain (n ∷ c) = n.address ∷ free_chain c

abbrev pub free_chains : {K : Type 0} → List (List (Node K)) → List ℕ
free_chains [] = []
free_chains (c ∷ cs) = free_chain c ++ free_chains cs

-- `hash_table_deinit`: what it frees and the cleared table. The chains of a table are `top_size` many.
unfoldable pub deinit : {K : Type 0} → Table K → List ℕ × Table K
deinit t = (
  elim t.top [ none ↦ [] | some chains ↦ free_chains chains ],
  record { top = none; top_size = 0; item_size = 0; item_count = 0; flags = 0; funcs = none },
)

-- `code & (table->top_size - 1)`
abbrev pub slot_of : ℕ → ℕ → ℕ
slot_of code size = bit_and code (sub_size size 1)

module _ {K : Type 0} (memory : ℕ → K) where
  abbrev pub has_pointers : Table K → Bool
  has_pointers t = t.flags % 2 == 1

  -- What a node for the item at `key` holds.
  abbrev pub stored_for : Table K → ℕ → Stored K
  stored_for t key = if has_pointers t then pointed key else copied (memory key)

  abbrev pub matching : Funcs K → Table K → K → List (Node K) → Option (Node K)
  matching f t k = match_in memory (f.hash k t.item_size) (λ q. f.same k q t.item_size)

  -- `hash_table_find`
  unfoldable pub find : Table K → ℕ → Option ℕ
  find t key = elim t.top [
    | none ↦ some 0
    | some chains ↦ do
      f ← t.funcs
      chain ← get_elem? chains (slot_of (f.hash (memory key) t.item_size) t.top_size)
      some (elim (matching f t (memory key) chain) [
        | none ↦ 0
        | some n ↦ pointer_of n.address n.stored
      ])
  ]

  -- `hash_table_assign` after the search: the node found is overwritten, or a new one linked in.
  -- `fresh` is the new node's address, if `malloc` has one.
  abbrev pub place :
      Option ℕ
      → List (List (Node K))
      → Table K
      → ℕ
      → (K → Bool)
      → ℕ
      → List (Node K)
      → Option (Node K)
      → ℕ × Table K
  place fresh chains t key same code chain (some n) = (
    pointer_of n.address n.stored,
    record t {
      top = some (
          set chains (slot_of code t.top_size)
            (replace_in memory code same (stored_for t key) chain));
    },
  )
  place none chains t key same code chain none = (0, t)
  place (some a) chains t key same code chain none = (
    (if has_pointers t then key else a + 16),
    record t {
      top = some (
          set chains (slot_of code t.top_size)
            (record { address = a; code = code; stored = stored_for t key } ∷ chain));
      item_count = add_size t.item_count 1;
    },
  )

  -- `hash_table_assign` once the chains are there.
  unfoldable pub assign_in : Option ℕ → List (List (Node K)) → Table K → ℕ → Option (ℕ × Table K)
  assign_in fresh chains t key = do
    f ← t.funcs
    let code = f.hash (memory key) t.item_size
    let same = λ (q : K). f.same (memory key) q t.item_size
    chain ← get_elem? chains (slot_of code t.top_size)
    some (place fresh chains t key same code chain (match_in memory code same chain))

  -- `hash_table_assign`; the first argument says whether `malloc` has room for the chains.
  unfoldable pub assign : Bool → Option ℕ → Table K → ℕ → Option (ℕ × Table K)
  unfolding assign_in
  assign room fresh t key = elim t.top [
    | some chains ↦ assign_in fresh chains t key
    | none ↦
        if room
        then assign_in fresh (replicate table_size [])
            (record t { top = some (replicate table_size []); top_size = table_size }) key
        else some (0, t)
  ]

  -- `hash_table_remove` after the search, with the addresses that it frees.
  abbrev pub unlink :
      List (List (Node K))
      → Table K
      → (K → Bool)
      → ℕ
      → List (Node K)
      → Option (Node K)
      → ℕ × List ℕ × Table K
  unlink chains t same code chain none = (0, [], t)
  unlink chains t same code chain (some n) = (
    1,
    n.address ∷ [],
    record t {
      top = some (set chains (slot_of code t.top_size) (delete_in memory code same chain));
      item_count = sub_size t.item_count 1;
    },
  )

  -- `hash_table_remove`
  unfoldable pub remove : Table K → ℕ → Option (ℕ × List ℕ × Table K)
  remove t key = if t.item_count == 0 then some (0, [], t) else do
    chains ← t.top
    f ← t.funcs
    let code = f.hash (memory key) t.item_size
    let same = λ (q : K). f.same (memory key) q t.item_size
    chain ← get_elem? chains (slot_of code t.top_size)
    some (unlink chains t same code chain (match_in memory code same chain))
