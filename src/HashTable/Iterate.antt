-- ===== src/HashTable/Iterate.antt =====
-- The iteration over a table that is not changed meanwhile: hash_table_begin, hash_table_next and
-- move_next.
pub mod Visit
pub mod Apart
pub mod Live
pub mod Unlink
pub mod Removal
pub mod Sweep
use onyxnet.Prelude.{
  ℕ, zero, suc, ◌+◌, ◌≡◌, ◌≤◌, ◌<◌, ◌⊎◌, ◌≢◌, if◌then◌else◌, ◌==◌, refl, sym, ap, ◌∙◌, subst,
  Option, none, some, List, [], ◌∷◌, ◌++◌, length, drop, map, All, get_or, arith, inl, inr,
}
use onyxnet.Memory.{◌>>=◌}
use onyxnet.HashTable.{Table, Funcs, slot_of, table_size}
use onyxnet.HashTable.Chain.{Node, pointer_of}
use onyxnet.HashTable.Valid.{home, IsValid, chains_of, filled}

-- `hash_iterator_t`; `node` is the rest of a chain from the node that the code points at, and empty
-- for NULL.
pub record Iterator (K : Type 0) : Type 0 where
  pub table : Table K
  pub node : List (Node K)

module _ {K : Type 0} where
  -- The chains, `top_size` many.
  abbrev pub top_of : Table K → List (List (Node K))
  top_of t = elim t.top [ none ↦ [] | some chains ↦ chains ]

  -- The loop over the slots: the first chain that is not empty.
  unfoldable pub first_chain : List (List (Node K)) → List (Node K)
  first_chain [] = []
  first_chain ([] ∷ cs) = first_chain cs
  first_chain ((n ∷ c) ∷ cs) = n ∷ c

  -- `move_next` from the node `n` with the nodes `rest` behind it.
  unfoldable pub move_next : Table K → Node K → List (Node K) → List (Node K)
  move_next t n [] = first_chain (drop (suc (slot_of n.code t.top_size)) (top_of t))
  move_next t n (m ∷ rest) = m ∷ rest

  -- `hash_table_next`
  unfoldable pub next : Iterator K → ℕ × Iterator K
  next it = elim it.node [
    | [] ↦ (0, it)
    | n ∷ rest ↦ (pointer_of n.address n.stored, record it { node = move_next it.table n rest })
  ]

  -- `hash_table_begin`
  unfoldable pub begin : Table K → ℕ × Iterator K
  unfolding first_chain
  begin t = elim (first_chain (top_of t)) [
    | [] ↦ (0, record { table = t; node = [] })
    | n ∷ rest ↦ (pointer_of n.address n.stored, record { table = t; node = move_next t n rest })
  ]

  -- The nodes of all chains, slot by slot.
  unfoldable pub all_nodes : List (List (Node K)) → List (Node K)
  all_nodes [] = []
  all_nodes (c ∷ cs) = c ++ all_nodes cs

  abbrev pub addresses_of : List (Node K) → List ℕ
  addresses_of [] = []
  addresses_of (n ∷ c) = n.address ∷ addresses_of c

  -- A caller's loop, `for (p = hash_table_begin(t, &it); p; p = hash_table_next(&it))`, for at most
  -- `k` rounds.
  unfoldable pub walk : ℕ → ℕ × Iterator K → List ℕ
  unfolding next
  walk zero r = []
  walk (suc k) r = let rest = walk k (next r.1) in if r.0 == 0 then [] else r.0 ∷ rest
