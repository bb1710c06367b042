-- ===== src/HashTable/Iterate/Removal.antt =====
-- What removing the item of a node does to the nodes of a table.
use onyxnet.Prelude.{
  ℕ, ◌^◌, ◌≡◌, ◌≤◌, ◌<◌, refl, sym, ap, ◌∙◌, subst, Bool, true, Option, none, some, List, [], ◌∷◌,
  ◌++◌, All, All-right, All-both, get_or, Option-cases, inl, inr, arith, if◌then◌else◌, length,
  none-ne-some,
}
use onyxnet.HashTable.{Table, Funcs, table_size, remove}
use onyxnet.HashTable.Chain.{Node, key_of}
use onyxnet.HashTable.Chain.Laws.{IsCoded, IsDistinct, found-key}
use onyxnet.HashTable.Valid.{IsValid-cases, home, home-lt, IsValid, lookup, hash_of, same_of}
use onyxnet.HashTable.Frame.{All-lookup}
use onyxnet.HashTable.Absent.{lookup-absent, removed_count}
use onyxnet.HashTable.Remove.{remove-IsRemoved}
use onyxnet.HashTable.Iterate.{filled, all_nodes, top_of}
use onyxnet.HashTable.Iterate.Apart.{All-all_nodes, table-IsDistinct}
use onyxnet.HashTable.Iterate.Unlink.{without, all_nodes-set, without-middle}

module _ {K : Type 0} (memory : ℕ → K) (f : Funcs K) where
  no_middle : (xs ys : List (Node K)) (n : Node K) → [] ≡ xs ++ n ∷ ys → ⊥
  no_middle [] ys n e = cc
  no_middle (x ∷ xs) ys n e = cc

  -- A table with nodes has its chains.
  pub in_chains :
      (t : Table K) (xs ys : List (Node K)) (n : Node K)
      → IsValid memory f t
      → all_nodes (top_of t) ≡ xs ++ n ∷ ys
      → (t.top_size ≡ table_size) × ((i : ℕ) → All (λ m. home m.code ≡ i) (get_or (top_of t) i []))
  unfolding all_nodes
  in_chains t xs ys n valid e =
      IsValid-cases memory f
        (λ t.
          IsValid memory f t
          → all_nodes (top_of t) ≡ xs ++ n ∷ ys
          → (t.top_size ≡ table_size)
            × ((i : ℕ) → All (λ m. home m.code ≡ i) (get_or (top_of t) i [])))
        (λ top_size size count flags valid e. absurd (no_middle xs ys n e))
        (λ cs size count flags valid e. (refl, valid.placed.homed)) t valid valid e

  -- What the removal of the item of a node does to the nodes.
  abbrev pub Removes : Table K → ℕ → List (Node K) → List (Node K) → Type 0
  Removes t p xs ys =
      (freed : List ℕ) × (t' : Table K) × (remove memory t p ≡ some (1, freed, t'))
      × IsValid memory f t'
      × (all_nodes (top_of t') ≡ xs ++ ys)
      × (t'.item_count ≤ t.item_count)

  module _ (cs : List (List (Node K))) (size count flags p : ℕ) (xs ys : List (Node K)) (n : Node K)
      (valid : IsValid memory f (filled memory f cs size count flags))
      (e : all_nodes cs ≡ xs ++ n ∷ ys) (is : memory p ≡ key_of memory n.stored) where
    abbrev t : Table K
    t = filled memory f cs size count flags

    abbrev h : K → ℕ
    h = hash_of memory f t

    abbrev s : K → K → Bool
    s = same_of memory f t

    present : (m : Node K) × (lookup memory f t (memory p) ≡ some m)
    unfolding lookup
    present =
        let each =
          All-all_nodes (λ m. (q : K) × (lookup memory f t q ≡ some m)) cs
            (All-lookup memory f t (λ m. (q : K) × (lookup memory f t q ≡ some m)) valid
              (λ q m e. (q, e))) in
        let (q, here) = (All-right _ xs (n ∷ ys) (subst (All _) e each)).0 in
        let alike : s q (memory p) ≡ true =
          ap (s q) is
          ∙ found-key memory h s valid.keyed q (get_or cs (home (h q)) []) n
              (valid.placed.coded (home (h q))) here in
        elim (Option-cases (lookup memory f t (memory p))) [
          | inl absent ↦ absurd (
              none-ne-some
                (lookup-absent memory f t (memory p) valid absent q
                  ∙ ap (λ b. if b then none else lookup memory f t q) alike)
                here)
          | inr found ↦ found
        ]

    filled-Removes : count < 2 ^ 64 → Removes t p xs ys
    filled-Removes bound =
        let (result, freed, t', step, done) = remove-IsRemoved memory f t p valid bound in
        let (m, found) = present in
        let one : result ≡ 1 = done.result_is ∙ ap removed_count found in
        let k = memory p in
        let coded = All-all_nodes (IsCoded memory h s) cs valid.placed.coded in
        let inside : home (h k) < length cs =
          subst (λ n. home (h k) < n) (sym valid.placed.width) (home-lt (h k)) in
        (
          freed,
          t',
          step ∙ ap (λ r. some (r, freed, t')) one,
          done.valid,
          ap
                (λ (o : Option (List (List (Node K)))).
                  all_nodes (elim o [ none ↦ [] | some ds ↦ ds ]))
                (done.unlinked m found)
              ∙ all_nodes-set memory h s valid.keyed k cs 0 (home (h k)) valid.placed.coded
                  (λ i.
                    All-both (get_or cs i []) (λ n g g'. omega arith) (valid.placed.homed i)
                      (valid.placed.homed i))
                  (omega arith) inside
              ∙ ap (without memory h s valid.keyed k) e
              ∙ without-middle memory h s valid.keyed k xs ys n
                  (subst (All (IsCoded memory h s)) e coded)
                  (subst (IsDistinct memory h s) e (table-IsDistinct memory f t valid)) is,
          omega (arith, done.counts),
        )

  pub removes :
      (t : Table K) (p : ℕ) (xs ys : List (Node K)) (n : Node K)
      → IsValid memory f t
      → t.item_count < 2 ^ 64
      → all_nodes (top_of t) ≡ xs ++ n ∷ ys
      → memory p ≡ key_of memory n.stored
      → Removes t p xs ys
  unfolding all_nodes
  removes t p xs ys n valid bound e is =
      IsValid-cases memory f
        (λ t.
          IsValid memory f t
          → t.item_count < 2 ^ 64
          → all_nodes (top_of t) ≡ xs ++ n ∷ ys
          → Removes t p xs ys)
        (λ top_size size count flags valid bound e. absurd (no_middle xs ys n e))
        (λ cs size count flags valid bound e.
          filled-Removes cs size count flags p xs ys n valid e is bound)
        t valid valid bound e
