-- ===== src/HashTable/Absent.antt =====
-- What `hash_table_remove` promises, and why it holds when there is nothing to remove.
use onyxnet.Prelude.{
  none-ne-some, set, ◌∷◌, ℕ, ◌+◌, ◌<◌, ◌≡◌, refl, sym, ap, subst, Option, none, some, List, [], ◌∷◌,
  length, get_or, if◌then◌else◌, Bool-cases, inl, inr, arith, nil_of_length,
}
use onyxnet.HashTable.{Funcs, Table}
use onyxnet.HashTable.Chain.{Node, match_in}
use onyxnet.HashTable.Chain.Laws.{deleted, Lacks, found, found-Lacks, Lacks-found, Lacks-same}
use onyxnet.HashTable.Valid.{
  in_use, total-set, chains_of, home, home-lt, hash_of, same_of, IsValid, lookup,
}
use onyxnet.HashTable.Slots.{set-inside}

abbrev pub removed_count : {K : Type 0} → Option (Node K) → ℕ
removed_count none = 0
removed_count (some n) = 1

abbrev pub addresses : {K : Type 0} → Option (Node K) → List ℕ
addresses none = []
addresses (some n) = n.address ∷ []

module _ {K : Type 0} (memory : ℕ → K) (f : Funcs K) where
  -- What a removal of the item at `p` promises: `result` is returned and `freed` is freed.
  pub record IsRemoved (t t' : Table K) (p result : ℕ) (freed : List ℕ) : Type 0 where
    pub valid : IsValid memory f t'
    pub result_is : result ≡ removed_count (lookup memory f t (memory p))
    pub frees : freed ≡ addresses (lookup memory f t (memory p))
    pub holds :
        (q : K)
        → lookup memory f t' q
          ≡ (if same_of memory f t q (memory p) then none else lookup memory f t q)
    pub same_flags : t'.flags ≡ t.flags
    pub same_size : t'.item_size ≡ t.item_size
    pub same_use : in_use t'.top ≡ in_use t.top
    pub counts : t'.item_count + result ≡ t.item_count
    -- The node is taken out of its chain.
    pub unlinked :
        (n : Node K)
        → lookup memory f t (memory p) ≡ some n
        → let slot = home (hash_of memory f t (memory p)) in
          t'.top
          ≡ some (
              set (chains_of t.top) slot (
                deleted memory
                  (hash_of memory f t)
                  (same_of memory f t)
                  (memory p)
                  (get_or (chains_of t.top) slot [])))

  -- Nothing is found under a key that is the same as one under which nothing is found.
  pub lookup-absent :
      (t : Table K) (k : K)
      → IsValid memory f t
      → lookup memory f t k ≡ none
      → (q : K)
      → lookup memory f t q ≡ (if same_of memory f t q k then none else lookup memory f t q)
  unfolding lookup
  lookup-absent t k valid e q = elim (Bool-cases (same_of memory f t q k)) [
    | inl here ↦
        let h = hash_of memory f t in
        let s = same_of memory f t in
        let chain = λ (i : ℕ). get_or (chains_of t.top) (home i) [] in
        let lacks =
          Lacks-found memory h s valid.keyed k (chain (h k)) (valid.placed.coded (home (h k))) e in
        let both = Lacks-same memory h s valid.keyed q k (chain (h k)) here lacks in
        let moved =
          subst (λ i. Lacks memory h s q (chain i)) (sym (valid.keyed.hash-same q k here)) both in
        rw here (
          found-Lacks memory h s valid.keyed q (chain (h q)) (valid.placed.coded (home (h q)))
            moved)
    | inr other ↦ rw other refl
  ]

  -- A table that counts no items has none.
  pub lookup-empty :
      (t : Table K) (k : K) → IsValid memory f t → t.item_count ≡ 0 → lookup memory f t k ≡ none
  unfolding lookup match_in
  lookup-empty t k valid e =
      let i = home (hash_of memory f t k) in
      let cs = chains_of t.top in
      let inside : i < length cs =
        set-inside memory (hash_of memory f t) (same_of memory f t) cs i []
          (home-lt (hash_of memory f t k)) valid.placed in
      let empty : get_or cs i [] ≡ [] =
        nil_of_length (get_or cs i [])
          (omega (arith, total-set cs i [] inside, valid.counted, e)) in
      ap (found memory (hash_of memory f t) (same_of memory f t) k) empty

  -- A removal that finds nothing changes nothing.
  pub nothing :
      (t : Table K) (p : ℕ)
      → IsValid memory f t
      → lookup memory f t (memory p) ≡ none
      → IsRemoved t t p 0 []
  nothing t p valid e = record {
    valid = valid;
    result_is = rw e refl;
    frees = rw e refl;
    holds = lookup-absent t (memory p) valid e;
    same_flags = refl;
    same_size = refl;
    same_use = refl;
    counts = omega arith;
    unlinked = λ n here. absurd (none-ne-some e here);
  }
