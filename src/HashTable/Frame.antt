-- ===== src/HashTable/Frame.antt =====
-- Every node of a valid table is found under its key, and what is found does not depend on memory
-- that no node stands for.
use onyxnet.Prelude.{
  ℕ, ◌≡◌, refl, sym, ap, ◌∙◌, subst, Bool, some, List, [], ◌∷◌, All, get_or, arith,
}
use onyxnet.HashTable.{Funcs, Table}
use onyxnet.HashTable.Chain.{Node, key_of, match_in}
use onyxnet.HashTable.Chain.Laws.{IsKeyed, key, IsCoded, Lacks, IsDistinct, found, found-cons}
use onyxnet.HashTable.Valid.{home, IsValid, lookup, chains_of, hash_of, same_of}

module _ {K : Type 0} (memory : ℕ → K) (hash : K → ℕ) (same : K → K → Bool)
    (keyed : IsKeyed hash same) where
  abbrev FoundIn : List (Node K) → Node K → Type 0
  FoundIn c m = found memory hash same (key memory hash same m) c ≡ some m

  found-later :
      (n : Node K) (c d : List (Node K))
      → IsCoded memory hash same n
      → Lacks memory hash same (key memory hash same n) d
      → All (FoundIn c) d
      → All (FoundIn (n ∷ c)) d
  found-later n c [] coded lacks all = tt
  found-later n c (m ∷ d) coded lacks all =
      let other = keyed.same_symm (key memory hash same m) (key memory hash same n) ∙ lacks.0 in
      (
        found-cons memory hash same keyed (key memory hash same m) n c coded ∙ rw other all.0,
        found-later n c d coded lacks.1 all.1,
      )

  pub found-All :
      (c : List (Node K))
      → All (IsCoded memory hash same) c
      → IsDistinct memory hash same c
      → All (FoundIn c) c
  found-All [] coded apart = tt
  found-All (n ∷ c) coded apart = (
    found-cons memory hash same keyed (key memory hash same n) n c coded.0
        ∙ rw (keyed.same_refl (key memory hash same n)) refl,
    found-later n c c coded.0 apart.0 (found-All c coded.1 apart.1),
  )

module _ {K : Type 0} (memory : ℕ → K) (f : Funcs K) (t : Table K) where
  -- What holds of every node that a search finds holds of every node.
  pub All-lookup :
      (P : Node K → Type 0)
      → IsValid memory f t
      → ((q : K) (n : Node K) → lookup memory f t q ≡ some n → P n)
      → (i : ℕ) → All P (get_or (chains_of t.top) i [])
  unfolding lookup
  All-lookup P valid each i =
      go (get_or (chains_of t.top) i []) (valid.placed.coded i) (valid.placed.homed i) (
        found-All memory (hash_of memory f t) (same_of memory f t) valid.keyed
          (get_or (chains_of t.top) i []) (valid.placed.coded i) (valid.placed.distinct i))
    where
      go :
          (d : List (Node K))
          → All (IsCoded memory (hash_of memory f t) (same_of memory f t)) d
          → All (λ n. home n.code ≡ i) d
          → All
              (FoundIn memory
                (hash_of memory f t)
                (same_of memory f t)
                valid.keyed
                (get_or (chains_of t.top) i []))
              d
          → All P d
      go [] coded homed all = tt
      go (n ∷ d) coded homed all =
          let k = key memory (hash_of memory f t) (same_of memory f t) n in
          let slot : home (hash_of memory f t k) ≡ i = ap home (sym coded.0) ∙ homed.0 in
          (
            each k n (
                ap
                  (λ j.
                    found memory (hash_of memory f t) (same_of memory f t) k
                      (get_or (chains_of t.top) j []))
                  slot
                ∙ all.0),
            go d coded.1 homed.1 all.1,
          )

-- The same chains under two memories.
module _ {K : Type 0} (old new : ℕ → K) where
  -- The node's key reads the same in both.
  abbrev pub Unmoved : Node K → Type 0
  Unmoved n = key_of new n.stored ≡ key_of old n.stored

  module _ (hash : K → ℕ) (same : K → K → Bool) where
    found-frame :
        (k : K) (c : List (Node K))
        → All Unmoved c
        → found new hash same k c ≡ found old hash same k c
    unfolding match_in
    found-frame k [] all = refl
    found-frame k (n ∷ c) all = ground (arith, all.0, found-frame k c all.1)

    IsCoded-frame :
        (c : List (Node K))
        → All Unmoved c
        → All (IsCoded old hash same) c
        → All (IsCoded new hash same) c
    IsCoded-frame [] all coded = tt
    IsCoded-frame (n ∷ c) all coded = (coded.0 ∙ ap hash (sym all.0), IsCoded-frame c all.1 coded.1)

    Lacks-frame :
        (k : K) (c : List (Node K))
        → All Unmoved c
        → Lacks old hash same k c
        → Lacks new hash same k c
    Lacks-frame k [] all lacks = tt
    Lacks-frame k (n ∷ c) all lacks = (ap (same k) all.0 ∙ lacks.0, Lacks-frame k c all.1 lacks.1)

    IsDistinct-frame :
        (c : List (Node K))
        → All Unmoved c
        → IsDistinct old hash same c
        → IsDistinct new hash same c
    IsDistinct-frame [] all apart = tt
    IsDistinct-frame (n ∷ c) all apart = (
      subst (λ k. Lacks new hash same k c) (sym all.0)
          (Lacks-frame (key_of old n.stored) c all.1 apart.0),
      IsDistinct-frame c all.1 apart.1,
    )

  module _ (f : Funcs K) (t : Table K)
      (all : (i : ℕ) → All Unmoved (get_or (chains_of t.top) i [])) where
    pub lookup-frame : (q : K) → lookup new f t q ≡ lookup old f t q
    unfolding lookup
    lookup-frame q =
        found-frame (hash_of old f t) (same_of old f t) q
          (get_or (chains_of t.top) (home (hash_of old f t q)) []) (all (home (hash_of old f t q)))

    pub IsValid-frame : IsValid old f t → IsValid new f t
    IsValid-frame valid = record {
      functions = valid.functions;
      keyed = valid.keyed;
      sized = valid.sized;
      placed = record {
        width = valid.placed.width;
        coded = λ i.
            IsCoded-frame (hash_of old f t) (same_of old f t) (get_or (chains_of t.top) i [])
              (all i) (valid.placed.coded i);
        homed = valid.placed.homed;
        distinct = λ i.
            IsDistinct-frame (hash_of old f t) (same_of old f t) (get_or (chains_of t.top) i [])
              (all i) (valid.placed.distinct i);
      };
      counted = valid.counted;
    }
