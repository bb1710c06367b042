-- ===== src/HashTable/Chain/Keeps.antt =====
-- What the loops over one chain keep: codes, distinct keys and the number of nodes.
use onyxnet.Prelude.{
  subst, ℕ, ◌+◌, ◌≡◌, refl, sym, ap, ◌∙◌, Bool, true, false, some, List, [], ◌∷◌, length, All,
  Bool-cases, inl, inr, arith,
}
use onyxnet.HashTable.Chain.{Node, Stored, key_of, match_in, replace_in, delete_in}
use onyxnet.HashTable.Chain.Laws.{
  IsKeyed, key, IsCoded, Lacks, IsDistinct, found, replaced, deleted, same_right, replaced-cons,
  deleted-cons, Lacks-same,
}

module _ {K : Type 0} (memory : ℕ → K) (hash : K → ℕ) (same : K → K → Bool)
    (keyed : IsKeyed hash same) where
  abbrev CodedAll : List (Node K) → Type 0
  CodedAll = All (IsCoded memory hash same)

  -- A property that the written node has too holds of the chain after the write.
  pub All-replaced :
      (P : Node K → Type 0) (k : K) (s : Stored K) (c : List (Node K))
      → CodedAll c
      → ((n : Node K)
          → IsCoded memory hash same n
          → same k (key memory hash same n) ≡ true
          → P n
          → P (record n { stored = s }))
      → All P c
      → All P (replaced memory hash same k s c)
  unfolding replace_in
  All-replaced P k s [] coded new all = tt
  All-replaced P k s (n ∷ c) coded new all = elim (Bool-cases (same k (key memory hash same n))) [
    | inl here ↦
        rw (replaced-cons memory hash same keyed k n c coded.0 s, here)
          (new n coded.0 here all.0, all.1)
    | inr later ↦
        rw (replaced-cons memory hash same keyed k n c coded.0 s, later)
          (all.0, All-replaced P k s c coded.1 new all.1)
  ]

  pub All-deleted :
      (P : Node K → Type 0) (k : K) (c : List (Node K))
      → CodedAll c
      → All P c
      → All P (deleted memory hash same k c)
  unfolding delete_in
  All-deleted P k [] coded all = tt
  All-deleted P k (n ∷ c) coded all = elim (Bool-cases (same k (key memory hash same n))) [
    | inl here ↦ rw (deleted-cons memory hash same keyed k n c coded.0, here) all.1
    | inr later ↦
        rw (deleted-cons memory hash same keyed k n c coded.0, later)
          (all.0, All-deleted P k c coded.1 all.1)
  ]

  pub replaced-IsDistinct :
      (k : K) (s : Stored K) (c : List (Node K))
      → CodedAll c
      → key_of memory s ≡ k
      → IsDistinct memory hash same c
      → IsDistinct memory hash same (replaced memory hash same k s c)
  unfolding replace_in
  replaced-IsDistinct k s [] coded sk apart = tt
  replaced-IsDistinct k s (n ∷ c) coded sk apart =
      elim (Bool-cases (same k (key memory hash same n))) [
        | inl here ↦
            rw (replaced-cons memory hash same keyed k n c coded.0 s, here)
              (
                subst (λ a. Lacks memory hash same a c) (sym sk)
                    (Lacks-same memory hash same keyed k (key memory hash same n) c here apart.0),
                apart.1,
              )
        | inr later ↦
            rw (replaced-cons memory hash same keyed k n c coded.0 s, later)
              (
                All-replaced (λ m. same (key memory hash same n) (key memory hash same m) ≡ false) k
                    s c coded.1
                    (λ m _ alike far.
                      ap (same (key memory hash same n)) sk
                      ∙ same_right memory hash same keyed (key memory hash same n) k
                          (key memory hash same m) alike
                      ∙ far)
                    apart.0,
                replaced-IsDistinct k s c coded.1 sk apart.1,
              )
      ]

  pub deleted-IsDistinct :
      (k : K) (c : List (Node K))
      → CodedAll c
      → IsDistinct memory hash same c
      → IsDistinct memory hash same (deleted memory hash same k c)
  unfolding delete_in
  deleted-IsDistinct k [] coded apart = tt
  deleted-IsDistinct k (n ∷ c) coded apart = elim (Bool-cases (same k (key memory hash same n))) [
    | inl here ↦ rw (deleted-cons memory hash same keyed k n c coded.0, here) apart.1
    | inr later ↦
        rw (deleted-cons memory hash same keyed k n c coded.0, later)
          (
            All-deleted (λ m. same (key memory hash same n) (key memory hash same m) ≡ false) k c
                coded.1 apart.0,
            deleted-IsDistinct k c coded.1 apart.1,
          )
  ]

  pub length-replaced :
      (k : K) (s : Stored K) (c : List (Node K))
      → length (replaced memory hash same k s c) ≡ length c
  unfolding replace_in
  length-replaced k s [] = refl
  length-replaced k s (n ∷ c) = ground (arith, length-replaced k s c)

  pub length-deleted :
      (k : K) (c : List (Node K)) (m : Node K)
      → found memory hash same k c ≡ some m
      → length (deleted memory hash same k c) + 1 ≡ length c
  unfolding match_in delete_in
  length-deleted k [] m e = cc
  length-deleted k (n ∷ c) m e = ground (arith, length-deleted k c m)
