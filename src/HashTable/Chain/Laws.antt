-- ===== src/HashTable/Chain/Laws.antt =====
-- The loops over one chain, when every node carries the code of its key and no two nodes have the
-- same key.
use onyxnet.Prelude.{
  ℕ, ◌≡◌, refl, sym, ap, ◌∙◌, Bool, true, false, Option, none, some, List, [], ◌∷◌, All,
  if◌then◌else◌, Bool-cases, inl, inr, arith,
}
use onyxnet.HashTable.Chain.{Node, Stored, key_of, hits, match_in, replace_in, delete_in}

-- What the table's users promise of the two functions: `comp_func` is an equivalence, and items that
-- it equates have the same code.
pub record IsKeyed {K : Type 0} (hash : K → ℕ) (same : K → K → Bool) : Type 0 where
  pub same_refl : (a : K) → same a a ≡ true
  pub same_symm : (a b : K) → same a b ≡ same b a
  pub same_trans : (a b c : K) → same a b ≡ true → same b c ≡ true → same a c ≡ true
  pub hash-same : (a b : K) → same a b ≡ true → hash a ≡ hash b

module _ {K : Type 0} (memory : ℕ → K) (hash : K → ℕ) (same : K → K → Bool) where
  abbrev pub key : Node K → K
  key n = key_of memory n.stored

  abbrev pub IsCoded : Node K → Type 0
  IsCoded n = n.code ≡ hash (key n)

  -- No node has a key that is the same as `k`.
  abbrev pub Lacks : K → List (Node K) → Type 0
  Lacks k c = All (λ n. same k (key n) ≡ false) c

  abbrev pub IsDistinct : List (Node K) → Type 0
  IsDistinct [] = Unit
  IsDistinct (n ∷ c) = Lacks (key n) c × IsDistinct c

  abbrev pub found : K → List (Node K) → Option (Node K)
  found k = match_in memory (hash k) (same k)

  abbrev pub replaced : K → Stored K → List (Node K) → List (Node K)
  replaced k = replace_in memory (hash k) (same k)

  abbrev pub deleted : K → List (Node K) → List (Node K)
  deleted k = delete_in memory (hash k) (same k)

  module _ (keyed : IsKeyed hash same) where
    pub same_left : (a b c : K) → same a b ≡ true → same a c ≡ same b c
    same_left a b c e =
        ground (arith, keyed.same_symm a b, keyed.same_trans a b c, keyed.same_trans b a c)

    pub same_right : (a b c : K) → same b c ≡ true → same a b ≡ same a c
    same_right a b c e = keyed.same_symm a b ∙ same_left b c a e ∙ keyed.same_symm c a

    -- A node hits exactly if its key is the same.
    pub hits-same :
        (k : K) (n : Node K) → IsCoded n → hits memory (hash k) (same k) n ≡ same k (key n)
    hits-same k n coded = ground (arith, keyed.hash-same k (key n), coded)

    -- The three loops step by the key.
    module _ (k : K) (n : Node K) (c : List (Node K)) (coded : IsCoded n) where
      pub found-cons : found k (n ∷ c) ≡ (if same k (key n) then some n else found k c)
      unfolding match_in
      found-cons = ap (λ b. if b then some n else found k c) (hits-same k n coded)

      pub replaced-cons :
          (s : Stored K)
          → replaced k s (n ∷ c)
            ≡ (if same k (key n) then record n { stored = s } ∷ c else n ∷ replaced k s c)
      unfolding replace_in
      replaced-cons s =
          ap (λ b. if b then record n { stored = s } ∷ c else n ∷ replaced k s c)
            (hits-same k n coded)

      pub deleted-cons : deleted k (n ∷ c) ≡ (if same k (key n) then c else n ∷ deleted k c)
      unfolding delete_in
      deleted-cons = ap (λ b. if b then c else n ∷ deleted k c) (hits-same k n coded)

    pub found-Lacks : (k : K) (c : List (Node K)) → All IsCoded c → Lacks k c → found k c ≡ none
    unfolding match_in
    found-Lacks k [] coded lacks = refl
    found-Lacks k (n ∷ c) coded lacks =
        found-cons k n c coded.0 ∙ rw lacks.0 (found-Lacks k c coded.1 lacks.1)

    pub Lacks-found : (k : K) (c : List (Node K)) → All IsCoded c → found k c ≡ none → Lacks k c
    Lacks-found k [] coded e = tt
    Lacks-found k (n ∷ c) coded e =
        let step = sym (found-cons k n c coded.0) ∙ e in
        let miss : same k (key n) ≡ false = ground (arith, step) in
        (miss, Lacks-found k c coded.1 (ground (arith, step, miss)))

    pub Lacks-same : (a b : K) (c : List (Node K)) → same a b ≡ true → Lacks b c → Lacks a c
    Lacks-same a b [] e lacks = tt
    Lacks-same a b (n ∷ c) e lacks = (same_left a b (key n) e ∙ lacks.0, Lacks-same a b c e lacks.1)

    -- What a search finds is in the chain, and has the key.
    pub found-key :
        (k : K) (c : List (Node K)) (m : Node K)
        → All IsCoded c
        → found k c ≡ some m
        → same k (key m) ≡ true
    unfolding match_in
    found-key k [] m coded e = cc
    found-key k (n ∷ c) m coded e =
        let step = sym (found-cons k n c coded.0) ∙ e in
        elim (Bool-cases (same k (key n))) [
          | inl here ↦
              let at_head : some n ≡ some m = ground (arith, step, here) in
              ground (arith, here, at_head)
          | inr later ↦ found-key k c m coded.1 (ground (arith, step, later))
        ]

    -- A search after the write of an item with the key `k`.
    pub found-replaced :
        (k q : K) (s : Stored K) (c : List (Node K)) (m : Node K)
        → All IsCoded c
        → key_of memory s ≡ k
        → found k c ≡ some m
        → found q (replaced k s c)
          ≡ (if same q k then some (record m { stored = s }) else found q c)
    found-replaced k q s [] m coded sk e = absurd (unfold match_in in cc)
    found-replaced k q s (n ∷ c) m coded sk e =
        let step = sym (found-cons k n c coded.0) ∙ e in
        elim (Bool-cases (same k (key n))) [
          | inl here ↦
              let at_head : some n ≡ some m = ground (arith, step, here) in
              let n' : Node K = record n { stored = s } in
              let coded' : IsCoded n' =
                coded.0 ∙ sym (keyed.hash-same k (key n) here) ∙ ap hash (sym sk) in
              rw (replaced-cons k n c coded.0 s, here)
                (found-cons q n' c coded'
                  ∙ ground (
                    arith,
                    at_head,
                    here,
                    ap (same q) sk,
                    same_right q k (key n) here,
                    found-cons q n c coded.0,
                  ))
          | inr later ↦
              let miss : found k c ≡ some m = ground (arith, step, later) in
              rw (replaced-cons k n c coded.0 s, later)
                (found-cons q n (replaced k s c) coded.0
                  ∙ ground (
                    arith,
                    later,
                    same_left q k (key n),
                    found-cons q n c coded.0,
                    found-replaced k q s c m coded.1 sk miss,
                  ))
        ]

    -- A search after the removal of the item with the key `k`.
    pub found-deleted :
        (k q : K) (c : List (Node K))
        → All IsCoded c
        → IsDistinct c
        → found q (deleted k c) ≡ (if same q k then none else found q c)
    found-deleted k q [] coded apart = unfold match_in delete_in in ground arith
    found-deleted k q (n ∷ c) coded apart =
        let (lacks, rest) = apart in
        elim (Bool-cases (same k (key n))) [
          | inl here ↦
              rw (deleted-cons k n c coded.0, here)
                (elim (Bool-cases (same q k)) [
                  | inl alike ↦ rw alike (
                      found-Lacks q c coded.1
                        (Lacks-same q (key n) c (sym (same_right q k (key n) here) ∙ alike) lacks))
                  | inr other ↦ rw other (
                      sym (
                        found-cons q n c coded.0
                        ∙ ground (arith, other, same_right q k (key n) here)))
                ])
          | inr later ↦
              rw (deleted-cons k n c coded.0, later)
                (found-cons q n (deleted k c) coded.0
                  ∙ ground (
                    arith,
                    later,
                    same_left q k (key n),
                    found-cons q n c coded.0,
                    found-deleted k q c coded.1 rest,
                  ))
        ]
