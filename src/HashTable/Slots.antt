-- ===== src/HashTable/Slots.antt =====
-- The table's chains when one of them is rewritten: what stays well formed, and what a search then
-- finds.
use onyxnet.Prelude.{
  ℕ, ◌<◌, ◌≡◌, refl, sym, ap, ◌∙◌, subst, Bool, Option, List, [], length, All, get_or, set,
  if◌then◌else◌, ◌==◌, ==_iff, ==_refl, Bool-cases, inl, inr, arith, length-set,
}
use onyxnet.HashTable.{table_size}
use onyxnet.HashTable.Chain.{Node}
use onyxnet.HashTable.Chain.Laws.{IsKeyed, IsCoded, IsDistinct, found}
use onyxnet.HashTable.Valid.{get_or-set, home, home-lt, IsPlaced}

-- A chain of its table is rewritten.
module _ {K : Type 0} (memory : ℕ → K) (hash : K → ℕ) (same : K → K → Bool)
    (cs : List (List (Node K))) (slot : ℕ) (c : List (Node K)) (fits : slot < table_size)
    (placed : IsPlaced memory hash same cs) where
  pub set-inside : slot < length cs
  set-inside = subst (λ w. slot < w) (sym placed.width) fits

  pub every-set :
      (P : List (Node K) → ℕ → Type 0)
      → P c slot
      → ((i : ℕ) → P (get_or cs i []) i)
      → (i : ℕ) → P (get_or (set cs slot c) i []) i
  every-set P here others i =
      rw (get_or-set cs slot i c [] set-inside) (elim (Bool-cases (slot == i)) [
        | inl e ↦ rw e (subst (P c) ((==_iff slot i).0 e) here)
        | inr e ↦ rw e (others i)
      ])

  pub set-IsPlaced :
      All (IsCoded memory hash same) c
      → All (λ n. home n.code ≡ slot) c
      → IsDistinct memory hash same c
      → IsPlaced memory hash same (set cs slot c)
  set-IsPlaced coded homed distinct = record {
    width = length-set cs slot c ∙ placed.width;
    coded = every-set (λ d _. All (IsCoded memory hash same) d) coded placed.coded;
    homed = every-set (λ d i. All (λ n. home n.code ≡ i) d) homed placed.homed;
    distinct = every-set (λ d _. IsDistinct memory hash same d) distinct placed.distinct;
  }

-- A search after the chain of the key `k` is rewritten, when the rewrite changes what is found under
-- that key only.
pub found-set :
    {K : Type 0} (memory : ℕ → K) (hash : K → ℕ) (same : K → K → Bool) (cs : List (List (Node K)))
    (k q : K) (c : List (Node K)) (x : Option (Node K))
    → IsKeyed hash same
    → IsPlaced memory hash same cs
    → found memory hash same q c
      ≡ (if same q k then x else found memory hash same q (get_or cs (home (hash k)) []))
    → found memory hash same q (get_or (set cs (home (hash k)) c) (home (hash q)) [])
      ≡ (if same q k then x else found memory hash same q (get_or cs (home (hash q)) []))
found-set memory hash same cs k q c x keyed placed change =
    let inside = set-inside memory hash same cs (home (hash k)) c (home-lt (hash k)) placed in
    rw (get_or-set cs (home (hash k)) (home (hash q)) c [] inside)
      (elim (Bool-cases (home (hash k) == home (hash q))) [
        | inl e ↦ rw e (
            change
            ∙ ap (λ i. if same q k then x else found memory hash same q (get_or cs i []))
                ((==_iff (home (hash k)) (home (hash q))).0 e))
        | inr e ↦ rw e (elim (Bool-cases (same q k)) [
          | inl alike ↦
              let clash =
                sym e
                ∙ ap (λ h. home (hash k) == home h) (keyed.hash-same q k alike)
                ∙ ==_refl (home (hash k)) in
              absurd (ground (arith, clash))
          | inr other ↦ rw other refl
        ])
      ])
