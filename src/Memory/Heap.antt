-- ===== src/Memory/Heap.antt =====
-- What stands at the addresses of a memory, as a function, and the change of one of them.
use onyxnet.Prelude.{
  ℕ, ◌≡◌, ◌≢◌, refl, sym, ap, ◌∙◌, false, ◌==◌, ==_iff, ==_refl, if◌then◌else◌, Bool-cases, inl,
  inr,
}

pub differ : {p q : ℕ} → p ≢ q → (p == q) ≡ false
differ {p} {q} ne = elim (Bool-cases (p == q)) [
  | inl e ↦ absurd (ne ((==_iff p q).0 e))
  | inr e ↦ e
]

abbrev pub put {ℓ} : {A : Type ℓ} → (ℕ → A) → ℕ → A → ℕ → A
put f p v q = if q == p then v else f q

pub put_self {ℓ} : {A : Type ℓ} (f : ℕ → A) (p : ℕ) (v : A) → put f p v p ≡ v
put_self f p v = rw (==_refl p) refl

pub put_other {ℓ} : {A : Type ℓ} (f : ℕ → A) (p : ℕ) (v : A) (q : ℕ) → q ≢ p → put f p v q ≡ f q
put_other f p v q ne = rw (differ ne) refl

pub put_back {ℓ} :
    {A : Type ℓ} (f : ℕ → A) (p : ℕ) (v w : A) (q : ℕ) → f p ≡ w → put (put f p v) p w q ≡ f q
put_back f p v w q e = elim (Bool-cases (q == p)) [
  | inl same ↦ rw same (sym e ∙ ap f (sym ((==_iff q p).0 same)))
  | inr other ↦ rw other refl
]
