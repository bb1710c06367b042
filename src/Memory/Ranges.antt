-- ===== src/Memory/Ranges.antt =====
-- Reads and writes of ranges, once they lie inside the block.
use onyxnet.Prelude.{
  append-nil, ℕ, zero, suc, ◌+◌, ◌≤◌, ◌≡◌, refl, sym, ap, ◌∙◌, some, List, [], ◌∷◌, ◌++◌, length,
  take, drop, arith, length-append, length-take, length-drop, take-append_left, drop-append_left,
  le→leb,
}
use native.Mathlib.Nat.{add-zero, zero-add, suc-add}
use onyxnet.Memory.{read_bytes, write_bytes}

-- What `write_bytes` leaves.
abbrev pub written : List ℕ → ℕ → List ℕ → List ℕ
written bs off src = take off bs ++ (src ++ drop (off + length src) bs)

pub read_bytes-inside :
    (bs : List ℕ) (off n : ℕ)
    → off + n ≤ length bs
    → read_bytes bs off n ≡ some (take n (drop off bs))
unfolding read_bytes
read_bytes-inside bs off n h = rw (le→leb _ _ h)

pub write_bytes-inside :
    (bs : List ℕ) (off : ℕ) (src : List ℕ)
    → off + length src ≤ length bs
    → write_bytes bs off src ≡ some (written bs off src)
unfolding write_bytes
write_bytes-inside bs off src h = rw (le→leb _ _ h)

pub length-written :
    (bs : List ℕ) (off : ℕ) (src : List ℕ)
    → off + length src ≤ length bs
    → length (written bs off src) ≡ length bs
length-written bs off src h = omega (
  arith,
  length-append (take off bs) (src ++ drop (off + length src) bs),
  length-append src (drop (off + length src) bs),
  length-take off bs,
  length-drop (off + length src) bs,
)

pub length-slice :
    (bs : List ℕ) (off n : ℕ) → off + n ≤ length bs → length (take n (drop off bs)) ≡ n
length-slice bs off n h = omega (arith, length-take n (drop off bs), length-drop off bs)

module _ {ℓ} {A : Type ℓ} where
  pub take-nil : (n : ℕ) → take {A = A} n [] ≡ []
  take-nil zero = refl
  take-nil (suc n) = refl

  pub drop-nil : (n : ℕ) → drop {A = A} n [] ≡ []
  drop-nil zero = refl
  drop-nil (suc n) = refl

  pub drop-drop : (a b : ℕ) (xs : List A) → drop a (drop b xs) ≡ drop (b + a) xs
  drop-drop a zero xs = rw zero-add refl
  drop-drop a (suc b) [] = drop-nil a ∙ sym (drop-nil (suc b + a))
  drop-drop a (suc b) (x ∷ xs) = rw suc-add (drop-drop a b xs)

  -- Taking past the end of the left part of an append.
  pub take-append_right :
      (n m : ℕ) (xs ys : List A) → n ≡ length xs → take (n + m) (xs ++ ys) ≡ xs ++ take m ys
  take-append_right zero m [] ys h = rw zero-add refl
  take-append_right zero m (x ∷ xs) ys h = absurd (omega arith)
  take-append_right (suc n) m [] ys h = absurd (omega arith)
  take-append_right (suc n) m (x ∷ xs) ys h =
      rw suc-add (ap (λ zs. x ∷ zs) (take-append_right n m xs ys (omega arith)))

  pub drop-append_right :
      (n m : ℕ) (xs ys : List A) → n ≡ length xs → drop (n + m) (xs ++ ys) ≡ drop m ys
  drop-append_right zero m [] ys h = rw zero-add refl
  drop-append_right zero m (x ∷ xs) ys h = absurd (omega arith)
  drop-append_right (suc n) m [] ys h = absurd (omega arith)
  drop-append_right (suc n) m (x ∷ xs) ys h = rw suc-add (drop-append_right n m xs ys (omega arith))

  pub take-add : (n m : ℕ) (xs : List A) → take (n + m) xs ≡ take n xs ++ take m (drop n xs)
  take-add zero m xs = rw zero-add refl
  take-add (suc n) m [] = take-nil (suc n + m) ∙ sym (take-nil m)
  take-add (suc n) m (x ∷ xs) = rw suc-add (ap (λ zs. x ∷ zs) (take-add n m xs))

  pub take-take_le : (n m : ℕ) (xs : List A) → n ≤ m → take n (take m xs) ≡ take n xs
  take-take_le zero m xs h = refl
  take-take_le (suc n) zero xs h = absurd (omega arith)
  take-take_le (suc n) (suc m) [] h = refl
  take-take_le (suc n) (suc m) (x ∷ xs) h = ap (λ zs. x ∷ zs) (take-take_le n m xs (omega arith))

  pub drop-take : (n m : ℕ) (xs : List A) → drop n (take (n + m) xs) ≡ take m (drop n xs)
  drop-take zero m xs = rw zero-add refl
  drop-take (suc n) m [] = ap (drop (suc n)) (take-nil (suc n + m)) ∙ sym (take-nil m)
  drop-take (suc n) m (x ∷ xs) = rw suc-add (drop-take n m xs)

-- The front of a block after a write: what stood before the range, the range, and what follows.
pub take-written :
    (bs : List ℕ) (off : ℕ) (src : List ℕ) (m : ℕ)
    → off + length src ≤ length bs
    → take (off + (length src + m)) (written bs off src)
      ≡ take off bs ++ (src ++ take m (drop (off + length src) bs))
take-written bs off src m h =
    take-append_right off (length src + m) (take off bs) (src ++ drop (off + length src) bs)
      (omega (arith, length-take off bs))
    ∙ ap (λ zs. take off bs ++ zs)
        (take-append_right (length src) m src (drop (off + length src) bs) refl)

pub take-written_before :
    (bs : List ℕ) (off : ℕ) (src : List ℕ) (n : ℕ)
    → off + length src ≤ length bs
    → n ≤ off
    → take n (written bs off src) ≡ take n bs
take-written_before bs off src n h le =
    sym (take-take_le n off (written bs off src) le)
    ∙ ap (take n) (
        take-append_left off (take off bs) (src ++ drop (off + length src) bs)
          (omega (arith, length-take off bs)))
    ∙ take-take_le n off bs le

pub drop-written :
    (bs : List ℕ) (off : ℕ) (src : List ℕ)
    → off + length src ≤ length bs
    → drop off (written bs off src) ≡ src ++ drop (off + length src) bs
drop-written bs off src h =
    drop-append_left off (take off bs) (src ++ drop (off + length src) bs)
      (omega (arith, length-take off bs))

pub take-written_end :
    (bs : List ℕ) (off : ℕ) (src : List ℕ)
    → off + length src ≤ length bs
    → take (off + length src) (written bs off src) ≡ take off bs ++ src
take-written_end bs off src h =
    ap (λ n. take (off + n) (written bs off src)) (sym (add-zero (length src)))
    ∙ take-written bs off src 0 h
    ∙ ap (λ zs. take off bs ++ zs) (append-nil src)
