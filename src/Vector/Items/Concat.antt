-- ===== src/Vector/Items/Concat.antt =====
-- Items of one width, one behind the other.
use onyxnet.Prelude.{
  ℕ, zero, suc, ◌+◌, ◌*◌, ◌≤◌, ◌≡◌, refl, sym, ap, ap₂, ◌∙◌, All, List, [], ◌∷◌, ◌++◌, append_assoc,
  length, take, drop, length-append, arith,
}

module _ {ℓ} {A : Type ℓ} where
  abbrev pub concat : List (List A) → List A
  concat [] = []
  concat (x ∷ xs) = x ++ concat xs

  abbrev pub Wide : ℕ → List (List A) → Type 0
  Wide w = All (λ (x : List A). length x ≡ w)

  pub concat-append : (xs ys : List (List A)) → concat (xs ++ ys) ≡ concat xs ++ concat ys
  concat-append [] ys = refl
  concat-append (x ∷ xs) ys =
      ap (λ zs. x ++ zs) (concat-append xs ys) ∙ sym (append_assoc x (concat xs) (concat ys))

  pub length-concat : (w : ℕ) (xs : List (List A)) → Wide w xs → length (concat xs) ≡ length xs * w
  length-concat w [] h = omega arith
  length-concat w (x ∷ xs) h =
      length-append x (concat xs) ∙ ap₂ ◌+◌ h.0 (length-concat w xs h.1) ∙ omega arith

  take-more : (n : ℕ) (xs ys : List A) → take (length xs + n) (xs ++ ys) ≡ xs ++ take n ys
  take-more n [] ys = let e : 0 + n ≡ n = omega arith in ap (λ k. take k ys) e
  take-more n (x ∷ xs) ys =
      let more : suc (length xs) + n ≡ suc (length xs + n) = omega arith in
      ap (λ k. take k (x ∷ (xs ++ ys))) more ∙ ap (λ zs. x ∷ zs) (take-more n xs ys)

  drop-more : (n : ℕ) (xs ys : List A) → drop (length xs + n) (xs ++ ys) ≡ drop n ys
  drop-more n [] ys = let e : 0 + n ≡ n = omega arith in ap (λ k. drop k ys) e
  drop-more n (x ∷ xs) ys =
      let more : suc (length xs) + n ≡ suc (length xs + n) = omega arith in
      ap (λ k. drop k (x ∷ (xs ++ ys))) more ∙ drop-more n xs ys

  first_item : (w i : ℕ) (x : List A) → length x ≡ w → suc i * w ≡ length x + i * w
  first_item w i x h = omega arith

  pub take-concat :
      (w i : ℕ) (xs : List (List A))
      → Wide w xs
      → i ≤ length xs
      → take (i * w) (concat xs) ≡ concat (take i xs)
  take-concat w zero xs h le = let e : 0 * w ≡ 0 = omega arith in ap (λ k. take k (concat xs)) e
  take-concat w (suc i) [] h le = absurd (omega arith)
  take-concat w (suc i) (x ∷ xs) h le =
      ap (λ k. take k (x ++ concat xs)) (first_item w i x h.0)
      ∙ take-more (i * w) x (concat xs)
      ∙ ap (λ zs. x ++ zs) (take-concat w i xs h.1 (omega arith))

  pub drop-concat :
      (w i : ℕ) (xs : List (List A))
      → Wide w xs
      → i ≤ length xs
      → drop (i * w) (concat xs) ≡ concat (drop i xs)
  drop-concat w zero xs h le = let e : 0 * w ≡ 0 = omega arith in ap (λ k. drop k (concat xs)) e
  drop-concat w (suc i) [] h le = absurd (omega arith)
  drop-concat w (suc i) (x ∷ xs) h le =
      ap (λ k. drop k (x ++ concat xs)) (first_item w i x h.0)
      ∙ drop-more (i * w) x (concat xs)
      ∙ drop-concat w i xs h.1 (omega arith)
