-- ===== src/Hash/Distinct.antt =====
-- Which data `hash_pod` tells apart: each round is injective, since 22511 is odd.
use onyxnet.Prelude.{
  ℕ, ◌+◌, ◌*◌, ◌%◌, ◌^◌, ◌<◌, ◌≢◌, ◌≡◌, refl, sym, ap, ◌∙◌, List, [], ◌∷◌, ◌++◌, arith,
}
use onyxnet.Crc.Reference.{IsByte}
use onyxnet.Hash.{hash_loop, hash_pod}

round-injective :
    (a b p : ℕ)
    → a < 2 ^ 64
    → b < 2 ^ 64
    → (a * 22511 + 33469 + p) % 2 ^ 64 ≡ (b * 22511 + 33469 + p) % 2 ^ 64
    → a ≡ b
round-injective a b p ha hb e = omega arith

hash_loop-lt : (ps : List ℕ) (ret : ℕ) → ret < 2 ^ 64 → hash_loop ret ps < 2 ^ 64
unfolding hash_loop
hash_loop-lt [] ret h = h
hash_loop-lt (p ∷ ps) ret h = hash_loop-lt ps ((ret * 22511 + 33469 + p) % 2 ^ 64) (omega arith)

hash_loop-injective :
    (ps : List ℕ) (a b : ℕ) → a < 2 ^ 64 → b < 2 ^ 64 → hash_loop a ps ≡ hash_loop b ps → a ≡ b
unfolding hash_loop
hash_loop-injective [] a b ha hb e = e
hash_loop-injective (p ∷ ps) a b ha hb e = round-injective a b p ha hb (
    hash_loop-injective ps ((a * 22511 + 33469 + p) % 2 ^ 64) ((b * 22511 + 33469 + p) % 2 ^ 64)
      (omega arith) (omega arith) e)

hash_loop-append :
    (xs ys : List ℕ) (ret : ℕ) → hash_loop ret (xs ++ ys) ≡ hash_loop (hash_loop ret xs) ys
unfolding hash_loop
hash_loop-append [] ys ret = refl
hash_loop-append (x ∷ xs) ys ret = hash_loop-append xs ys ((ret * 22511 + 33469 + x) % 2 ^ 64)

-- The middle of two messages with the same ends is hashed alike where the whole is.
middle :
    (pre xs ys post : List ℕ)
    → hash_pod (pre ++ xs ++ post) ≡ hash_pod (pre ++ ys ++ post)
    → hash_loop (hash_loop 1 pre) xs ≡ hash_loop (hash_loop 1 pre) ys
unfolding hash_pod
middle pre xs ys post e =
    let start = hash_loop 1 pre in
    let fits = hash_loop-lt pre 1 (omega arith) in
    hash_loop-injective post (hash_loop start xs) (hash_loop start ys) (hash_loop-lt xs start fits)
      (hash_loop-lt ys start fits) (sym (pieces xs) ∙ e ∙ pieces ys)
  where
    pieces :
        (zs : List ℕ)
        → hash_loop 1 (pre ++ zs ++ post) ≡ hash_loop (hash_loop (hash_loop 1 pre) zs) post
    pieces zs =
        hash_loop-append (pre ++ zs) post 1 ∙ ap (λ r. hash_loop r post) (hash_loop-append pre zs 1)

-- Changing one byte changes the hash code.
pub hash_pod-one_byte :
    (pre post : List ℕ) (x y : ℕ)
    → IsByte x
    → IsByte y
    → x ≢ y
    → hash_pod (pre ++ (x ∷ []) ++ post) ≢ hash_pod (pre ++ (y ∷ []) ++ post)
unfolding hash_loop
hash_pod-one_byte pre post x y hx hy differ e =
    let here = middle pre (x ∷ []) (y ∷ []) post e in differ (omega arith)

-- Exchanging two neighbouring bytes that differ changes the hash code.
pub hash_pod-swap :
    (pre post : List ℕ) (x y : ℕ)
    → IsByte x
    → IsByte y
    → x ≢ y
    → hash_pod (pre ++ (x ∷ y ∷ []) ++ post) ≢ hash_pod (pre ++ (y ∷ x ∷ []) ++ post)
unfolding hash_loop
hash_pod-swap pre post x y hx hy differ e =
    let here = middle pre (x ∷ y ∷ []) (y ∷ x ∷ []) post e in differ (omega arith)
