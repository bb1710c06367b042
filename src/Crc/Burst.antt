-- ===== src/Crc/Burst.antt =====
-- Which errors the checksums detect: a bit step loses nothing while the register has one bit more
-- than its polynomial's word needs.
use onyxnet.Prelude.{
  ℕ, zero, suc, ◌+◌, ◌*◌, ◌/◌, ◌^◌, ◌≤◌, ◌<◌, ◌≡◌, refl, sym, ap, ap₂, ◌∙◌, List, [], ◌∷◌, ◌++◌,
  bit_xor, arith, length,
}
use native.Mathlib.Nat.{pow-suc}
use onyxnet.Bits.{
  xor-zero, xor_comm, xor_assoc, xor_cancel_left, xor-inj_left, xor-lt-pow, xor_fields,
}
use onyxnet.Crc.{crc32_loop, update_crc32, not_32}
use onyxnet.Crc.Reference.{
  IsBytes, bit_step, bit_steps, reference_loop, bit_steps-xor, bit_steps-shift,
}
use onyxnet.Crc.Table.{poly_32, crc32_loop-reference}
use onyxnet.Crc.Stream.{bit_step-lt, bit_steps-lt, crc32_loop-append, crc32_loop-lt}

-- A message's bytes as one number, the first byte lowest.
unfoldable pub little_endian : List ℕ → ℕ
little_endian [] = 0
little_endian (x ∷ xs) = little_endian xs * 2 ^ 8 + x

pub byte_steps : ℕ → ℕ → ℕ → ℕ
byte_steps poly zero r = r
byte_steps poly (suc n) r = byte_steps poly n (bit_steps poly 8 r)

-- A run of bytes goes through the register like one number.
pub reference_loop-window :
    (poly r : ℕ) (xs : List ℕ)
    → IsBytes xs
    → reference_loop poly r xs ≡ byte_steps poly (length xs) (bit_xor r (little_endian xs))
unfolding reference_loop byte_steps little_endian
reference_loop-window poly r [] b = sym (xor-zero r)
reference_loop-window poly r (x ∷ xs) b =
    reference_loop-window poly (bit_steps poly 8 (bit_xor r x)) xs b.1
    ∙ ap (byte_steps poly (length xs)) (sym joined)
  where
    rest : ℕ
    rest = little_endian xs

    split : bit_xor r (rest * 2 ^ 8 + x) ≡ bit_xor (bit_xor r x) (rest * 2 ^ 8)
    split =
        ap (bit_xor r) (sym (xor_fields 8 rest x b.0) ∙ xor_comm (rest * 2 ^ 8) x)
        ∙ sym (xor_assoc r x (rest * 2 ^ 8))

    joined :
        bit_steps poly 8 (bit_xor r (rest * 2 ^ 8 + x))
        ≡ bit_xor (bit_steps poly 8 (bit_xor r x)) rest
    joined =
        ap (bit_steps poly 8) split
        ∙ bit_steps-xor poly 8 (bit_xor r x) (rest * 2 ^ 8)
        ∙ ap (bit_xor (bit_steps poly 8 (bit_xor r x))) (bit_steps-shift poly 8 rest)

-- With the polynomial's highest bit at place `k`, the steps are injective on `k + 1` bits.
module _ (k poly : ℕ) (fits : poly < 2 ^ suc k) (top : 2 ^ k ≤ poly) where
  half-lt : (r : ℕ) → r < 2 ^ suc k → r / 2 < 2 ^ k
  half-lt r h = omega (arith, pow-suc 2 k)

  -- The highest bit of the result tells the bit that was shifted out.
  even_ne_odd : (r s : ℕ) → r < 2 ^ suc k → s < 2 ^ suc k → ¬ (r / 2 ≡ bit_xor (s / 2) poly)
  even_ne_odd r s hr hs e =
      let small : bit_xor (s / 2) (r / 2) < 2 ^ k =
        xor-lt-pow k (s / 2) (r / 2) (half-lt s hs) (half-lt r hr) in
      let same : bit_xor (s / 2) (r / 2) ≡ poly =
        ap (bit_xor (s / 2)) e ∙ xor_cancel_left (s / 2) poly in
      absurd (omega arith)

  bit_step-injective :
      (r s : ℕ) → r < 2 ^ suc k → s < 2 ^ suc k → bit_step poly r ≡ bit_step poly s → r ≡ s
  unfolding bit_step
  bit_step-injective r s hr hs e = ground (
    arith,
    even_ne_odd r s hr hs,
    even_ne_odd s r hs hr,
    xor-inj_left poly (r / 2) (s / 2),
    xor_comm poly (r / 2),
    xor_comm poly (s / 2),
  )

  pub bit_steps-injective :
      (n r s : ℕ) → r < 2 ^ suc k → s < 2 ^ suc k → bit_steps poly n r ≡ bit_steps poly n s → r ≡ s
  unfolding bit_steps
  bit_steps-injective zero r s hr hs e = e
  bit_steps-injective (suc n) r s hr hs e = bit_step-injective r s hr hs (
      bit_steps-injective n (bit_step poly r) (bit_step poly s) (bit_step-lt (suc k) poly fits r hr)
        (bit_step-lt (suc k) poly fits s hs) e)

  pub byte_steps-injective :
      (n r s : ℕ)
      → r < 2 ^ suc k
      → s < 2 ^ suc k
      → byte_steps poly n r ≡ byte_steps poly n s
      → r ≡ s
  unfolding byte_steps
  byte_steps-injective zero r s hr hs e = e
  byte_steps-injective (suc n) r s hr hs e = bit_steps-injective 8 r s hr hs (
      byte_steps-injective n (bit_steps poly 8 r) (bit_steps poly 8 s)
        (bit_steps-lt (suc k) poly fits 8 r hr) (bit_steps-lt (suc k) poly fits 8 s hs) e)

  pub reference_loop-injective :
      (ps : List ℕ) (r s : ℕ)
      → 2 ^ 8 ≤ 2 ^ suc k
      → IsBytes ps
      → r < 2 ^ suc k
      → s < 2 ^ suc k
      → reference_loop poly r ps ≡ reference_loop poly s ps
      → r ≡ s
  unfolding reference_loop
  reference_loop-injective [] r s wide b hr hs e = e
  reference_loop-injective (p ∷ ps) r s wide b hr hs e =
      let rp = xor-lt-pow (suc k) r p hr (omega (arith, b.0)) in
      let sp = xor-lt-pow (suc k) s p hs (omega (arith, b.0)) in
      let inner =
        reference_loop-injective ps (bit_steps poly 8 (bit_xor r p))
          (bit_steps poly 8 (bit_xor s p)) wide b.1
          (bit_steps-lt (suc k) poly fits 8 (bit_xor r p) rp)
          (bit_steps-lt (suc k) poly fits 8 (bit_xor s p) sp) e in
      let mixed = bit_steps-injective 8 (bit_xor r p) (bit_xor s p) rp sp inner in
      xor-inj_left p r s (xor_comm p r ∙ mixed ∙ xor_comm s p)

little_endian-lt : (xs : List ℕ) → length xs ≤ 4 → IsBytes xs → little_endian xs < 2 ^ 32
unfolding little_endian
little_endian-lt [] h b = omega arith
little_endian-lt (p ∷ []) h b = omega arith
little_endian-lt (p ∷ q ∷ []) h b = omega arith
little_endian-lt (p ∷ q ∷ r ∷ []) h b = omega arith
little_endian-lt (p ∷ q ∷ r ∷ s ∷ []) h b = omega arith
little_endian-lt (p ∷ q ∷ r ∷ s ∷ t ∷ xs) h b = absurd (omega arith)

little_endian-injective :
    (xs ys : List ℕ)
    → length xs ≡ length ys
    → IsBytes xs
    → IsBytes ys
    → little_endian xs ≡ little_endian ys
    → xs ≡ ys
unfolding little_endian
little_endian-injective [] [] l b c e = refl
little_endian-injective [] (y ∷ ys) l b c e = absurd (omega arith)
little_endian-injective (x ∷ xs) [] l b c e = absurd (omega arith)
little_endian-injective (x ∷ xs) (y ∷ ys) l b c e =
    ap₂ ◌∷◌ (omega arith) (little_endian-injective xs ys (omega arith) b.1 c.1 (omega arith))

not_32-injective : (r s : ℕ) → r < 2 ^ 32 → s < 2 ^ 32 → not_32 r ≡ not_32 s → r ≡ s
not_32-injective r s hr hs e = omega arith

-- Runs of at most four bytes that leave the register alike are the same.
crc32_loop-window :
    (xs ys : List ℕ) (r : ℕ)
    → length xs ≡ length ys
    → length xs ≤ 4
    → IsBytes xs
    → IsBytes ys
    → r < 2 ^ 32
    → crc32_loop r xs ≡ crc32_loop r ys
    → xs ≡ ys
crc32_loop-window xs ys r l short b c hr e =
    let x_fits = little_endian-lt xs short b in
    let y_fits = little_endian-lt ys (omega arith) c in
    let steps =
      sym (crc32_loop-reference r xs b ∙ reference_loop-window poly_32 r xs b)
      ∙ e
      ∙ crc32_loop-reference r ys c
      ∙ reference_loop-window poly_32 r ys c
      ∙ ap (λ n. byte_steps poly_32 n (bit_xor r (little_endian ys))) (sym l) in
    let words =
      byte_steps-injective 31 poly_32 (omega arith) (omega arith) (length xs)
        (bit_xor r (little_endian xs)) (bit_xor r (little_endian ys))
        (xor-lt-pow 32 r (little_endian xs) hr x_fits)
        (xor-lt-pow 32 r (little_endian ys) hr y_fits) steps in
    little_endian-injective xs ys l b c (xor-inj_left r (little_endian xs) (little_endian ys) words)

-- The CRC-32 detects every error that stays inside four bytes in a row: two byte messages that
-- differ at most in a run of up to four bytes, of the same length in both, have the same CRC-32
-- only if they are the same.
pub update_crc32-burst :
    (pre xs ys post : List ℕ) (init : ℕ)
    → length xs ≡ length ys
    → length xs ≤ 4
    → IsBytes pre
    → IsBytes xs
    → IsBytes ys
    → IsBytes post
    → update_crc32 (pre ++ xs ++ post) init ≡ update_crc32 (pre ++ ys ++ post) init
    → xs ≡ ys
unfolding update_crc32
update_crc32-burst pre xs ys post init l short bp bx by' bq e =
    crc32_loop-window xs ys start l short bx by' start_fits (
      reference_loop-injective 31 poly_32 (omega arith) (omega arith) post (crc32_loop start xs)
        (crc32_loop start ys) (omega arith) bq after_x after_y
        (sym (crc32_loop-reference (crc32_loop start xs) post bq)
          ∙ whole
          ∙ crc32_loop-reference (crc32_loop start ys) post bq))
  where
    start : ℕ
    start = crc32_loop (not_32 init) pre

    start_fits : start < 2 ^ 32
    start_fits = crc32_loop-lt (not_32 init) pre (omega arith) bp

    after_x : crc32_loop start xs < 2 ^ 32
    after_x = crc32_loop-lt start xs start_fits bx

    after_y : crc32_loop start ys < 2 ^ 32
    after_y = crc32_loop-lt start ys start_fits by'

    pieces :
        (zs : List ℕ)
        → crc32_loop (not_32 init) (pre ++ zs ++ post) ≡ crc32_loop (crc32_loop start zs) post
    pieces zs =
        crc32_loop-append (pre ++ zs) post (not_32 init)
        ∙ ap (λ r. crc32_loop r post) (crc32_loop-append pre zs (not_32 init))

    whole : crc32_loop (crc32_loop start xs) post ≡ crc32_loop (crc32_loop start ys) post
    whole =
        not_32-injective _ _ (crc32_loop-lt _ post after_x bq) (crc32_loop-lt _ post after_y bq)
          (ap not_32 (sym (pieces xs)) ∙ e ∙ ap not_32 (pieces ys))
