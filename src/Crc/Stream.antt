-- ===== src/Crc/Stream.antt =====
-- A checksum may be taken piece by piece, as the test of crc.cpp does a byte at a time.
use onyxnet.Prelude.{
  ℕ, zero, suc, ◌/◌, ◌^◌, ◌≤◌, ◌<◌, ◌≡◌, refl, ap, ◌∙◌, List, [], ◌∷◌, ◌++◌, bit_xor, arith,
}
use onyxnet.Bits.{xor-lt-pow}
use onyxnet.Crc.{crc32_loop, crc16_loop, update_crc32, update_crc16, not_32, not_16}
use onyxnet.Crc.Reference.{IsBytes, bit_step, bit_steps, reference_loop}
use onyxnet.Crc.Table.{poly_32, poly_16, crc32_loop-reference, crc16_loop-reference}

module _ (k poly : ℕ) (poly_fits : poly < 2 ^ k) where
  pub bit_step-lt : (r : ℕ) → r < 2 ^ k → bit_step poly r < 2 ^ k
  unfolding bit_step
  bit_step-lt r h = ground (arith, xor-lt-pow k (r / 2) poly)

  pub bit_steps-lt : (n r : ℕ) → r < 2 ^ k → bit_steps poly n r < 2 ^ k
  unfolding bit_steps
  bit_steps-lt zero r h = h
  bit_steps-lt (suc n) r h = bit_steps-lt n (bit_step poly r) (bit_step-lt r h)

  pub reference_loop-lt :
      (r : ℕ) (ps : List ℕ)
      → 2 ^ 8 ≤ 2 ^ k
      → r < 2 ^ k
      → IsBytes ps
      → reference_loop poly r ps < 2 ^ k
  unfolding reference_loop
  reference_loop-lt r [] wide h b = h
  reference_loop-lt r (p ∷ ps) wide h b =
      reference_loop-lt (bit_steps poly 8 (bit_xor r p)) ps wide
        (bit_steps-lt 8 (bit_xor r p) (xor-lt-pow k r p h (omega (arith, b.0)))) b.1

pub crc32_loop-lt : (r : ℕ) (ps : List ℕ) → r < 2 ^ 32 → IsBytes ps → crc32_loop r ps < 2 ^ 32
crc32_loop-lt r ps h b =
    rw (crc32_loop-reference r ps b)
      (reference_loop-lt 32 poly_32 (omega arith) r ps (omega arith) h b)

pub crc16_loop-lt : (r : ℕ) (ps : List ℕ) → r < 2 ^ 16 → IsBytes ps → crc16_loop r ps < 2 ^ 16
crc16_loop-lt r ps h b =
    rw (crc16_loop-reference r ps b)
      (reference_loop-lt 16 poly_16 (omega arith) r ps (omega arith) h b)

pub crc32_loop-append :
    (xs ys : List ℕ) (r : ℕ) → crc32_loop r (xs ++ ys) ≡ crc32_loop (crc32_loop r xs) ys
unfolding crc32_loop
crc32_loop-append [] ys r = refl
crc32_loop-append (x ∷ xs) ys r = crc32_loop-append xs ys _

pub crc16_loop-append :
    (xs ys : List ℕ) (r : ℕ) → crc16_loop r (xs ++ ys) ≡ crc16_loop (crc16_loop r xs) ys
unfolding crc16_loop
crc16_loop-append [] ys r = refl
crc16_loop-append (x ∷ xs) ys r = crc16_loop-append xs ys _

-- The CRC-32 of two pieces, the second from the result of the first, is that of the whole; the
-- first piece consists of bytes.
pub update_crc32-append :
    (xs ys : List ℕ) (init : ℕ)
    → IsBytes xs
    → update_crc32 (xs ++ ys) init ≡ update_crc32 ys (update_crc32 xs init)
unfolding update_crc32
update_crc32-append xs ys init b =
    let mid : crc32_loop (not_32 init) xs < 2 ^ 32 =
      crc32_loop-lt (not_32 init) xs (omega arith) b in
    ap not_32 (crc32_loop-append xs ys (not_32 init) ∙ ap (λ t. crc32_loop t ys) (omega arith))

-- The CRC-16 of two pieces, the second from the result of the first, is that of the whole; the
-- first piece consists of bytes.
pub update_crc16-append :
    (xs ys : List ℕ) (init : ℕ)
    → IsBytes xs
    → update_crc16 (xs ++ ys) init ≡ update_crc16 ys (update_crc16 xs init)
unfolding update_crc16
update_crc16-append xs ys init b =
    let mid : crc16_loop (not_16 init) xs < 2 ^ 16 =
      crc16_loop-lt (not_16 init) xs (omega arith) b in
    ap not_16 (crc16_loop-append xs ys (not_16 init) ∙ ap (λ t. crc16_loop t ys) (omega arith))
