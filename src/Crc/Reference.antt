-- ===== src/Crc/Reference.antt =====
-- What a reflected CRC is, with no table: the register is divided bit by bit, lowest bit first.
-- Each step is linear over exclusive or.
use onyxnet.Prelude.{
  ℕ, zero, suc, ◌*◌, ◌/◌, ◌%◌, ◌^◌, ◌<◌, ◌≡◌, refl, sym, ap, ap₂, ◌∙◌, List, [], ◌∷◌, bit_xor, ◌==◌,
  if◌then◌else◌, arith, All,
}
use native.Mathlib.Nat.{pow-suc}
use onyxnet.Bits.{zero-xor, xor-zero, xor_self, xor-div-two, xor-mod-two, xor_swap_middle}

abbrev pub IsByte : ℕ → Type 0
IsByte x = x < 2 ^ 8

abbrev pub IsBytes : List ℕ → Type 0
IsBytes = All IsByte

unfoldable pub bit_step : ℕ → ℕ → ℕ
bit_step poly r = if r % 2 == 0 then r / 2 else bit_xor (r / 2) poly

unfoldable pub bit_steps : ℕ → ℕ → ℕ → ℕ
bit_steps poly zero r = r
bit_steps poly (suc n) r = bit_steps poly n (bit_step poly r)

-- Each byte is added to the register and shifted out of it.
unfoldable pub reference_loop : ℕ → ℕ → List ℕ → ℕ
reference_loop poly r [] = r
reference_loop poly r (p ∷ ps) = reference_loop poly (bit_steps poly 8 (bit_xor r p)) ps

module _ (poly : ℕ) where
  -- What the lowest bit adds to the register once it is shifted out.
  tap : ℕ → ℕ
  tap r = if r % 2 == 0 then 0 else poly

  tap-xor : (a b : ℕ) → tap (bit_xor a b) ≡ bit_xor (tap a) (tap b)
  unfolding tap
  tap-xor a b =
      ground (arith, xor-mod-two a b, xor_self poly, zero-xor poly, xor-zero poly, zero-xor 0)

  bit_step-tap : (r : ℕ) → bit_step poly r ≡ bit_xor (r / 2) (tap r)
  unfolding bit_step tap
  bit_step-tap r = ground (arith, xor-zero (r / 2))

  pub bit_step-xor :
      (a b : ℕ) → bit_step poly (bit_xor a b) ≡ bit_xor (bit_step poly a) (bit_step poly b)
  bit_step-xor a b =
      bit_step-tap (bit_xor a b)
      ∙ ap₂ bit_xor (xor-div-two a b) (tap-xor a b)
      ∙ xor_swap_middle (a / 2) (b / 2) (tap a) (tap b)
      ∙ sym (ap₂ bit_xor (bit_step-tap a) (bit_step-tap b))

  pub bit_steps-xor :
      (n a b : ℕ)
      → bit_steps poly n (bit_xor a b) ≡ bit_xor (bit_steps poly n a) (bit_steps poly n b)
  unfolding bit_steps
  bit_steps-xor zero a b = refl
  bit_steps-xor (suc n) a b =
      ap (bit_steps poly n) (bit_step-xor a b) ∙ bit_steps-xor n (bit_step poly a) (bit_step poly b)

  bit_step-even : (m r : ℕ) → r ≡ m * 2 → bit_step poly r ≡ m
  unfolding bit_step
  bit_step-even m r e = ground arith

  -- A field above the lowest `n` bits is shifted down whole.
  pub bit_steps-shift : (n m : ℕ) → bit_steps poly n (m * 2 ^ n) ≡ m
  unfolding bit_steps
  bit_steps-shift zero m = omega arith
  bit_steps-shift (suc n) m =
      ap (bit_steps poly n) (
        bit_step-even (m * 2 ^ n) (m * 2 ^ suc n)
          (omega (arith, ap (λ (t : ℕ). m * t) (pow-suc 2 n))))
      ∙ bit_steps-shift n m

  pub bit_steps-zero : (n : ℕ) → bit_steps poly n 0 ≡ 0
  unfolding bit_steps bit_step
  bit_steps-zero zero = refl
  bit_steps-zero (suc n) = bit_steps-zero n
