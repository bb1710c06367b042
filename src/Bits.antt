-- ===== src/Bits.antt =====
-- Laws of exclusive or on the native numbers, at every width, from its recursion on binary digits.
use Prim.Native.Nat.{bit_and, min, bit_and-bitwise, digits, differ, bit_xor-bitwise}
use native.Mathlib.Nat.{pow-suc}
use onyxnet.Prelude.{
  ℕ, zero, suc, ◌+◌, ◌*◌, ◌/◌, ◌%◌, ◌^◌, ◌≤◌, ◌<◌, bit_xor, ◌≡◌, refl, arith, ◌∙◌, ap, sym,
}

-- The recursion's fuel does not matter once it is at least the first number.
module _ (z : ℕ → ℕ) (f : ℕ → ℕ → ℕ) where
  digits_enough : (x y k l : ℕ) → x ≤ k → x ≤ l → digits z f k x y ≡ digits z f l x y
  digits_enough zero y zero zero hk hl = refl
  digits_enough zero y zero (suc l) hk hl = refl
  digits_enough zero y (suc k) zero hk hl = refl
  digits_enough zero y (suc k) (suc l) hk hl = refl
  digits_enough (suc x) y zero l hk hl = absurd (omega arith)
  digits_enough (suc x) y (suc k) zero hk hl = absurd (omega arith)
  digits_enough (suc x) y (suc k) (suc l) hk hl =
      let rest = digits_enough (suc x / 2) (y / 2) k l (omega arith) (omega arith) in
      ap (λ (above : ℕ). above * 2 + f (suc x % 2) (y % 2)) rest

differ_bits : (x y : ℕ) → x < 2 → y < 2 → differ x y ≡ (x + y) % 2
differ_bits zero y p q = omega arith
differ_bits (suc zero) zero p q = refl
differ_bits (suc zero) (suc zero) p q = refl
differ_bits (suc zero) (suc (suc y)) p q = absurd (omega arith)
differ_bits (suc (suc x)) y p q = absurd (omega arith)

pub zero-xor : (b : ℕ) → bit_xor 0 b ≡ b
zero-xor b = bit_xor-bitwise 0 b

-- The lowest digit, and the digits above it.
pub xor_step : (a b : ℕ) → bit_xor a b ≡ bit_xor (a / 2) (b / 2) * 2 + (a + b) % 2
xor_step zero b = omega (arith, zero-xor b, zero-xor (b / 2))
xor_step (suc a) b = omega (
  arith,
  bit_xor-bitwise (suc a) b,
  bit_xor-bitwise (suc a / 2) (b / 2),
  digits_enough (λ y. y) differ (suc a / 2) (b / 2) a (suc a / 2) (omega arith) (omega arith),
  differ_bits (suc a % 2) (b % 2) (omega arith) (omega arith),
)

pub xor-div-two : (a b : ℕ) → bit_xor a b / 2 ≡ bit_xor (a / 2) (b / 2)
xor-div-two a b = omega (arith, xor_step a b)

pub xor-mod-two : (a b : ℕ) → bit_xor a b % 2 ≡ (a + b) % 2
xor-mod-two a b = omega (arith, xor_step a b)

-- Each law is proved up to a bound on its first number, which halves at each digit.
xor-zero_below : (n a : ℕ) → a ≤ n → bit_xor a 0 ≡ a
xor-zero_below n zero h = refl
xor-zero_below zero (suc a) h = absurd (omega arith)
xor-zero_below (suc n) (suc a) h =
    omega (arith, xor_step (suc a) 0, xor-zero_below n (suc a / 2) (omega arith))

pub xor-zero : (a : ℕ) → bit_xor a 0 ≡ a
xor-zero a = xor-zero_below a a (omega arith)

xor_self_below : (n a : ℕ) → a ≤ n → bit_xor a a ≡ 0
xor_self_below n zero h = refl
xor_self_below zero (suc a) h = absurd (omega arith)
xor_self_below (suc n) (suc a) h =
    omega (arith, xor_step (suc a) (suc a), xor_self_below n (suc a / 2) (omega arith))

pub xor_self : (a : ℕ) → bit_xor a a ≡ 0
xor_self a = xor_self_below a a (omega arith)

xor_comm_below : (n a b : ℕ) → a ≤ n → bit_xor a b ≡ bit_xor b a
xor_comm_below n zero b h = zero-xor b ∙ sym (xor-zero b)
xor_comm_below zero (suc a) b h = absurd (omega arith)
xor_comm_below (suc n) (suc a) b h = omega (
  arith,
  xor_step (suc a) b,
  xor_step b (suc a),
  xor_comm_below n (suc a / 2) (b / 2) (omega arith),
)

pub xor_comm : (a b : ℕ) → bit_xor a b ≡ bit_xor b a
xor_comm a b = xor_comm_below a a b (omega arith)

xor_assoc_below : (n a b c : ℕ) → a ≤ n → bit_xor (bit_xor a b) c ≡ bit_xor a (bit_xor b c)
xor_assoc_below n zero b c h = ap (λ t. bit_xor t c) (zero-xor b) ∙ sym (zero-xor (bit_xor b c))
xor_assoc_below zero (suc a) b c h = absurd (omega arith)
xor_assoc_below (suc n) (suc a) b c h =
    rw (xor_step (bit_xor (suc a) b) c, xor-div-two (suc a) b)
      (omega (
        arith,
        xor-mod-two (suc a) b,
        xor-mod-two b c,
        xor_step (suc a) (bit_xor b c),
        ap (λ t. bit_xor (suc a / 2) t) (xor-div-two b c),
        xor_assoc_below n (suc a / 2) (b / 2) (c / 2) (omega arith),
      ))

pub xor_assoc : (a b c : ℕ) → bit_xor (bit_xor a b) c ≡ bit_xor a (bit_xor b c)
xor_assoc a b c = xor_assoc_below a a b c (omega arith)

pub xor_cancel_left : (a b : ℕ) → bit_xor a (bit_xor a b) ≡ b
xor_cancel_left a b = sym (xor_assoc a a b) ∙ ap (λ t. bit_xor t b) (xor_self a) ∙ zero-xor b

-- Exchanging the middle two of four.
pub xor_swap_middle :
    (a b c d : ℕ) → bit_xor (bit_xor a b) (bit_xor c d) ≡ bit_xor (bit_xor a c) (bit_xor b d)
xor_swap_middle a b c d =
    xor_assoc a b (bit_xor c d)
    ∙ ap (λ t. bit_xor a t)
        (sym (xor_assoc b c d) ∙ ap (λ t. bit_xor t d) (xor_comm b c) ∙ xor_assoc c b d)
    ∙ sym (xor_assoc a c (bit_xor b d))

pub xor-inj_left : (a b c : ℕ) → bit_xor a b ≡ bit_xor a c → b ≡ c
xor-inj_left a b c h = sym (xor_cancel_left a b) ∙ ap (λ t. bit_xor a t) h ∙ xor_cancel_left a c

-- A bound on both numbers bounds the result.
pub xor-lt-pow : (k a b : ℕ) → a < 2 ^ k → b < 2 ^ k → bit_xor a b < 2 ^ k
xor-lt-pow zero a b ha hb =
    let za : a ≡ 0 = omega arith in let zb : b ≡ 0 = omega arith in rw (za, zb) (omega arith)
xor-lt-pow (suc k) a b ha hb = omega (
  arith,
  pow-suc 2 k,
  xor_step a b,
  xor-lt-pow k (a / 2) (b / 2) (omega (arith, pow-suc 2 k)) (omega (arith, pow-suc 2 k)),
)

-- Fields that share no digit are joined by a sum.
pub xor_fields : (k hi lo : ℕ) → lo < 2 ^ k → bit_xor (hi * 2 ^ k) lo ≡ hi * 2 ^ k + lo
xor_fields zero hi lo h = let z : lo ≡ 0 = omega arith in rw z (xor-zero (hi * 2 ^ 0) ∙ omega arith)
xor_fields (suc k) hi lo h =
    let e : hi * 2 ^ suc k ≡ 2 * (hi * 2 ^ k) =
      omega (arith, ap (λ (t : ℕ). hi * t) (pow-suc 2 k)) in
    let half : hi * 2 ^ suc k / 2 ≡ hi * 2 ^ k = omega arith in
    omega (
      arith,
      xor_step (hi * 2 ^ suc k) lo,
      ap (λ t. bit_xor t (lo / 2)) half,
      xor_fields k hi (lo / 2) (omega (arith, pow-suc 2 k)),
    )

-- The lowest digit of a conjunction, and the digits above it.
and_step : (a b : ℕ) → bit_and a b ≡ bit_and (a / 2) (b / 2) * 2 + min (a % 2) (b % 2)
and_step zero b = omega (arith, bit_and-bitwise 0 b, bit_and-bitwise 0 (b / 2))
and_step (suc a) b = omega (
  arith,
  bit_and-bitwise (suc a) b,
  bit_and-bitwise (suc a / 2) (b / 2),
  digits_enough (λ y. 0) min (suc a / 2) (b / 2) a (suc a / 2) (omega arith) (omega arith),
)

and-zero_below : (n a : ℕ) → a ≤ n → bit_and a 0 ≡ 0
and-zero_below n zero h = refl
and-zero_below zero (suc a) h = absurd (omega arith)
and-zero_below (suc n) (suc a) h =
    omega (arith, and_step (suc a) 0, and-zero_below n (suc a / 2) (omega arith))

-- A mask bounds what it leaves.
pub and-lt-pow : (k a b : ℕ) → b < 2 ^ k → bit_and a b < 2 ^ k
and-lt-pow zero a b h =
    let z : b ≡ 0 = omega arith in rw z (omega (arith, and-zero_below a a (omega arith)))
and-lt-pow (suc k) a b h =
    omega
      (arith, pow-suc 2 k, and_step a b, and-lt-pow k (a / 2) (b / 2) (omega (arith, pow-suc 2 k)))
