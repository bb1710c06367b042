-- ===== src/Crc/Table.antt =====
-- The tables hold the remainders of the bytes, so a table look-up is eight bit steps, and both
-- loops compute the bitwise CRC of their polynomial.
use onyxnet.Prelude.{
  ℕ, ◌*◌, ◌/◌, ◌%◌, ◌^◌, ◌≡◌, refl, sym, ap, ◌∙◌, true, List, [], ◌∷◌, bit_xor, get_or, ◌==◌,
  ==_iff, arith, all_below, all_below_holds,
}
use onyxnet.Bits.{xor_assoc, xor_fields, xor-lt-pow}
use onyxnet.Crc.{
  table_32, table_16, crc32_loop, crc16_loop, update_crc32, update_crc16, not_32, not_16,
}
use onyxnet.Crc.Reference.{
  IsByte, IsBytes, bit_step, bit_steps, reference_loop, bit_steps-xor, bit_steps-shift,
}

abbrev pub poly_32 : ℕ
poly_32 = 0xedb88320

abbrev pub poly_16 : ℕ
poly_16 = 0x1021

abbrev pub IsRemainderTable : ℕ → List ℕ → Type 0
IsRemainderTable poly table = (i : ℕ) → IsByte i → get_or table i 0 ≡ bit_steps poly 8 i

table_32_entries : all_below (λ i. get_or table_32 i 0 == bit_steps poly_32 8 i) 256 ≡ true
unfolding all_below table_32 bit_steps bit_step
table_32_entries = refl

table_16_entries : all_below (λ i. get_or table_16 i 0 == bit_steps poly_16 8 i) 256 ≡ true
unfolding all_below table_16 bit_steps bit_step
table_16_entries = refl

pub table_32-IsRemainderTable : IsRemainderTable poly_32 table_32
table_32-IsRemainderTable i h = (==_iff _ _).0 (all_below_holds _ 256 i h table_32_entries)

pub table_16-IsRemainderTable : IsRemainderTable poly_16 table_16
table_16-IsRemainderTable i h = (==_iff _ _).0 (all_below_holds _ 256 i h table_16_entries)

-- A register is its high part and its low byte; the high part is only shifted.
module _ (poly : ℕ) (table : List ℕ) (entries : IsRemainderTable poly table) where
  pub look_up :
      (r p : ℕ)
      → IsByte p
      → bit_xor (r / 2 ^ 8) (get_or table (bit_xor (r % 2 ^ 8) p) 0)
        ≡ bit_steps poly 8 (bit_xor r p)
  look_up r p h =
      let low : IsByte (bit_xor (r % 2 ^ 8) p) = xor-lt-pow 8 (r % 2 ^ 8) p (omega arith) h in
      let parts : bit_xor (r / 2 ^ 8 * 2 ^ 8) (bit_xor (r % 2 ^ 8) p) ≡ bit_xor r p =
        sym (xor_assoc (r / 2 ^ 8 * 2 ^ 8) (r % 2 ^ 8) p)
        ∙ ap (λ t. bit_xor t p)
            (xor_fields 8 (r / 2 ^ 8) (r % 2 ^ 8) (omega arith) ∙ omega arith) in
      rw (entries (bit_xor (r % 2 ^ 8) p) low, ← parts)
        (sym (
          bit_steps-xor poly 8 (r / 2 ^ 8 * 2 ^ 8) (bit_xor (r % 2 ^ 8) p)
          ∙ ap (λ t. bit_xor t (bit_steps poly 8 (bit_xor (r % 2 ^ 8) p)))
              (bit_steps-shift poly 8 (r / 2 ^ 8))))

pub crc32_loop-reference :
    (r : ℕ) (ps : List ℕ) → IsBytes ps → crc32_loop r ps ≡ reference_loop poly_32 r ps
unfolding crc32_loop reference_loop
crc32_loop-reference r [] h = refl
crc32_loop-reference r (p ∷ ps) h =
    ap (λ t. crc32_loop t ps) (look_up poly_32 table_32 table_32-IsRemainderTable r p h.0)
    ∙ crc32_loop-reference (bit_steps poly_32 8 (bit_xor r p)) ps h.1

pub crc16_loop-reference :
    (r : ℕ) (ps : List ℕ) → IsBytes ps → crc16_loop r ps ≡ reference_loop poly_16 r ps
unfolding crc16_loop reference_loop
crc16_loop-reference r [] h = refl
crc16_loop-reference r (p ∷ ps) h =
    ap (λ t. crc16_loop t ps) (look_up poly_16 table_16 table_16-IsRemainderTable r p h.0)
    ∙ crc16_loop-reference (bit_steps poly_16 8 (bit_xor r p)) ps h.1

-- On bytes, update_crc32 is the bitwise reflected CRC with polynomial 0xedb88320, from the
-- complement of the given value and complemented at the end.
pub update_crc32-reference :
    (bytes : List ℕ) (init : ℕ)
    → IsBytes bytes
    → update_crc32 bytes init ≡ not_32 (reference_loop poly_32 (not_32 init) bytes)
unfolding update_crc32
update_crc32-reference bytes init h = ap not_32 (crc32_loop-reference (not_32 init) bytes h)

-- On bytes, update_crc16 is the bitwise right-shifting CRC with the polynomial word 0x1021, from
-- the complement of the given value and complemented at the end.
pub update_crc16-reference :
    (bytes : List ℕ) (init : ℕ)
    → IsBytes bytes
    → update_crc16 bytes init ≡ not_16 (reference_loop poly_16 (not_16 init) bytes)
unfolding update_crc16
update_crc16-reference bytes init h = ap not_16 (crc16_loop-reference (not_16 init) bytes h)
