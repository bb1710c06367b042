-- ===== src/Tests/Crc.antt =====
-- test/crc/crc.cpp, and the theorems on its messages.
use onyxnet.Prelude.{ℕ, ◌≤◌, ◌<◌, ◌^◌, ◌≡◌, refl, List, [], ◌∷◌, ◌++◌, bit_xor, arith, replicate}
use onyxnet.Crc.Stream.{update_crc32-append}
use onyxnet.Crc.{
  update_crc32, update_crc16, crc32_loop, crc16_loop, table_32, table_16, not_32, not_16,
}
use onyxnet.Crc.Reference.{reference_loop}
use onyxnet.Crc.Table.{poly_32, poly_16, update_crc32-reference, update_crc16-reference}
use onyxnet.Crc.Burst.{update_crc32-burst}
use onyxnet.Crc.Narrow.{update_crc16-high_bits, update_crc16-missed_burst, update_crc16-one_byte}

-- "covfefe"
abbrev covfefe : List ℕ
covfefe = b'c' ∷ b'o' ∷ b'v' ∷ b'f' ∷ b'e' ∷ b'f' ∷ b'e' ∷ []

program : Unit {0}
unfolding update_crc32 update_crc16 crc32_loop crc16_loop table_32 table_16
program = tt

crc32_covfefe : update_crc32 covfefe 0 ≡ 0xf62cd904
unfolding program
crc32_covfefe = refl

crc16_covfefe : update_crc16 covfefe 0 ≡ 0xe1a7
unfolding program
crc16_covfefe = refl

crc32_zeros : update_crc32 (replicate 8 0) 0 ≡ 0x6522df69
unfolding program
crc32_zeros = refl

crc16_zeros : update_crc16 (replicate 8 0) 0 ≡ 0xf4ae
unfolding program
crc16_zeros = refl

update_crc32-reference_example :
    update_crc32 covfefe 0 ≡ not_32 (reference_loop poly_32 (not_32 0) covfefe)
update_crc32-reference_example = update_crc32-reference covfefe 0 (omega arith)

update_crc16-reference_example :
    update_crc16 covfefe 0 ≡ not_16 (reference_loop poly_16 (not_16 0) covfefe)
update_crc16-reference_example = update_crc16-reference covfefe 0 (omega arith)

update_crc32-append_example :
    update_crc32 (covfefe ++ covfefe) 0 ≡ update_crc32 covfefe (update_crc32 covfefe 0)
update_crc32-append_example = update_crc32-append covfefe covfefe 0 (omega arith)

update_crc32-burst_example : ◌≡◌ {A = List ℕ} (1 ∷ 2 ∷ []) (1 ∷ 2 ∷ [])
update_crc32-burst_example =
    update_crc32-burst covfefe (1 ∷ 2 ∷ []) (1 ∷ 2 ∷ []) covfefe 0 (omega arith) (omega arith)
      (omega arith) (omega arith) (omega arith) (omega arith) refl

update_crc16-high_bits_example :
    (0xe000 ≤ update_crc16 covfefe 0) × (update_crc16 covfefe 0 < 2 ^ 16)
update_crc16-high_bits_example =
    update_crc16-high_bits b'c' (b'o' ∷ b'v' ∷ b'f' ∷ b'e' ∷ b'f' ∷ b'e' ∷ []) 0 (omega arith)

update_crc16-missed_burst_example :
    update_crc16 (covfefe ++ (bit_xor 1 0x43 ∷ bit_xor 2 0x20 ∷ []) ++ covfefe) 0
    ≡ update_crc16 (covfefe ++ (1 ∷ 2 ∷ []) ++ covfefe) 0
update_crc16-missed_burst_example =
    update_crc16-missed_burst covfefe covfefe 1 2 0 (omega arith) (omega arith)

update_crc16-one_byte_example : ◌≡◌ {A = ℕ} 7 7
update_crc16-one_byte_example =
    update_crc16-one_byte covfefe covfefe 7 7 0 (omega arith) (omega arith) (omega arith)
      (omega arith) refl
