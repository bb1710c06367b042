-- ===== src/Crc/Narrow.antt =====
-- The CRC-16 keeps only 13 bits. Its register shifts to the right, so the polynomial's word would
-- have its highest bit set (as 0xedb88320 has); the highest bit of 0x1021 is at place 12.
use onyxnet.Crc.Stream.{crc16_loop-lt, crc16_loop-append}
use onyxnet.Crc.Burst.{reference_loop-injective, bit_steps-injective}
use onyxnet.Prelude.{
  ◌++◌, sym, ℕ, ◌/◌, ◌%◌, ◌^◌, ◌≤◌, ◌<◌, ◌≡◌, refl, ap, ◌∙◌, true, List, [], ◌∷◌, bit_xor, get_or,
  arith, ltb, ltb→lt, all_below, all_below_holds,
}
use onyxnet.Bits.{xor_cancel_left, xor_comm, xor_assoc, xor-inj_left, xor-lt-pow}
use onyxnet.Crc.{table_16, crc16_loop, update_crc16, not_16}
use onyxnet.Crc.Reference.{bit_steps-xor, IsByte, IsBytes, bit_steps, bit_step}
use onyxnet.Crc.Table.{crc16_loop-reference, poly_16, table_16-IsRemainderTable, look_up}

table_16_small : all_below (λ i. ltb (get_or table_16 i 0) (2 ^ 13)) 256 ≡ true
unfolding all_below table_16
table_16_small = refl

-- One byte brings any register below 2 ^ 13.
shift_in-lt :
    (r p : ℕ)
    → r < 2 ^ 16
    → IsByte p
    → bit_xor (r / 2 ^ 8) (get_or table_16 (bit_xor (r % 2 ^ 8) p) 0) < 2 ^ 13
shift_in-lt r p h b =
    let index = bit_xor (r % 2 ^ 8) p in
    xor-lt-pow 13 (r / 2 ^ 8) (get_or table_16 index 0) (omega arith) (
      ltb→lt _ _
        (all_below_holds _ 256 index (xor-lt-pow 8 (r % 2 ^ 8) p (omega arith) b) table_16_small))

crc16_loop-narrow :
    (p : ℕ) (ps : List ℕ) (r : ℕ) → r < 2 ^ 16 → IsBytes (p ∷ ps) → crc16_loop r (p ∷ ps) < 2 ^ 13
unfolding crc16_loop
crc16_loop-narrow p [] r h b = shift_in-lt r p h b.0
crc16_loop-narrow p (q ∷ ps) r h b =
    let small = shift_in-lt r p h b.0 in crc16_loop-narrow q ps _ (omega arith) b.1

-- The three highest bits of the CRC-16 of a message that is not empty are always set: the result
-- is one of 8192 values.
pub update_crc16-high_bits :
    (p : ℕ) (ps : List ℕ) (init : ℕ)
    → IsBytes (p ∷ ps)
    → (0xe000 ≤ update_crc16 (p ∷ ps) init) × (update_crc16 (p ∷ ps) init < 2 ^ 16)
unfolding update_crc16
update_crc16-high_bits p ps init b =
    let small = crc16_loop-narrow p ps (not_16 init) (omega arith) b in (omega arith, omega arith)

-- What two bytes do to the register, as bit steps.
two_bytes :
    (r x y : ℕ)
    → IsByte x
    → IsByte y
    → crc16_loop r (x ∷ y ∷ [])
      ≡ bit_steps poly_16 8 (bit_xor (bit_steps poly_16 8 (bit_xor r x)) y)
unfolding crc16_loop
two_bytes r x y hx hy =
    look_up poly_16 table_16 table_16-IsRemainderTable _ y hy
    ∙ ap (λ t. bit_steps poly_16 8 (bit_xor t y))
        (look_up poly_16 table_16 table_16-IsRemainderTable r x hx)

vanishes : bit_steps poly_16 8 0x43 ≡ 0x20
unfolding bit_steps bit_step
vanishes = refl

two_bytes_missed :
    (r x y : ℕ)
    → IsByte x
    → IsByte y
    → crc16_loop r (bit_xor x 0x43 ∷ bit_xor y 0x20 ∷ []) ≡ crc16_loop r (x ∷ y ∷ [])
two_bytes_missed r x y hx hy =
    two_bytes r (bit_xor x 0x43) (bit_xor y 0x20) (xor-lt-pow 8 x 0x43 hx (omega arith))
      (xor-lt-pow 8 y 0x20 hy (omega arith))
    ∙ ap (bit_steps poly_16 8) cancelled
    ∙ sym (two_bytes r x y hx hy)
  where
    first : ℕ
    first = bit_steps poly_16 8 (bit_xor r x)

    shifted : bit_steps poly_16 8 (bit_xor r (bit_xor x 0x43)) ≡ bit_xor first 0x20
    shifted =
        ap (bit_steps poly_16 8) (sym (xor_assoc r x 0x43))
        ∙ bit_steps-xor poly_16 8 (bit_xor r x) 0x43
        ∙ ap (bit_xor first) vanishes

    cancelled :
        bit_xor (bit_steps poly_16 8 (bit_xor r (bit_xor x 0x43))) (bit_xor y 0x20)
        ≡ bit_xor first y
    cancelled =
        ap (λ t. bit_xor t (bit_xor y 0x20)) shifted
        ∙ ap (bit_xor (bit_xor first 0x20)) (xor_comm y 0x20)
        ∙ xor_assoc first 0x20 (bit_xor 0x20 y)
        ∙ ap (bit_xor first) (xor_cancel_left 0x20 y)

loop_pieces :
    (pre zs post : List ℕ) (r : ℕ)
    → crc16_loop r (pre ++ zs ++ post) ≡ crc16_loop (crc16_loop (crc16_loop r pre) zs) post
loop_pieces pre zs post r =
    crc16_loop-append (pre ++ zs) post r ∙ ap (λ t. crc16_loop t post) (crc16_loop-append pre zs r)

-- The CRC-16 misses some errors within two bytes in a row: in any message, adding 0x43 to one byte
-- and 0x20 to the next by exclusive or leaves the CRC-16 as it was.
pub update_crc16-missed_burst :
    (pre post : List ℕ) (x y init : ℕ)
    → IsByte x
    → IsByte y
    → update_crc16 (pre ++ (bit_xor x 0x43 ∷ bit_xor y 0x20 ∷ []) ++ post) init
      ≡ update_crc16 (pre ++ (x ∷ y ∷ []) ++ post) init
unfolding update_crc16
update_crc16-missed_burst pre post x y init hx hy = ap not_16 (
    loop_pieces pre (bit_xor x 0x43 ∷ bit_xor y 0x20 ∷ []) post (not_16 init)
    ∙ ap (λ t. crc16_loop t post) (two_bytes_missed (crc16_loop (not_16 init) pre) x y hx hy)
    ∙ sym (loop_pieces pre (x ∷ y ∷ []) post (not_16 init)))

-- The registers after one byte agree only if the byte is the same.
one_byte-injective :
    (r x y : ℕ) → IsByte x → IsByte y → crc16_loop r (x ∷ []) ≡ crc16_loop r (y ∷ []) → x ≡ y
unfolding crc16_loop
one_byte-injective r x y hx hy e =
    bit_steps-injective 12 poly_16 (omega arith) (omega arith) 8 x y (omega arith) (omega arith) (
      xor-inj_left (bit_steps poly_16 8 r) (bit_steps poly_16 8 x) (bit_steps poly_16 8 y) (
        sym (bit_steps-xor poly_16 8 r x)
        ∙ sym (look_up poly_16 table_16 table_16-IsRemainderTable r x hx)
        ∙ e
        ∙ look_up poly_16 table_16 table_16-IsRemainderTable r y hy
        ∙ bit_steps-xor poly_16 8 r y))

not_16-injective : (r s : ℕ) → r < 2 ^ 16 → s < 2 ^ 16 → not_16 r ≡ not_16 s → r ≡ s
not_16-injective r s hr hs e = omega arith

-- The CRC-16 detects every error in a single byte: two byte messages that differ at most at one
-- place have the same CRC-16 only if they are the same.
pub update_crc16-one_byte :
    (pre post : List ℕ) (x y init : ℕ)
    → IsBytes pre
    → IsBytes post
    → IsByte x
    → IsByte y
    → update_crc16 (pre ++ (x ∷ []) ++ post) init ≡ update_crc16 (pre ++ (y ∷ []) ++ post) init
    → x ≡ y
unfolding update_crc16
update_crc16-one_byte pre post x y init bp bq hx hy e =
    let start = crc16_loop (not_16 init) pre in
    let start_fits = crc16_loop-lt (not_16 init) pre (omega arith) bp in
    let rx = crc16_loop start (x ∷ []) in
    let ry = crc16_loop start (y ∷ []) in
    let sx = crc16_loop-narrow x [] start start_fits (hx, tt) in
    let sy = crc16_loop-narrow y [] start start_fits (hy, tt) in
    let whole =
      not_16-injective (crc16_loop rx post) (crc16_loop ry post)
        (crc16_loop-lt rx post (omega arith) bq) (crc16_loop-lt ry post (omega arith) bq)
        (ap not_16 (sym (loop_pieces pre (x ∷ []) post (not_16 init)))
          ∙ e
          ∙ ap not_16 (loop_pieces pre (y ∷ []) post (not_16 init))) in
    one_byte-injective start x y hx hy (
      reference_loop-injective 12 poly_16 (omega arith) (omega arith) post rx ry (omega arith) bq sx
        sy (sym (crc16_loop-reference rx post bq) ∙ whole ∙ crc16_loop-reference ry post bq))
