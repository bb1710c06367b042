-- ===== src/Protocol/Fields.antt =====
-- What a receiver reads from a control packet, by the description in protocol.h.
use onyxnet.Prelude.{ℕ, ◌+◌, ◌*◌, ◌/◌, ◌%◌, ◌^◌, ◌<◌, ◌≡◌, refl, List, length, drop, get_or, arith}
use onyxnet.Crc.{update_crc16}
use onyxnet.Crc.Reference.{IsBytes}
use onyxnet.Protocol.{Command, command_number, command_tail, command_bytes}

-- The `uint16_t` at an offset.
abbrev pub word_at : List ℕ → ℕ → ℕ
word_at bytes i = get_or bytes i 0 + get_or bytes (i + 1) 0 * 2 ^ 8

-- A control packet: eight bytes, the first two of which are the CRC-16 of the others, then the command
-- and the application.
pub record IsPacket (bytes : List ℕ) (c : Command) (app_id app_version : ℕ) : Type 0 where
  pub size : length bytes ≡ 8
  pub bounded : IsBytes bytes
  pub checked : word_at bytes 0 ≡ update_crc16 (drop 2 bytes) 0
  pub commanded : word_at bytes 2 ≡ command_number c
  pub identified : word_at bytes 4 ≡ app_id
  pub versioned : word_at bytes 6 ≡ app_version

word_bytes_lem : (n : ℕ) → n < 2 ^ 16 → n % 2 ^ 8 + n / 2 ^ 8 % 2 ^ 8 * 2 ^ 8 ≡ n
word_bytes_lem n h = omega arith

update_crc16-lt : (bytes : List ℕ) (init : ℕ) → update_crc16 bytes init < 2 ^ 16
unfolding update_crc16
update_crc16-lt bytes init = omega arith

command_number-lt : (c : Command) → command_number c < 2 ^ 16
command_number-lt c = ground arith

-- The header that the client writes for an application whose numbers have 16 bits is a control packet
-- of the form that protocol.h describes: a receiver reads the same command and application from it,
-- and its checksum is that of the bytes behind it.
pub command_bytes-IsPacket :
    (c : Command) (app_id app_version : ℕ)
    → app_id < 2 ^ 16
    → app_version < 2 ^ 16
    → IsPacket (command_bytes c app_id app_version) c app_id app_version
unfolding command_bytes
command_bytes-IsPacket c app_id app_version hi hv = record {
  size = refl;
  bounded = omega arith;
  checked =
      word_bytes_lem (update_crc16 (command_tail c app_id app_version) 0)
        (update_crc16-lt (command_tail c app_id app_version) 0);
  commanded = word_bytes_lem (command_number c) (command_number-lt c);
  identified = word_bytes_lem app_id hi;
  versioned = word_bytes_lem app_version hv;
}
