-- ===== src/Protocol.antt =====
-- lib/onyxudp/protocol.h: the header of a control packet, as the bytes in memory, which are
-- little-endian. A packet of data is not written anywhere in the code.
pub mod Fields
use onyxnet.Prelude.{ℕ, ◌/◌, ◌%◌, ◌^◌, List, [], ◌∷◌, ◌++◌}
use onyxnet.Crc.{update_crc16}

-- A `uint16_t` in memory.
abbrev pub word_bytes : ℕ → List ℕ
word_bytes n = (n % 2 ^ 8) ∷ (n / 2 ^ 8 % 2 ^ 8) ∷ []

-- `UDP_CMD_IDLE`, `UDP_CMD_CONNECT` and `UDP_CMD_DISCONNECT`
pub data Command : Type 0 where
  idle connect disconnect : Command

abbrev pub command_number : Command → ℕ
command_number idle = 0
command_number connect = 1
command_number disconnect = 2

-- The six bytes of a `command_header` behind its checksum.
abbrev pub command_tail : Command → ℕ → ℕ → List ℕ
command_tail c app_id app_version =
    word_bytes (command_number c) ++ (word_bytes app_id ++ word_bytes app_version)

-- A `command_header` with its checksum filled in, as the client does it.
unfoldable pub command_bytes : Command → ℕ → ℕ → List ℕ
command_bytes c app_id app_version =
    word_bytes (update_crc16 (command_tail c app_id app_version) 0)
    ++ command_tail c app_id app_version
