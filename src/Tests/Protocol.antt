-- ===== src/Tests/Protocol.antt =====
-- The packet that asks for a connection, for application 7 in version 3.
use onyxnet.Prelude.{arith}
use onyxnet.Protocol.{command_bytes}
use onyxnet.Protocol.Fields.{IsPacket, command_bytes-IsPacket}
use onyxnet.Protocol as Wire

command_bytes-IsPacket_example : IsPacket (command_bytes Wire.connect 7 3) Wire.connect 7 3
command_bytes-IsPacket_example = command_bytes-IsPacket Wire.connect 7 3 (omega arith) (omega arith)
