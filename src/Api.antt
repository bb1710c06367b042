-- ===== src/Api.antt =====
-- lib/onyxudp/udpbase.h: the codes that the library reports, and its limits on payloads.
use onyxnet.Prelude.{ℕ}
use Prim.Native.String.{String}

-- `UDPERR`
pub data UdpErr : Type 0 where
  udp_ok out_of_memory socket_error io_error address_error invalid_argument : UdpErr

-- `UDPPEER`
pub data PeerReason : Type 0 where
  timed_out last_group_destroyed client_disconnected removed_from_group : PeerReason

-- One call of an `on_error` callback: the parameters it goes to, the code and the text.
pub record Report : Type 0 where
  pub to : ℕ
  pub code : UdpErr
  pub text : String
