-- ===== src/Client/Poll.antt =====
-- What udp_client_poll does with one connection, apart from `udpcns_connected`,
-- `udp_client_connection_destroy` and `udp_client_poll` itself, which are not C++ as they stand (a
-- `this` in a function, names that are not declared, calls with too few arguments). A function of the
-- poll returns -1, or falls off its end with no value.
pub mod Leak
pub mod Kept
use onyxnet.Prelude.{
  ℕ, ◌+◌, ◌*◌, ◌^◌, ◌==◌, ltb, Bool, true, false, not, Option, none, some, List, [], ◌∷◌,
  if◌then◌else◌,
}
use onyxnet.Memory.Heap.{put}
use onyxnet.Memory.{◌>>=◌, add_size, sub_size, mul_size}
use onyxnet.Api.{UdpErr, invalid_argument, udp_ok}
use onyxnet.Payload.{payload_hold}
use onyxnet.Client.{Connection, Net, Phase}

pub data Verdict : Type 0 where
  minus_one no_value : Verdict

-- `CONNECT_RETRANSMIT_INTERVAL` and the two beside it
abbrev pub retransmit_interval : ℕ
retransmit_interval = 100000

abbrev pub retransmit_increment : ℕ
retransmit_increment = 20000

abbrev pub retransmit_count : ℕ
retransmit_count = 10

-- `udp_client_payload_send`, which is a stub.
abbrev pub payload_send : ℕ → ℕ → UdpErr
payload_send c payload = invalid_argument

abbrev pub is_ok : UdpErr → Bool
is_ok udp_ok = true
is_ok code = false

-- Whether it is time to transmit again.
abbrev pub is_due : ℕ → Connection → Bool
is_due now k =
    ltb (add_size retransmit_interval (mul_size k.ntransmit retransmit_increment))
      (sub_size now k.last_transmit)

-- `udpcns_initial` for a connection that is due.
unfoldable pub retransmit : ℕ → Connection → ℕ → Net → Option (Verdict × Net)
retransmit c k now net =
    if ltb k.ntransmit retransmit_count
    then payload_hold k.conn_payload net.payloads >>= (λ w. some (
      (if not (is_ok (payload_send c k.conn_payload)) then minus_one else no_value),
      record net {
        conns =
            put net.conns c
              (some (record k { last_transmit = now; ntransmit = add_size k.ntransmit 1 }));
        payloads = w;
      },
    ))
    else some (
      minus_one,
      record net { conns = put net.conns c (some (record k { last_transmit = now })) },
    )

-- `udpcns_initial`
unfoldable pub poll_initial : ℕ → ℕ → Net → Option (Verdict × Net)
unfolding retransmit
poll_initial c now net =
    net.conns c >>= (λ k. if is_due now k then retransmit c k now net else some (no_value, net))

-- `udpcns_preconnect`
unfoldable pub poll_preconnect : ℕ → ℕ → Net → Option (Verdict × Net)
unfolding poll_initial
poll_preconnect c now net = net.conns c >>= (λ k.
    poll_initial c now
      (record net { conns = put net.conns c (some (record k { state = Phase.initial })) }))

-- `udpcns_final` and `udpcns_dead`
abbrev pub poll_final : ℕ → ℕ → Net → Option (Verdict × Net)
poll_final c now net = some (no_value, net)

abbrev pub poll_dead : ℕ → ℕ → Net → Option (Verdict × Net)
poll_dead c now net = some (minus_one, net)
