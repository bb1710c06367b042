-- ===== src/Client/Setup.antt =====
-- `udp_client_initialize` and `udp_client_address_resolve`, with the answers of the operating system
-- as arguments and the events of the server's instance. `hash_table_init` returns its argument, so
-- the branch for its failure cannot be taken. That `udp_client_address_resolve` frees the list of
-- addresses is not recorded.
pub mod Laws
use onyxnet.Prelude.{
  ℕ, ◌+◌, ◌%◌, ◌^◌, ◌==◌, ltb, Bool, true, false, not, Option, none, some, List, [], ◌∷◌, ◌++◌,
  if◌then◌else◌, length, replicate, set,
}
use onyxnet.Memory.{◌>>=◌, write_bytes, sub_size}
use onyxnet.Api.{UdpErr, udp_ok, invalid_argument, address_error, out_of_memory, socket_error}
use onyxnet.HashTable as Tab
use onyxnet.Payload.{World}
use onyxnet.Server.{
  System, Event, got_info, freed_info, got_block, freed_block, got_socket, reported,
  default_max_payload_size, min_payload_size,
}
use onyxnet.Client.{Net, ClientParams, connection_funcs, address_size}

-- `sizeof(udp_client_connection_t)`, with pointers of eight bytes
abbrev pub connection_size : ℕ
connection_size = 112

abbrev pub with_client_size : ClientParams → ClientParams
with_client_size params =
    if params.max_payload_size == 0
    then record params { max_payload_size = default_max_payload_size }
    else params

-- A client with no connections, in a memory with the bytes `bytes_at`.
abbrev pub new_client : ClientParams → (ℕ → List ℕ) → World → Net
new_client params bytes_at w = record {
  params = params;
  connections = Tab.init connection_size 1 connection_funcs;
  conns = λ p. none;
  bytes_at = bytes_at;
  payloads = w;
  calls = [];
}

-- `udp_client_initialize` from the call of `getaddrinfo` on, with its socket.
unfoldable pub open_client :
    System → ClientParams → (ℕ → List ℕ) → World → Option (ℕ × Net) × List Event
open_client sys params bytes_at w =
    if not (sys.resolves 0)
    then (
      none,
      got_block
          ∷ reported address_error "udp_client_initialize(): getaddrinfo() failed"
          ∷ freed_block
          ∷ [],
    )
    else elim sys.socket [
      | none ↦ (
        none,
        got_block
            ∷ got_info
            ∷ reported socket_error "udp_client_initialize(): socket() failed"
            ∷ freed_info
            ∷ freed_block
            ∷ [],
      )
      | some s ↦ (
        some (s, new_client params bytes_at w),
        got_block ∷ got_info ∷ got_socket s ∷ freed_info ∷ [],
      )
    ]

-- `udp_client_initialize`
unfoldable pub initialize :
    System → ClientParams → (ℕ → List ℕ) → World → Option (ℕ × Net) × ClientParams × List Event
unfolding open_client
initialize sys params bytes_at w =
    if ltb (with_client_size params).max_payload_size min_payload_size
    then (
      none,
      with_client_size params,
      reported invalid_argument "udp_client_initialize(): min_payload_size too small" ∷ [],
    )
    else if not sys.has_memory
    then (
      none,
      with_client_size params,
      reported out_of_memory "udp_client_initialize(): malloc() failed" ∷ [],
    )
    else (
      (open_client sys (with_client_size params) bytes_at w).0,
      with_client_size params,
      (open_client sys (with_client_size params) bytes_at w).1,
    )

-- "4812"
abbrev pub default_port : List ℕ
default_port = 52 ∷ 56 ∷ 49 ∷ 50 ∷ []

abbrev pub port_or_default : List ℕ → List ℕ
port_or_default [] = default_port
port_or_default (d ∷ ds) = d ∷ ds

-- `udp_client_address_resolve` once `getaddrinfo` has returned.
unfoldable pub store_address : Option (List ℕ) → List ℕ → Option (UdpErr × List ℕ)
store_address none out = some (address_error, out)
store_address (some address) out =
    if ltb (sub_size address_size 2) (length address)
    then some (address_error, out)
    else write_bytes (set (set (replicate address_size 0) 0 1) 1 (length address % 2 ^ 8)) 2 address
      >>= (λ bytes. some (udp_ok, bytes))

-- `udp_client_address_resolve` into the bytes `out`. `names` is what `getaddrinfo` finds for a host and
-- a port: the bytes of the first address.
unfoldable pub address_resolve :
    (List ℕ → List ℕ → Option (List ℕ)) → List ℕ → List ℕ → List ℕ → Option (UdpErr × List ℕ)
address_resolve names host port out = store_address (names host (port_or_default port)) out
