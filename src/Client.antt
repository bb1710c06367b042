-- ===== src/Client.antt =====
-- lib/onyxudp/udpclient.cpp: a client and its connections. A pointer is a number and 0 is NULL.
-- `bytes_at` says which 32 bytes stand at a pointer to a `udp_conn_addr_t`, which a connection starts
-- with. `none` is a fault or a failed assertion. Answers of the operating system are arguments.
pub mod Sound
pub mod Opened
pub mod Connect
pub mod Greeting
pub mod Gone
pub mod Disconnect
pub mod RoundTrip
pub mod Setup
pub mod Poll
pub mod Thread
pub mod Terminate
pub mod Steps
pub mod Reach
use onyxnet.Prelude.{
  ℕ, zero, suc, ◌+◌, ◌==◌, ◌&&◌, ltb, Bool, true, false, not, Option, none, some, List, [], ◌∷◌,
  ◌++◌, if◌then◌else◌, get_or, take, drop, replicate, length,
}
use Prim.Native.String.{String}
use onyxnet.Memory.{◌>>=◌}
use onyxnet.Memory.Heap.{put}
use onyxnet.Api.{
  UdpErr, udp_ok, invalid_argument, out_of_memory, socket_error, PeerReason, client_disconnected,
}
use onyxnet.Vector as Vec
use onyxnet.Vector.{Vector}
use onyxnet.Hash.{hash_pod}
use onyxnet.HashTable as Tab
use onyxnet.HashTable.{Table, Funcs}
use onyxnet.HashTable.Iterate.{Iterator, begin, next}
use onyxnet.Payload.{World, Payload, update, report, payload_release, client_payload_get}
use onyxnet.Protocol.{Command, command_bytes}

-- `UDPCONNECTIONSTATE`
pub data Phase : Type 0 where
  preconnect initial connected final dead : Phase

-- `udp_client_connection_t`, without the address that it starts with and the client that it points at
pub record Connection : Type 0 where
  pub conn_payload : ℕ
  pub outgoing : Vector
  pub last_transmit : ℕ
  pub last_receive : ℕ
  pub ntransmit : ℕ
  pub state : Phase

-- `udp_client_params_t` and its address
pub record ClientParams : Type 0 where
  pub location : ℕ
  pub app_id : ℕ
  pub app_version : ℕ
  pub max_payload_size : ℕ

-- What the client tells the application and the network.
pub data Call : Type 0 where
  on_disconnect : ℕ → PeerReason → Call
  sent : List ℕ → List ℕ → Call

-- A client with what its functions read and write. Its connections are keyed by their addresses.
pub record Net : Type 0 where
  pub params : ClientParams
  pub connections : Table (List ℕ)
  pub conns : ℕ → Option Connection
  pub bytes_at : ℕ → List ℕ
  pub payloads : World
  pub calls : List Call

-- `sizeof(udp_conn_addr_t)`
abbrev pub address_size : ℕ
address_size = 32

abbrev pub same_bytes : List ℕ → List ℕ → Bool
same_bytes [] [] = true
same_bytes [] (b ∷ bs) = false
same_bytes (a ∷ as') [] = false
same_bytes (a ∷ as') (b ∷ bs) = a == b && same_bytes as' bs

-- `connection_hash` and `connection_comp`
abbrev pub connection_funcs : Funcs (List ℕ)
connection_funcs = record { hash = λ bytes size. hash_pod bytes; same = λ a b size. same_bytes a b }

-- `remove_connection_from_client`
unfoldable pub remove_connection : ℕ → Net → Option Net
remove_connection c net = do
  r ← Tab.remove net.bytes_at net.connections c
  if r.0 == 1
      then some (record net {
        connections = r.2;
        calls = net.calls ++ on_disconnect c client_disconnected ∷ [];
      })
      else none

-- The loop of `free_client_connection` over the `n` slots from `i` on. It takes the address of the
-- slot for that of the payload.
unfoldable pub release_slots : ℕ → ℕ → Vector → World → Option World
release_slots zero i v w = some w
release_slots (suc n) i v w = payload_release (Vec.get v i) w >>= release_slots n (suc i) v

-- `free_client_connection`
unfoldable pub free_connection : ℕ → Net → Option Net
unfolding release_slots
free_connection c net = do
  k ← net.conns c
  w ← if k.conn_payload == 0 then some net.payloads else payload_release k.conn_payload net.payloads
  w' ← release_slots k.outgoing.item_count 0 k.outgoing w
  some (record net {
    conns = put net.conns c none;
    bytes_at = put net.bytes_at c (replicate address_size 0xff);
    payloads = w';
  })

-- `memcpy(payload->data, &hdr, 8); payload->size = 8`
unfoldable pub write_command : ℕ → List ℕ → World → Option World
write_command p bytes w = do
  pl ← w.heap p
  if ltb pl.room 8
      then none
      else some
          (record w { heap = update w.heap p (some (record pl { content = bytes; size = 8 })) })

-- The part of `udp_client_connect` that makes the first packet if there is none.
unfoldable pub first_packet : Option ℕ → ℕ → Net → Option (ℕ × World)
unfolding write_command
first_packet fresh zero net = do
  r ← client_payload_get fresh net.params.max_payload_size net.params.location net.payloads
  w ← write_command r.0 (command_bytes Command.connect net.params.app_id net.params.app_version) r.1
  some (r.0, w)
first_packet fresh (suc p) net = some (suc p, net.payloads)

-- What `udp_client_connect` asks `malloc` for: a payload, a connection, the chains of the table and a
-- node in it.
pub record Room : Type 0 where
  pub payload : Option ℕ
  pub connection : Option ℕ
  pub chains : Bool
  pub node : Option ℕ

-- An error is reported, and the payload given away.
unfoldable pub give_up : UdpErr → String → ℕ → Net → Option (ℕ × Net)
give_up code text p net = do
  w ← payload_release p (report net.params.location code text net.payloads)
  some (0, record net { payloads = w })

-- `udp_client_connect` from the first packet `p` on.
unfoldable pub open_connection : Room → ℕ → ℕ → Net → Option (ℕ × Net)
unfolding give_up
open_connection room addr p net = elim room.connection [
  | none ↦ give_up out_of_memory "udp_client_connect(): malloc() failed" p net
  | some c ↦
      if not (Vec.init 8).1
      then give_up out_of_memory "udp_client_connect(): vector_init() failed" p net
      else do
        let bytes_at = put net.bytes_at c (net.bytes_at addr)
        r ← Tab.assign bytes_at room.chains room.node net.connections c
        if r.0 == c
            then some (
              c,
              record net {
                connections = r.1;
                conns = put net.conns c (
                    some (record {
                      conn_payload = p;
                      outgoing = (Vec.init 8).0;
                      last_transmit = 0;
                      last_receive = 0;
                      ntransmit = 0;
                      state = preconnect;
                    }));
                bytes_at = bytes_at;
              },
            )
            else none
]

-- `udp_client_connect` to an address that has a connection: an error, and the payload is given away.
unfoldable pub refuse : ℕ → Net → Option (ℕ × Net)
refuse payload net = do
  let text : String = "udp_client_connect(): already connecting to address"
  let w = report net.params.location invalid_argument text net.payloads
  w' ← if payload == 0 then some w else payload_release payload w
  some (0, record net { payloads = w' })

-- `udp_client_connect`
unfoldable pub connect : Room → ℕ → ℕ → Net → Option (ℕ × Net)
unfolding first_packet open_connection refuse
connect room addr payload net = Tab.find net.bytes_at net.connections addr >>= (λ old.
    if old == 0
    then first_packet room.payload payload net
      >>= (λ r. open_connection room addr r.0 (record net { payloads = r.1 }))
    else refuse payload net)

-- `udp_client_disconnect`; the first argument says whether `sendto` sends the whole header. A length
-- byte over 30 is cut at the end of the address, where the code has `sendto` read on behind it.
unfoldable pub disconnect : Bool → ℕ → Net → Option (UdpErr × Net)
unfolding remove_connection free_connection
disconnect sends c net = do
  k ← net.conns c
  let header = command_bytes Command.disconnect net.params.app_id net.params.app_version
  let to = take (get_or (net.bytes_at c) 1 0) (drop 2 (net.bytes_at c))
  let w =
      if sends
      then net.payloads
      else report net.params.location socket_error "udp_client_disconnect(): sendto() failed"
          net.payloads
  removed ←
      remove_connection c (record net { payloads = w; calls = net.calls ++ sent header to ∷ [] })
  freed ← free_connection c removed
  some (udp_ok, freed)

-- The loop of `udp_client_terminate`, for at most `fuel` rounds.
unfoldable pub free_all : ℕ → ℕ × Iterator (List ℕ) → Net → Option Net
unfolding free_connection
free_all zero r net = none
free_all (suc fuel) r net =
    if r.0 == 0 then some net else free_connection r.0 net >>= free_all fuel (next r.1)

-- `udp_client_terminate`: what it leaves of the connections, and the nodes of the table that it frees.
-- The socket is closed and the client freed, in any case.
unfoldable pub terminate : ℕ → Net → Option (List ℕ × Net)
unfolding free_all
terminate fuel net = do
  emptied ← free_all fuel (begin net.connections) net
  let r = Tab.deinit emptied.connections
  some (r.0, record emptied { connections = r.1 })
