-- ===== src/Client/Disconnect.antt =====
-- `udp_client_disconnect`.
use onyxnet.Prelude.{
  ℕ, ◌^◌, ◌<◌, ◌≡◌, ◌≢◌, refl, ap, ◌∙◌, Bool, true, false, none, some, List, [], ◌∷◌, ◌++◌,
  if◌then◌else◌, get_or, take, drop, replicate,
}
use onyxnet.Memory.Heap.{put}
use onyxnet.Memory.{◌>>=◌}
use onyxnet.Api.{udp_ok, socket_error, client_disconnected}
use onyxnet.HashTable.{Table, remove}
use onyxnet.HashTable.Remove.{remove-IsRemoved}
use onyxnet.Payload.{World, Payload, report, payload_release}
use onyxnet.Payload.Laws.{IsCounted}
use onyxnet.Payload.Release.{release_lem, IsReleased}
use onyxnet.Protocol.{Command, command_bytes}
use onyxnet.Client.{
  Connection, Net, Call, connection_funcs, address_size, on_disconnect, sent, remove_connection,
  release_slots, free_connection, disconnect,
}
use onyxnet.Client.Sound.{IsSound, is_zero-ne}
use onyxnet.Client.Gone.{IsGone, gone_lem, result_one}

-- The packet that tells the server.
abbrev pub farewell : Net → ℕ → Call
farewell net c =
    sent (command_bytes Command.disconnect net.params.app_id net.params.app_version)
      (take (get_or (net.bytes_at c) 1 0) (drop 2 (net.bytes_at c)))

-- The payloads after the report of a packet that could not be sent, if it could not.
abbrev pub after_sending : Bool → Net → World
after_sending sends net =
    if sends
    then net.payloads
    else report net.params.location socket_error "udp_client_disconnect(): sendto() failed"
        net.payloads

heap-after_sending : (sends : Bool) (net : Net) → (after_sending sends net).heap ≡ net.payloads.heap
heap-after_sending true net = refl
heap-after_sending false net = refl

pub remove_connection-step :
    (net : Net) (c result : ℕ) (freed : List ℕ) (t' : Table (List ℕ))
    → remove net.bytes_at net.connections c ≡ some (result, freed, t')
    → result ≡ 1
    → remove_connection c net
      ≡ some (record net {
        connections = t';
        calls = net.calls ++ on_disconnect c client_disconnected ∷ [];
      })
unfolding remove_connection
remove_connection-step net c result freed t' step one = rw step (rw one refl)

pub free_connection-step :
    (net : Net) (c : ℕ) (k : Connection) (w : World)
    → net.conns c ≡ some k
    → k.conn_payload ≢ 0
    → payload_release k.conn_payload net.payloads ≡ some w
    → k.outgoing.item_count ≡ 0
    → free_connection c net
      ≡ some (record net {
        conns = put net.conns c none;
        bytes_at = put net.bytes_at c (replicate address_size 0xff);
        payloads = w;
      })
unfolding free_connection release_slots
free_connection-step net c k w there given step quiet = rw there (
    rw (is_zero-ne given) (
      rw step (
        ap
          (λ n. release_slots n 0 k.outgoing w >>= (λ w'. some (record net {
            conns = put net.conns c none;
            bytes_at = put net.bytes_at c (replicate address_size 0xff);
            payloads = w';
          })))
          quiet)))

-- Disconnecting a connection whose first packet is in use: the packet is sent to the address, the
-- application is told once, nothing is found under the address any more and the connection is gone,
-- other connections and payloads are as before, its first packet loses one holder, and an error is
-- reported exactly if the packet could not be sent. The result is UDP_OK in any case.
pub disconnect_lem :
    (net : Net) (sends : Bool) (c : ℕ) (k : Connection) (pl : Payload)
    → IsSound net
    → net.conns c ≡ some k
    → net.connections.item_count < 2 ^ 64
    → k.conn_payload ≢ 0
    → net.payloads.heap k.conn_payload ≡ some pl
    → IsCounted pl
    → (net' : Net) × (disconnect sends c net ≡ some (udp_ok, net'))
      × IsGone net net' c
      × IsReleased k.conn_payload pl (after_sending sends net) net'.payloads
      × (net'.calls ≡ net.calls ++ farewell net c ∷ [] ++ on_disconnect c client_disconnected ∷ [])
unfolding disconnect
disconnect_lem net sends c k pl sound there bound given here counted =
    let (result, freed, t', step, done) =
      remove-IsRemoved net.bytes_at connection_funcs net.connections c sound.valid bound in
    let one = result_one net c k sound there bound t' result freed done in
    let (w, releases, released) =
      release_lem k.conn_payload pl (after_sending sends net)
        (ap (λ h. h k.conn_payload) (heap-after_sending sends net) ∙ here) counted in
    let calls = net.calls ++ farewell net c ∷ [] ++ on_disconnect c client_disconnected ∷ [] in
    (
      record net {
        connections = t';
        conns = put net.conns c none;
        bytes_at = put net.bytes_at c (replicate address_size 0xff);
        payloads = w;
        calls = calls;
      },
      rw there (
          ap (λ o. o >>= (λ removed. free_connection c removed >>= (λ n. some (udp_ok, n))))
            (remove_connection-step
              (record net {
                payloads = after_sending sends net;
                calls = net.calls ++ farewell net c ∷ [];
              })
              c result freed t' step one)
          ∙ ap (λ o. o >>= (λ n. some (udp_ok, n)))
              (free_connection-step
                (record net { connections = t'; payloads = after_sending sends net; calls = calls })
                c k w there given releases (sound.quiet c k there))),
      gone_lem net c k sound there bound t' result freed done w calls,
      released,
      refl,
    )
