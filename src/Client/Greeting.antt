-- ===== src/Client/Greeting.antt =====
-- `udp_client_connect` when the caller gives no packet to send first.
use onyxnet.Prelude.{ℕ, ◌+◌, ◌^◌, ◌<◌, ◌≤◌, ◌≡◌, ◌≢◌, refl, ◌∙◌, false, none, some, [], ltb, arith}
use onyxnet.Payload.{World, Payload, update, payload_new, client_payload_get}
use onyxnet.Payload.Laws.{update_self}
use onyxnet.Payload.Release.{update_other}
use onyxnet.Protocol.{Command, command_bytes}
use onyxnet.Protocol.Fields.{IsPacket, command_bytes-IsPacket}
use onyxnet.Client.{Net, first_packet, write_command, connect}
use onyxnet.Client.Sound.{IsSound, connection_at}
use onyxnet.Client.Opened.{room_for, IsOpened, open_connection_lem}
use onyxnet.Client.Connect.{find-connection_at}

-- The payload at `p` is the packet that asks for a connection, held once and owned by the client.
pub record IsGreeting (net : Net) (pl : Payload) : Type 0 where
  pub packet : IsPacket pl.content Command.connect net.params.app_id net.params.app_version
  pub size : pl.size ≡ 8
  pub held_once : pl.refcount ≡ 1
  pub owned : pl.client ≡ net.params.location

blank : Net → Payload
blank net = record {
  room = net.params.max_payload_size;
  content = [];
  size = 0;
  refcount = 1;
  app_id = 0;
  app_version = 0;
  server = 0;
  client = net.params.location;
}

abbrev greeting : Net → Payload
greeting net = record (blank net) {
  content = command_bytes Command.connect net.params.app_id net.params.app_version;
  size = 8;
}

greeted : Net → ℕ → World
greeted net p = record net.payloads {
  heap = update (update net.payloads.heap p (some (blank net))) p (some (greeting net));
}

first_packet-new :
    (net : Net) (p : ℕ)
    → 8 ≤ net.params.max_payload_size
    → first_packet (some p) 0 net ≡ some (p, greeted net p)
unfolding first_packet write_command client_payload_get payload_new greeted blank
first_packet-new net p room =
    let wide : ltb net.params.max_payload_size 8 ≡ false = ground arith in
    rw (update_self net.payloads.heap p (some (blank net))) (rw wide refl)

pub payloads-IsSound : (net : Net) (w : World) → IsSound net → IsSound (record net { payloads = w })
payloads-IsSound net w sound = record {
  valid = sound.valid;
  by_pointer = sound.by_pointer;
  stored = sound.stored;
  known = sound.known;
  null_free = sound.null_free;
  quiet = sound.quiet;
}

-- A connection with no first packet from the caller, to an address that has no connection and with
-- enough memory, opens the connection with a new payload at `p`, in use once, that holds the control
-- packet for connecting; nothing is reported and other payloads are as before.
pub connect-IsGreeting :
    (net : Net) (addr p c a : ℕ)
    → IsSound net
    → connection_at net (net.bytes_at addr) ≡ 0
    → c ≢ 0
    → net.conns c ≡ none
    → net.connections.item_count + 1 < 2 ^ 64
    → 8 ≤ net.params.max_payload_size
    → net.params.app_id < 2 ^ 16
    → net.params.app_version < 2 ^ 16
    → (net' : Net) × (w : World) × (pl : Payload) × (connect (room_for (some p) c a) addr 0 net
        ≡ some (c, net'))
      × IsOpened (record net { payloads = w }) net' (net.bytes_at addr) p c
      × (w.heap p ≡ some pl)
      × IsGreeting net pl
      × (w.reports ≡ net.payloads.reports)
      × ((q : ℕ) → q ≢ p → w.heap q ≡ net.payloads.heap q)
unfolding connect greeted blank
connect-IsGreeting net addr p c a sound free real unused bound room id version =
    let w = greeted net p in
    let (net', opens, done) =
      open_connection_lem (record net { payloads = w }) (some p) addr p c a
        (payloads-IsSound net w sound) free real unused bound in
    (
      net',
      w,
      greeting net,
      rw (find-connection_at net addr sound) (rw free (rw (first_packet-new net p room) opens)),
      done,
      update_self (update net.payloads.heap p (some (blank net))) p (some (greeting net)),
      record {
        packet =
            command_bytes-IsPacket Command.connect net.params.app_id net.params.app_version id
              version;
        size = refl;
        held_once = refl;
        owned = refl;
      },
      refl,
      λ q ne.
          update_other (update net.payloads.heap p (some (blank net))) p (some (greeting net)) q ne
          ∙ update_other net.payloads.heap p (some (blank net)) q ne,
    )
