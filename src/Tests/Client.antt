-- ===== src/Tests/Client.antt =====
-- A client at address 8, with connection addresses at every pointer, and a payload at 512.
use onyxnet.Prelude.{
  ℕ, ◌+◌, ◌%◌, ◌^◌, ◌<◌, ◌≡◌, ◌≢◌, refl, sym, ap, ◌∙◌, subst, Option, some, none, List, [], ◌∷◌,
  ◌++◌, inr, arith, replicate, set, if◌then◌else◌, ◌==◌, true, false, ◌⊎◌, length,
}
use onyxnet.Memory.Heap.{put}
use onyxnet.Api.{udp_ok, invalid_argument, address_error, client_disconnected}
use onyxnet.Hash.{hash_pod, hash_loop}
use onyxnet.Vector as Vec
use onyxnet.HashTable as Tab
use onyxnet.HashTable.Chain.{pointed, match_in}
use onyxnet.Payload.{update, payload_hold, hold_live, World, Payload}
use onyxnet.Payload.Life.{release, live_on, life_of}
use onyxnet.Payload.Laws.{IsCounted}
use onyxnet.Payload.Release.{IsReleased}
use onyxnet.Server.{System}
use onyxnet.Server.Held.{nothing_held, after_all, reports}
use onyxnet.Client.{
  Phase, Net, ClientParams, connection_funcs, connect, disconnect, open_connection, first_packet,
  on_disconnect, free_connection, address_size,
}
use onyxnet.Client.Setup.{new_client, initialize, address_resolve, port_or_default}
use onyxnet.Client.Setup.Laws.{
  new_client_lem, Settles, initialize-Settles, sent_to, address_resolve_lem,
}
use onyxnet.Client.Sound.{IsSound, connection_at}
use onyxnet.Client.Opened.{room_for, new_connection, IsOpened}
use onyxnet.Client.Connect.{connect_lem, connect-refuse}
use onyxnet.Client.Greeting.{IsGreeting, connect-IsGreeting}
use onyxnet.Client.Gone.{IsGone}
use onyxnet.Client.Disconnect.{farewell, after_sending, disconnect_lem}
use onyxnet.Client.RoundTrip.{disconnect-connect}
use onyxnet.Client.Reach.{Reach-IsSound, here, then_step, by_connect, by_preconnect}
use onyxnet.Client.Poll.{poll_preconnect, retransmit, minus_one, poll_initial}
use onyxnet.Client.Poll.Leak.{free_connection-poll_initial}

abbrev settings : ClientParams
settings = record { location = 8; app_id = 7; app_version = 3; max_payload_size = 1200 }

abbrev address_at : ℕ → List ℕ
address_at p = 1 ∷ 6 ∷ 2 ∷ 0 ∷ 127 ∷ 0 ∷ 0 ∷ (p % 256) ∷ replicate 24 0

abbrev pub packet : Payload
packet = record {
  room = 1200;
  content = [];
  size = 8;
  refcount = 1;
  app_id = 7;
  app_version = 3;
  server = 0;
  client = 8;
}

abbrev pub world : World
world = record { heap = λ p. if p == 512 then some packet else none; reports = [] }

abbrev pub fresh : Net
fresh = new_client settings address_at world

fresh-IsSound : IsSound fresh
fresh-IsSound = (new_client_lem settings address_at world).0

no_connection : connection_at fresh (address_at 1) ≡ 0
no_connection = (new_client_lem settings address_at world).1 (address_at 1)

few : fresh.connections.item_count + 1 < 2 ^ 64
unfolding Tab.init
few = omega arith

pub packet-IsCounted : IsCounted packet
packet-IsCounted = record {
  some_holder = omega arith;
  in_word = omega arith;
  owned = inr (omega arith);
}

connect_lem_example :
    (net' : Net) × (connect (room_for none 1024 2048) 1 512 fresh ≡ some (1024, net'))
    × IsOpened fresh net' (address_at 1) 512 1024
connect_lem_example =
    connect_lem fresh none 1 512 1024 2048 fresh-IsSound no_connection (omega arith) (omega arith)
      refl few

-- The client with one connection at 1024, in the slot 6 of its table.
abbrev pub one_client : Net
one_client = record fresh {
  connections = record {
    top = some (
        set (replicate 32 []) 6
          (record { address = 2048; code = 413665130508889446; stored = pointed 1024 } ∷ []));
    top_size = 32;
    item_size = 112;
    item_count = 1;
    flags = 1;
    funcs = some connection_funcs;
  };
  conns = put fresh.conns 1024 (some (new_connection 512));
  bytes_at = put address_at 1024 (address_at 1);
}

opens_at_1024 : connect (room_for none 1024 2048) 1 512 fresh ≡ some (1024, one_client)
unfolding Vec.init Tab.init connect Tab.find open_connection first_packet Tab.assign Tab.assign_in
    hash_pod hash_loop match_in
opens_at_1024 = refl

pub one_client-IsOpened : IsOpened fresh one_client (address_at 1) 512 1024
one_client-IsOpened =
    let (net', opens, done) =
      connect_lem fresh none 1 512 1024 2048 fresh-IsSound no_connection (omega arith) (omega arith)
        refl few in
    subst (λ n. IsOpened fresh n (address_at 1) 512 1024)
      (ap (λ (o : Option (ℕ × Net)). elim o [ none ↦ fresh | some r ↦ r.1 ])
        (sym opens ∙ opens_at_1024))
      done

busy : connection_at one_client (address_at 1) ≡ 1024
busy = one_client-IsOpened.found (address_at 1)

connect-refuse_example :
    (w : World) × (connect (room_for none 1536 2560) 1 512 one_client
      ≡ some (0, record one_client { payloads = w }))
    × (live_on release (life_of (some packet)) ≡ some (life_of (w.heap 512)))
    × (w.reports
        ≡ record {
          to = 8;
          code = invalid_argument;
          text = "udp_client_connect(): already connecting to address";
        }
          ∷ [])
    × ((q : ℕ) → q ≢ 512 → w.heap q ≡ world.heap q)
connect-refuse_example =
    connect-refuse (room_for none 1536 2560) one_client 1 512 packet one_client-IsOpened.sound
      (λ e. ground (arith, busy, e)) (omega arith) refl packet-IsCounted

connect-IsGreeting_example :
    (net' : Net) × (w : World) × (pl : Payload) × (connect
        (room_for (some 4096) 1024 2048)
        1
        0
        fresh
      ≡ some (1024, net'))
    × IsOpened (record fresh { payloads = w }) net' (address_at 1) 4096 1024
    × (w.heap 4096 ≡ some pl)
    × IsGreeting fresh pl
    × (w.reports ≡ [])
    × ((q : ℕ) → q ≢ 4096 → w.heap q ≡ world.heap q)
connect-IsGreeting_example =
    connect-IsGreeting fresh 1 4096 1024 2048 fresh-IsSound no_connection (omega arith) refl few
      (omega arith) (omega arith) (omega arith)

disconnect_lem_example :
    (net' : Net) × (disconnect false 1024 one_client ≡ some (udp_ok, net'))
    × IsGone one_client net' 1024
    × IsReleased 512 packet (after_sending false one_client) net'.payloads
    × (net'.calls ≡ farewell one_client 1024 ∷ [] ++ on_disconnect 1024 client_disconnected ∷ [])
disconnect_lem_example =
    disconnect_lem one_client false 1024 (new_connection 512) packet one_client-IsOpened.sound
      one_client-IsOpened.begins (omega arith) (omega arith) refl packet-IsCounted

disconnect-connect_example :
    (opened : Net) × (closed : Net) × (connect (room_for none 1024 2048) 1 512 fresh
      ≡ some (1024, opened))
    × (disconnect true 1024 opened ≡ some (udp_ok, closed))
    × IsSound closed
    × ((q : List ℕ) → connection_at closed q ≡ connection_at fresh q)
    × ((d : ℕ) → closed.conns d ≡ none)
    × (live_on release (life_of (some packet)) ≡ some (life_of (closed.payloads.heap 512)))
disconnect-connect_example =
    disconnect-connect fresh true none 1 512 1024 2048 packet fresh-IsSound no_connection
      (omega arith) (omega arith) refl few refl packet-IsCounted

abbrev no_socket : System
no_socket = record {
  resolves = λ p. true;
  has_memory = true;
  socket = none;
  unblocks = λ s. true;
  binds = λ s. true;
}

initialize-Settles_example :
    Settles
      ((initialize no_socket settings address_at world).0)
      (after_all ((initialize no_socket settings address_at world).2) nothing_held)
      (reports ((initialize no_socket settings address_at world).2))
initialize-Settles_example = initialize-Settles no_socket settings address_at world

abbrev names : List ℕ → List ℕ → Option (List ℕ)
names host port = if length host == 0 then none else some (2 ∷ 0 ∷ port)

address_resolve_lem_example :
    let found = names (120 ∷ []) (port_or_default []) in
    ((address_resolve names (120 ∷ []) [] [] ≡ some (address_error, []))
      × ((address : List ℕ) → found ≡ some address → 30 < length address))
    ⊎ ((address : List ℕ) × (bytes : List ℕ) × (found ≡ some address)
        × (address_resolve names (120 ∷ []) [] [] ≡ some (udp_ok, bytes))
        × (length bytes ≡ address_size)
        × (sent_to bytes ≡ address))
address_resolve_lem_example = address_resolve_lem names (120 ∷ []) [] []

free_connection-poll_initial_example :
    (polled : Net) × (freed : Net) × (poll_initial 1024 200000 one_client
      ≡ some (minus_one, polled))
    × (free_connection 1024 polled ≡ some freed)
    × (freed.conns 1024 ≡ none)
    × (freed.payloads.heap 512 ≡ some packet)
unfolding Vec.init
free_connection-poll_initial_example =
    free_connection-poll_initial one_client 1024 200000 (new_connection 512) packet
      one_client-IsOpened.begins refl (omega arith) refl (omega arith) refl (omega arith)
      (omega arith)

-- The connection after its first poll, with one hold more on its packet.
abbrev polled : Net
polled = record one_client {
  conns =
      put (put one_client.conns 1024 (some (record (new_connection 512) { state = Phase.initial })))
        1024
        (some (record (new_connection 512) {
          state = Phase.initial;
          last_transmit = 200000;
          ntransmit = 1;
        }));
  payloads = record world { heap = update world.heap 512 (some (record packet { refcount = 2 })) };
}

polls : poll_preconnect 1024 200000 one_client ≡ some (minus_one, polled)
unfolding Vec.init poll_preconnect poll_initial retransmit payload_hold hold_live
polls = refl

Reach-IsSound_example : IsSound polled
Reach-IsSound_example = Reach-IsSound settings address_at world polled (
    then_step
      (then_step here
        (by_connect none (some 1024) 1 2048 512 1024 (omega arith, refl) few opens_at_1024))
      (by_preconnect 1024 200000 minus_one polls))
