-- ===== src/Client/Poll/Leak.antt =====
-- Transmitting the first packet again never succeeds, and keeps its payload for ever.
use onyxnet.Prelude.{
  ℕ, ◌+◌, ◌-◌, ◌%◌, ◌^◌, ◌<◌, ◌≡◌, ◌≢◌, refl, ap, ◌∙◌, true, false, none, some, ltb, lt→ltb, ◌==◌,
  arith, replicate,
}
use onyxnet.Memory.Heap.{put, put_self}
use onyxnet.Payload.{
  Payload, World, update, pinned_count, payload_hold, hold_live, payload_release, release_live,
  drop_holder,
}
use onyxnet.Payload.Laws.{update_self}
use onyxnet.Client.{Connection, Net, free_connection, address_size}
use onyxnet.Client.Disconnect.{free_connection-step}
use onyxnet.Client.Poll.{add_size, minus_one, is_due, retransmit, retransmit_count, poll_initial}

-- Holding a payload that is not close to being pinned, and releasing it, changes nothing.
module _ (p : ℕ) (pl : Payload) (w : World) (here : w.heap p ≡ some pl)
    (some_holder : 0 < pl.refcount) (few : pl.refcount + 1 < pinned_count) where
  abbrev more : Payload
  more = record pl { refcount = (pl.refcount + 1) % 2 ^ 16 }

  abbrev after_hold : World
  after_hold = record w { heap = update w.heap p (some more) }

  holds : payload_hold p w ≡ some after_hold
  unfolding payload_hold hold_live
  holds =
      let used : (pl.refcount == 0) ≡ false = ground (arith, some_holder) in
      let below : ltb pl.refcount pinned_count ≡ true = ground (arith, few) in
      rw here (rw (used, below) refl)

  abbrev again : Payload
  again = record pl { refcount = ((pl.refcount + 1) % 2 ^ 16 + 2 ^ 16 - 1) % 2 ^ 16 }

  releases :
      payload_release p after_hold
      ≡ some (record w { heap = update (update w.heap p (some more)) p (some again) })
  unfolding payload_release release_live drop_holder
  releases =
      let used : ((pl.refcount + 1) % 2 ^ 16 == 0) ≡ false = ground (arith, some_holder, few) in
      let below : ltb ((pl.refcount + 1) % 2 ^ 16) pinned_count ≡ true = ground (arith, few) in
      let left : (((pl.refcount + 1) % 2 ^ 16 + 2 ^ 16 - 1) % 2 ^ 16 == 0) ≡ false =
        ground (arith, some_holder, few) in
      rw (update_self w.heap p (some more)) (rw (used, below, left) refl)

  same : again ≡ pl
  same =
      let n : ((pl.refcount + 1) % 2 ^ 16 + 2 ^ 16 - 1) % 2 ^ 16 ≡ pl.refcount =
        omega (arith, some_holder, few) in
      ap (λ r. record pl { refcount = r }) n

-- A connection that is due for a further transmission of its first packet, which is held by somebody
-- and far from being pinned: polling it returns -1, after which the connection is to be freed, and
-- freeing it leaves the packet as it was before the poll, with the connection's own hold still counted.
pub free_connection-poll_initial :
    (net : Net) (c now : ℕ) (k : Connection) (pl : Payload)
    → net.conns c ≡ some k
    → is_due now k ≡ true
    → k.ntransmit < retransmit_count
    → k.outgoing.item_count ≡ 0
    → k.conn_payload ≢ 0
    → net.payloads.heap k.conn_payload ≡ some pl
    → 0 < pl.refcount
    → pl.refcount + 1 < pinned_count
    → (polled : Net) × (freed : Net) × (poll_initial c now net ≡ some (minus_one, polled))
      × (free_connection c polled ≡ some freed)
      × (freed.conns c ≡ none)
      × (freed.payloads.heap k.conn_payload ≡ some pl)
unfolding poll_initial retransmit
free_connection-poll_initial net c now k pl there due early quiet given here some_holder few =
    let p = k.conn_payload in
    let k' : Connection = record k { last_transmit = now; ntransmit = add_size k.ntransmit 1 } in
    let polled = record net {
      conns = put net.conns c (some k');
      payloads = after_hold p pl net.payloads here some_holder few;
    } in
    let released = record net.payloads {
      heap =
          update (update net.payloads.heap p (some (more p pl net.payloads here some_holder few))) p
            (some (again p pl net.payloads here some_holder few));
    } in
    (
      polled,
      record polled {
        conns = put polled.conns c none;
        bytes_at = put polled.bytes_at c (replicate address_size 0xff);
        payloads = released;
      },
      rw there (
          rw (due, lt→ltb k.ntransmit retransmit_count early)
            (rw (holds p pl net.payloads here some_holder few) refl)),
      free_connection-step polled c k' released (put_self net.conns c (some k')) given
          (releases p pl net.payloads here some_holder few) quiet,
      put_self polled.conns c none,
      update_self (update net.payloads.heap p (some (more p pl net.payloads here some_holder few)))
            p (some (again p pl net.payloads here some_holder few))
          ∙ ap (λ m. some m) (same p pl net.payloads here some_holder few),
    )
