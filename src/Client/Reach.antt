-- ===== src/Client/Reach.antt =====
-- Every state of a client that a sequence of calls leads to.
use onyxnet.Prelude.{
  ℕ, ◌+◌, ◌^◌, ◌<◌, ◌≡◌, refl, sym, ap, ◌∙◌, subst, Bool, Option, none, some, List, [], ◌∷◌, ◌++◌,
  replicate, if◌then◌else◌, ◌==◌, none-ne-some,
}
use onyxnet.Memory.{◌>>=◌}
use onyxnet.Memory.Heap.{put}
use onyxnet.Api.{UdpErr, udp_ok, client_disconnected}
use onyxnet.HashTable.Remove.{remove-IsRemoved}
use onyxnet.Payload.{World, payload_release}
use onyxnet.Client.{
  Connection, Net, ClientParams, connection_funcs, address_size, on_disconnect, connect, disconnect,
  remove_connection, free_connection, release_slots,
}
use onyxnet.Client.Sound.{IsSound}
use onyxnet.Client.Gone.{gone_lem, result_one}
use onyxnet.Client.Disconnect.{farewell, after_sending, remove_connection-step}
use onyxnet.Client.Setup.{new_client}
use onyxnet.Client.Setup.Laws.{new_client_lem}
use onyxnet.Client.Poll.{Verdict, poll_initial, poll_preconnect}
use onyxnet.Client.Poll.Kept.{poll_initial-IsSound, poll_preconnect-IsSound}
use onyxnet.Client.Steps.{room_of, IsUnused, some_second, connect-IsSound}

-- A call that succeeds and what it leaves. The table gets the memory that it needs; without it an
-- assertion fails.
pub data Step : Net → Net → Type 0 where
  by_connect :
      {net net' : Net} (fp place : Option ℕ) (addr a p r : ℕ)
      → IsUnused net place
      → net.connections.item_count + 1 < 2 ^ 64
      → connect (room_of fp place a) addr p net ≡ some (r, net')
      → Step net net'
  by_disconnect :
      {net net' : Net} (sends : Bool) (c : ℕ)
      → net.connections.item_count < 2 ^ 64
      → disconnect sends c net ≡ some (udp_ok, net')
      → Step net net'
  by_initial :
      {net net' : Net} (c now : ℕ) (v : Verdict)
      → poll_initial c now net ≡ some (v, net')
      → Step net net'
  by_preconnect :
      {net net' : Net} (c now : ℕ) (v : Verdict)
      → poll_preconnect c now net ≡ some (v, net')
      → Step net net'

pub data Reach : Net → Net → Type 0 where
  here : {net : Net} → Reach net net
  then_step : {net made net' : Net} → Reach net made → Step made net' → Reach net net'

-- What a successful end of a chain of releases says of the result.
last_of :
    (o : Option World) (G : World → Net) (net' : Net)
    → o >>= (λ w. some (G w)) ≡ some net'
    → (w : World) × (G w ≡ net')
last_of none G net' e = absurd (none-ne-some refl e)
last_of (some w) G net' e = (w, ap (λ (o : Option Net). elim o [ none ↦ G w | some n ↦ n ]) e)

released_of :
    (o : Option World) (h : World → Option World) (G : World → Net) (net' : Net)
    → o >>= (λ w. h w >>= (λ w'. some (G w'))) ≡ some net'
    → (w : World) × (G w ≡ net')
released_of none h G net' e = absurd (none-ne-some refl e)
released_of (some w) h G net' e = last_of (h w) G net' e

free_connection-freed :
    (c : ℕ) (k : Connection) (net net' : Net)
    → net.conns c ≡ some k
    → free_connection c net ≡ some net'
    → (w : World) × (record net {
      conns = put net.conns c none;
      bytes_at = put net.bytes_at c (replicate address_size 0xff);
      payloads = w;
    }
        ≡ net')
unfolding free_connection
free_connection-freed c k net net' there e =
    let left = λ (w : World). record net {
      conns = put net.conns c none;
      bytes_at = put net.bytes_at c (replicate address_size 0xff);
      payloads = w;
    } in
    let first = λ (m : Connection).
      if m.conn_payload == 0
      then some net.payloads
      else payload_release m.conn_payload net.payloads in
    released_of (first k) (release_slots k.outgoing.item_count 0 k.outgoing) left net' (
      sym (
        ap
          (λ o. o >>= (λ m. first m >>= (λ w.
            release_slots m.outgoing.item_count 0 m.outgoing w >>= (λ w'. some (left w')))))
          there)
      ∙ e)

success :
    {A : Type 0} (o : Option A) (a : UdpErr × A)
    → o >>= (λ n. some (udp_ok, n)) ≡ some a
    → o ≡ some a.1
success none a e = absurd (none-ne-some refl e)
success (some n) a e = ap (λ m. some m) (some_second udp_ok a.0 n a.1 e)

-- `udp_client_disconnect` once the connection has been read.
leave : Bool → ℕ → Net → Option (UdpErr × Net)
leave sends c net =
    remove_connection c
      (record net { payloads = after_sending sends net; calls = net.calls ++ farewell net c ∷ [] })
    >>= (λ removed. free_connection c removed >>= (λ freed. some (udp_ok, freed)))

disconnect-IsSound :
    (sends : Bool) (c : ℕ) (o : Option Connection) (net net' : Net)
    → IsSound net
    → net.conns c ≡ o
    → net.connections.item_count < 2 ^ 64
    → disconnect sends c net ≡ some (udp_ok, net')
    → IsSound net'
unfolding disconnect leave
disconnect-IsSound sends c none net net' sound there bound e =
    absurd (none-ne-some (ap (λ o. o >>= (λ (k : Connection). leave sends c net)) there) e)
disconnect-IsSound sends c (some k) net net' sound there bound e =
    let (result, freed, t', step, done) =
      remove-IsRemoved net.bytes_at connection_funcs net.connections c sound.valid bound in
    let one = result_one net c k sound there bound t' result freed done in
    let calls = net.calls ++ farewell net c ∷ [] ++ on_disconnect c client_disconnected ∷ [] in
    let removed =
      remove_connection-step
        (record net {
          payloads = after_sending sends net;
          calls = net.calls ++ farewell net c ∷ [];
        })
        c result freed t' step one in
    let (w, is) =
      free_connection-freed c k
        (record net { connections = t'; payloads = after_sending sends net; calls = calls }) net'
        there
        (success _ (udp_ok, net')
          (sym
              (ap (λ o. o >>= (λ n. free_connection c n >>= (λ left. some (udp_ok, left)))) removed)
            ∙ sym (ap (λ o. o >>= (λ (k : Connection). leave sends c net)) there)
            ∙ e)) in
    subst IsSound is (gone_lem net c k sound there bound t' result freed done w calls).sound

Step-IsSound : (net net' : Net) → IsSound net → Step net net' → IsSound net'
Step-IsSound net net' sound (by_connect fp place addr a p r unused bound e) =
    connect-IsSound fp place addr a p net r net' sound unused bound e
Step-IsSound net net' sound (by_disconnect sends c bound e) =
    disconnect-IsSound sends c (net.conns c) net net' sound refl bound e
Step-IsSound net net' sound (by_initial c now v e) =
    poll_initial-IsSound c now (net.conns c) net v net' sound refl e
Step-IsSound net net' sound (by_preconnect c now v e) =
    poll_preconnect-IsSound c now (net.conns c) net v net' sound refl e

-- Whatever sequence of calls a new client has gone through, none of them a fault, its table has exactly
-- the connections that it has, each under its address, and no queue has anything in it. The calls are
-- connecting, disconnecting, and the polls of a connection that is not yet connected; there is memory
-- for what the table needs, but perhaps not for a connection, which gets an address that none has,
-- and the count of the table stays below 2 ^ 64.
pub Reach-IsSound :
    (params : ClientParams) (bytes_at : ℕ → List ℕ) (w : World) (net : Net)
    → Reach (new_client params bytes_at w) net
    → IsSound net
Reach-IsSound params bytes_at w net here = (new_client_lem params bytes_at w).0
Reach-IsSound params bytes_at w net (then_step {made = made} before step) =
    Step-IsSound made net (Reach-IsSound params bytes_at w made before) step
