-- ===== src/Client/RoundTrip.antt =====
-- A connection that is opened and closed again.
use onyxnet.Prelude.{
  ◌⊎◌, ℕ, ◌+◌, ◌^◌, ◌<◌, ◌≡◌, ◌≢◌, sym, ap, ◌∙◌, subst, Bool, true, false, Option, none, some, List,
  if◌then◌else◌, ◌==◌, ==_iff, Bool-cases, inl, inr, arith,
}
use onyxnet.Api.{udp_ok}
use onyxnet.Payload.{Payload}
use onyxnet.Payload.Life.{release, live_on, life_of}
use onyxnet.Payload.Laws.{IsCounted}
use onyxnet.Client.{Net, same_bytes, connect, disconnect}
use onyxnet.Client.Sound.{IsSound, connection_at, same_bytes→eq}
use onyxnet.Client.Opened.{new_connection, room_for}
use onyxnet.Client.Connect.{connect_lem}
use onyxnet.Client.Disconnect.{disconnect_lem}

-- Opening a connection to an address that has none, with enough memory and a first packet in use, and
-- disconnecting it at once, whether or not the packet for that can be sent: both succeed, the client is
-- as well-formed as before, every address has the connection that it had, and so has every pointer; the
-- first packet has lost one holder.
pub disconnect-connect :
    (net : Net) (sends : Bool) (fp : Option ℕ) (addr p c a : ℕ) (pl : Payload)
    → IsSound net
    → connection_at net (net.bytes_at addr) ≡ 0
    → p ≢ 0
    → c ≢ 0
    → net.conns c ≡ none
    → net.connections.item_count + 1 < 2 ^ 64
    → net.payloads.heap p ≡ some pl
    → IsCounted pl
    → (opened : Net) × (closed : Net) × (connect (room_for fp c a) addr p net ≡ some (c, opened))
      × (disconnect sends c opened ≡ some (udp_ok, closed))
      × IsSound closed
      × ((q : List ℕ) → connection_at closed q ≡ connection_at net q)
      × ((d : ℕ) → closed.conns d ≡ net.conns d)
      × (live_on release (life_of (some pl)) ≡ some (life_of (closed.payloads.heap p)))
disconnect-connect net sends fp addr p c a pl sound free given real unused bound here counted =
    let key = net.bytes_at addr in
    let (opened, opens, o) = connect_lem net fp addr p c a sound free given real unused bound in
    let (closed, closes, g, r, calls) =
      disconnect_lem opened sends c (new_connection p) pl o.sound o.begins
        (subst (λ n. n < 2 ^ 64) (sym o.item_count_one_more) bound) given
        (ap (λ w. w.heap p) o.payloads_same ∙ here) counted in
    let back = λ (q : List ℕ) (b : (same_bytes q key ≡ true) ⊎ (same_bytes q key ≡ false)).
      elim b
        as (λ _. (if same_bytes q key then 0 else connection_at opened q) ≡ connection_at net q) [
          | inl same ↦ rw same (sym (ap (connection_at net) (same_bytes→eq q key same) ∙ free))
          | inr other ↦ rw other (o.found q ∙ ap (λ b. if b then c else connection_at net q) other)
        ] in
    let pointer = λ (d : ℕ) (b : (d == c ≡ true) ⊎ (d == c ≡ false)).
      elim b as (λ _. closed.conns d ≡ net.conns d) [
        | inl same ↦
            let e : d ≡ c = (==_iff d c).0 same in
            ap closed.conns e ∙ g.gone ∙ sym (ap net.conns e ∙ unused)
        | inr other ↦ let ne : d ≢ c = ground (arith, other) in g.others d ne ∙ o.others d ne
      ] in
    (
      opened,
      closed,
      opens,
      closes,
      g.sound,
      λ q.
          g.found q
          ∙ ap (λ k. if same_bytes q k then 0 else connection_at opened q) o.addressed
          ∙ back q (Bool-cases (same_bytes q key)),
      λ d. pointer d (Bool-cases (d == c)),
      r.promised,
    )
