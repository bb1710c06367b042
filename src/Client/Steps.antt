-- ===== src/Client/Steps.antt =====
-- What a client may come to by any sequence of calls.
use onyxnet.Prelude.{
  ℕ, ◌+◌, ◌^◌, ◌<◌, ◌≡◌, ◌≢◌, refl, sym, ap, ◌∙◌, subst, Bool, true, Option, none, some,
  if◌then◌else◌, ◌==◌, ==_iff, Bool-cases, none-ne-some, inl, inr,
}
use onyxnet.Memory.{◌>>=◌}
use onyxnet.Api.{invalid_argument, out_of_memory}
use onyxnet.Payload.{World, report, payload_release}
use onyxnet.Client.{Net, Room, connect, first_packet, open_connection, refuse, give_up}
use onyxnet.Client.Sound.{IsSound, connection_at}
use onyxnet.Client.Opened.{open_connection_lem}
use onyxnet.Client.Connect.{find-connection_at}
use onyxnet.Client.Greeting.{payloads-IsSound}

-- The memory that there is for a call of `udp_client_connect`: perhaps for a connection, at an address
-- that has none, and for what the table needs.
abbrev pub room_of : Option ℕ → Option ℕ → ℕ → Room
room_of fp place a = record { payload = fp; connection = place; chains = true; node = some a }

abbrev pub IsUnused : Net → Option ℕ → Type 0
IsUnused net none = Unit {0}
IsUnused net (some c) = (c ≢ 0) × (net.conns c ≡ none)

pub some_second :
    {A B : Type 0} (a c : A) (b d : B)
    → ◌≡◌ {A = Option (A × B)} (some (a, b)) (some (c, d))
    → b ≡ d
some_second {A} {B} a c b d e = ap (λ (o : Option (A × B)). elim o [ none ↦ b | some r ↦ r.1 ]) e

-- A call that only gives a payload away.
world-IsSound :
    (o : Option World) (net : Net) (r : ℕ) (net' : Net)
    → IsSound net
    → ◌≡◌ {A = Option (ℕ × Net)}
        (o >>= (λ w. some (0, record net { payloads = w })))
        (some (r, net'))
    → IsSound net'
world-IsSound none net r net' sound e = absurd (none-ne-some refl e)
world-IsSound (some w) net r net' sound e =
    subst IsSound (some_second 0 r (record net { payloads = w }) net' e)
      (payloads-IsSound net w sound)

refuse-IsSound :
    (p : ℕ) (net : Net) (r : ℕ) (net' : Net)
    → IsSound net
    → refuse p net ≡ some (r, net')
    → IsSound net'
unfolding refuse
refuse-IsSound p net r net' sound e =
    let w =
      report net.params.location invalid_argument
        "udp_client_connect(): already connecting to address" net.payloads in
    world-IsSound (if p == 0 then some w else payload_release p w) net r net' sound e

open_connection-IsSound :
    (fp place : Option ℕ) (addr a p : ℕ) (net : Net) (r : ℕ) (net' : Net)
    → IsSound net
    → connection_at net (net.bytes_at addr) ≡ 0
    → IsUnused net place
    → net.connections.item_count + 1 < 2 ^ 64
    → open_connection (room_of fp place a) addr p net ≡ some (r, net')
    → IsSound net'
unfolding open_connection give_up
open_connection-IsSound fp none addr a p net r net' sound free unused bound e =
    let w =
      report net.params.location out_of_memory "udp_client_connect(): malloc() failed"
        net.payloads in
    world-IsSound (payload_release p w) net r net' sound e
open_connection-IsSound fp (some c) addr a p net r net' sound free unused bound e =
    let (made, opens, done) =
      open_connection_lem net fp addr p c a sound free unused.0 unused.1 bound in
    subst IsSound (some_second c r made net' (sym opens ∙ e)) done.sound

module _ (fp place : Option ℕ) (addr a : ℕ) where
  packet-IsSound :
      (o : Option (ℕ × World)) (net : Net) (r : ℕ) (net' : Net)
      → IsSound net
      → connection_at net (net.bytes_at addr) ≡ 0
      → IsUnused net place
      → net.connections.item_count + 1 < 2 ^ 64
      → o >>= (λ q. open_connection (room_of fp place a) addr q.0 (record net { payloads = q.1 }))
        ≡ some (r, net')
      → IsSound net'
  packet-IsSound none net r net' sound free unused bound e = absurd (none-ne-some refl e)
  packet-IsSound (some q) net r net' sound free unused bound e =
      open_connection-IsSound fp place addr a q.0 (record net { payloads = q.1 }) r net'
        (payloads-IsSound net q.1 sound) free unused bound e

  pub connect-IsSound :
      (p : ℕ) (net : Net) (r : ℕ) (net' : Net)
      → IsSound net
      → IsUnused net place
      → net.connections.item_count + 1 < 2 ^ 64
      → connect (room_of fp place a) addr p net ≡ some (r, net')
      → IsSound net'
  unfolding connect
  connect-IsSound p net r net' sound unused bound e = elim (Bool-cases (found == 0)) [
    | inl free ↦
        packet-IsSound (first_packet fp p net) net r net' sound ((==_iff found 0).0 free) unused
          bound (sym (ap (λ (b : Bool). if b then opens else refuse p net) free) ∙ answer)
    | inr busy ↦
        refuse-IsSound p net r net' sound
          (sym (ap (λ (b : Bool). if b then opens else refuse p net) busy) ∙ answer)
  ]
    where
      found : ℕ
      found = connection_at net (net.bytes_at addr)

      opens : Option (ℕ × Net)
      opens =
          first_packet fp p net
          >>= (λ q. open_connection (room_of fp place a) addr q.0 (record net { payloads = q.1 }))

      answer : (if found == 0 then opens else refuse p net) ≡ some (r, net')
      answer =
          sym (
            ap (λ o. o >>= (λ (old : ℕ). if old == 0 then opens else refuse p net))
              (find-connection_at net addr sound))
          ∙ e
