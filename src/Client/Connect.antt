-- ===== src/Client/Connect.antt =====
-- `udp_client_connect`.
use onyxnet.Prelude.{
  ℕ, zero, suc, ◌+◌, ◌^◌, ◌<◌, ◌≡◌, ◌≢◌, refl, ap, ◌∙◌, false, Option, none, some, [], ◌∷◌, ◌++◌,
  if◌then◌else◌, ◌==◌,
}
use onyxnet.Memory.{◌>>=◌}
use onyxnet.HashTable.{find}
use onyxnet.HashTable.Valid.{find-lookup}
use onyxnet.Payload.{World, Payload, report}
use onyxnet.Payload.Life.{release, live_on, life_of}
use onyxnet.Payload.Laws.{IsCounted}
use onyxnet.Payload.Release.{release_lem}
use onyxnet.Api.{invalid_argument}
use onyxnet.Client.{refuse, Net, Room, connection_funcs, open_connection, first_packet, connect}
use onyxnet.Client.Sound.{is_zero-ne, IsSound, connection_at}
use onyxnet.Client.Opened.{room_for, IsOpened, open_connection_lem}

first_packet-given :
    (fp : Option ℕ) (p : ℕ) (net : Net) → p ≢ 0 → first_packet fp p net ≡ some (p, net.payloads)
unfolding first_packet
first_packet-given fp zero net ne = absurd (ne refl)
first_packet-given fp (suc p) net ne = refl

-- `hash_table_find` for the client's table.
pub find-connection_at :
    (net : Net) (addr : ℕ)
    → IsSound net
    → find net.bytes_at net.connections addr ≡ some (connection_at net (net.bytes_at addr))
find-connection_at net addr sound =
    find-lookup net.bytes_at connection_funcs net.connections addr sound.valid

-- A connection to an address that has none, with a first packet from the caller and enough memory,
-- opens the connection.
pub connect_lem :
    (net : Net) (fp : Option ℕ) (addr p c a : ℕ)
    → IsSound net
    → connection_at net (net.bytes_at addr) ≡ 0
    → p ≢ 0
    → c ≢ 0
    → net.conns c ≡ none
    → net.connections.item_count + 1 < 2 ^ 64
    → (net' : Net) × (connect (room_for fp c a) addr p net ≡ some (c, net'))
      × IsOpened net net' (net.bytes_at addr) p c
unfolding connect
connect_lem net fp addr p c a sound free given real unused bound =
    let (net', opens, done) = open_connection_lem net fp addr p c a sound free real unused bound in
    (
      net',
      ap (λ o. o >>= after) (find-connection_at net addr sound ∙ ap (λ n. some n) free)
          ∙ ap
              (λ o. o >>= (λ r.
                open_connection (room_for fp c a) addr r.0 (record net { payloads = r.1 })))
              (first_packet-given fp p net given)
          ∙ opens,
      done,
    )
  where
    after : ℕ → Option (ℕ × Net)
    after old =
        if old == 0
        then first_packet fp p net
          >>= (λ r. open_connection (room_for fp c a) addr r.0 (record net { payloads = r.1 }))
        else refuse p net

-- A connection to an address that has one is refused: the result is 0, one error is reported, the
-- payload that was given, in use and with an owner, loses one holder, and the client with its
-- connections and every other payload are as before.
pub connect-refuse :
    (room : Room) (net : Net) (addr p : ℕ) (pl : Payload)
    → IsSound net
    → connection_at net (net.bytes_at addr) ≢ 0
    → p ≢ 0
    → net.payloads.heap p ≡ some pl
    → IsCounted pl
    → (w : World) × (connect room addr p net ≡ some (0, record net { payloads = w }))
      × (live_on release (life_of (some pl)) ≡ some (life_of (w.heap p)))
      × (w.reports
          ≡ net.payloads.reports
            ++ record {
              to = net.params.location;
              code = invalid_argument;
              text = "udp_client_connect(): already connecting to address";
            }
              ∷ [])
      × ((q : ℕ) → q ≢ p → w.heap q ≡ net.payloads.heap q)
unfolding connect refuse
connect-refuse room net addr p pl sound taken given here counted =
    let busy : (connection_at net (net.bytes_at addr) == 0) ≡ false = is_zero-ne taken in
    let (w, step, done) =
      release_lem p pl
        (report net.params.location invalid_argument
          "udp_client_connect(): already connecting to address" net.payloads)
        here counted in
    (
      w,
      rw (find-connection_at net addr sound) (rw (busy, is_zero-ne given) (rw step refl)),
      done.promised,
      done.silent,
      done.elsewhere,
    )
