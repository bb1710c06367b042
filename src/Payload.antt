-- ===== src/Payload.antt =====
-- lib/onyxudp/payload.cpp: payloads counted by their holders. A pointer is a number, 0 is NULL, and
-- the heap says which payload lives at an address. `none` as a result is a fault: the code touched
-- an address with no payload, or called through a null owner.
pub mod Life
pub mod Laws
pub mod Balance
pub mod Release
use onyxnet.Prelude.{
  ℕ, ◌+◌, ◌-◌, ◌%◌, ◌^◌, Option, none, some, List, [], ◌∷◌, ◌++◌, ltb, ◌==◌, if◌then◌else◌,
}
use onyxnet.Memory.{◌>>=◌}
use onyxnet.Api.{UdpErr, invalid_argument, Report}
use Prim.Native.String.{String}

-- `udp_payload_t` with the `udp_payload_owner_t` behind it; `room` is the size of the data area, and
-- `content` what has been written from its start.
pub record Payload : Type 0 where
  pub room : ℕ
  pub content : List ℕ
  pub size : ℕ
  pub refcount : ℕ
  pub app_id : ℕ
  pub app_version : ℕ
  pub server : ℕ
  pub client : ℕ

pub record World : Type 0 where
  pub heap : ℕ → Option Payload
  pub reports : List Report

abbrev pub update : (ℕ → Option Payload) → ℕ → Option Payload → ℕ → Option Payload
update h p c q = if q == p then c else h q

-- One call of `on_error`
abbrev pub report : ℕ → UdpErr → String → World → World
report to code text w = record w {
  reports = w.reports ++ record { to = to; code = code; text = text } ∷ [];
}

abbrev pub report_to : ℕ → String → World → World
report_to to text w = report to invalid_argument text w

-- `owner->server->on_error(…)`, or the client's if there is no server.
unfoldable pub complain : Payload → String → String → World → Option World
complain pl for_server for_client w =
    if pl.server == 0
    then (if pl.client == 0 then none else some (report_to pl.client for_client w))
    else some (report_to pl.server for_server w)

-- `udp_payload_new`. `fresh` is what `malloc` returned; it is not tested before the block is cleared.
unfoldable pub payload_new : Option ℕ → ℕ → ℕ → ℕ → World → Option (ℕ × World)
payload_new none size server client w = none
payload_new (some p) size server client w = some (
  p,
  record w {
    heap = update w.heap p (
        some (record {
          room = size;
          content = [];
          size = 0;
          refcount = 1;
          app_id = 0;
          app_version = 0;
          server = server;
          client = client;
        }));
  },
)

-- `udp_payload_get` of an instance with the parameters at `server`, and `udp_client_payload_get`.
unfoldable pub payload_get : Option ℕ → ℕ → ℕ → World → Option (ℕ × World)
payload_get fresh max_payload_size server w = payload_new fresh max_payload_size server 0 w

unfoldable pub client_payload_get : Option ℕ → ℕ → ℕ → World → Option (ℕ × World)
client_payload_get fresh max_payload_size client w = payload_new fresh max_payload_size 0 client w

-- The refcount of a pinned payload
abbrev pub pinned_count : ℕ
pinned_count = 0xffff

-- `--payload->_refcount`, and the end of a payload that nobody holds any more
unfoldable pub drop_holder : ℕ → Payload → World → World
drop_holder p pl w =
    if (pl.refcount + 2 ^ 16 - 1) % 2 ^ 16 == 0
    then record w { heap = update w.heap p none }
    else record w {
      heap = update w.heap p (some (record pl { refcount = (pl.refcount + 2 ^ 16 - 1) % 2 ^ 16 }));
    }

-- `udp_payload_release`, from where the payload has been read
unfoldable pub release_live : ℕ → Payload → World → Option World
unfolding drop_holder
release_live p pl w =
    if pl.refcount == 0
    then complain pl "udp_payload_release(): invalid payload (server)"
        "udp_payload_release(): invalid payload (client)" w
    else if ltb pl.refcount pinned_count
    then some (drop_holder p pl w)
    else some w

unfoldable pub payload_release : ℕ → World → Option World
unfolding release_live
payload_release p w = w.heap p >>= (λ pl. release_live p pl w)

-- `udp_payload_hold`, from where the payload has been read
unfoldable pub hold_live : ℕ → Payload → World → Option World
hold_live p pl w =
    if pl.refcount == 0
    then complain pl "udp_payload_hold(): invalid payload (server)"
        "udp_payload_hold(): invalid payload (client)" w
    else if ltb pl.refcount pinned_count
    then some (record w {
      heap = update w.heap p (some (record pl { refcount = (pl.refcount + 1) % 2 ^ 16 }));
    })
    else complain pl "udp_payload_hold(): payload refcount pinned (server)"
        "udp_payload_hold(): payload refcount pinned (client)" w

unfoldable pub payload_hold : ℕ → World → Option World
unfolding hold_live
payload_hold p w = w.heap p >>= (λ pl. hold_live p pl w)
