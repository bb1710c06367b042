-- ===== src/Server/Stages.antt =====
-- The server instance from `udp_initialize` over `udp_run` to `udp_terminate`.
use onyxnet.Prelude.{
  if◌then◌else◌, not, ℕ, ◌≡◌, refl, true, false, Option, none, some, List, [], ◌∷◌, ◌++◌, ◌==◌,
}
use onyxnet.Api.{udp_ok, invalid_argument, io_error}
use onyxnet.Server.{Params, Instance, Event, run}
use onyxnet.Server.Held.{Held}

-- An instance as `udp_initialize` makes it.
abbrev pub idle : Params → ℕ → Instance
idle q s = record { params = q; socket = s; running = false; thread = 0 }

abbrev Makes : Option Instance → Params → List ℕ → Type 0
Makes r q fds =
    (udp : Instance) → r ≡ some udp → (fds ≡ udp.socket ∷ []) × (udp ≡ idle q udp.socket)

-- What an instance holds between two calls: its block, its socket, and the thread if it has one.
abbrev pub held_by : Instance → Held
held_by udp = record {
  infos = 0;
  blocks = 1;
  sockets = udp.socket ∷ [];
  threads = if udp.thread == 0 then [] else udp.thread ∷ [];
  running = udp.running;
}

-- Calls of `udp_run`, each with the thread that `pthread_create` would make.
unfoldable pub runs : List (Option ℕ) → Instance → Instance × List Event
unfolding run
runs [] udp = (udp, [])
runs (created ∷ cs) udp =
    let r = run created udp in let rest = runs cs r.1 in (rest.0, r.2 ++ rest.1)

-- An instance runs while it has a thread.
abbrev IsConsistent : Instance → Type 0
IsConsistent udp = udp.running ≡ not (udp.thread == 0)

-- `udp_run` of an instance as `udp_initialize` makes it starts it exactly if a thread can be made, and
-- any further run is then refused and changes nothing; a thread that cannot be made leaves the instance
-- as it was.
pub run_lem :
    (q : Params) (s t : ℕ) (again : Option ℕ)
    → ((run none (idle q s)).0 ≡ io_error)
      × ((run none (idle q s)).1 ≡ idle q s)
      × ((run (some t) (idle q s)).0 ≡ udp_ok)
      × ((run (some t) (idle q s)).1 ≡ record (idle q s) { running = true; thread = t })
      × (run again ((run (some t) (idle q s)).1)
          ≡ (invalid_argument, (run (some t) (idle q s)).1, []))
unfolding run
run_lem q s t again = (refl, refl, refl, refl, refl)
