-- ===== src/Tests/Server.antt =====
-- An instance on socket 5, for which every call succeeds, and one whose port is taken.
use onyxnet.Prelude.{ℕ, Option, List, ◌+◌, ◌≡◌, refl, true, false, some, none, [], ◌∷◌}
use onyxnet.Api.{socket_error}
use onyxnet.Server.{
  System, Params, initialize, open_instance, set_up, run, got_info, freed_info, got_block,
  freed_block, started, set_running, got_socket, reported,
}
use onyxnet.Server.Held.{
  at_rest, nothing_held, after_all, reports, present, obtained, initialize-Held,
}
use onyxnet.Server.Stages.{idle, runs}

abbrev good : System
good = record {
  resolves = λ p. true;
  has_memory = true;
  socket = some 5;
  unblocks = λ s. true;
  binds = λ s. true;
}

abbrev taken : System
taken = record good { binds = λ s. false }

abbrev asked : Params
asked = record { port = 0; max_payload_size = 0 }

abbrev made : Params
made = record { port = 4812; max_payload_size = 1200 }

initialized :
    initialize good asked
    ≡ (some (idle made 5), made, got_info ∷ got_block ∷ got_socket 5 ∷ freed_info ∷ [])
unfolding initialize open_instance set_up
initialized = refl

-- The socket is not closed.
port_taken : initialize taken asked ≡ (
  none,
  made,
  got_info
      ∷ got_block
      ∷ got_socket 5
      ∷ freed_info
      ∷ freed_block
      ∷ reported socket_error "udp_initialize(): bind() failed"
      ∷ [],
)
unfolding initialize open_instance set_up
port_taken = refl

initialize-Held_example :
    (after_all ((initialize taken asked).2) nothing_held
      ≡ some (at_rest (present ((initialize taken asked).0)) (obtained taken asked)))
    × (reports ((initialize taken asked).2) + present ((initialize taken asked).0) ≡ 1)
initialize-Held_example = initialize-Held taken asked

-- A thread cannot be made, then it can, and a third call is refused.
abbrev tries : List (Option ℕ)
tries = none ∷ some 77 ∷ some 78 ∷ []

run_three_times : runs tries (idle made 5) ≡ (
  record (idle made 5) { running = true; thread = 77 },
  set_running true ∷ set_running false ∷ set_running true ∷ started 77 ∷ [],
)
unfolding runs run
run_three_times = refl
