-- ===== src/Client/Thread.antt =====
-- `udp_client_run` and the loop of its thread. What `pthread_create` makes, what the loop reads of the
-- flag and what `udp_client_poll` returns are arguments.
use onyxnet.Prelude.{
  ℕ, ◌≡◌, refl, ap, Bool, true, false, ◌||◌, not, Option, none, some, List, [], ◌∷◌, ◌++◌, ◌==◌,
  if◌then◌else◌, Bool-cases, inl, inr,
}
use onyxnet.Api.{UdpErr, udp_ok, invalid_argument, io_error}

-- `running` and `thread` of a `udp_client_t`; a thread is a number, and 0 is none.
pub record Runner : Type 0 where
  pub running : Bool
  pub thread : ℕ

-- `udp_client_run`; the first argument is the thread that `pthread_create` makes, if it does.
unfoldable pub start : Option ℕ → Runner → UdpErr × Runner
start created client =
    if client.running || not (client.thread == 0)
    then (invalid_argument, client)
    else elim created [
      | none ↦ (io_error, record { running = false; thread = 0 })
      | some t ↦ (udp_ok, record { running = true; thread = t })
    ]

pub data Turn : Type 0 where
  polled slept : Turn

-- `udp_client_run_func`: what it does while `udp_client_poll` returns the given numbers. The flag is
-- read before each poll, and again after one that returns 0.
unfoldable pub turns : List ℕ → List Bool → List Turn
turns [] readings = []
turns (n ∷ polls) [] = []
turns (n ∷ polls) (false ∷ readings) = []
turns (n ∷ polls) (true ∷ readings) =
    let busy = turns polls readings in
    let idle : List Turn = elim readings [
      | [] ↦ []
      | again ∷ rest ↦ let more = turns polls rest in if again then slept ∷ more else more
    ] in
    polled ∷ (if n == 0 then idle else busy)

-- The flag as it is read through these polls while the client runs.
unfoldable pub set_through : List ℕ → List Bool → List Bool
set_through [] later = later
set_through (n ∷ polls) later =
    true ∷ (if n == 0 then true ∷ set_through polls later else set_through polls later)

-- A sleep after each poll that found nothing to do, and after no other.
unfoldable pub naps : List ℕ → List Turn
naps [] = []
naps (n ∷ polls) = polled ∷ (if n == 0 then slept ∷ naps polls else naps polls)

-- While the client runs, its thread sleeps after the polls that return 0 and only after these, and it
-- ends when the flag is cleared before a poll.
pub turns-naps :
    (polls more : List ℕ) (n : ℕ) (later : List Bool)
    → turns (polls ++ n ∷ more) (set_through polls (false ∷ later)) ≡ naps polls
unfolding turns set_through naps
turns-naps [] more n later = refl
turns-naps (p ∷ polls) more n later = elim (Bool-cases (p == 0)) [
  | inl idle ↦ rw idle (ap (λ r. polled ∷ slept ∷ r) (turns-naps polls more n later))
  | inr busy ↦ rw busy (ap (λ r. polled ∷ r) (turns-naps polls more n later))
]
