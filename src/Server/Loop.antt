-- ===== src/Server/Loop.antt =====
-- The loop of the server's thread.
use onyxnet.Prelude.{ℕ, zero, suc, ◌≡◌, refl, ap, Bool, true, false, List, [], ◌∷◌, ◌++◌}
use onyxnet.Server.{Step, polled, slept, run_loop}

-- `n` times a poll and a sleep.
unfoldable pub rounds : ℕ → List Step
rounds zero = []
rounds (suc n) = polled ∷ slept ∷ rounds n

-- What the loop reads in `n` rounds while the instance runs.
unfoldable pub running_for : ℕ → List Bool
running_for zero = []
running_for (suc n) = true ∷ true ∷ running_for n

-- While the instance runs, the loop sleeps after every poll. When it is stopped, the loop ends: at
-- once if the flag was cleared before a round, and after one more poll and no sleep if it was cleared
-- during the poll.
pub run_loop-rounds :
    (n : ℕ) (later : List Bool)
    → (run_loop (running_for n ++ false ∷ later) ≡ rounds n)
      × (run_loop (running_for n ++ true ∷ false ∷ false ∷ later) ≡ rounds n ++ polled ∷ [])
unfolding run_loop running_for rounds
run_loop-rounds zero later = (refl, refl)
run_loop-rounds (suc n) later =
    let (before, during) = run_loop-rounds n later in
    (ap (λ r. polled ∷ slept ∷ r) before, ap (λ r. polled ∷ slept ∷ r) during)
