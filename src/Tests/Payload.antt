-- ===== src/Tests/Payload.antt =====
-- A payload at address 64, owned by the server parameters at address 8.
use onyxnet.Prelude.{suc, ◌≡◌, inl, some, none, List, [], ◌∷◌, ◌++◌, arith, replicate}
use onyxnet.Memory.{◌>>=◌}
use onyxnet.Payload.{World, payload_new}
use onyxnet.Payload.Life.{Op, hold, release, held, pinned, gone, live_through, life_of, apply_all}
use onyxnet.Payload.Laws.{shown, apply_all-live_through}
use onyxnet.Payload.Balance.{new-balanced, new-pinned}

abbrev empty : World
empty = record { heap = λ p. none; reports = [] }

abbrev session : List Op
session = hold ∷ release ∷ release ∷ []

abbrev one : World
one = record {
  heap = λ p. some (record {
    room = 1200;
    content = [];
    size = 0;
    refcount = 1;
    app_id = 0;
    app_version = 0;
    server = 8;
    client = 0;
  });
  reports = [];
}

apply_all-live_through_example :
    apply_all 64 session one >>= shown 64 ≡ live_through session (life_of (one.heap 64))
apply_all-live_through_example =
    apply_all-live_through 64 session one
      (record { some_holder = omega arith; in_word = omega arith; owned = inl (omega arith) })

new-balanced_example :
    (payload_new (some 64) 1200 8 0 empty
        >>= (λ r. apply_all r.0 (replicate 3 hold ++ replicate 3 release) r.1 >>= shown r.0)
      ≡ some (held 1))
    × (payload_new (some 64) 1200 8 0 empty
          >>= (λ r. apply_all r.0 (replicate 3 hold ++ replicate (suc 3) release) r.1 >>= shown r.0)
        ≡ some gone)
new-balanced_example = new-balanced 64 1200 8 0 empty (inl (omega arith)) 3 (omega arith)

new-pinned_example :
    payload_new (some 64) 1200 8 0 empty
      >>= (λ r. apply_all r.0 (replicate 0xfffe hold ++ session) r.1 >>= shown r.0)
    ≡ some pinned
new-pinned_example = new-pinned 64 1200 8 0 empty (inl (omega arith)) 0xfffe session (omega arith)
