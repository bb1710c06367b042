-- ===== src/HashTable/Ideal/Refine.antt =====
-- A table answers every call as the map does, and goes on to stand for it.
use onyxnet.Prelude.{
  ℕ, ◌+◌, ◌<◌, ◌^◌, ◌≡◌, refl, sym, ap, Bool, some, List, [], ◌∷◌, length, none-ne-some, arith, ◌%◌,
  ◌==◌,
}
use onyxnet.HashTable.{init, Funcs, Table}
use onyxnet.HashTable.Chain.Laws.{IsKeyed}
use onyxnet.HashTable.Life.{init_lem}
use onyxnet.HashTable.Ideal.{
  no_entries, Ideal, Op, found, assigned, removed, call, calls, answer, answers,
}
use onyxnet.HashTable.Ideal.Represents.{Represents, alike, entry_of}
use onyxnet.HashTable.Ideal.Answers.{Answers, find-Answers, remove-Answers}
use onyxnet.HashTable.Ideal.Assigns.{room-Answers}

module _ {K : Type 0} (memory : ℕ → K) (f : Funcs K) (size : ℕ) (by_pointer : Bool) where
  call-Answers :
      (o : Op) (t : Table K) (m : Ideal K)
      → Represents memory f size by_pointer t m
      → t.item_count + 1 < 2 ^ 64
      → Answers memory f size by_pointer t
          (call memory o t)
          (answer memory (alike memory f size by_pointer) by_pointer o m)
  unfolding call answer
  call-Answers (found p) t m r bound = find-Answers memory f size by_pointer t m p r
  call-Answers (removed p) t m r bound =
      remove-Answers memory f size by_pointer t m p r (omega arith)
  call-Answers (assigned p room fresh) t m r bound =
      room-Answers memory f size by_pointer m.used room t m p fresh r bound r.used

  calls-Represents :
      (os : List Op) (t : Table K) (m : Ideal K)
      → Represents memory f size by_pointer t m
      → t.item_count + length os < 2 ^ 64
      → let said = answers memory (alike memory f size by_pointer) by_pointer os m in
        (t' : Table K) × (calls memory os t ≡ some (said.0, t'))
        × Represents memory f size by_pointer t' said.1
  unfolding calls answers
  calls-Represents [] t m r bound = (t, refl, r)
  calls-Represents (o ∷ os) t m r bound =
      let (t1, step, r1, more) = call-Answers o t m r (omega arith) in
      let (t2, steps, r2) =
        calls-Represents os t1 (answer memory (alike memory f size by_pointer) by_pointer o m).1 r1
          (omega (arith, more)) in
      (t2, rw step (rw steps refl), r2)

  init-Represents :
      (flags : ℕ)
      → IsKeyed (λ (k : K). f.hash k size) (λ a b. f.same a b size)
      → (flags % 2 == 1) ≡ by_pointer
      → Represents memory f size by_pointer (init size flags f) no_entries
  unfolding init
  init-Represents flags keyed mode =
      let (valid, empty) = init_lem memory f size flags keyed in
      record {
        valid = valid;
        sized = refl;
        moded = mode;
        used = refl;
        holds = λ q. sym (ap (entry_of memory) (empty q));
        fits = λ q n e. absurd (none-ne-some (empty q) e);
        counts = refl;
      }

-- Any sequence of fewer than 2 ^ 64 calls on a new table, with functions that keep what their users
-- promise and whatever `malloc` answers to each: no call is a fault, each answers as the map that a user
-- sees, which copies its items or keeps their pointers as the flags say, and at the end the table is
-- valid and has the map's entries and count.
pub calls-answers :
    {K : Type 0} (memory : ℕ → K) (f : Funcs K) (size flags : ℕ) (os : List Op)
    → IsKeyed (λ (k : K). f.hash k size) (λ a b. f.same a b size)
    → length os < 2 ^ 64
    → let by_pointer = flags % 2 == 1 in
      let said = answers memory (alike memory f size by_pointer) by_pointer os no_entries in
      (t' : Table K) × (calls memory os (init size flags f) ≡ some (said.0, t'))
      × Represents memory f size by_pointer t' said.1
unfolding init
calls-answers memory f size flags os keyed few =
    calls-Represents memory f size (flags % 2 == 1) os (init size flags f) no_entries
      (init-Represents memory f size (flags % 2 == 1) flags keyed refl) (omega arith)
