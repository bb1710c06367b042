-- ===== src/HashTable/Ideal/Answers.antt =====
-- A table answers a search and a removal as the map does, and goes on to stand for it.
use onyxnet.Prelude.{
  ℕ, ◌+◌, ◌-◌, ◌≤◌, ◌<◌, ◌^◌, ◌≡◌, sym, ap, ◌∙◌, subst, Bool, Option, some, List, Option-cases, inl,
  inr, arith, ◌%◌, ◌==◌,
}
use onyxnet.Memory.{◌>>=◌}
use onyxnet.HashTable.{Funcs, Table}
use onyxnet.HashTable.Valid.{lookup, find-lookup}
use onyxnet.HashTable.Absent.{lookup-absent, removed_count}
use onyxnet.HashTable.Remove.{remove-IsRemoved}
use onyxnet.HashTable.Ideal.{Ideal, found, removed, pointer_of_entry, call, remove_over, answer}
use onyxnet.HashTable.Ideal.Represents.{
  Represents, alike, entry_of, pointer-entry_of, removed-Represents,
}

module _ {K : Type 0} (memory : ℕ → K) (f : Funcs K) (size : ℕ) (by_pointer : Bool) where
  -- One call, from a table to a table.
  abbrev pub Answers : Table K → Option (ℕ × Table K) → ℕ × Ideal K → Type 0
  Answers t called r =
      (t' : Table K) × (called ≡ some (r.0, t'))
      × Represents memory f size by_pointer t' r.1
      × (t'.item_count ≤ t.item_count + 1)

  pub find-Answers :
      (t : Table K) (m : Ideal K) (p : ℕ)
      → Represents memory f size by_pointer t m
      → Answers t
          (call memory (found p) t)
          (answer memory (alike memory f size by_pointer) by_pointer (found p) m)
  unfolding call answer
  find-Answers t m p r = (
    t,
    rw (find-lookup memory f t p r.valid) (
        ap (λ n. some (n, t))
          (pointer-entry_of memory f (lookup memory f t (memory p))
            ∙ sym (ap pointer_of_entry (r.holds (memory p))))),
    r,
    omega arith,
  )

  pub remove-Answers :
      (t : Table K) (m : Ideal K) (p : ℕ)
      → Represents memory f size by_pointer t m
      → t.item_count < 2 ^ 64
      → Answers t
          (call memory (removed p) t)
          (answer memory (alike memory f size by_pointer) by_pointer (removed p) m)
  unfolding call answer
  remove-Answers t m p r bound =
      let (result, freed, t', step, done) = remove-IsRemoved memory f t p r.valid bound in
      let pair =
        λ (x : ℕ × List ℕ × Table K). let y : Option (ℕ × Table K) = some (x.0, x.2) in y in
      let called : (n : ℕ) → result ≡ n → call memory (removed p) t ≡ some (n, t') =
        λ n e. ap (λ o. o >>= pair) step ∙ ap (λ k. some (k, t')) e in
      elim (Option-cases (lookup memory f t (memory p))) [
        | inl e ↦
            let zero_removed : result ≡ 0 = done.result_is ∙ ap removed_count e in
            let still =
              λ (q : K). done.holds q ∙ sym (lookup-absent memory f t (memory p) r.valid e q) in
            subst
              (λ o.
                Answers t (call memory (removed p) t)
                  (remove_over memory (alike memory f size by_pointer) by_pointer p o m))
              (sym (r.holds (memory p) ∙ ap (entry_of memory) e))
              (
                t',
                called 0 zero_removed,
                record {
                  valid = done.valid;
                  sized = done.same_size ∙ r.sized;
                  moded = ap (λ n. n % 2 == 1) done.same_flags ∙ r.moded;
                  used = done.same_use ∙ r.used;
                  holds = λ q. r.holds q ∙ sym (ap (entry_of memory) (still q));
                  fits = λ q n h. r.fits q n (sym (still q) ∙ h);
                  counts = omega (arith, done.counts, zero_removed, r.counts);
                },
                omega (arith, done.counts),
              )
        | inr (n, e) ↦
            let one_removed : result ≡ 1 = done.result_is ∙ ap removed_count e in
            subst
              (λ o.
                Answers t (call memory (removed p) t)
                  (remove_over memory (alike memory f size by_pointer) by_pointer p o m))
              (sym (r.holds (memory p) ∙ ap (entry_of memory) e))
              (
                t',
                called 1 one_removed,
                removed-Represents memory f size by_pointer t t' m p result (m.count - 1) freed r
                    done (omega (arith, done.counts, one_removed, r.counts)),
                omega (arith, done.counts),
              )
      ]
