-- ===== src/HashTable/Ideal/Assigns.antt =====
-- A table answers an assignment as the map does, and goes on to stand for it.
use onyxnet.Prelude.{
  ℕ, ◌+◌, ◌<◌, ◌^◌, ◌≡◌, refl, sym, ap, ◌∙◌, subst, Bool, true, false, ◌||◌, Option, none, some,
  if◌then◌else◌, Option-cases, inl, inr, arith,
}
use onyxnet.HashTable.{Funcs, Table, stored_for, assign}
use onyxnet.HashTable.Chain.{pointer_of}
use onyxnet.HashTable.Valid.{in_use, lookup, hash_of}
use onyxnet.HashTable.Written.{written, returned, counted_after}
use onyxnet.HashTable.Assign.{assign_lem}
use onyxnet.HashTable.Full.{assign-refused, assign-anyway, assign-no_chains, assign-used}
use onyxnet.HashTable.Ideal.{Ideal, assign_over}
use onyxnet.HashTable.Ideal.Represents.{
  Represents, alike, entry_of, Fits-pointer, stored_for-entry, assigned-Represents, kept-Represents,
}
use onyxnet.HashTable.Ideal.Answers.{Answers}

module _ {K : Type 0} (memory : ℕ → K) (f : Funcs K) (size : ℕ) (by_pointer : Bool) where
  -- An assignment when the chains are there, or there is room for them.
  assign-Answers :
      (t : Table K) (m : Ideal K) (p : ℕ) (fresh : Option ℕ)
      → Represents memory f size by_pointer t m
      → t.item_count + 1 < 2 ^ 64
      → Answers memory f size by_pointer t (assign memory true fresh t p) (
          assign_over memory
            (alike memory f size by_pointer)
            by_pointer
            p
            fresh
            (m.entries (memory p))
            m)
  assign-Answers t m p fresh r bound = elim (Option-cases (lookup memory f t (memory p))) [
    | inr (n, e) ↦
        let (result, t', step, done) = assign_lem memory f t p 0 r.valid bound in
        let own = pointer_of n.address n.stored in
        subst
          (λ o.
            Answers memory f size by_pointer t (assign memory true fresh t p)
              (assign_over memory (alike memory f size by_pointer) by_pointer p fresh o m))
          (sym (r.holds (memory p) ∙ ap (entry_of memory) e))
          (
            t',
            assign-anyway memory f t p n fresh 0 r.valid e
                ∙ step
                ∙ ap (λ k. some (k, t')) (done.result_is ∙ ap (returned memory t p 0) e),
            assigned-Represents memory f size by_pointer t t' m p 0 own result m.count
                (record n { stored = stored_for memory t p }) r done
                (ap (written memory t p 0 (hash_of memory f t (memory p))) e) refl
                (Fits-pointer memory by_pointer n.address n.stored (r.fits (memory p) n e))
                (done.counts ∙ ap (counted_after memory t.item_count) e ∙ r.counts),
            omega (arith, done.counts ∙ ap (counted_after memory t.item_count) e),
          )
    | inl e ↦
        subst
          (λ o.
            Answers memory f size by_pointer t (assign memory true fresh t p)
              (assign_over memory (alike memory f size by_pointer) by_pointer p fresh o m))
          (sym (r.holds (memory p) ∙ ap (entry_of memory) e)) (absent fresh e)
  ]
    where
      absent :
          (fresh : Option ℕ)
          → lookup memory f t (memory p) ≡ none
          → Answers memory f size by_pointer t
              (assign memory true fresh t p)
              (assign_over memory (alike memory f size by_pointer) by_pointer p fresh none m)
      absent none e =
          let (t', step, done) = assign-refused memory f t p r.valid e in
          (
            t',
            step,
            kept-Represents memory f size by_pointer t t' m r done,
            omega (arith, done.same_count),
          )
      absent (some a) e =
          let (result, t', step, done) = assign_lem memory f t p a r.valid bound in
          let (fits, pointer, key) =
            stored_for-entry memory by_pointer p a (a + 16) t r.moded (λ h. refl) in
          let more = done.counts ∙ ap (counted_after memory t.item_count) e in
          (
            t',
            step ∙ ap (λ k. some (k, t')) (done.result_is ∙ ap (returned memory t p a) e ∙ pointer),
            assigned-Represents memory f size by_pointer t t' m p a (a + 16) result (m.count + 1)
                (record {
                  address = a;
                  code = hash_of memory f t (memory p);
                  stored = stored_for memory t p;
                })
                r done (ap (written memory t p a (hash_of memory f t (memory p))) e) refl
                (λ h. refl) (more ∙ ap (λ n. n + 1) r.counts),
            omega (arith, more),
          )

  -- Any assignment.
  pub room-Answers :
      (used room : Bool) (t : Table K) (m : Ideal K) (p : ℕ) (fresh : Option ℕ)
      → Represents memory f size by_pointer t m
      → t.item_count + 1 < 2 ^ 64
      → in_use t.top ≡ used
      → Answers memory f size by_pointer t (assign memory room fresh t p) (
          if used || room
          then assign_over memory
              (alike memory f size by_pointer)
              by_pointer
              p
              fresh
              (m.entries (memory p))
              m
          else (0, m))
  room-Answers true room t m p fresh r bound e =
      subst
        (λ o. Answers memory f size by_pointer t o (
          assign_over memory (alike memory f size by_pointer) by_pointer p fresh
            (m.entries (memory p)) m))
        (sym (assign-used memory f room t p fresh e)) (assign-Answers t m p fresh r bound)
  room-Answers false true t m p fresh r bound e = assign-Answers t m p fresh r bound
  room-Answers false false t m p fresh r bound e =
      (t, assign-no_chains memory f t p fresh e, r, omega arith)
