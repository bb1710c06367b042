-- ===== src/Payload/Balance.antt =====
-- Balanced use of a payload, and what 0xffff holders do to it.
use onyxnet.Prelude.{
  append-nil, subst, ℕ, zero, suc, ◌+◌, ◌≤◌, ◌<◌, ◌≢◌, ◌≡◌, refl, sym, ap, ◌∙◌, ◌⊎◌, inl, inr, some,
  List, [], ◌∷◌, ◌++◌, false, ◌==◌, Bool-cases, replicate, arith,
}
use onyxnet.Memory.{◌>>=◌}
use onyxnet.Payload.{World, pinned_count, payload_new}
use onyxnet.Payload.Life.{
  held, pinned, gone, Op, hold, release, live_on, live_through, apply_all, life_of,
}
use onyxnet.Payload.Laws.{IsSound, shown, apply_all-live_through, update_self}

-- As long as fewer than 0xffff hold, each hold counts.
live_through-holds :
    (n m : ℕ) (os : List Op)
    → m + n < pinned_count
    → live_through (replicate n hold ++ os) (held m) ≡ live_through os (held (m + n))
unfolding live_through live_on
live_through-holds zero m os h = ap (λ k. live_through os (held k)) (omega arith)
live_through-holds (suc n) m os h =
    let counted : (suc m == pinned_count) ≡ false = ground arith in
    rw counted (
      live_through-holds n (suc m) os (omega arith)
      ∙ ap (λ k. live_through os (held k)) (omega arith))

live_through-releases :
    (n m : ℕ) (os : List Op)
    → live_through (replicate n release ++ os) (held (suc m + n)) ≡ live_through os (held (suc m))
unfolding live_through live_on
live_through-releases zero m os = ap (λ k. live_through os (held k)) (omega arith)
live_through-releases (suc n) m os =
    let count : suc m + suc n ≡ suc (suc (m + n)) = omega arith in
    rw count (
      ap (λ k. live_through (replicate n release ++ os) (held k)) (omega arith)
      ∙ live_through-releases n m os)

live_through-pinned : (os : List Op) → live_through os pinned ≡ some pinned
unfolding live_through live_on
live_through-pinned [] = refl
live_through-pinned (hold ∷ os) = live_through-pinned os
live_through-pinned (release ∷ os) = live_through-pinned os

-- The hold that reaches 0xffff pins.
live_through-pin :
    (n m : ℕ) (os : List Op)
    → m < pinned_count
    → pinned_count ≤ m + n
    → live_through (replicate n hold ++ os) (held m) ≡ some pinned
unfolding live_through live_on
live_through-pin zero m os h full = absurd (omega arith)
live_through-pin (suc n) m os h full = elim (Bool-cases (suc m == pinned_count)) [
  | inl last ↦ rw last (rest n)
  | inr more ↦ rw more (live_through-pin n (suc m) os (ground (arith, more)) (omega arith))
]
  where
    rest : (k : ℕ) → live_through (replicate k hold ++ os) pinned ≡ some pinned
    rest k = live_through-pinned (replicate k hold ++ os)

replicate-suc {ℓ} : {A : Type ℓ} (n : ℕ) (a : A) → replicate (suc n) a ≡ replicate n a ++ (a ∷ [])
replicate-suc zero a = refl
replicate-suc (suc n) a = ap (λ as'. a ∷ as') (replicate-suc n a)

-- What the heap shows right after `udp_payload_new`.
module _ (p size server client : ℕ) (w : World) (owner : (server ≢ 0) ⊎ (client ≢ 0)) where
  new_then :
      (os : List Op)
      → payload_new (some p) size server client w >>= (λ r. apply_all r.0 os r.1 >>= shown r.0)
        ≡ live_through os (held 1)
  unfolding payload_new life_of
  new_then os =
      apply_all-live_through p os _ (
        subst IsSound (sym (update_self w.heap p _))
          (record { some_holder = omega arith; in_word = omega arith; owned = owner }))
      ∙ ap (λ c. live_through os (life_of c)) (update_self w.heap p _)

  -- A new payload with an owner, held n times more and released n + 1 times, is gone, and not
  -- before, as long as n + 1 is less than 0xffff: after n releases it is still held once.
  pub new-balanced :
      (n : ℕ)
      → n + 1 < pinned_count
      → (payload_new (some p) size server client w
            >>= (λ r. apply_all r.0 (replicate n hold ++ replicate n release) r.1 >>= shown r.0)
          ≡ some (held 1))
        × (payload_new (some p) size server client w >>= (λ r.
              apply_all r.0 (replicate n hold ++ replicate (suc n) release) r.1 >>= shown r.0)
            ≡ some gone)
  unfolding live_through live_on
  new-balanced n h = (
    new_then (replicate n hold ++ replicate n release)
        ∙ live_through-holds n 1 (replicate n release) (omega arith)
        ∙ ap (λ os. live_through os (held (1 + n))) (sym (append-nil (replicate n release)))
        ∙ releases [],
    new_then (replicate n hold ++ replicate (suc n) release)
        ∙ live_through-holds n 1 (replicate (suc n) release) (omega arith)
        ∙ ap (λ os. live_through os (held (1 + n))) (replicate-suc n release)
        ∙ releases (release ∷ []),
  )
    where
      releases :
          (os : List Op)
          → live_through (replicate n release ++ os) (held (1 + n)) ≡ live_through os (held 1)
      releases os = live_through-releases n 0 os

  -- A new payload held 0xfffe times more, or more often, is pinned: no sequence of holds and
  -- releases after that ends it or faults.
  pub new-pinned :
      (n : ℕ) (os : List Op)
      → pinned_count ≤ n + 1
      → payload_new (some p) size server client w
          >>= (λ r. apply_all r.0 (replicate n hold ++ os) r.1 >>= shown r.0)
        ≡ some pinned
  new-pinned n os h =
      new_then (replicate n hold ++ os) ∙ live_through-pin n 1 os (omega arith) (omega arith)
