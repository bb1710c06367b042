-- ===== src/Payload/Laws.antt =====
-- The code keeps the promise of `Life` for every sequence of holds and releases.
use onyxnet.Prelude.{
  subst, ==_refl, ◌%◌, ◌^◌, ℕ, ◌+◌, ◌-◌, ◌≤◌, ◌<◌, ◌≢◌, ◌≡◌, refl, sym, ap, ◌∙◌, ◌⊎◌, inl, inr,
  Option, none, some, List, [], ◌∷◌, true, false, ltb, ◌==◌, Bool-cases, arith,
}
use Prim.Native.String.{String}
use onyxnet.Memory.{◌>>=◌}
use onyxnet.Payload.{
  drop_holder, report_to, Payload, World, update, pinned_count, complain, payload_release,
  payload_hold,
}
use onyxnet.Payload.Life.{Life, Op, hold, release, live_on, live_through, apply, apply_all, life_of}

-- A payload in use has at least one holder and an owner to complain to.
pub record IsCounted (pl : Payload) : Type 0 where
  pub some_holder : 0 < pl.refcount
  pub in_word : pl.refcount ≤ pinned_count
  pub owned : (pl.server ≢ 0) ⊎ (pl.client ≢ 0)

abbrev pub IsSound : Option Payload → Type 0
IsSound none = Unit {0}
IsSound (some pl) = IsCounted pl

abbrev pub shown : ℕ → World → Option Life
shown p w = some (life_of (w.heap p))

-- One operation on a sound cell: the code's outcome shows what the promise says, and stays sound.
abbrev Refines : ℕ → Op → World → Option Payload → Type 0
Refines p o w c =
    ((apply p o w ≡ none) × (live_on o (life_of c) ≡ none))
    ⊎ ((w' : World) × (apply p o w ≡ some w')
        × (live_on o (life_of c) ≡ some (life_of (w'.heap p)))
        × IsSound (w'.heap p))

complain_owned :
    (pl : Payload) (a b : String) (w : World)
    → (pl.server ≢ 0) ⊎ (pl.client ≢ 0)
    → (w' : World) × (complain pl a b w ≡ some w') × (w'.heap ≡ w.heap)
unfolding complain
complain_owned pl a b w owner = elim (Bool-cases (pl.server == 0)) [
  | inr yes_server ↦ (report_to pl.server a w, rw yes_server refl, refl)
  | inl no_server ↦
      let has_client : (pl.client == 0) ≡ false = ground (arith, no_server) in
      (report_to pl.client b w, rw (no_server, has_client) refl, refl)
]

pub update_self : (h : ℕ → Option Payload) (p : ℕ) (c : Option Payload) → update h p c p ≡ c
update_self h p c = rw (==_refl p)

hold-Refines :
    (p : ℕ) (w : World) (c : Option Payload) → w.heap p ≡ c → IsSound c → Refines p hold w c
unfolding apply payload_hold live_on life_of
hold-Refines p w none e s = inl (rw e refl, refl)
hold-Refines p w (some pl) e s = elim (Bool-cases (ltb pl.refcount pinned_count)) [
  | inl more ↦
      let next : Payload = record pl { refcount = (pl.refcount + 1) % 2 ^ 16 } in
      inr (
        record w { heap = update w.heap p (some next) },
        rw e (ground (arith, more)),
        ground (arith, more),
        subst IsSound (sym (update_self w.heap p (some next))) (record {
          some_holder = ground (arith, more);
          in_word = ground (arith, more);
          owned = s.owned;
        }),
      )
  | inr full ↦
      let (w', e', same) =
        complain_owned pl "udp_payload_hold(): payload refcount pinned (server)"
          "udp_payload_hold(): payload refcount pinned (client)" w s.owned in
      let last : (pl.refcount == pinned_count) ≡ true = ground (arith, full) in
      let used : (pl.refcount == 0) ≡ false = ground (arith, full) in
      inr (
        w',
        rw (e, used, full) e',
        rw (last, same, e) (rw last refl),
        subst IsSound (sym (ap (λ h. h p) same ∙ e)) s,
      )
]

release-Refines :
    (p : ℕ) (w : World) (c : Option Payload) → w.heap p ≡ c → IsSound c → Refines p release w c
unfolding apply payload_release drop_holder live_on life_of
release-Refines p w none e s = inl (rw e refl, refl)
release-Refines p w (some pl) e s = elim (Bool-cases (ltb pl.refcount pinned_count)) [
  | inl more ↦ elim (Bool-cases ((pl.refcount + 2 ^ 16 - 1) % 2 ^ 16 == 0)) [
    | inl last ↦ inr (
      record w { heap = update w.heap p none },
      rw e (ground (arith, more, last)),
      ground (arith, more, last),
      subst IsSound (sym (update_self w.heap p none)) tt,
    )
    | inr others ↦
        let next : Payload = record pl { refcount = (pl.refcount + 2 ^ 16 - 1) % 2 ^ 16 } in
        inr (
          record w { heap = update w.heap p (some next) },
          rw e (ground (arith, more, others)),
          ground (arith, more, others),
          subst IsSound (sym (update_self w.heap p (some next))) (record {
            some_holder = ground (arith, more, others);
            in_word = ground (arith, more, others);
            owned = s.owned;
          }),
        )
  ]
  | inr full ↦
      let last : (pl.refcount == pinned_count) ≡ true = ground (arith, full) in
      let used : (pl.refcount == 0) ≡ false = ground (arith, full) in
      inr (w, rw (e, used, full) refl, rw (last, e) (rw last refl), subst IsSound (sym e) s)
]

apply-Refines : (p : ℕ) (o : Op) (w : World) → IsSound (w.heap p) → Refines p o w (w.heap p)
apply-Refines p hold w s = hold-Refines p w (w.heap p) refl s
apply-Refines p release w s = release-Refines p w (w.heap p) refl s

-- From a payload with a holder and an owner, or none, any sequence of holds and releases does to the
-- heap what the promise says, faults included: the payload ends exactly when its last holder
-- releases it, is pinned from 0xffff holders on and never ends after that, and using it when it is
-- gone is a fault.
pub apply_all-live_through :
    (p : ℕ) (os : List Op) (w : World)
    → IsSound (w.heap p)
    → apply_all p os w >>= shown p ≡ live_through os (life_of (w.heap p))
unfolding apply_all live_through
apply_all-live_through p [] w s = refl
apply_all-live_through p (o ∷ os) w s = elim (apply-Refines p o w s) [
  | inl (fails, promised) ↦ rw (fails, promised) refl
  | inr (w', runs, promised, s') ↦ rw (runs, promised) (apply_all-live_through p os w' s')
]
