-- ===== src/Payload/Release.antt =====
-- One release of a payload that is in use: what its holders see, and that nothing else changes.
use onyxnet.Prelude.{
  ◌+◌, ◌-◌, ◌%◌, ◌^◌, ℕ, ◌≡◌, ◌≢◌, refl, true, false, Option, none, some, ltb, ◌==◌, ==_iff,
  Bool-cases, inl, inr, arith,
}
use onyxnet.Payload.{
  Payload, World, update, pinned_count, drop_holder, release_live, payload_release,
}
use onyxnet.Payload.Life.{release, live_on, life_of}
use onyxnet.Payload.Laws.{IsCounted, update_self}

pub update_other :
    (h : ℕ → Option Payload) (p : ℕ) (c : Option Payload) (q : ℕ) → q ≢ p → update h p c q ≡ h q
update_other h p c q ne = elim (Bool-cases (q == p)) [
  | inl e ↦ absurd (ne ((==_iff q p).0 e))
  | inr e ↦ rw e refl
]

-- A release of the payload `pl` at `p` that does not fault and reports nothing.
pub record IsReleased (p : ℕ) (pl : Payload) (w w' : World) : Type 0 where
  pub promised : live_on release (life_of (some pl)) ≡ some (life_of (w'.heap p))
  pub silent : w'.reports ≡ w.reports
  pub elsewhere : (q : ℕ) → q ≢ p → w'.heap q ≡ w.heap q

module _ (p : ℕ) (pl : Payload) (w : World) (here : w.heap p ≡ some pl)
    (counted : IsCounted pl) where
  in_use : (pl.refcount == 0) ≡ false
  in_use = let pos = counted.some_holder in ground arith

  pub release_lem : (w' : World) × (payload_release p w ≡ some w') × IsReleased p pl w w'
  unfolding payload_release release_live drop_holder live_on life_of
  release_lem = elim (Bool-cases (ltb pl.refcount pinned_count)) [
    | inr pinned ↦
        let last : (pl.refcount == pinned_count) ≡ true = ground (arith, pinned, counted.in_word) in
        (
          w,
          rw (here, in_use, pinned) refl,
          record {
            promised = rw (last, here) (rw last refl);
            silent = refl;
            elsewhere = λ q ne. refl;
          },
        )
    | inl more ↦ elim (Bool-cases ((pl.refcount + 2 ^ 16 - 1) % 2 ^ 16 == 0)) [
      | inl last ↦ (
        record w { heap = update w.heap p none },
        rw (here, in_use, more, last) refl,
        record {
          promised = rw (update_self w.heap p none) (ground (arith, more, last));
          silent = refl;
          elsewhere = λ q ne. update_other w.heap p none q ne;
        },
      )
      | inr others ↦
          let next : Payload = record pl { refcount = (pl.refcount + 2 ^ 16 - 1) % 2 ^ 16 } in
          (
            record w { heap = update w.heap p (some next) },
            rw (here, in_use, more, others) refl,
            record {
              promised = rw (update_self w.heap p (some next)) (ground (arith, more, others));
              silent = refl;
              elsewhere = λ q ne. update_other w.heap p (some next) q ne;
            },
          )
    ]
  ]
