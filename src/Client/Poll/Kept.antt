-- ===== src/Client/Poll/Kept.antt =====
-- A poll of a connection that is not yet connected leaves the client well-formed.
use onyxnet.Prelude.{
  ==_iff, ℕ, ◌≡◌, refl, sym, ap, ◌∙◌, subst, Option, none, some, ltb, if◌then◌else◌, ◌==◌,
  Bool-cases, none-ne-some, inl, inr,
}
use onyxnet.Memory.{◌>>=◌, add_size}
use onyxnet.Memory.Heap.{put, put_other}
use onyxnet.Payload.{World, payload_hold}
use onyxnet.Client.{Connection, Net, Phase}
use onyxnet.Client.Sound.{IsSound}
use onyxnet.Client.Steps.{some_second}
use onyxnet.Client.Poll.{
  Verdict, no_value, minus_one, retransmit_count, is_due, retransmit, poll_initial, poll_preconnect,
}

-- A connection whose queue stays as it is, and payloads.
module _ (net : Net) (c : ℕ) (k k' : Connection) (w : World) (sound : IsSound net)
    (there : net.conns c ≡ some k) (queue : k'.outgoing ≡ k.outgoing) where
  abbrev changed : ℕ → Option Connection
  changed = put net.conns c (some k')

  before :
      (d : ℕ) (m : Connection)
      → changed d ≡ some m
      → (m' : Connection) × (net.conns d ≡ some m') × (m.outgoing ≡ m'.outgoing)
  before d m e = elim (Bool-cases (d == c)) [
    | inl same ↦
        let this : some k' ≡ some m = sym (ap (λ b. if b then some k' else net.conns d) same) ∙ e in
        (
          k,
          ap net.conns ((==_iff d c).0 same) ∙ there,
          sym (
                ap (λ (o : Option Connection). elim o [ none ↦ k'.outgoing | some n ↦ n.outgoing ])
                  this)
              ∙ queue,
        )
    | inr other ↦ (m, sym (ap (λ b. if b then some k' else net.conns d) other) ∙ e, refl)
  ]

  still :
      (d : ℕ) (m : Connection) → net.conns d ≡ some m → (m' : Connection) × (changed d ≡ some m')
  still d m e = elim (Bool-cases (d == c)) [
    | inl same ↦ (k', ap (λ b. if b then some k' else net.conns d) same)
    | inr other ↦ (m, ap (λ b. if b then some k' else net.conns d) other ∙ e)
  ]

  changed-IsSound : IsSound (record net { conns = changed; payloads = w })
  changed-IsSound = record {
    valid = sound.valid;
    by_pointer = sound.by_pointer;
    stored = λ q n e.
        let of = sound.stored q n e in
        let (m, is) = still of.pointer of.connection of.there in
        record {
          pointer = of.pointer;
          connection = m;
          points = of.points;
          real = of.real;
          there = is;
        };
    known = λ d m e. sound.known d (before d m e).0 (before d m e).1;
    null_free =
        put_other net.conns c (some k') 0
          (λ e. none-ne-some sound.null_free (ap net.conns e ∙ there))
        ∙ sound.null_free;
    quiet = λ d m e.
        let (m', old, same) = before d m e in ap (λ v. v.item_count) same ∙ sound.quiet d m' old;
  }

module _ (c now : ℕ) where
  held-IsSound :
      (o : Option World) (k k' : Connection) (net : Net) (v v' : Verdict) (net' : Net)
      → IsSound net
      → net.conns c ≡ some k
      → k'.outgoing ≡ k.outgoing
      → ◌≡◌ {A = Option (Verdict × Net)}
          (o >>= (λ w. some (v, record net { conns = put net.conns c (some k'); payloads = w })))
          (some (v', net'))
      → IsSound net'
  held-IsSound none k k' net v v' net' sound there queue e = absurd (none-ne-some refl e)
  held-IsSound (some w) k k' net v v' net' sound there queue e =
      subst IsSound
        (some_second v v' (record net { conns = put net.conns c (some k'); payloads = w }) net' e)
        (changed-IsSound net c k k' w sound there queue)

  retransmit-IsSound :
      (k : Connection) (net : Net) (v : Verdict) (net' : Net)
      → IsSound net
      → net.conns c ≡ some k
      → retransmit c k now net ≡ some (v, net')
      → IsSound net'
  unfolding retransmit
  retransmit-IsSound k net v net' sound there e =
      elim (Bool-cases (ltb k.ntransmit retransmit_count)) [
        | inl early ↦
            held-IsSound (payload_hold k.conn_payload net.payloads) k
              (record k { last_transmit = now; ntransmit = add_size k.ntransmit 1 }) net minus_one v
              net' sound there refl (rw early at e)
        | inr late ↦
            held-IsSound (some net.payloads) k (record k { last_transmit = now }) net minus_one v
              net' sound there refl (rw late at e)
      ]

  pub poll_initial-IsSound :
      (o : Option Connection) (net : Net) (v : Verdict) (net' : Net)
      → IsSound net
      → net.conns c ≡ o
      → poll_initial c now net ≡ some (v, net')
      → IsSound net'
  unfolding poll_initial
  poll_initial-IsSound none net v net' sound there e = absurd (none-ne-some refl (rw there at e))
  poll_initial-IsSound (some k) net v net' sound there e = elim (Bool-cases (is_due now k)) [
    | inl due ↦ retransmit-IsSound k net v net' sound there (rw due at (rw there at e))
    | inr early ↦
        subst IsSound (some_second no_value v net net' (rw early at (rw there at e))) sound
  ]

  pub poll_preconnect-IsSound :
      (o : Option Connection) (net : Net) (v : Verdict) (net' : Net)
      → IsSound net
      → net.conns c ≡ o
      → poll_preconnect c now net ≡ some (v, net')
      → IsSound net'
  unfolding poll_preconnect
  poll_preconnect-IsSound none net v net' sound there e = absurd (none-ne-some refl (rw there at e))
  poll_preconnect-IsSound (some k) net v net' sound there e =
      let k' : Connection = record k { state = Phase.initial } in
      let begun : Net = record net { conns = put net.conns c (some k') } in
      poll_initial-IsSound (begun.conns c) begun v net'
        (changed-IsSound net c k k' net.payloads sound there refl) refl
        (sym (
            ap
              (λ (o : Option Connection). o >>= (λ m. poll_initial c now (record net {
                conns = put net.conns c (some (record m { state = Phase.initial }));
              })))
              there)
          ∙ e)
