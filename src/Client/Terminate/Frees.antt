-- ===== src/Client/Terminate/Frees.antt =====
-- Connections freed one after the other: every one is gone, and each first packet has one holder less.
use onyxnet.Prelude.{
  ℕ, ◌≡◌, ◌≢◌, refl, sym, ap, ◌∙◌, Bool, true, false, ◌||◌, Option, none, some, List, [], ◌∷◌, All,
  All-both, if◌then◌else◌, ◌==◌, ==_iff, Bool-cases, inl, inr, arith, none-ne-some, replicate,
}
use onyxnet.Memory.Heap.{put, put_other}
use onyxnet.Payload.{World, Payload}
use onyxnet.Payload.Life.{release, live_on, life_of}
use onyxnet.Payload.Laws.{IsCounted}
use onyxnet.Payload.Release.{release_lem, IsReleased}
use onyxnet.Client.{Connection, Net, address_size}
use onyxnet.Client.Disconnect.{free_connection-step}
use onyxnet.Client.Terminate.{free_each}

abbrev pub member : ℕ → List ℕ → Bool
member c [] = false
member c (d ∷ ds) = c == d || member c ds

-- No pointer is there twice.
abbrev pub Unrepeated : List ℕ → Type 0
Unrepeated [] = Unit
Unrepeated (c ∷ cs) = All (λ d. d ≢ c) cs × Unrepeated cs

-- Every connection has a first packet, which is in use and no other connection's, and an empty queue.
pub record IsHolding (net : Net) : Type 0 where
  pub given : (c : ℕ) (k : Connection) → net.conns c ≡ some k → k.conn_payload ≢ 0
  pub packet :
      (c : ℕ) (k : Connection)
      → net.conns c ≡ some k
      → (pl : Payload) × (net.payloads.heap k.conn_payload ≡ some pl) × IsCounted pl
  pub apart :
      (c d : ℕ) (k m : Connection)
      → net.conns c ≡ some k
      → net.conns d ≡ some m
      → c ≢ d
      → k.conn_payload ≢ m.conn_payload
  pub quiet : (c : ℕ) (k : Connection) → net.conns c ≡ some k → k.outgoing.item_count ≡ 0

-- What is left of a client when the connections `cs` have been freed.
pub record IsFreed (cs : List ℕ) (net net' : Net) : Type 0 where
  pub gone : (d : ℕ) → net'.conns d ≡ (if member d cs then none else net.conns d)
  pub released :
      (d : ℕ) (k : Connection) (pl : Payload)
      → member d cs ≡ true
      → net.conns d ≡ some k
      → net.payloads.heap k.conn_payload ≡ some pl
      → live_on release (life_of (some pl)) ≡ some (life_of (net'.payloads.heap k.conn_payload))
  pub elsewhere :
      (q : ℕ)
      → ((d : ℕ) (k : Connection) → net.conns d ≡ some k → q ≢ k.conn_payload)
      → net'.payloads.heap q ≡ net.payloads.heap q
  pub silent : net'.payloads.reports ≡ net.payloads.reports
  pub same_table : net'.connections ≡ net.connections
  pub same_calls : net'.calls ≡ net.calls

none_either {ℓ} :
    {A : Type ℓ} (b b' : Bool) (o : Option A)
    → (if b' then none else (if b then none else o)) ≡ (if b || b' then none else o)
none_either true true o = refl
none_either true false o = refl
none_either false b' o = refl

module _ (net : Net) (c : ℕ) (k : Connection) (pl : Payload) (w : World) (holding : IsHolding net)
    (there : net.conns c ≡ some k) (here : net.payloads.heap k.conn_payload ≡ some pl)
    (done : IsReleased k.conn_payload pl net.payloads w) where
  abbrev pub left : Net
  left = record net {
    conns = put net.conns c none;
    bytes_at = put net.bytes_at c (replicate address_size 0xff);
    payloads = w;
  }

  -- A connection that is left was there, and is another one.
  pub left_other :
      (d : ℕ) (m : Connection) → left.conns d ≡ some m → (d ≢ c) × (net.conns d ≡ some m)
  left_other d m e = elim (Bool-cases (d == c)) [
    | inl same ↦ absurd (none-ne-some (ap (λ b. if b then none else net.conns d) same) e)
    | inr other ↦ (
      λ eq. absurd (ground (arith, other, (==_iff d c).1 eq)),
      sym (ap (λ b. if b then none else net.conns d) other) ∙ e,
    )
  ]

  -- Its first packet is as it was.
  left_packet :
      (d : ℕ) (m : Connection)
      → left.conns d ≡ some m
      → w.heap m.conn_payload ≡ net.payloads.heap m.conn_payload
  left_packet d m e =
      let (ne, old) = left_other d m e in
      done.elsewhere m.conn_payload (holding.apart d c m k old there ne)

  pub left-IsHolding : IsHolding left
  left-IsHolding = record {
    given = λ d m e. holding.given d m (left_other d m e).1;
    packet = λ d m e.
        let (pl', before, counted) = holding.packet d m (left_other d m e).1 in
        (pl', left_packet d m e ∙ before, counted);
    apart = λ d d' m m' e e' ne.
        holding.apart d d' m m' (left_other d m e).1 (left_other d' m' e').1 ne;
    quiet = λ d m e. holding.quiet d m (left_other d m e).1;
  }

  -- The others freed as well.
  pub left-IsFreed : (cs : List ℕ) (net' : Net) → IsFreed cs left net' → IsFreed (c ∷ cs) net net'
  left-IsFreed cs net' rest = record {
    gone = λ d. rest.gone d ∙ none_either (d == c) (member d cs) (net.conns d);
    released = λ d m pl' is e before. elim (Bool-cases (d == c)) [
      | inl same ↦
          let d_c : d ≡ c = (==_iff d c).0 same in
          let k_m : k ≡ m = ground (arith, sym there ∙ sym (ap net.conns d_c) ∙ e) in
          ap (λ o. live_on release (life_of o))
            (sym before
              ∙ ap (λ (k : Connection). net.payloads.heap k.conn_payload) (sym k_m)
              ∙ here)
          ∙ done.promised
          ∙ ap (λ o. some (life_of o))
              (sym (
                  rest.elsewhere k.conn_payload (λ d m e.
                    let (ne, old) = left_other d m e in
                    holding.apart c d k m there old (λ eq. ne (sym eq))))
                ∙ ap (λ (k : Connection). net'.payloads.heap k.conn_payload) k_m)
      | inr other ↦
          let ne : d ≢ c = λ eq. absurd (ground (arith, other, (==_iff d c).1 eq)) in
          let stays = put_other net.conns c none d ne ∙ e in
          rest.released d m pl' (ground (arith, is, other)) stays (left_packet d m stays ∙ before)
    ];
    elsewhere = λ q none_has.
        rest.elsewhere q (λ d m e. none_has d m (left_other d m e).1)
        ∙ done.elsewhere q (none_has c k there);
    silent = rest.silent ∙ done.silent;
    same_table = rest.same_table;
    same_calls = rest.same_calls;
  }

pub free_each-IsFreed :
    (cs : List ℕ) (net : Net)
    → IsHolding net
    → Unrepeated cs
    → All (λ c. (k : Connection) × (net.conns c ≡ some k)) cs
    → (net' : Net) × (free_each cs net ≡ some net') × IsFreed cs net net'
unfolding free_each
free_each-IsFreed [] net holding once there = (
  net,
  refl,
  record {
    gone = λ d. refl;
    released = λ d k pl is e before. absurd (ground (arith, is));
    elsewhere = λ q none_has. refl;
    silent = refl;
    same_table = refl;
    same_calls = refl;
  },
)
free_each-IsFreed (c ∷ cs) net holding once there =
    let (k, is) = there.0 in
    let (pl, here, counted) = holding.packet c k is in
    let (w, releases, done) = release_lem k.conn_payload pl net.payloads here counted in
    let rest =
      All-both cs
        (λ d other some_there. (some_there.0, put_other net.conns c none d other ∙ some_there.1))
        once.0 there.1 in
    let (net', frees, freed) =
      free_each-IsFreed cs (left net c k pl w holding is here done)
        (left-IsHolding net c k pl w holding is here done) once.1 rest in
    (
      net',
      rw (free_connection-step net c k w is (holding.given c k is) releases (holding.quiet c k is))
          frees,
      left-IsFreed net c k pl w holding is here done cs net' freed,
    )
