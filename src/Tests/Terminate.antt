-- ===== src/Tests/Terminate.antt =====
-- The end of the client with one connection.
use onyxnet.Prelude.{
  ℕ, ◌≡◌, ◌≢◌, refl, sym, ap, ◌∙◌, subst, Option, some, none, List, inl, inr, arith, if◌then◌else◌,
  ◌==◌, ==_iff, Bool-cases, none-ne-some,
}
use onyxnet.HashTable as Tab
use onyxnet.Client.{Connection, Net, terminate}
use onyxnet.Client.Opened.{new_connection}
use onyxnet.Client.Terminate.Frees.{IsHolding}
use onyxnet.Client.Terminate.Emptied.{IsTerminated, terminate_lem}
use onyxnet.Tests.Client.{one_client, one_client-IsOpened, packet, packet-IsCounted, world}

-- The one connection is at 1024, and holds the payload at 512.
only_at_1024 :
    (c : ℕ) (k : Connection) → one_client.conns c ≡ some k → (c ≡ 1024) × (new_connection 512 ≡ k)
unfolding Tab.init
only_at_1024 c k there = elim (Bool-cases (c == 1024)) [
  | inl same ↦ (
    (==_iff c 1024).0 same,
    ap (λ (o : Option Connection). elim o [ none ↦ k | some m ↦ m ])
        (sym (ap (λ b. if b then some (new_connection 512) else none) same) ∙ there),
  )
  | inr other ↦ absurd (
      none-ne-some refl
        (sym (ap (λ b. if b then some (new_connection 512) else none) other) ∙ there))
]

one_client-IsHolding : IsHolding one_client
one_client-IsHolding = record {
  given = λ c k there.
      let (_, is) = only_at_1024 c k there in
      subst (λ (k : Connection). k.conn_payload ≢ 0) is (omega arith);
  packet = λ c k there.
      let (_, is) = only_at_1024 c k there in
      (packet, ap (λ (k : Connection). world.heap k.conn_payload) (sym is), packet-IsCounted);
  apart = λ c d k m there there' ne.
      absurd (ne ((only_at_1024 c k there).0 ∙ sym (only_at_1024 d m there').0));
  quiet = one_client-IsOpened.sound.quiet;
}

terminate_lem_example :
    (nodes : List ℕ) × (net' : Net) × (terminate 2 one_client ≡ some (nodes, net'))
    × IsTerminated one_client nodes net'
terminate_lem_example = terminate_lem one_client one_client-IsOpened.sound one_client-IsHolding
