-- ===== src/Client/Gone.antt =====
-- A connection that leaves the table and memory: what stays.
use onyxnet.Prelude.{
  none-ne-some, ℕ, ◌^◌, ◌<◌, ◌≡◌, ◌≢◌, refl, sym, ap, ◌∙◌, Option, none, some, List, [],
  if◌then◌else◌, ◌==◌, ==_iff, Bool-cases, Option-cases, inl, inr, arith, get_or, replicate,
}
use onyxnet.Memory.Heap.{put, put_other, put_self}
use onyxnet.HashTable.{Table}
use onyxnet.HashTable.Chain.{Node, key_of}
use onyxnet.HashTable.Chain.Laws.{found-key}
use onyxnet.HashTable.Valid.{lookup, pointer_or_null, home, chains_of, hash_of, same_of}
use onyxnet.HashTable.Frame.{lookup-frame, IsValid-frame}
use onyxnet.HashTable.Absent.{IsRemoved, removed_count}
use onyxnet.Payload.{World}
use onyxnet.Client.{Connection, Net, Call, same_bytes, connection_funcs, address_size}
use onyxnet.Client.Sound.{
  IsSound, IsOf, node_for, connection_at, nodes-Unmoved, same_bytes→eq, same_bytes_refl,
}

-- A search finds a node with the key.
lookup-key :
    (net : Net) (q : List ℕ) (n : Node (List ℕ))
    → IsSound net
    → node_for net q ≡ some n
    → q ≡ key_of net.bytes_at n.stored
unfolding lookup
lookup-key net q n sound e =
    let t = net.connections in
    let i = home (hash_of net.bytes_at connection_funcs t q) in
    same_bytes→eq q (key_of net.bytes_at n.stored) (
      found-key net.bytes_at (hash_of net.bytes_at connection_funcs t)
        (same_of net.bytes_at connection_funcs t) sound.valid.keyed q
        (get_or (chains_of t.top) i []) n (sound.valid.placed.coded i) e)

-- The connection `c` is gone from the table and from memory.
pub record IsGone (net net' : Net) (c : ℕ) : Type 0 where
  pub sound : IsSound net'
  pub found :
      (q : List ℕ)
      → connection_at net' q ≡ (if same_bytes q (net.bytes_at c) then 0 else connection_at net q)
  pub gone : net'.conns c ≡ none
  pub others : (d : ℕ) → d ≢ c → net'.conns d ≡ net.conns d

module _ (net : Net) (c : ℕ) (k : Connection) (sound : IsSound net) (there : net.conns c ≡ some k)
    (bound : net.connections.item_count < 2 ^ 64) where
  abbrev pub key : List ℕ
  key = net.bytes_at c

  abbrev pub t : Table (List ℕ)
  t = net.connections

  abbrev pub conns' : ℕ → Option Connection
  conns' = put net.conns c none

  abbrev pub bytes' : ℕ → List ℕ
  bytes' = put net.bytes_at c (replicate address_size 0xff)

  real : c ≢ 0
  real e = none-ne-some sound.null_free (sym (ap net.conns e) ∙ there)

  present : (n : Node (List ℕ)) × (node_for net key ≡ some n)
  present = elim (Option-cases (node_for net key)) [
    | inl absent ↦ absurd (
        real
          (sym (sound.known c k there) ∙ ap (pointer_or_null net.bytes_at connection_funcs) absent))
    | inr found ↦ found
  ]

  still : (d : ℕ) (m : Connection) → conns' d ≡ some m → (d ≢ c) × (net.conns d ≡ some m)
  still d m e = elim (Bool-cases (d == c)) [
    | inl same ↦ absurd (none-ne-some (ap (λ b. if b then none else net.conns d) same) e)
    | inr other ↦ (
      λ eq. absurd (ground (arith, other, (==_iff d c).1 eq)),
      sym (ap (λ b. if b then none else net.conns d) other) ∙ e,
    )
  ]

  module _ (t' : Table (List ℕ)) (result : ℕ) (freed : List ℕ)
      (done : IsRemoved net.bytes_at connection_funcs t t' c result freed) where
    pub result_one : result ≡ 1
    result_one = done.result_is ∙ ap removed_count present.1

    -- A node that is still found is another connection's.
    left :
        (q : List ℕ) (n : Node (List ℕ))
        → lookup net.bytes_at connection_funcs t' q ≡ some n
        → IsOf conns' n
    left q n e = elim (Bool-cases (same_bytes q key)) [
      | inl same ↦ absurd (
          none-ne-some (ap (λ b. if b then none else node_for net q) same) (sym (done.holds q) ∙ e))
      | inr other ↦
          let before : node_for net q ≡ some n =
            sym (ap (λ b. if b then none else node_for net q) other) ∙ sym (done.holds q) ∙ e in
          let of = sound.stored q n before in
          let apart : of.pointer ≢ c = λ eq.
            let q_key : q ≡ key =
              lookup-key net q n sound before
              ∙ ap (key_of net.bytes_at) of.points
              ∙ ap net.bytes_at eq in
            absurd (ground (arith, other, ap (same_bytes q) q_key, same_bytes_refl q)) in
          record {
            pointer = of.pointer;
            connection = of.connection;
            points = of.points;
            real = of.real;
            there = put_other net.conns c none of.pointer apart ∙ of.there;
          }
    ]

    unmoved : (d : ℕ) (m : Connection) → conns' d ≡ some m → bytes' d ≡ net.bytes_at d
    unmoved d m e = put_other net.bytes_at c (replicate address_size 0xff) d ((still d m e).0)

    module _ (w : World) (calls : List Call) where
      abbrev pub net' : Net
      net' = record net {
        connections = t';
        conns = conns';
        bytes_at = bytes';
        payloads = w;
        calls = calls;
      }

      finds : (q : List ℕ) → node_for net' q ≡ (if same_bytes q key then none else node_for net q)
      finds q =
          lookup-frame net.bytes_at bytes' connection_funcs t'
            (nodes-Unmoved net.bytes_at bytes' conns' t' done.valid left unmoved) q
          ∙ done.holds q

      found' :
          (q : List ℕ)
          → connection_at net' q ≡ (if same_bytes q key then 0 else connection_at net q)
      found' q =
          ap (pointer_or_null bytes' connection_funcs) (finds q)
          ∙ elim (Bool-cases (same_bytes q key)) [
            | inl same ↦ rw same refl
            | inr other ↦ rw other refl
          ]

      known' : (d : ℕ) (m : Connection) → conns' d ≡ some m → connection_at net' (bytes' d) ≡ d
      known' d m e =
          let (ne, old) = still d m e in
          ap (connection_at net') (unmoved d m e)
          ∙ found' (net.bytes_at d)
          ∙ elim (Bool-cases (same_bytes (net.bytes_at d) key)) [
            | inl alike ↦ absurd (
                ne (
                  sym (sound.known d m old)
                  ∙ ap (connection_at net) (same_bytes→eq (net.bytes_at d) key alike)
                  ∙ sound.known c k there))
            | inr apart ↦ rw apart (sound.known d m old)
          ]

      pub gone_lem : IsGone net net' c
      gone_lem = record {
        sound = record {
          valid =
              IsValid-frame net.bytes_at bytes' connection_funcs t'
                (nodes-Unmoved net.bytes_at bytes' conns' t' done.valid left unmoved) done.valid;
          by_pointer = done.same_flags ∙ sound.by_pointer;
          stored = λ q n e. left q n (
              sym (
                lookup-frame net.bytes_at bytes' connection_funcs t'
                  (nodes-Unmoved net.bytes_at bytes' conns' t' done.valid left unmoved) q)
              ∙ e);
          known = known';
          null_free = put_other net.conns c none 0 (λ e. real (sym e)) ∙ sound.null_free;
          quiet = λ d m e. sound.quiet d m ((still d m e).1);
        };
        found = found';
        gone = put_self net.conns c none;
        others = λ d ne. put_other net.conns c none d ne;
      }
