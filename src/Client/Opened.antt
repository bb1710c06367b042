-- ===== src/Client/Opened.antt =====
-- A connection that `udp_client_connect` opens: what the table and the connections are then.
use onyxnet.Prelude.{
  none-ne-some, ℕ, ◌+◌, ◌%◌, ◌^◌, ◌<◌, ◌≡◌, ◌≢◌, refl, sym, ap, ap₂, ◌∙◌, subst, true, Option, none,
  some, List, if◌then◌else◌, ◌==◌, ==_iff, ==_refl, Bool-cases, inl, inr,
}
use onyxnet.Memory.Heap.{put, put_other, put_self}
use onyxnet.Vector as Vec
use onyxnet.HashTable.{Table, assign, stored_for}
use onyxnet.HashTable.Chain.{Node, pointed, copied, pointer_of}
use onyxnet.HashTable.Valid.{IsValid, lookup, pointer_or_null}
use onyxnet.HashTable.Frame.{lookup-frame, IsValid-frame}
use onyxnet.HashTable.Written.{IsAssigned, counted_after, written, returned}
use onyxnet.HashTable.Assign.{assign_lem}
use onyxnet.Client.{
  Connection, Net, Room, same_bytes, connection_funcs, open_connection, preconnect,
}
use onyxnet.Client.Sound.{
  same_bytes_refl, IsSound, IsOf, node_for, connection_at, nodes-Unmoved, node_for-none,
  same_bytes→eq,
}

-- A connection as `udp_client_connect` makes it.
abbrev pub new_connection : ℕ → Connection
new_connection p = record {
  conn_payload = p;
  outgoing = (Vec.init 8).0;
  last_transmit = 0;
  last_receive = 0;
  ntransmit = 0;
  state = preconnect;
}

abbrev pub room_for : Option ℕ → ℕ → ℕ → Room
room_for payload c a = record {
  payload = payload;
  connection = some c;
  chains = true;
  node = some a;
}

-- The connection `c` with the first packet `p` has been opened for the address `key`.
pub record IsOpened (net net' : Net) (key : List ℕ) (p c : ℕ) : Type 0 where
  pub sound : IsSound net'
  pub found :
      (q : List ℕ) → connection_at net' q ≡ (if same_bytes q key then c else connection_at net q)
  pub addressed : net'.bytes_at c ≡ key
  pub begins : net'.conns c ≡ some (new_connection p)
  pub others : (d : ℕ) → d ≢ c → net'.conns d ≡ net.conns d
  pub item_count_one_more : net'.connections.item_count ≡ net.connections.item_count + 1
  pub payloads_same : net'.payloads ≡ net.payloads
  pub calls_same : net'.calls ≡ net.calls

module _ (net : Net) (fp : Option ℕ) (addr p c a : ℕ) (sound : IsSound net)
    (free : connection_at net (net.bytes_at addr) ≡ 0) (real : c ≢ 0) (unused : net.conns c ≡ none)
    (bound : net.connections.item_count + 1 < 2 ^ 64) where
  abbrev key : List ℕ
  key = net.bytes_at addr

  abbrev bytes' : ℕ → List ℕ
  bytes' = put net.bytes_at c key

  abbrev t : Table (List ℕ)
  t = net.connections

  abbrev look : List ℕ → Option (Node (List ℕ))
  look = lookup bytes' connection_funcs t

  unmoved-others : (d : ℕ) (k : Connection) → net.conns d ≡ some k → bytes' d ≡ net.bytes_at d
  unmoved-others d k there =
      put_other net.bytes_at c key d (λ e. none-ne-some unused (sym (ap net.conns e) ∙ there))

  look-same : (q : List ℕ) → look q ≡ node_for net q
  look-same =
      lookup-frame net.bytes_at bytes' connection_funcs t
        (nodes-Unmoved net.bytes_at bytes' net.conns t sound.valid sound.stored unmoved-others)

  valid' : IsValid bytes' connection_funcs t
  valid' =
      IsValid-frame net.bytes_at bytes' connection_funcs t
        (nodes-Unmoved net.bytes_at bytes' net.conns t sound.valid sound.stored unmoved-others)
        sound.valid

  absent : look (bytes' c) ≡ none
  absent = ap look (put_self net.bytes_at c key) ∙ look-same key ∙ node_for-none net key sound free

  -- The node that is linked in.
  abbrev new_node : Node (List ℕ)
  new_node = written bytes' t c a (connection_funcs.hash (bytes' c) t.item_size) none

  pointed-new : stored_for bytes' t c ≡ pointed c
  pointed-new = ap (λ fl. if fl % 2 == 1 then pointed c else copied (bytes' c)) sound.by_pointer

  assigned :
      (t' : Table (List ℕ)) × (assign bytes' true (some a) t c ≡ some (c, t'))
      × IsAssigned bytes' connection_funcs t t' c a c
  assigned =
      let (result, t', step, done) = assign_lem bytes' connection_funcs t c a valid' bound in
      let same : result ≡ c =
        done.result_is ∙ ap (returned bytes' t c a) absent ∙ ap (pointer_of a) pointed-new in
      (
        t',
        step ∙ ap (λ r. some (r, t')) same,
        subst (IsAssigned bytes' connection_funcs t t' c a) same done,
      )

  conns' : ℕ → Option Connection
  conns' = put net.conns c (some (new_connection p))

  kept : (d : ℕ) (k : Connection) → net.conns d ≡ some k → conns' d ≡ some k
  unfolding conns'
  kept d k there =
      put_other net.conns c (some (new_connection p)) d
        (λ e. none-ne-some unused (sym (ap net.conns e) ∙ there))
      ∙ there

  module _ (t' : Table (List ℕ)) (done : IsAssigned bytes' connection_funcs t t' c a c) where
    abbrev net' : Net
    net' = record net { connections = t'; conns = conns'; bytes_at = bytes' }

    -- What is found then: the new node under the new address, and any other as before.
    finds :
        (q : List ℕ)
        → node_for net' q ≡ (if same_bytes q key then some new_node else node_for net q)
    finds q =
        done.holds q
        ∙ ap₂
            (λ k o.
              if same_bytes q k
              then some (written bytes' t c a (connection_funcs.hash (bytes' c) t.item_size) o)
              else look q)
            (put_self net.bytes_at c key) absent
        ∙ ap (λ o. if same_bytes q key then some new_node else o) (look-same q)

    pointer-new : pointer_or_null bytes' connection_funcs (some new_node) ≡ c
    pointer-new = ap (pointer_of a) pointed-new

    opens :
        (q : List ℕ) → connection_at net' q ≡ (if same_bytes q key then c else connection_at net q)
    opens q =
        ap (pointer_or_null bytes' connection_funcs) (finds q)
        ∙ elim (Bool-cases (same_bytes q key)) [
          | inl same ↦ rw same pointer-new
          | inr other ↦ rw other refl
        ]

    stored' : (q : List ℕ) (n : Node (List ℕ)) → node_for net' q ≡ some n → IsOf conns' n
    unfolding conns'
    stored' q n e = elim (Bool-cases (same_bytes q key)) [
      | inl same ↦
          let this : some new_node ≡ some n =
            sym (ap (λ b. if b then some new_node else node_for net q) same) ∙ sym (finds q) ∙ e in
          let eq : new_node ≡ n = ap (λ o. elim o [ none ↦ new_node | some m ↦ m ]) this in
          record {
            pointer = c;
            connection = new_connection p;
            points = sym (ap (λ (m : Node (List ℕ)). m.stored) eq) ∙ pointed-new;
            real = real;
            there = put_self net.conns c (some (new_connection p));
          }
      | inr other ↦
          let of = sound.stored q n (
            sym (ap (λ b. if b then some new_node else node_for net q) other)
            ∙ sym (finds q)
            ∙ e) in
          record {
            pointer = of.pointer;
            connection = of.connection;
            points = of.points;
            real = of.real;
            there = kept of.pointer of.connection of.there;
          }
    ]

    known' : (d : ℕ) (k : Connection) → conns' d ≡ some k → connection_at net' (bytes' d) ≡ d
    unfolding conns'
    known' d k there = elim (Bool-cases (d == c)) [
      | inl same ↦
          let at_c : bytes' d ≡ key = ap (λ b. if b then key else net.bytes_at d) same in
          ap (connection_at net') at_c
          ∙ opens key
          ∙ rw (same_bytes_refl key) (sym ((==_iff d c).0 same))
      | inr other ↦
          let old : net.conns d ≡ some k =
            sym (ap (λ b. if b then some (new_connection p) else net.conns d) other) ∙ there in
          let same_place = unmoved-others d k old in
          ap (connection_at net') same_place
          ∙ opens (net.bytes_at d)
          ∙ (elim (Bool-cases (same_bytes (net.bytes_at d) key)) [
            | inl alike ↦
                let null : d ≡ 0 =
                  sym (sound.known d k old)
                  ∙ ap (connection_at net) (same_bytes→eq (net.bytes_at d) key alike)
                  ∙ free in
                absurd (none-ne-some sound.null_free (sym (ap net.conns null) ∙ old))
            | inr apart ↦ rw apart (sound.known d k old)
          ])
    ]

    quiet' : (d : ℕ) (k : Connection) → conns' d ≡ some k → k.outgoing.item_count ≡ 0
    unfolding conns' Vec.init
    quiet' d k there = elim (Bool-cases (d == c)) [
      | inl same ↦
          let this : some (new_connection p) ≡ some k =
            sym (ap (λ b. if b then some (new_connection p) else net.conns d) same) ∙ there in
          sym (
            ap (λ (o : Option Connection). elim o [ none ↦ 0 | some m ↦ m.outgoing.item_count ])
              this)
      | inr other ↦
          sound.quiet d k
            (sym (ap (λ b. if b then some (new_connection p) else net.conns d) other) ∙ there)
    ]

    opened : IsOpened net net' key p c
    unfolding conns'
    opened = record {
      sound = record {
        valid = done.valid;
        by_pointer = done.same_flags ∙ sound.by_pointer;
        stored = stored';
        known = known';
        null_free =
            put_other net.conns c (some (new_connection p)) 0 (λ e. real (sym e)) ∙ sound.null_free;
        quiet = quiet';
      };
      found = opens;
      addressed = put_self net.bytes_at c key;
      begins = put_self net.conns c (some (new_connection p));
      others = λ d ne. put_other net.conns c (some (new_connection p)) d ne;
      item_count_one_more = done.counts ∙ ap (counted_after bytes' t.item_count) absent;
      payloads_same = refl;
      calls_same = refl;
    }

  pub open_connection_lem :
      (net' : Net) × (open_connection (room_for fp c a) addr p net ≡ some (c, net'))
      × IsOpened net net' key p c
  unfolding open_connection Vec.init conns'
  open_connection_lem =
      let (t', step, done) = assigned in
      (net' t' done, rw step (rw (==_refl c) refl), opened t' done)
