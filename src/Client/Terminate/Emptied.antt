-- ===== src/Client/Terminate/Emptied.antt =====
-- Terminating a client succeeds and leaves no connection.
use onyxnet.Prelude.{
  ℕ, suc, ◌≡◌, ◌≢◌, refl, sym, ap, ◌∙◌, subst, true, false, Option, none, some, List, [], ◌∷◌, All,
  All-both, length, ==_refl, Bool-cases, Option-cases, inl, inr, arith, none-ne-some,
}
use onyxnet.HashTable as Tab
use onyxnet.HashTable.{Table}
use onyxnet.HashTable.Chain.{Node, pointer_of, key_of}
use onyxnet.HashTable.Chain.Laws.{IsDistinct}
use onyxnet.HashTable.Valid.{hash_of, same_of, pointer_or_null}
use onyxnet.HashTable.Life.{deinit_lem}
use onyxnet.HashTable.Iterate.{all_nodes, top_of, addresses_of}
use onyxnet.HashTable.Iterate.Apart.{lookup-All, table-IsDistinct}
use onyxnet.HashTable.Iterate.Visit.{pointers}
use onyxnet.Payload.{Payload}
use onyxnet.Payload.Life.{release, live_on, life_of}
use onyxnet.Client.{Connection, Net, connection_funcs, terminate, same_bytes}
use onyxnet.Client.Sound.{IsSound, IsOf, node_for, same_bytes_refl}
use onyxnet.Client.Terminate.{nodes-IsOf, terminate-free_each}
use onyxnet.Client.Terminate.Frees.{member, Unrepeated, IsHolding, free_each-IsFreed}

-- The pointers of nodes that point at connections are the connections'.
pointers-there :
    (conns : ℕ → Option Connection) (ns : List (Node (List ℕ)))
    → All (IsOf conns) ns
    → All (λ c. (k : Connection) × (conns c ≡ some k)) (pointers ns)
pointers-there conns [] ofs = tt
pointers-there conns (n ∷ ns) ofs = (
  (ofs.0.connection, ap (λ s. conns (pointer_of n.address s)) ofs.0.points ∙ ofs.0.there),
  pointers-there conns ns ofs.1,
)

-- Different keys come from different pointers.
module _ (net : Net) where
  abbrev key_in : Node (List ℕ) → List ℕ
  key_in n = key_of net.bytes_at n.stored

  key-pointer :
      (n : Node (List ℕ))
      → IsOf net.conns n
      → key_in n ≡ net.bytes_at (pointer_of n.address n.stored)
  key-pointer n of =
      ap (key_of net.bytes_at) of.points
      ∙ sym (ap (λ s. net.bytes_at (pointer_of n.address s)) of.points)

  others :
      (n : Node (List ℕ)) (ns : List (Node (List ℕ)))
      → IsOf net.conns n
      → All (IsOf net.conns) ns
      → All (λ m. same_bytes (key_in n) (key_in m) ≡ false) ns
      → All (λ d. d ≢ pointer_of n.address n.stored) (pointers ns)
  others n [] of ofs lacks = tt
  others n (m ∷ ns) of ofs lacks = (
    λ e.
        let alike : key_in m ≡ key_in n =
          key-pointer m ofs.0 ∙ ap net.bytes_at e ∙ sym (key-pointer n of) in
        absurd
          (ground (arith, lacks.0, ap (same_bytes (key_in n)) alike, same_bytes_refl (key_in n))),
    others n ns of ofs.1 lacks.1,
  )

  pointers-Unrepeated :
      (ns : List (Node (List ℕ)))
      → All (IsOf net.conns) ns
      → IsDistinct net.bytes_at
          (hash_of net.bytes_at connection_funcs net.connections)
          (same_of net.bytes_at connection_funcs net.connections)
          ns
      → Unrepeated (pointers ns)
  pointers-Unrepeated [] ofs distinct = tt
  pointers-Unrepeated (n ∷ ns) ofs distinct =
      (others n ns ofs.0 ofs.1 distinct.0, pointers-Unrepeated ns ofs.1 distinct.1)

-- Every node's pointer is among the pointers.
pointers-member :
    (ns : List (Node (List ℕ)))
    → All (λ n. member (pointer_of n.address n.stored) (pointers ns) ≡ true) ns
pointers-member [] = tt
pointers-member (n ∷ ns) = (
  rw (==_refl (pointer_of n.address n.stored)) refl,
  All-both ns (λ m here _. ground (arith, here)) (pointers-member ns) (pointers-member ns),
)

module _ (net : Net) (sound : IsSound net) where
  connection-member :
      (c : ℕ) (k : Connection)
      → net.conns c ≡ some k
      → member c (pointers (all_nodes (top_of net.connections))) ≡ true
  connection-member c k there =
      let all = all_nodes (top_of net.connections) in
      let known = sound.known c k there in
      elim (Option-cases (node_for net (net.bytes_at c))) [
        | inl absent ↦
            let zero_c : 0 ≡ c =
              sym (ap (pointer_or_null net.bytes_at connection_funcs) absent) ∙ known in
            absurd (none-ne-some sound.null_free (ap net.conns zero_c ∙ there))
        | inr (n, here) ↦
            let is_c : pointer_of n.address n.stored ≡ c =
              sym (ap (pointer_or_null net.bytes_at connection_funcs) here) ∙ known in
            subst (λ d. member d (pointers all) ≡ true) is_c
              (lookup-All net.bytes_at connection_funcs net.connections
                (λ m. member (pointer_of m.address m.stored) (pointers all) ≡ true) (net.bytes_at c)
                n (pointers-member all) here)
      ]

-- What a client leaves when it has been terminated, with the nodes that the table frees.
pub record IsTerminated (net : Net) (nodes : List ℕ) (net' : Net) : Type 0 where
  pub nodes_freed : nodes ≡ addresses_of (all_nodes (top_of net.connections))
  pub counted : length nodes ≡ net.connections.item_count
  pub gone : (c : ℕ) → net'.conns c ≡ none
  pub released :
      (c : ℕ) (k : Connection) (pl : Payload)
      → net.conns c ≡ some k
      → net.payloads.heap k.conn_payload ≡ some pl
      → live_on release (life_of (some pl)) ≡ some (life_of (net'.payloads.heap k.conn_payload))
  pub elsewhere :
      (q : ℕ)
      → ((c : ℕ) (k : Connection) → net.conns c ≡ some k → q ≢ k.conn_payload)
      → net'.payloads.heap q ≡ net.payloads.heap q
  pub silent : net'.payloads.reports ≡ net.payloads.reports
  pub same_calls : net'.calls ≡ net.calls

-- Terminating a client that is sound and whose connections each have a first packet, in use and
-- with an owner, and none the packet of two, does not fault and ends after one round more than
-- there are connections: the connections are all gone, and what the table frees are its nodes, slot
-- by slot, one for each connection; each first packet has lost one holder, as a release promises;
-- the other payloads are as before, nothing is reported, and neither the application nor the
-- network is told.
pub terminate_lem :
    (net : Net)
    → IsSound net
    → IsHolding net
    → (nodes : List ℕ) × (net' : Net) × (terminate (suc net.connections.item_count) net
        ≡ some (nodes, net'))
      × IsTerminated net nodes net'
terminate_lem net sound holding =
    let all = all_nodes (top_of net.connections) in
    let ofs = nodes-IsOf net sound in
    let (made, frees, freed) =
      free_each-IsFreed (pointers all) net holding
        (pointers-Unrepeated net all ofs
          (table-IsDistinct net.bytes_at connection_funcs net.connections sound.valid))
        (pointers-there net.conns all ofs) in
    let cleared = Tab.deinit made.connections in
    let ends = deinit_lem net.bytes_at connection_funcs net.connections sound.valid in
    (
      cleared.0,
      record made { connections = cleared.1 },
      (terminate-free_each net sound).0 ∙ rw frees refl,
      record {
        nodes_freed = ap (λ t. (Tab.deinit t).0) freed.same_table ∙ ends.0;
        counted = ap (λ t. length ((Tab.deinit t).0)) freed.same_table ∙ ends.1;
        gone = λ c. freed.gone c ∙ elim (Bool-cases (member c (pointers all))) [
          | inl listed ↦ rw listed refl
          | inr unlisted ↦ rw unlisted (elim (Option-cases (net.conns c)) [
            | inl absent ↦ absent
            | inr (k, there) ↦
                absurd (ground (arith, unlisted, connection-member net sound c k there))
          ])
        ];
        released =
            λ c k pl there. freed.released c k pl (connection-member net sound c k there) there;
        elsewhere = freed.elsewhere;
        silent = freed.silent;
        same_calls = freed.same_calls;
      },
    )
