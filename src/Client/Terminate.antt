-- ===== src/Client/Terminate.antt =====
-- `udp_client_terminate`.
pub mod Frees
pub mod Emptied
use onyxnet.Prelude.{
  All-both, ℕ, zero, suc, ◌<◌, ◌≡◌, ◌≢◌, refl, sym, ap, ◌∙◌, subst, Option, none, some, List, [],
  ◌∷◌, length, All, get_or, if◌then◌else◌, ◌==◌, Bool-cases, Option-cases, inl, inr, arith,
}
use onyxnet.Memory.{◌>>=◌}
use onyxnet.HashTable as Tab
use onyxnet.HashTable.{Table}
use onyxnet.HashTable.Chain.{Node, pointer_of}
use onyxnet.HashTable.Valid.{chains_of}
use onyxnet.HashTable.Frame.{All-lookup}
use onyxnet.HashTable.Iterate.{Iterator, begin, next, walk, all_nodes, top_of}
use onyxnet.HashTable.Iterate.Apart.{All-all_nodes}
use onyxnet.HashTable.Iterate.Visit.{pointers, walk-begin}
use onyxnet.Client.{Net, free_connection, free_all, terminate, connection_funcs}
use onyxnet.Client.Sound.{IsSound, IsOf}

-- Connections freed one after the other.
unfoldable pub free_each : List ℕ → Net → Option Net
free_each [] net = some net
free_each (c ∷ cs) net = free_connection c net >>= free_each cs

-- With a round left after the last pointer, the loop frees what it walks over.
free_all-walk :
    (fuel : ℕ) (r : ℕ × Iterator (List ℕ)) (net : Net)
    → length (walk fuel r) < fuel
    → free_all fuel r net ≡ free_each (walk fuel r) net
unfolding free_all walk free_each
free_all-walk zero r net enough = absurd (omega arith)
free_all-walk (suc fuel) r net enough = elim (Bool-cases (r.0 == 0)) [
  | inl done ↦ rw done refl
  | inr more ↦
      let fits : length (walk fuel (next r.1)) < fuel =
        ground (arith, ap (λ b. length (if b then [] else r.0 ∷ walk fuel (next r.1))) more) in
      rw more (elim (Option-cases (free_connection r.0 net)) [
        | inl fails ↦ rw fails refl
        | inr (net', frees) ↦ rw frees (free_all-walk fuel (next r.1) net' fits)
      ])
]

top_of-chains :
    (P : Node (List ℕ) → Type 0) (t : Table (List ℕ))
    → ((i : ℕ) → All P (get_or (chains_of t.top) i []))
    → (i : ℕ) → All P (get_or (top_of t) i [])
top_of-chains P t each i = elim (Option-cases t.top) [
  | inl e ↦
      subst
        (λ (o : Option (List (List (Node (List ℕ))))).
          All P (get_or (elim o [ none ↦ [] | some cs ↦ cs ]) i []))
        (sym e) tt
  | inr (cs, e) ↦
      subst
        (λ (o : Option (List (List (Node (List ℕ))))).
          All P (get_or (elim o [ none ↦ [] | some cs ↦ cs ]) i []))
        (sym e) (subst (λ o. All P (get_or (chains_of o) i [])) e (each i))
]

-- Every node of the client's table points at a connection.
pub nodes-IsOf :
    (net : Net) → IsSound net → All (IsOf net.conns) (all_nodes (top_of net.connections))
nodes-IsOf net sound = All-all_nodes (IsOf net.conns) (top_of net.connections) (
    top_of-chains (IsOf net.conns) net.connections (
      All-lookup net.bytes_at connection_funcs net.connections (IsOf net.conns) sound.valid
        sound.stored))

-- No item pointer of the client's table is NULL.
nodes-nonzero :
    (net : Net)
    → IsSound net
    → All (λ n. pointer_of n.address n.stored ≢ 0) (all_nodes (top_of net.connections))
nodes-nonzero net sound =
    let ofs = nodes-IsOf net sound in
    All-both (all_nodes (top_of net.connections))
      (λ n of _ null. of.real (sym (ap (pointer_of n.address) of.points) ∙ null)) ofs ofs

length-pointers : (c : List (Node (List ℕ))) → length (pointers c) ≡ length c
length-pointers [] = refl
length-pointers (n ∷ c) = ap suc (length-pointers c)

-- Terminating a client with one round more than it has connections ends: it frees the connection behind
-- every node of the table once, slot by slot, and then the nodes, as many as there are connections.
pub terminate-free_each :
    (net : Net)
    → IsSound net
    → (terminate (suc net.connections.item_count) net
        ≡ free_each (pointers (all_nodes (top_of net.connections))) net >>= (λ emptied. some (
          (Tab.deinit emptied.connections).0,
          record emptied { connections = (Tab.deinit emptied.connections).1 },
        )))
      × (length (pointers (all_nodes (top_of net.connections))) ≡ net.connections.item_count)
unfolding terminate
terminate-free_each net sound =
    let count = net.connections.item_count in
    let (walks, counted) =
      walk-begin net.bytes_at connection_funcs net.connections (suc count) sound.valid
        (nodes-nonzero net sound) (omega arith) in
    let all = pointers (all_nodes (top_of net.connections)) in
    let sizes : length all ≡ count =
      length-pointers (all_nodes (top_of net.connections)) ∙ counted in
    let enough : length (walk (suc count) (begin net.connections)) < suc count =
      omega (arith, ap length walks, sizes) in
    (
      ap
          (λ o. o >>= (λ emptied. some (
            (Tab.deinit emptied.connections).0,
            record emptied { connections = (Tab.deinit emptied.connections).1 },
          )))
          (free_all-walk (suc count) (begin net.connections) net enough
            ∙ ap (λ ps. free_each ps net) walks),
      sizes,
    )
