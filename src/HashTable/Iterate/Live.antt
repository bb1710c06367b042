-- ===== src/HashTable/Iterate/Live.antt =====
-- The iteration over a table that may change between the calls. `node` of the iterator is an address,
-- or 0 for NULL, and a node that is gone is a fault.
use onyxnet.Prelude.{
  All-both, ℕ, zero, suc, ◌+◌, ◌≡◌, ◌≢◌, refl, sym, ap, ◌∙◌, subst, false, Option, none, some, List,
  [], ◌∷◌, ◌++◌, All, get_or, drop, if◌then◌else◌, ◌==◌, ==_refl, inl, inr, arith,
}
use onyxnet.Memory.{◌>>=◌}
use onyxnet.Memory.Heap.{differ}
use onyxnet.HashTable.{Table, slot_of, table_size}
use onyxnet.HashTable.Chain.{Node, pointer_of}
use onyxnet.HashTable.Valid.{home}
use onyxnet.HashTable.Iterate.Visit.{first_chain-Split}
use onyxnet.HashTable.Iterate.{top_of, first_chain, move_next, all_nodes}

module _ {K : Type 0} where
  -- The node at an address, with the nodes behind it in its chain.
  abbrev pub seek_in : ℕ → List (Node K) → Option (Node K × List (Node K))
  seek_in a [] = none
  seek_in a (n ∷ c) = if n.address == a then some (n, c) else seek_in a c

  abbrev pub or_in :
      Option (Node K × List (Node K))
      → Option (Node K × List (Node K))
      → Option (Node K × List (Node K))
  or_in none o = o
  or_in (some r) o = some r

  abbrev pub seek : ℕ → List (List (Node K)) → Option (Node K × List (Node K))
  seek a [] = none
  seek a (c ∷ cs) = or_in (seek_in a c) (seek a cs)

  abbrev pub address_or_null : List (Node K) → ℕ
  address_or_null [] = 0
  address_or_null (n ∷ c) = n.address

  -- What is returned for the node `n`, and where the iterator points then.
  abbrev pub visit : Table K → Node K → List (Node K) → ℕ × ℕ
  visit t n rest = (pointer_of n.address n.stored, address_or_null (move_next t n rest))

  -- `hash_table_begin`
  unfoldable pub live_begin : Table K → ℕ × ℕ
  live_begin t = elim (first_chain (top_of t)) [ [] ↦ (0, 0) | n ∷ rest ↦ visit t n rest ]

  -- `hash_table_next`
  unfoldable pub live_next : Table K → ℕ → Option (ℕ × ℕ)
  live_next t node =
      if node == 0 then some (0, 0) else seek node (top_of t) >>= (λ r. some (visit t r.0 r.1))

  -- The node `n` stands in the chain `i` with `rest` behind it, and `ys` are all nodes behind it.
  abbrev Stands : List (List (Node K)) → ℕ → Node K → List (Node K) → Type 0
  Stands cs b n ys =
      (rest : List (Node K)) × (i : ℕ) × (seek n.address cs ≡ some (n, rest))
      × (home n.code ≡ b + i)
      × (ys ≡ rest ++ all_nodes (drop (suc i) cs))

  heads : (d : Node K) {n m : Node K} {xs ys : List (Node K)} → n ∷ xs ≡ m ∷ ys → n ≡ m
  heads d e = ap (λ (l : List (Node K)). elim l [ [] ↦ d | k ∷ ks ↦ k ]) e

  nil_ne_cons : {n : Node K} {ys : List (Node K)} → [] ≡ n ∷ ys → ⊥
  nil_ne_cons e = cc

  tails : {n m : Node K} {xs ys : List (Node K)} → n ∷ xs ≡ m ∷ ys → xs ≡ ys
  tails e = ap (λ (l : List (Node K)). elim l [ [] ↦ [] | k ∷ ks ↦ ks ]) e

  address-first_chain :
      (cs : List (List (Node K)))
      → address_or_null (first_chain cs) ≡ address_or_null (all_nodes cs)
  unfolding first_chain all_nodes
  address-first_chain [] = refl
  address-first_chain ([] ∷ cs) = address-first_chain cs
  address-first_chain ((n ∷ c) ∷ cs) = refl

  -- An address that no earlier node has leads to its node.
  seek-Stands :
      (cs : List (List (Node K))) (b : ℕ) (xs ys : List (Node K)) (n : Node K)
      → ((i : ℕ) → All (λ m. home m.code ≡ b + i) (get_or cs i []))
      → All (λ m. m.address ≢ n.address) xs
      → all_nodes cs ≡ xs ++ n ∷ ys
      → Stands cs b n ys
  unfolding all_nodes
  seek-Stands [] b [] ys n homed apart e = absurd (nil_ne_cons e)
  seek-Stands [] b (x ∷ xs) ys n homed apart e = absurd (nil_ne_cons e)
  seek-Stands ([] ∷ cs) b xs ys n homed apart e =
      let (rest, i, finds, at, behind) =
        seek-Stands cs (suc b) xs ys n
          (λ i.
            subst (λ k. All (λ m. home m.code ≡ k) (get_or cs i [])) (omega arith) (homed (suc i)))
          apart e in
      (rest, suc i, finds, omega (arith, at), behind)
  seek-Stands ((m ∷ c) ∷ cs) b [] ys n homed apart e =
      subst (λ k. Stands ((m ∷ c) ∷ cs) b k ys) (heads m e)
        (subst (Stands ((m ∷ c) ∷ cs) b m) (tails e)
          (c, 0, rw (==_refl m.address) refl, (homed 0).0, refl))
  seek-Stands ((m ∷ c) ∷ cs) b (x ∷ xs) ys n homed apart e =
      let (rest, i, finds, at, behind) =
        seek-Stands (c ∷ cs) b xs ys n (later homed) apart.1 (tails e) in
      let other : (m.address == n.address) ≡ false =
        differ (λ eq. apart.0 (ap (λ (k : Node K). k.address) (sym (heads m e)) ∙ eq)) in
      (rest, i, rw other finds, at, behind)
    where
      later :
          ((i : ℕ) → All (λ m. home m.code ≡ b + i) (get_or ((m ∷ c) ∷ cs) i []))
          → (i : ℕ) → All (λ m. home m.code ≡ b + i) (get_or (c ∷ cs) i [])
      later each zero = (each 0).1
      later each (suc i) = each (suc i)

  -- The iterator goes on to the node behind.
  pub visit-next :
      (t : Table K) (n : Node K) (ys rest : List (Node K)) (i : ℕ)
      → slot_of n.code t.top_size ≡ i
      → ys ≡ rest ++ all_nodes (drop (suc i) (top_of t))
      → visit t n rest ≡ (pointer_of n.address n.stored, address_or_null ys)
  unfolding move_next
  visit-next t n ys [] i at behind =
      ap (λ a. (pointer_of n.address n.stored, a))
        (ap (λ i. address_or_null (first_chain (drop (suc i) (top_of t)))) at
          ∙ address-first_chain (drop (suc i) (top_of t))
          ∙ sym (ap address_or_null behind))
  visit-next t n ys (m ∷ rest) i at behind =
      ap (λ a. (pointer_of n.address n.stored, a)) (sym (ap address_or_null behind))

  -- A call when the iterator points at a node of a table with its chains.
  pub live_next-visit :
      (t : Table K) (xs ys : List (Node K)) (n : Node K)
      → t.top_size ≡ table_size
      → ((i : ℕ) → All (λ m. home m.code ≡ i) (get_or (top_of t) i []))
      → n.address ≢ 0
      → All (λ m. m.address ≢ n.address) xs
      → all_nodes (top_of t) ≡ xs ++ n ∷ ys
      → live_next t n.address ≡ some (pointer_of n.address n.stored, address_or_null ys)
  unfolding live_next home
  live_next-visit t xs ys n size homed real apart e =
      let (rest, i, finds, at, behind) =
        seek-Stands (top_of t) 0 xs ys n
          (λ i. All-both (get_or (top_of t) i []) (λ m h h'. omega arith) (homed i) (homed i)) apart
          e in
      rw (differ real, finds)
        (ap (λ r. some r)
          (visit-next t n ys rest i (ap (slot_of n.code) size ∙ at ∙ omega arith) behind))

  -- The first call.
  pub live_begin-visit :
      (t : Table K) (n : Node K) (ys : List (Node K))
      → t.top_size ≡ table_size
      → ((i : ℕ) → All (λ m. home m.code ≡ i) (get_or (top_of t) i []))
      → all_nodes (top_of t) ≡ n ∷ ys
      → live_begin t ≡ (pointer_of n.address n.stored, address_or_null ys)
  unfolding live_begin home
  live_begin-visit t n ys size homed e = elim (first_chain-Split (top_of t) 0) [
    | inl (first, left) ↦ absurd (nil_ne_cons (sym left ∙ e))
    | inr (i, m, rest, first, slot, left) ↦
        let at = (subst (All (λ k. home k.code ≡ i)) slot (homed i)).0 in
        let m_n : m ≡ n = heads m (sym left ∙ e) in
        let begins : first_chain (top_of t) ≡ m ∷ rest = first in
        rw (live_begin, begins)
          (visit-next t m ys rest i (ap (slot_of m.code) size ∙ at) (sym (tails (sym left ∙ e)))
            ∙ ap (λ (k : Node K). (pointer_of k.address k.stored, address_or_null ys)) m_n)
  ]

  pub live_begin-none : (t : Table K) → all_nodes (top_of t) ≡ [] → live_begin t ≡ (0, 0)
  unfolding live_begin
  live_begin-none t e = elim (first_chain-Split (top_of t) 0) [
    | inl (first, left) ↦
        let begins : first_chain (top_of t) ≡ [] = first in rw (live_begin, begins) refl
    | inr (i, m, rest, first, slot, left) ↦ absurd (nil_ne_cons (sym e ∙ left))
  ]
