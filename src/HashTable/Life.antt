-- ===== src/HashTable/Life.antt =====
-- `hash_table_init` and `hash_table_deinit`.
use onyxnet.Prelude.{
  ap₂, if◌then◌else◌, ◌∷◌, ◌++◌, subst, ℕ, ◌≡◌, refl, sym, ap, ◌∙◌, Bool, Option, none, some, List,
  [], ◌∷◌, length, suc, subst, All, replicate, arith, length-append,
}
use onyxnet.HashTable.{
  Funcs, Table, table_size, init, deinit, find, remove, assign, assign_in, free_chain, free_chains,
}
use onyxnet.HashTable.Chain.{Node}
use onyxnet.HashTable.Chain.Laws.{IsKeyed, IsCoded, IsDistinct}
use onyxnet.HashTable.Valid.{
  get_or-replicate, total, total-empty, chains_of, home, IsPlaced, IsValid, lookup,
}
use onyxnet.HashTable.Iterate.{all_nodes, top_of, addresses_of}
use onyxnet.HashTable.Absent.{lookup-empty}

pub empty-IsPlaced :
    {K : Type 0} (memory : ℕ → K) (hash : K → ℕ) (same : K → K → Bool)
    → IsPlaced memory hash same (replicate table_size [])
empty-IsPlaced {K} memory hash same =
    let every = λ (P : List (Node K) → Type 0) (p : P []) (i : ℕ).
      subst P (sym (get_or-replicate {A = List (Node K)} table_size i [])) p in
    record {
      width = refl;
      coded = every (All (IsCoded memory hash same)) tt;
      homed = λ i. every (All (λ n. home n.code ≡ i)) tt i;
      distinct = every (IsDistinct memory hash same) tt;
    }

-- A table as `hash_table_init` leaves it, with functions that keep what their users promise, is valid,
-- and finds nothing under any key.
pub init_lem :
    {K : Type 0} (memory : ℕ → K) (f : Funcs K) (size flags : ℕ)
    → IsKeyed (λ k. f.hash k size) (λ a b. f.same a b size)
    → IsValid memory f (init size flags f)
      × ((k : K) → lookup memory f (init size flags f) k ≡ none)
unfolding init
init_lem {K} memory f size flags keyed =
    let valid : IsValid memory f (init size flags f) = record {
      functions = refl;
      keyed = keyed;
      sized = tt;
      placed = empty-IsPlaced memory (λ k. f.hash k size) (λ a b. f.same a b size);
      counted = sym (total-empty (Node K) table_size);
    } in
    (valid, λ k. lookup-empty memory f (init size flags f) k valid refl)

length-free_chain : {K : Type 0} (c : List (Node K)) → length (free_chain c) ≡ length c
length-free_chain [] = refl
length-free_chain (n ∷ c) = ap suc (length-free_chain c)

length-free_chains : {K : Type 0} (cs : List (List (Node K))) → length (free_chains cs) ≡ total cs
unfolding total
length-free_chains [] = refl
length-free_chains (c ∷ cs) =
    length-append (free_chain c) (free_chains cs)
    ∙ omega (arith, length-free_chain c, length-free_chains cs)

length-deinit :
    {K : Type 0} (top : Option (List (List (Node K))))
    → length (elim top as (λ o. List ℕ) [ none ↦ [] | some chains ↦ free_chains chains ])
      ≡ total (chains_of top)
length-deinit {K} none = sym (total-empty (Node K) table_size)
length-deinit (some cs) = length-free_chains cs

addresses-append :
    {K : Type 0} (c d : List (Node K)) → addresses_of (c ++ d) ≡ addresses_of c ++ addresses_of d
addresses-append [] d = refl
addresses-append (n ∷ c) d = ap (λ as'. n.address ∷ as') (addresses-append c d)

free_chain-addresses : {K : Type 0} (c : List (Node K)) → free_chain c ≡ addresses_of c
free_chain-addresses [] = refl
free_chain-addresses (n ∷ c) = ap (λ as'. n.address ∷ as') (free_chain-addresses c)

free_chains-addresses :
    {K : Type 0} (cs : List (List (Node K))) → free_chains cs ≡ addresses_of (all_nodes cs)
unfolding all_nodes
free_chains-addresses [] = refl
free_chains-addresses (c ∷ cs) =
    ap₂ ◌++◌ (free_chain-addresses c) (free_chains-addresses cs)
    ∙ sym (addresses-append c (all_nodes cs))

deinit-addresses :
    {K : Type 0} (top : Option (List (List (Node K))))
    → (elim top as (λ o. List ℕ) [ none ↦ [] | some chains ↦ free_chains chains ])
      ≡ addresses_of (all_nodes (elim top [ none ↦ [] | some chains ↦ chains ]))
unfolding all_nodes
deinit-addresses none = refl
deinit-addresses (some cs) = free_chains-addresses cs

-- `hash_table_deinit` of a valid table frees every node of the table once, as many as the table counts,
-- slot by slot. In the table that it leaves nothing is found and nothing is removed. An assignment
-- returns NULL if there is no memory for the chains, and otherwise faults: the functions are gone.
pub deinit_lem :
    {K : Type 0} (memory : ℕ → K) (f : Funcs K) (t : Table K)
    → IsValid memory f t
    → ((deinit t).0 ≡ addresses_of (all_nodes (top_of t)))
      × (length ((deinit t).0) ≡ t.item_count)
      × ((p : ℕ)
          → (find memory ((deinit t).1) p ≡ some 0)
            × (remove memory ((deinit t).1) p ≡ some (0, [], (deinit t).1)))
      × ((room : Bool) (fresh : Option ℕ) (p : ℕ)
          → assign memory room fresh ((deinit t).1) p
            ≡ (if room then none else some (0, (deinit t).1)))
unfolding deinit find remove assign assign_in
deinit_lem {K} memory f t valid = (
  deinit-addresses t.top,
  length-deinit t.top ∙ sym valid.counted,
  λ p. (refl, refl),
  λ room fresh p. refl,
)
