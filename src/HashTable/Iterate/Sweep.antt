-- ===== src/HashTable/Iterate/Sweep.antt =====
-- A loop over a table that removes some of the items that it is given.
use onyxnet.Prelude.{
  ℕ, zero, suc, ◌+◌, ◌^◌, ◌≡◌, ◌<◌, ◌≢◌, refl, sym, ap, ◌∙◌, Bool, Option, none, some, List, [],
  ◌∷◌, ◌++◌, append_assoc, append-nil, All, All-append, All-both, Bool-cases, inl, inr, arith,
  if◌then◌else◌, length, ◌==◌,
}
use onyxnet.Memory.{◌>>=◌}
use onyxnet.Memory.Heap.{differ}
use onyxnet.HashTable.{Table, Funcs, remove}
use onyxnet.HashTable.Chain.{Node, pointer_of, key_of}
use onyxnet.HashTable.Valid.{IsValid}
use onyxnet.HashTable.Iterate.{all_nodes, top_of}
use onyxnet.HashTable.Iterate.Visit.{pointers, walk-begin}
use onyxnet.HashTable.Iterate.Live.{
  live_begin, live_next, address_or_null, live_next-visit, live_begin-visit, live_begin-none,
}
use onyxnet.HashTable.Iterate.Removal.{in_chains, removes}

-- A node and its pointer are not NULL, and the pointer leads to the item.
pub record IsNode {K : Type 0} (memory : ℕ → K) (n : Node K) : Type 0 where
  pub real : n.address ≢ 0
  pub pointed : pointer_of n.address n.stored ≢ 0
  pub leads : memory (pointer_of n.address n.stored) ≡ key_of memory n.stored

module _ {K : Type 0} where
  abbrev pub Away : Node K → List (Node K) → Type 0
  Away n c = All (λ m. m.address ≢ n.address) c

  -- No two nodes share an address.
  abbrev pub Apart : List (Node K) → Type 0
  Apart [] = Unit
  Apart (n ∷ c) = Away n c × Apart c

module _ {K : Type 0} (memory : ℕ → K) (drops : ℕ → Bool) where
  -- The body of the loop: an item that is to go is removed by the pointer that was returned.
  abbrev pub drop_item : ℕ → Table K → Option (Table K)
  drop_item p t = if drops p then remove memory t p >>= (λ r. some r.2) else some t

  -- `for (p = hash_table_begin(t, &it); p; p = hash_table_next(&it))`, for fewer than `k` items: the
  -- items seen and the table at the end.
  unfoldable pub sweep : ℕ → ℕ × ℕ → Table K → Option (List ℕ × Table K)
  sweep zero r t = none
  sweep (suc k) r t =
      if r.0 == 0
      then some ([], t)
      else drop_item r.0 t >>= (λ t'.
        live_next t' r.1 >>= (λ r'. sweep k r' t' >>= (λ rest. some (r.0 ∷ rest.0, rest.1))))

  -- The nodes whose items stay.
  unfoldable pub kept : List (Node K) → List (Node K)
  kept [] = []
  kept (n ∷ c) = if drops (pointer_of n.address n.stored) then kept c else n ∷ kept c

  module _ (f : Funcs K) where
    abbrev Ends : Option (List ℕ × Table K) → List ℕ → List (Node K) → Type 0
    Ends o ps ns =
        (t' : Table K) × (o ≡ some (ps, t')) × IsValid memory f t' × (all_nodes (top_of t') ≡ ns)

    -- The body, when the node `n` stands between `xs` and `ys`.
    body_lem :
        (t : Table K) (xs ys : List (Node K)) (n : Node K)
        → IsValid memory f t
        → t.item_count < 2 ^ 64
        → IsNode memory n
        → all_nodes (top_of t) ≡ xs ++ n ∷ ys
        → (t' : Table K) × (xs' : List (Node K)) × (drop_item (pointer_of n.address n.stored) t
            ≡ some t')
          × IsValid memory f t'
          × (t'.item_count < 2 ^ 64)
          × (all_nodes (top_of t') ≡ xs' ++ ys)
          × (xs' ≡ xs ++ kept (n ∷ []))
          × ((m : Node K) → Away m xs → n.address ≢ m.address → Away m xs')
    unfolding kept
    body_lem t xs ys n valid bound is e =
        elim (Bool-cases (drops (pointer_of n.address n.stored))) [
          | inl goes ↦
              let (freed, t', step, valid', nodes, less) =
                removes memory f t (pointer_of n.address n.stored) xs ys n valid bound e is.leads in
              (
                t',
                xs,
                rw (goes, step) refl,
                valid',
                omega (arith, less),
                nodes,
                rw goes (sym (append-nil xs)),
                λ m away ne. away,
              )
          | inr stays ↦ (
            t,
            xs ++ n ∷ [],
            rw stays refl,
            valid,
            bound,
            e ∙ sym (append_assoc xs (n ∷ []) ys),
            rw stays refl,
            λ m away ne. All-append _ xs (n ∷ []) away (ne, tt),
          )
        ]

    kept-cons : (n : Node K) (c : List (Node K)) → kept (n ∷ []) ++ kept c ≡ kept (n ∷ c)
    unfolding kept
    kept-cons n c = elim (Bool-cases (drops (pointer_of n.address n.stored))) [
      | inl goes ↦ rw goes refl
      | inr stays ↦ rw stays refl
    ]

    sweep-Ends :
        (ys : List (Node K)) (k : ℕ) (t : Table K) (xs : List (Node K)) (n : Node K)
        → IsValid memory f t
        → t.item_count < 2 ^ 64
        → all_nodes (top_of t) ≡ xs ++ n ∷ ys
        → All (IsNode memory) (n ∷ ys)
        → Apart (n ∷ ys)
        → All (λ m. Away m xs) ys
        → length ys + 1 < k
        → Ends
            (sweep k (pointer_of n.address n.stored, address_or_null ys) t)
            (pointers (n ∷ ys))
            (xs ++ kept (n ∷ ys))
    unfolding sweep kept live_next
    sweep-Ends ys zero t xs n valid bound e each apart before enough = absurd (omega arith)
    sweep-Ends [] (suc zero) t xs n valid bound e each apart before enough = absurd (omega arith)
    sweep-Ends [] (suc (suc k)) t xs n valid bound e each apart before enough =
        let (t', xs', step, valid', bound', nodes, xs_is, away) =
          body_lem t xs [] n valid bound each.0 e in
        (t', rw (differ (each.0.pointed), step) refl, valid', nodes ∙ append-nil xs' ∙ xs_is)
    sweep-Ends (m ∷ ys) (suc k) t xs n valid bound e each apart before enough =
        let (t', xs', step, valid', bound', nodes, xs_is, away) =
          body_lem t xs (m ∷ ys) n valid bound each.0 e in
        let (size, homed) = in_chains memory f t' xs' ys m valid' nodes in
        let goes_on =
          live_next-visit t' xs' ys m size homed each.1.0.real
            (away m before.0 (λ eq. apart.0.0 (sym eq))) nodes in
        let (last, steps, sound, left) =
          sweep-Ends ys k t' xs' m valid' bound' nodes each.1 apart.1
            (All-both ys (λ l far ne. away l far (λ eq. ne (sym eq))) before.1 apart.0.1)
            (omega arith) in
        (
          last,
          rw (differ (each.0.pointed), step, goes_on, steps) refl,
          sound,
          left
              ∙ ap (λ c. c ++ kept (m ∷ ys)) xs_is
              ∙ append_assoc xs (kept (n ∷ [])) (kept (m ∷ ys))
              ∙ ap (λ c. xs ++ c) (kept-cons n (m ∷ ys)),
        )

  -- A loop that removes some of the items of a valid table of fewer than 2 ^ 64 items as it comes
  -- to them, by the pointers that it is given: with a round more than there are items it ends
  -- without a fault, has seen the pointer of every node exactly once, slot by slot, and leaves a
  -- valid table with just the nodes whose items it kept, in their order. The addresses of the nodes
  -- are not NULL and differ, nor are the pointers NULL, and each pointer leads to the item's data.
  pub sweep_lem :
      (f : Funcs K) (t : Table K) (k : ℕ)
      → IsValid memory f t
      → t.item_count < 2 ^ 64
      → All (IsNode memory) (all_nodes (top_of t))
      → Apart (all_nodes (top_of t))
      → t.item_count < k
      → (t' : Table K) × (sweep k (live_begin t) t ≡ some (pointers (all_nodes (top_of t)), t'))
        × IsValid memory f t'
        × (all_nodes (top_of t') ≡ kept (all_nodes (top_of t)))
  unfolding sweep kept
  sweep_lem f t k valid bound each apart enough =
      let (_, counted) =
        walk-begin memory f t t.item_count valid
          (All-both (all_nodes (top_of t)) (λ n is is'. is.pointed) each each) (omega arith) in
      go (all_nodes (top_of t)) k refl (omega (arith, counted)) each apart
    where
      go :
          (ns : List (Node K)) (k : ℕ)
          → all_nodes (top_of t) ≡ ns
          → length ns < k
          → All (IsNode memory) ns
          → Apart ns
          → Ends f (sweep k (live_begin t) t) (pointers ns) (kept ns)
      go ns zero e fits each apart = absurd (omega arith)
      go [] (suc k) e fits each apart = (t, rw (live_begin-none t e) refl, valid, e)
      go (n ∷ ys) (suc k) e fits each apart =
          let (size, homed) = in_chains memory f t [] ys n valid e in
          let (last, steps, sound, left) =
            sweep-Ends f ys (suc k) t [] n valid bound e each apart
              (All-both ys (λ m _ _. tt) each.1 each.1) (omega arith) in
          (last, rw (live_begin-visit t n ys size homed e) steps, sound, left)
