-- ===== src/HashTable/Iterate/Visit.antt =====
-- An iteration visits every node of the table once.
use onyxnet.Prelude.{
  ℕ, zero, suc, ◌+◌, ◌≡◌, ◌≤◌, ◌⊎◌, ◌≢◌, refl, sym, ap, ◌∙◌, subst, List, [], ◌∷◌, ◌++◌, length,
  drop, All, get_or, arith, inl, inr, length-append, ◌==◌, Bool-cases, ==_iff,
}
use onyxnet.HashTable.{Table, Funcs, table_size}
use onyxnet.HashTable.Chain.{Node, pointer_of}
use onyxnet.HashTable.Valid.{home, IsValid, filled, bare, IsValid-cases, total, total-empty}
use onyxnet.HashTable.Iterate.{
  Iterator, top_of, first_chain, move_next, next, begin, all_nodes, walk,
}

module _ {K : Type 0} where
  -- From the slot `k` on there are no nodes, or there is a first chain `i` with some.
  abbrev pub Split : List (List (Node K)) → List (Node K) → List (Node K) → Type 0
  Split cs first left =
      ((first ≡ []) × (left ≡ []))
      ⊎ ((i : ℕ) × (n : Node K) × (rest : List (Node K)) × (first ≡ n ∷ rest)
          × (get_or cs i [] ≡ n ∷ rest)
          × (left ≡ (n ∷ rest) ++ all_nodes (drop (suc i) cs)))

  Split-cons :
      (c : List (Node K)) (cs : List (List (Node K))) (first left : List (Node K))
      → Split cs first left
      → Split (c ∷ cs) first left
  Split-cons c cs first left (inl e) = inl e
  Split-cons c cs first left (inr (i, n, rest, a, b, d)) = inr (suc i, n, rest, a, b, d)

  pub first_chain-Split :
      (cs : List (List (Node K))) (k : ℕ)
      → Split cs (first_chain (drop k cs)) (all_nodes (drop k cs))
  unfolding first_chain all_nodes
  first_chain-Split [] zero = inl (refl, refl)
  first_chain-Split [] (suc k) = inl (refl, refl)
  first_chain-Split ((n ∷ c) ∷ cs) zero = inr (0, n, c, refl, refl, refl)
  first_chain-Split ([] ∷ cs) zero =
      Split-cons [] cs (first_chain cs) (all_nodes cs) (first_chain-Split cs zero)
  first_chain-Split (c ∷ cs) (suc k) =
      Split-cons c cs (first_chain (drop k cs)) (all_nodes (drop k cs)) (first_chain-Split cs k)

  length-all_nodes : (cs : List (List (Node K))) → length (all_nodes cs) ≡ total cs
  unfolding all_nodes total
  length-all_nodes [] = refl
  length-all_nodes (c ∷ cs) =
      length-append c (all_nodes cs) ∙ ap (λ n. length c + n) (length-all_nodes cs)

  abbrev pub pointers : List (Node K) → List ℕ
  pointers [] = []
  pointers (n ∷ c) = pointer_of n.address n.stored ∷ pointers c

  module _ (memory : ℕ → K) (f : Funcs K) (cs : List (List (Node K))) (size count flags : ℕ)
      (homed : (i : ℕ) → All (λ n. home n.code ≡ i) (get_or cs i [])) where
    abbrev table : Table K
    table = filled memory f cs size count flags

    -- `left` are the nodes from `node` on.
    abbrev IsAt : List (Node K) → List (Node K) → Type 0
    IsAt node left =
        ((node ≡ []) × (left ≡ []))
        ⊎ ((i : ℕ) × (n : Node K) × (rest : List (Node K)) × (node ≡ n ∷ rest)
            × All (λ m. home m.code ≡ i) (n ∷ rest)
            × (left ≡ (n ∷ rest) ++ all_nodes (drop (suc i) cs)))

    Split-IsAt : (first left : List (Node K)) → Split cs first left → IsAt first left
    Split-IsAt first left (inl e) = inl e
    Split-IsAt first left (inr (i, n, rest, a, b, d)) =
        inr (i, n, rest, a, subst (All (λ m. home m.code ≡ i)) b (homed i), d)

    move_next-IsAt :
        (i : ℕ) (n : Node K) (rest : List (Node K))
        → All (λ m. home m.code ≡ i) (n ∷ rest)
        → IsAt (move_next table n rest) (rest ++ all_nodes (drop (suc i) cs))
    unfolding move_next home
    move_next-IsAt i n [] all =
        subst (λ j. IsAt (first_chain (drop (suc j) cs)) (all_nodes (drop (suc i) cs))) (sym all.0)
          (Split-IsAt (first_chain (drop (suc i) cs)) (all_nodes (drop (suc i) cs))
            (first_chain-Split cs (suc i)))
    move_next-IsAt i n (m ∷ rest) all = inr (i, m, rest, refl, all.1, refl)

    -- What a call returned, when `left` were the nodes left before it.
    abbrev IsNext : ℕ × Iterator K → List (Node K) → Type 0
    IsNext r left =
        ((r.0 ≡ 0) × (left ≡ []))
        ⊎ ((n : Node K) × (node : List (Node K)) × (after : List (Node K)) × (r
              ≡ (pointer_of n.address n.stored, record { table = table; node = node }))
            × (left ≡ n ∷ after)
            × IsAt node after)

    next-IsNext :
        (node left : List (Node K))
        → IsAt node left
        → IsNext (next (record { table = table; node = node })) left
    unfolding next
    next-IsNext node left (inl (e, d)) = inl (rw e refl, d)
    next-IsNext node left (inr (i, n, rest, e, all, d)) = inr (
      n,
      move_next table n rest,
      rest ++ all_nodes (drop (suc i) cs),
      rw e refl,
      d,
      move_next-IsAt i n rest all,
    )

    begin-IsNext : IsNext (begin table) (all_nodes cs)
    unfolding begin
    begin-IsNext = elim (Split-IsAt (first_chain cs) (all_nodes cs) (first_chain-Split cs 0)) [
      | inl (e, d) ↦ inl (rw e refl, d)
      | inr (i, n, rest, e, all, d) ↦ inr (
        n,
        move_next table n rest,
        rest ++ all_nodes (drop (suc i) cs),
        rw e refl,
        d,
        move_next-IsAt i n rest all,
      )
    ]

    walk-pointers :
        (k : ℕ) (r : ℕ × Iterator K) (left : List (Node K))
        → IsNext r left
        → length left ≤ k
        → All (λ n. pointer_of n.address n.stored ≢ 0) left
        → walk k r ≡ pointers left
    unfolding walk
    walk-pointers zero r left (inl (z, d)) enough nonzero = sym (ap pointers d)
    walk-pointers (suc k) r left (inl (z, d)) enough nonzero = rw (z, d) refl
    walk-pointers zero r left (inr (n, node, after, e, d, here)) enough nonzero =
        absurd (omega (arith, ap length d))
    walk-pointers (suc k) r left (inr (n, node, after, e, d, here)) enough nonzero =
        let real = subst (All (λ m. pointer_of m.address m.stored ≢ 0)) d nonzero in
        let fits : length after ≤ k = omega (arith, ap length d) in
        let rest =
          walk-pointers k (next (record { table = table; node = node })) after
            (next-IsNext node after here) fits real.1 in
        rw (e, d)
          (elim (Bool-cases (pointer_of n.address n.stored == 0)) [
            | inl null ↦ absurd (real.0 ((==_iff (pointer_of n.address n.stored) 0).0 null))
            | inr some_pointer ↦
                rw some_pointer (ap (λ ps. pointer_of n.address n.stored ∷ ps) rest)
          ])

walk-null : {K : Type 0} (k : ℕ) (it : Iterator K) → walk k (0, it) ≡ []
unfolding walk
walk-null zero it = refl
walk-null (suc k) it = refl

-- A caller's loop over a valid table whose item pointers are not NULL sees the pointer of every node
-- exactly once, slot by slot, and then stops, if it is given as many rounds as the table counts.
pub walk-begin :
    {K : Type 0} (memory : ℕ → K) (f : Funcs K) (t : Table K) (k : ℕ)
    → IsValid memory f t
    → All (λ n. pointer_of n.address n.stored ≢ 0) (all_nodes (top_of t))
    → t.item_count ≤ k
    → (walk k (begin t) ≡ pointers (all_nodes (top_of t)))
      × (length (all_nodes (top_of t)) ≡ t.item_count)
unfolding all_nodes begin first_chain
walk-begin {K} memory f t k valid nonzero enough =
    IsValid-cases memory f
      (λ t.
        IsValid memory f t
        → All (λ n. pointer_of n.address n.stored ≢ 0) (all_nodes (top_of t))
        → t.item_count ≤ k
        → (walk k (begin t) ≡ pointers (all_nodes (top_of t)))
          × (length (all_nodes (top_of t)) ≡ t.item_count))
      (λ top_size size count flags valid nonzero enough. (
        walk-null k (record { table = bare memory f top_size size count flags; node = [] }),
        sym (valid.counted ∙ total-empty (Node K) table_size),
      ))
      (λ cs size count flags valid nonzero enough.
        let counted = length-all_nodes cs ∙ sym valid.counted in
        (
          walk-pointers memory f cs size count flags valid.placed.homed k
              (begin (filled memory f cs size count flags)) (all_nodes cs)
              (begin-IsNext memory f cs size count flags valid.placed.homed)
              (omega (arith, counted, enough)) nonzero,
          counted,
        ))
      t valid valid nonzero enough
