-- ===== src/HashTable/Iterate/Apart.antt =====
-- No two nodes of a table have the same key, and a search finds one of them.
use onyxnet.Prelude.{
  refl, ℕ, zero, suc, ◌+◌, ◌≡◌, ◌≤◌, ◌<◌, sym, ap, ◌∙◌, subst, Bool, false, Option, none, some,
  List, [], ◌∷◌, ◌++◌, All, All-append, All-left, All-right, All-both, get_or, Bool-cases, inl, inr,
  arith, if◌then◌else◌, none-ne-some,
}
use onyxnet.HashTable.{Table, Funcs, table_size}
use onyxnet.HashTable.Chain.{Node, match_in, hits}
use onyxnet.HashTable.Chain.Laws.{IsKeyed, key, IsCoded, Lacks, IsDistinct}
use onyxnet.HashTable.Valid.{
  IsValid-cases, home, IsValid, lookup, chains_of, hash_of, same_of, get_or-replicate,
}
use onyxnet.HashTable.Iterate.{all_nodes, top_of}

pub All-all_nodes {κ} :
    {K : Type 0} (P : Node K → Type κ) (cs : List (List (Node K)))
    → ((i : ℕ) → All P (get_or cs i []))
    → All P (all_nodes cs)
unfolding all_nodes
All-all_nodes P [] each = tt
All-all_nodes P (c ∷ cs) each =
    All-append P c (all_nodes cs) (each 0) (All-all_nodes P cs (λ i. each (suc i)))

module _ {K : Type 0} (memory : ℕ → K) (hash : K → ℕ) (same : K → K → Bool)
    (keyed : IsKeyed hash same) where
  IsDistinct-append :
      (c d : List (Node K))
      → IsDistinct memory hash same c
      → IsDistinct memory hash same d
      → All (λ n. Lacks memory hash same (key memory hash same n) d) c
      → IsDistinct memory hash same (c ++ d)
  IsDistinct-append [] d hc hd across = hd
  IsDistinct-append (n ∷ c) d hc hd across =
      (All-append _ c d hc.0 across.0, IsDistinct-append c d hc.1 hd across.1)

  -- Keys whose codes belong in different slots differ.
  differ_by_home :
      (n m : Node K)
      → IsCoded memory hash same n
      → IsCoded memory hash same m
      → home n.code < home m.code
      → same (key memory hash same n) (key memory hash same m) ≡ false
  differ_by_home n m coded coded' less =
      elim (Bool-cases (same (key memory hash same n) (key memory hash same m))) [
        | inr apart ↦ apart
        | inl alike ↦
            let homes : home n.code ≡ home m.code = ap home (
              coded
              ∙ keyed.hash-same (key memory hash same n) (key memory hash same m) alike
              ∙ sym coded') in
            absurd (omega (arith, homes))
      ]

  -- A node that belongs in the slot `i` or later.
  abbrev Later : ℕ → Node K → Type 0
  Later i n = IsCoded memory hash same n × (i ≤ home n.code)

  all_nodes-IsDistinct :
      (cs : List (List (Node K))) (b : ℕ)
      → ((i : ℕ) → All (IsCoded memory hash same) (get_or cs i []))
      → ((i : ℕ) → All (λ n. home n.code ≡ b + i) (get_or cs i []))
      → ((i : ℕ) → IsDistinct memory hash same (get_or cs i []))
      → IsDistinct memory hash same (all_nodes cs)
  unfolding all_nodes
  all_nodes-IsDistinct [] b coded homed distinct = tt
  all_nodes-IsDistinct (c ∷ cs) b coded homed distinct =
      let after : All (Later (suc b)) (all_nodes cs) = All-all_nodes (Later (suc b)) cs (λ i.
        All-both (get_or cs i []) (λ n h h'. (h, omega arith)) (coded (suc i)) (homed (suc i))) in
      IsDistinct-append c (all_nodes cs) (distinct 0)
        (all_nodes-IsDistinct cs (suc b) (λ i. coded (suc i))
          (λ i. All-both (get_or cs i []) (λ n h h'. omega arith) (homed (suc i)) (homed (suc i)))
          (λ i. distinct (suc i)))
        (All-both c
          (λ n h h'.
            All-both (all_nodes cs)
              (λ m later _. differ_by_home n m h later.0 (omega (arith, later.1, h'))) after after)
          (coded 0) (homed 0))

All-chain {κ} :
    {K : Type 0} (P : Node K → Type κ) (cs : List (List (Node K))) (i : ℕ)
    → All P (all_nodes cs)
    → All P (get_or cs i [])
unfolding all_nodes
All-chain P [] i all = tt
All-chain P (c ∷ cs) zero all = All-left P c (all_nodes cs) all
All-chain P (c ∷ cs) (suc i) all = All-chain P cs i (All-right P c (all_nodes cs) all)

All-chains_of {κ} :
    {K : Type 0} (P : Node K → Type κ) (top : Option (List (List (Node K)))) (i : ℕ)
    → All P (all_nodes (elim top [ none ↦ [] | some cs ↦ cs ]))
    → All P (get_or (chains_of top) i [])
All-chains_of {K = K} P none i all =
    subst (All P) (sym (get_or-replicate {A = List (Node K)} table_size i [])) tt
All-chains_of P (some cs) i all = All-chain P cs i all

match_in-All {κ} :
    {K : Type 0} (memory : ℕ → K) (code : ℕ) (same : K → Bool) (P : Node K → Type κ)
    (c : List (Node K)) (n : Node K)
    → All P c
    → match_in memory code same c ≡ some n
    → P n
unfolding match_in
match_in-All memory code same P [] n all e = absurd (none-ne-some refl e)
match_in-All memory code same P (m ∷ c) n all e = elim (Bool-cases (hits memory code same m)) [
  | inl here ↦ let it : m ≡ n = ground (arith, e, here) in subst P it all.0
  | inr later ↦
      match_in-All memory code same P c n all.1
        (sym (ap (λ b. if b then some m else match_in memory code same c) later) ∙ e)
]

module _ {K : Type 0} (memory : ℕ → K) (f : Funcs K) (t : Table K) where
  -- What holds of all nodes holds of one that is found.
  pub lookup-All {κ} :
      (P : Node K → Type κ) (q : K) (n : Node K)
      → All P (all_nodes (top_of t))
      → lookup memory f t q ≡ some n
      → P n
  unfolding lookup
  lookup-All P q n all e =
      match_in-All memory (hash_of memory f t q) (same_of memory f t q) P
        (get_or (chains_of t.top) (home (hash_of memory f t q)) []) n
        (All-chains_of P t.top (home (hash_of memory f t q)) all) e

  -- No two nodes of a valid table have the same key.
  pub table-IsDistinct :
      IsValid memory f t
      → IsDistinct memory (hash_of memory f t) (same_of memory f t) (all_nodes (top_of t))
  unfolding all_nodes
  table-IsDistinct valid =
      IsValid-cases memory f
        (λ t.
          IsValid memory f t
          → IsDistinct memory (hash_of memory f t) (same_of memory f t) (all_nodes (top_of t)))
        (λ top_size size count flags valid. tt)
        (λ cs size count flags valid.
          all_nodes-IsDistinct memory (λ k. f.hash k size) (λ a b. f.same a b size) valid.keyed cs 0
            valid.placed.coded
            (λ i.
              All-both (get_or cs i []) (λ n h h'. omega arith) (valid.placed.homed i)
                (valid.placed.homed i))
            valid.placed.distinct)
        t valid valid
