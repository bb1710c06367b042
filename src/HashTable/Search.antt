-- ===== src/HashTable/Search.antt =====
-- `hash_table_find` against a search of the whole table that knows of no codes and no slots.
use onyxnet.Prelude.{
  ℕ, zero, suc, ◌+◌, ◌≡◌, ◌<◌, refl, sym, ap, ◌∙◌, subst, Bool, some, List, [], ◌∷◌, ◌++◌, All,
  All-both, get_or, length, Bool-cases, inl, inr, arith, if◌then◌else◌,
}
use onyxnet.HashTable.{Table, Funcs, find}
use onyxnet.HashTable.Chain.{Node, pointer_of, key_of}
use onyxnet.HashTable.Chain.Laws.{IsKeyed, IsCoded, Lacks, found, found-cons, found-Lacks}
use onyxnet.HashTable.Valid.{
  home, home-lt, IsValid, IsValid-cases, lookup, find-lookup, pointer_or_null,
}
use onyxnet.HashTable.Iterate.{all_nodes, top_of}
use onyxnet.HashTable.Iterate.Apart.{All-all_nodes}
use onyxnet.HashTable.Iterate.Unlink.{Lacks-elsewhere}

-- The pointer of the first node whose key passes the test, or NULL.
unfoldable pub search : {K : Type 0} → (ℕ → K) → (K → Bool) → List (Node K) → ℕ
search memory test [] = 0
search memory test (n ∷ c) =
    if test (key_of memory n.stored) then pointer_of n.address n.stored else search memory test c

module _ {K : Type 0} (memory : ℕ → K) (f : Funcs K) (hash : K → ℕ) (same : K → K → Bool)
    (keyed : IsKeyed hash same) (k : K) where
  -- A search does not see nodes without the key.
  search-Lacks :
      (c d : List (Node K))
      → Lacks memory hash same k c
      → search memory (same k) (c ++ d) ≡ search memory (same k) d
  unfolding search
  search-Lacks [] d lacks = refl
  search-Lacks (n ∷ c) d lacks = rw lacks.0 (search-Lacks c d lacks.1)

  search_none : (d : List (Node K)) → Lacks memory hash same k d → search memory (same k) d ≡ 0
  unfolding search
  search_none [] lacks = refl
  search_none (n ∷ d) lacks = rw lacks.0 (search_none d lacks.1)

  search-found :
      (c d : List (Node K))
      → All (IsCoded memory hash same) c
      → Lacks memory hash same k d
      → search memory (same k) (c ++ d) ≡ pointer_or_null memory f (found memory hash same k c)
  unfolding search
  search-found [] d coded lacks =
      search_none d lacks
      ∙ sym (ap (pointer_or_null memory f) (found-Lacks memory hash same keyed k [] tt tt))
  search-found (n ∷ c) d coded lacks = elim (Bool-cases (same k (key_of memory n.stored))) [
    | inl here ↦
        let step : found memory hash same k (n ∷ c) ≡ some n =
          found-cons memory hash same keyed k n c coded.0 ∙ rw here refl in
        rw here (sym (ap (pointer_or_null memory f) step))
    | inr other ↦
        let step : found memory hash same k (n ∷ c) ≡ found memory hash same k c =
          found-cons memory hash same keyed k n c coded.0 ∙ rw other refl in
        rw other (search-found c d coded.1 lacks ∙ sym (ap (pointer_or_null memory f) step))
  ]

  -- All that the search could see stands in the slot of the key.
  search-all_nodes :
      (cs : List (List (Node K))) (b i : ℕ)
      → ((j : ℕ) → All (IsCoded memory hash same) (get_or cs j []))
      → ((j : ℕ) → All (λ n. home n.code ≡ b + j) (get_or cs j []))
      → home (hash k) ≡ b + i
      → i < length cs
      → search memory (same k) (all_nodes cs)
        ≡ pointer_or_null memory f (found memory hash same k (get_or cs i []))
  unfolding all_nodes
  search-all_nodes [] b i coded homed at inside = absurd (omega arith)
  search-all_nodes (c ∷ cs) b zero coded homed at inside = search-found c (all_nodes cs) (coded 0) (
      All-all_nodes _ cs (λ j.
        Lacks-elsewhere memory hash same keyed k (get_or cs j []) (b + suc j) (coded (suc j))
          (homed (suc j)) (omega (arith, at))))
  search-all_nodes (c ∷ cs) b (suc i) coded homed at inside =
      search-Lacks c (all_nodes cs)
        (Lacks-elsewhere memory hash same keyed k c (b + 0) (coded 0) (homed 0) (omega (arith, at)))
      ∙ search-all_nodes cs (suc b) i (λ j. coded (suc j))
          (λ j. All-both (get_or cs j []) (λ n h h'. omega arith) (homed (suc j)) (homed (suc j)))
          (omega (arith, at)) (omega arith)

-- `hash_table_find` in a valid table does not fault, and gives what comparing the key with the item of
-- every node of the table gives: the pointer of the one that compares equal, or NULL if none does.
pub find-search :
    {K : Type 0} (memory : ℕ → K) (f : Funcs K) (t : Table K) (p : ℕ)
    → IsValid memory f t
    → find memory t p
      ≡ some (search memory (λ q. f.same (memory p) q t.item_size) (all_nodes (top_of t)))
unfolding find lookup all_nodes search
find-search {K = K} memory f t p valid =
    IsValid-cases memory f
      (λ t.
        IsValid memory f t
        → find memory t p
          ≡ some (search memory (λ q. f.same (memory p) q t.item_size) (all_nodes (top_of t))))
      (λ top_size size count flags valid. refl)
      (λ cs size count flags valid.
        let h = λ (k : K). f.hash k size in
        find-lookup memory f _ p valid
        ∙ ap (λ n. some n)
            (sym (
              search-all_nodes memory f h (λ a b. f.same a b size) valid.keyed (memory p) cs 0
                (home (h (memory p))) valid.placed.coded
                (λ i.
                  All-both (get_or cs i []) (λ n g g'. omega arith) (valid.placed.homed i)
                    (valid.placed.homed i))
                (omega arith)
                (subst (λ n. home (h (memory p)) < n) (sym valid.placed.width)
                  (home-lt (h (memory p)))))))
      t valid valid
