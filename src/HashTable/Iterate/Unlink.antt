-- ===== src/HashTable/Iterate/Unlink.antt =====
-- The nodes of a table when one is taken out: the others, in their order.
use onyxnet.Prelude.{
  ℕ, zero, suc, ◌+◌, ◌≡◌, ◌<◌, ◌≢◌, refl, sym, ap, ◌∙◌, Bool, true, false, List, [], ◌∷◌, ◌++◌, All,
  All-right, All-both, get_or, set, Bool-cases, inl, inr, arith, length,
}
use onyxnet.HashTable.{delete_in}
use onyxnet.HashTable.Chain.{Node, delete_in}
use onyxnet.HashTable.Chain.Laws.{IsKeyed, key, IsCoded, Lacks, IsDistinct, deleted, deleted-cons}
use onyxnet.HashTable.Valid.{home}
use onyxnet.HashTable.Iterate.{all_nodes}
use onyxnet.HashTable.Iterate.Apart.{All-all_nodes}

module _ {K : Type 0} (memory : ℕ → K) (hash : K → ℕ) (same : K → K → Bool)
    (keyed : IsKeyed hash same) (k : K) where
  abbrev pub without : List (Node K) → List (Node K)
  without = deleted memory hash same k

  without-Lacks :
      (c : List (Node K))
      → All (IsCoded memory hash same) c
      → Lacks memory hash same k c
      → without c ≡ c
  unfolding delete_in
  without-Lacks [] coded lacks = refl
  without-Lacks (n ∷ c) coded lacks =
      deleted-cons memory hash same keyed k n c coded.0
      ∙ rw lacks.0 (ap (λ d. n ∷ d) (without-Lacks c coded.1 lacks.1))

  -- The key is in the first list, or not in the second.
  without-left :
      (c d : List (Node K))
      → All (IsCoded memory hash same) c
      → without d ≡ d
      → without (c ++ d) ≡ without c ++ d
  unfolding delete_in
  without-left [] d coded stays = stays
  without-left (n ∷ c) d coded stays =
      deleted-cons memory hash same keyed k n (c ++ d) coded.0
      ∙ elim (Bool-cases (same k (key memory hash same n))) [
        | inl here ↦ rw here refl
        | inr other ↦ rw other (ap (λ e. n ∷ e) (without-left c d coded.1 stays))
      ]
      ∙ ap (λ e. e ++ d) (sym (deleted-cons memory hash same keyed k n c coded.0))

  without-right :
      (c d : List (Node K))
      → All (IsCoded memory hash same) c
      → Lacks memory hash same k c
      → without (c ++ d) ≡ c ++ without d
  without-right [] d coded lacks = refl
  without-right (n ∷ c) d coded lacks =
      deleted-cons memory hash same keyed k n (c ++ d) coded.0
      ∙ rw lacks.0 (ap (λ e. n ∷ e) (without-right c d coded.1 lacks.1))

  -- A key is in no slot but its own.
  pub Lacks-elsewhere :
      (c : List (Node K)) (i : ℕ)
      → All (IsCoded memory hash same) c
      → All (λ n. home n.code ≡ i) c
      → i ≢ home (hash k)
      → Lacks memory hash same k c
  Lacks-elsewhere c i coded homed ne =
      All-both c
        (λ n h h'. elim (Bool-cases (same k (key memory hash same n))) [
          | inl alike ↦
              absurd
                (ne (sym h' ∙ ap home (h ∙ sym (keyed.hash-same k (key memory hash same n) alike))))
          | inr apart ↦ apart
        ])
        coded homed

  pub all_nodes-set :
      (cs : List (List (Node K))) (b i : ℕ)
      → ((j : ℕ) → All (IsCoded memory hash same) (get_or cs j []))
      → ((j : ℕ) → All (λ n. home n.code ≡ b + j) (get_or cs j []))
      → home (hash k) ≡ b + i
      → i < length cs
      → all_nodes (set cs i (without (get_or cs i []))) ≡ without (all_nodes cs)
  unfolding all_nodes
  all_nodes-set [] b i coded homed at inside = absurd (omega arith)
  all_nodes-set (c ∷ cs) b zero coded homed at inside = sym (
      without-left c (all_nodes cs) (coded 0) (
        without-Lacks (all_nodes cs) (All-all_nodes _ cs (λ j. coded (suc j))) (
          All-all_nodes _ cs (λ j.
            Lacks-elsewhere (get_or cs j []) (b + suc j) (coded (suc j)) (homed (suc j))
              (omega (arith, at))))))
  all_nodes-set (c ∷ cs) b (suc i) coded homed at inside =
      ap (λ d. c ++ d)
        (all_nodes-set cs (suc b) i (λ j. coded (suc j))
          (λ j. All-both (get_or cs j []) (λ n h h'. omega arith) (homed (suc j)) (homed (suc j)))
          (omega (arith, at)) (omega arith))
      ∙ sym (
          without-right c (all_nodes cs) (coded 0) (
            Lacks-elsewhere c b (coded 0) (All-both c (λ n h h'. omega arith) (homed 0) (homed 0))
              (omega (arith, at))))

  -- The node with the key, between others.
  pub without-middle :
      (xs ys : List (Node K)) (n : Node K)
      → All (IsCoded memory hash same) (xs ++ n ∷ ys)
      → IsDistinct memory hash same (xs ++ n ∷ ys)
      → k ≡ key memory hash same n
      → without (xs ++ n ∷ ys) ≡ xs ++ ys
  without-middle [] ys n coded distinct is =
      let here : same k (key memory hash same n) ≡ true =
        ap (same k) (sym is) ∙ keyed.same_refl k in
      deleted-cons memory hash same keyed k n ys coded.0 ∙ rw here refl
  without-middle (x ∷ xs) ys n coded distinct is =
      let apart : same k (key memory hash same x) ≡ false =
        keyed.same_symm k (key memory hash same x)
        ∙ ap (same (key memory hash same x)) is
        ∙ (All-right _ xs (n ∷ ys) distinct.0).0 in
      deleted-cons memory hash same keyed k x (xs ++ n ∷ ys) coded.0
      ∙ rw apart (ap (λ c. x ∷ c) (without-middle xs ys n coded.1 distinct.1 is))
