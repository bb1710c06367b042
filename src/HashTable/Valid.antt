-- ===== src/HashTable/Valid.antt =====
-- When a table is well formed, and what it holds under a key.
use onyxnet.Prelude.{
  Option-cases, subst, ℕ, zero, suc, ◌+◌, ◌<◌, ◌≡◌, refl, sym, ap, Bool, true, false, Option, none,
  some, List, [], ◌∷◌, length, All, get_elem?, get_or, set, replicate, if◌then◌else◌, ◌==◌, inl,
  inr, arith,
}
use onyxnet.Bits.{and-lt-pow}
use onyxnet.HashTable.{Funcs, Table, table_size, slot_of, find}
use onyxnet.HashTable.Chain.{Node, pointer_of, match_in}
use onyxnet.HashTable.Chain.Laws.{IsKeyed, IsCoded, IsDistinct, found}

module _ {ℓ} {A : Type ℓ} where
  pub get_elem?-inside :
      (xs : List A) (i : ℕ) (d : A) → i < length xs → get_elem? xs i ≡ some (get_or xs i d)
  get_elem?-inside [] i d h = absurd (omega arith)
  get_elem?-inside (x ∷ xs) zero d h = refl
  get_elem?-inside (x ∷ xs) (suc i) d h = get_elem?-inside xs i d (omega arith)

  pub get_or-set :
      (xs : List A) (i j : ℕ) (v d : A)
      → i < length xs
      → get_or (set xs i v) j d ≡ (if i == j then v else get_or xs j d)
  get_or-set [] i j v d h = absurd (omega arith)
  get_or-set (x ∷ xs) zero zero v d h = refl
  get_or-set (x ∷ xs) zero (suc j) v d h = ground arith
  get_or-set (x ∷ xs) (suc i) zero v d h = ground arith
  get_or-set (x ∷ xs) (suc i) (suc j) v d h = ground (arith, get_or-set xs i j v d)

  pub get_or-replicate : (n i : ℕ) (d : A) → get_or (replicate n d) i d ≡ d
  get_or-replicate zero i d = refl
  get_or-replicate (suc n) zero d = refl
  get_or-replicate (suc n) (suc i) d = get_or-replicate n i d

-- The number of nodes in all the chains.
unfoldable pub total {ℓ} : {A : Type ℓ} → List (List A) → ℕ
total [] = 0
total (c ∷ cs) = length c + total cs

pub total-set {ℓ} :
    {A : Type ℓ} (cs : List (List A)) (i : ℕ) (c : List A)
    → i < length cs
    → total (set cs i c) + length (get_or cs i []) ≡ total cs + length c
unfolding total
total-set [] i c h = absurd (omega arith)
total-set (x ∷ cs) zero c h = omega arith
total-set (x ∷ cs) (suc i) c h = omega (arith, total-set cs i c (omega arith))

pub total-empty {ℓ} : (A : Type ℓ) (n : ℕ) → total (replicate {A = List A} n []) ≡ 0
unfolding total
total-empty A zero = refl
total-empty A (suc n) = omega (arith, total-empty A n)

-- The chains, of which there are none before the first assignment.
abbrev pub chains_of : {K : Type 0} → Option (List (List (Node K))) → List (List (Node K))
chains_of none = replicate table_size []
chains_of (some cs) = cs

-- The slot of a code in a table with its chains.
unfoldable pub home : ℕ → ℕ
home code = slot_of code table_size

pub home-lt : (code : ℕ) → home code < table_size
unfolding home
home-lt code = and-lt-pow 5 code 31 (omega arith)

-- Every node carries the code of its key and stands in that code's slot, and no two nodes of a chain
-- have the same key.
pub record IsPlaced {K : Type 0} (memory : ℕ → K) (hash : K → ℕ) (same : K → K → Bool)
    (cs : List (List (Node K))) : Type 0 where
  pub width : length cs ≡ table_size
  pub coded : (i : ℕ) → All (IsCoded memory hash same) (get_or cs i [])
  pub homed : (i : ℕ) → All (λ n. home n.code ≡ i) (get_or cs i [])
  pub distinct : (i : ℕ) → IsDistinct memory hash same (get_or cs i [])

-- Whether the chains are there.
abbrev pub in_use : {K : Type 0} → Option (List (List (Node K))) → Bool
in_use none = false
in_use (some cs) = true

-- `top_size` is right once the chains are there.
abbrev pub IsSized : {K : Type 0} → Option (List (List (Node K))) → ℕ → Type 0
IsSized none size = Unit {0}
IsSized (some cs) size = size ≡ table_size

module _ {K : Type 0} (memory : ℕ → K) (f : Funcs K) where
  abbrev pub hash_of : Table K → K → ℕ
  hash_of t k = f.hash k t.item_size

  abbrev pub same_of : Table K → K → K → Bool
  same_of t a b = f.same a b t.item_size

  pub record IsValid (t : Table K) : Type 0 where
    pub functions : t.funcs ≡ some f
    pub keyed : IsKeyed (hash_of t) (same_of t)
    pub sized : IsSized t.top t.top_size
    pub placed : IsPlaced memory (hash_of t) (same_of t) (chains_of t.top)
    pub counted : t.item_count ≡ total (chains_of t.top)

  -- The node whose key is the same as `k`, if there is one.
  unfoldable pub lookup : Table K → K → Option (Node K)
  lookup t k =
      found memory (hash_of t) (same_of t) k (get_or (chains_of t.top) (home (hash_of t k)) [])

  abbrev pub pointer_or_null : Option (Node K) → ℕ
  pointer_or_null none = 0
  pointer_or_null (some n) = pointer_of n.address n.stored

  -- The table in use with these chains.
  abbrev pub filled : List (List (Node K)) → ℕ → ℕ → ℕ → Table K
  filled cs size count flags = record {
    top = some cs;
    top_size = table_size;
    item_size = size;
    item_count = count;
    flags = flags;
    funcs = some f;
  }

  -- The table before the first assignment.
  abbrev pub bare : ℕ → ℕ → ℕ → ℕ → Table K
  bare top_size size count flags = record {
    top = none;
    top_size = top_size;
    item_size = size;
    item_count = count;
    flags = flags;
    funcs = some f;
  }

  -- A valid table has no chains yet, or is in use.
  pub IsValid-cases {ℓ} :
      (P : Table K → Type ℓ)
      → ((top_size size count flags : ℕ) → P (bare top_size size count flags))
      → ((cs : List (List (Node K))) (size count flags : ℕ) → P (filled cs size count flags))
      → (t : Table K) → IsValid t
      → P t
  IsValid-cases P unused used t valid = elim (Option-cases t.top) [
    | inl e ↦
        subst P (sym (λ i. record t { top = e i; funcs = valid.functions i }))
          (unused t.top_size t.item_size t.item_count t.flags)
    | inr (cs, e) ↦
        let sized = subst (λ o. IsSized o t.top_size) e valid.sized in
        subst P (sym (λ i. record t { top = e i; top_size = sized i; funcs = valid.functions i }))
          (used cs t.item_size t.item_count t.flags)
  ]

  pub slot-inside :
      (cs : List (List (Node K))) (code : ℕ)
      → length cs ≡ table_size
      → get_elem? cs (home code) ≡ some (get_or cs (home code) [])
  slot-inside cs code width =
      get_elem?-inside cs (home code) [] (subst (λ w. home code < w) (sym width) (home-lt code))

  abbrev pointer_from : Option (Node K) → Option ℕ
  pointer_from o = some (pointer_or_null o)

  -- `hash_table_find` in a valid table does not fault, and returns the pointer of the node under the
  -- key, or NULL if there is none.
  pub find-lookup :
      (t : Table K) (p : ℕ)
      → IsValid t
      → find memory t p ≡ some (pointer_or_null (lookup t (memory p)))
  unfolding find lookup home match_in
  find-lookup t p valid =
      IsValid-cases
        (λ t. IsValid t → find memory t p ≡ some (pointer_or_null (lookup t (memory p))))
        (λ top_size size count flags valid. ap pointer_from (
          ap (found memory (λ k. f.hash k size) (λ a b. f.same a b size) (memory p)) (
            sym (
              get_or-replicate {A = List (Node K)} table_size (home (f.hash (memory p) size)) []))))
        (λ cs size count flags valid.
          rw (slot-inside cs (f.hash (memory p) size) valid.placed.width) refl)
        t valid valid
