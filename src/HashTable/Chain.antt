-- ===== src/HashTable/Chain.antt =====
-- One chain of the hash table: the loops over it.
pub mod Laws
pub mod Keeps
use onyxnet.Prelude.{ℕ, ◌+◌, Bool, ◌&&◌, Option, none, some, List, [], ◌∷◌, ◌==◌, if◌then◌else◌}

-- What stands behind a node's header: a copy of the item, or in HASHTABLE_POINTERS mode its address.
pub data Stored (K : Type 0) : Type 0 where
  copied : K → Stored K
  pointed : ℕ → Stored K

-- `hash_node_t` and its item, without `next`
pub record Node (K : Type 0) : Type 0 where
  pub address : ℕ
  pub code : ℕ
  pub stored : Stored K

module _ {K : Type 0} where
  -- `nodekey`, the data behind it and the pointer itself; `n + 1` is 16 bytes past `n`.
  abbrev pub key_of : (ℕ → K) → Stored K → K
  key_of memory (copied k) = k
  key_of memory (pointed p) = memory p

  abbrev pub pointer_of : ℕ → Stored K → ℕ
  pointer_of address (copied k) = address + 16
  pointer_of address (pointed p) = p

module _ {K : Type 0} (memory : ℕ → K) (code : ℕ) (same : K → Bool) where
  -- `n->code == code` and `comp_func(key, nodekey, …) == 0`
  abbrev pub hits : Node K → Bool
  hits n = n.code == code && same (key_of memory n.stored)

  -- the first node that hits
  unfoldable pub match_in : List (Node K) → Option (Node K)
  match_in [] = none
  match_in (n ∷ c) = if hits n then some n else match_in c

  -- the item of that node overwritten
  unfoldable pub replace_in : Stored K → List (Node K) → List (Node K)
  replace_in s [] = []
  replace_in s (n ∷ c) = if hits n then record n { stored = s } ∷ c else n ∷ replace_in s c

  -- that node unlinked
  unfoldable pub delete_in : List (Node K) → List (Node K)
  delete_in [] = []
  delete_in (n ∷ c) = if hits n then c else n ∷ delete_in c
