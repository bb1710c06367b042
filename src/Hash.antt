-- ===== src/Hash.antt =====
-- lib/onyxutil/hashtable.cpp: `hash_pod`. Data is the list of its bytes, so `size` is its length.
pub mod Distinct
use onyxnet.Prelude.{ℕ, ◌+◌, ◌*◌, ◌%◌, ◌^◌, List, [], ◌∷◌}

-- The loop, from the value `ret`, in `size_t`.
unfoldable pub hash_loop : ℕ → List ℕ → ℕ
hash_loop ret [] = ret
hash_loop ret (p ∷ ps) = hash_loop ((ret * 22511 + 33469 + p) % 2 ^ 64) ps

unfoldable pub hash_pod : List ℕ → ℕ
hash_pod bytes = hash_loop 1 bytes
