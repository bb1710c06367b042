-- ===== src/Tests/Hash.antt =====
-- Hash codes of a few bytes.
use onyxnet.Prelude.{◌≡◌, ◌≢◌, refl, [], ◌∷◌, ◌++◌, arith}
use onyxnet.Hash.{hash_loop, hash_pod}
use onyxnet.Hash.Distinct.{hash_pod-one_byte}

hash_pod-one_byte_example :
    hash_pod ((1 ∷ 2 ∷ []) ++ (3 ∷ []) ++ (4 ∷ []))
    ≢ hash_pod ((1 ∷ 2 ∷ []) ++ (5 ∷ []) ++ (4 ∷ []))
hash_pod-one_byte_example =
    hash_pod-one_byte (1 ∷ 2 ∷ []) (4 ∷ []) 3 5 (omega arith) (omega arith) (omega arith)

-- One byte and two bytes of zeros have different codes.
zeros : hash_pod (0 ∷ []) ≡ 55980
unfolding hash_pod hash_loop
zeros = refl

two_zeros : hash_pod (0 ∷ 0 ∷ []) ≡ 1260199249
unfolding hash_pod hash_loop
two_zeros = refl
