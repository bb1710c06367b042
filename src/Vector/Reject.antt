-- ===== src/Vector/Reject.antt =====
-- What the vector refuses, and what goes wrong after `vector_deinit`.
use onyxnet.Prelude.{Option-cases, ℕ, ◌+◌, ◌≤◌, ◌<◌, ◌≡◌, ◌⊎◌, none, some, List, arith}
use onyxnet.Memory.{write, read_bytes, mul_size, Malloc}
use onyxnet.Vector.{Vector, vector_max_count, deinit, insert, insert_in_place}

-- An insertion past the end, of no items, or of more than the vector may hold returns 0 and changes
-- nothing, whatever `malloc` would answer.
pub insert-reject :
    (malloc : Malloc) (v : Vector) (index : ℕ) (src : List ℕ) (count : ℕ)
    → v.item_count ≤ vector_max_count
    → (v.item_count < index) ⊎ (count ≡ 0) ⊎ (vector_max_count < v.item_count + count)
    → insert malloc v index src count ≡ some (0, v)
unfolding insert
insert-reject malloc v index src count bounded bad = ground arith

-- After `vector_deinit` the number of slots is still that of the freed block: an insertion that
-- would have fitted it writes through the null pointer, which is a fault.
pub insert-deinit :
    (malloc : Malloc) (v : Vector) (src : List ℕ) (count : ℕ)
    → 0 < count
    → count ≤ vector_max_count
    → count ≤ v.phys_size
    → insert malloc (deinit v) 0 src count ≡ none
unfolding insert deinit insert_in_place write
insert-deinit malloc v src count pos bounded fits =
    ground (arith, Option-cases (read_bytes src 0 (mul_size count v.item_size)))
