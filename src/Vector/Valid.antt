-- ===== src/Vector/Valid.antt =====
-- When a vector is well formed, and the bytes that it holds.
use onyxnet.Prelude.{
  ℕ, ◌+◌, ◌*◌, ◌^◌, ◌≤◌, ◌<◌, ◌≡◌, refl, none, some, List, length, take, drop, arith,
}
use native.Mathlib.Nat.{mod-eq_of_lt}
use onyxnet.Memory.{Block, Owned, address_of, bytes_of, mul_size, read, write}
use onyxnet.Memory.Ranges.{written, read_bytes-inside, write_bytes-inside}
use onyxnet.Vector.{Vector, vector_max_count}

-- No block has more items than this: growing to 0x100000 items asks for 0x100000 / 4 + 16 more.
abbrev pub max_capacity : ℕ
max_capacity = 0x140010

pub record IsValid (v : Vector) : Type 0 where
  pub size_pos : 0 < v.item_size
  pub size_small : max_capacity * v.item_size < 2 ^ 64
  pub within : v.item_count ≤ v.phys_size
  pub bounded : v.item_count ≤ vector_max_count
  pub reserve : v.phys_size ≤ max_capacity
  pub storage : length (bytes_of v.items) ≡ v.phys_size * v.item_size

-- The items' bytes, in order.
unfoldable pub contents : Vector → List ℕ
contents v = take (v.item_count * v.item_size) (bytes_of v.items)

pub mul_le : (n m s : ℕ) → n ≤ m → n * s ≤ m * s
mul_le n m s h = grind arith

pub mul-pos : (n s : ℕ) → 0 < n → 0 < s → 0 < n * s
mul-pos n s hn hs = grind arith

-- Sizes in bytes do not wrap.
pub mul_size-exact : (n s : ℕ) → n ≤ max_capacity → max_capacity * s < 2 ^ 64 → mul_size n s ≡ n * s
mul_size-exact n s h small = mod-eq_of_lt (omega (arith, mul_le n max_capacity s h))

pub read-inside :
    (o : Owned) (off n : ℕ)
    → 0 < n
    → off + n ≤ length (bytes_of o)
    → read o off n ≡ some (take n (drop off (bytes_of o)))
unfolding read
read-inside none off n pos h = absurd (omega arith)
read-inside (some b) off n pos h = read_bytes-inside b.bytes off n h

pub write-inside :
    (o : Owned) (off : ℕ) (src : List ℕ)
    → 0 < length src
    → off + length src ≤ length (bytes_of o)
    → (b : Block) × (write o off src ≡ some (some b))
      × (b.bytes ≡ written (bytes_of o) off src)
      × (b.address ≡ address_of o)
unfolding write
write-inside none off src pos h = absurd (omega arith)
write-inside (some b) off src pos h = (
  record b { bytes = written b.bytes off src },
  rw (write_bytes-inside b.bytes off src h),
  refl,
  refl,
)
