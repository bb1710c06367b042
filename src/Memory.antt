-- ===== src/Memory.antt =====
-- What the code uses of C's memory: `size_t` arithmetic, blocks from `malloc`, and `memmove` and
-- `memcpy` as a read of one range followed by a write of another. `none` is a fault: a range that
-- leaves its block, or a null pointer.
pub mod Ranges
pub mod Heap
use onyxnet.Prelude.{
  ℕ, ◌+◌, ◌-◌, ◌*◌, ◌%◌, ◌^◌, ◌≡◌, Option, none, some, List, [], ◌++◌, length, take, drop, leb,
  if◌then◌else◌,
}

-- `size_t` has 64 bits
abbrev pub add_size : ℕ → ℕ → ℕ
add_size a b = (a + b) % 2 ^ 64

abbrev pub sub_size : ℕ → ℕ → ℕ
sub_size a b = (a + 2 ^ 64 - b) % 2 ^ 64

abbrev pub mul_size : ℕ → ℕ → ℕ
mul_size a b = a * b % 2 ^ 64

pub record Block : Type 0 where
  pub address : ℕ
  pub bytes : List ℕ

-- A pointer to a block that its holder owns; `none` is NULL.
abbrev pub Owned : Type 0
Owned = Option Block

abbrev pub address_of : Owned → ℕ
address_of none = 0
address_of (some b) = b.address

abbrev pub bytes_of : Owned → List ℕ
bytes_of none = []
bytes_of (some b) = b.bytes

-- What the allocator answers to a request for a number of bytes.
abbrev pub Malloc : Type 0
Malloc = ℕ → Option Block

-- `malloc` returns NULL or a block of the size asked for.
abbrev pub IsMalloc : Malloc → Type 0
IsMalloc malloc = (n : ℕ) (b : Block) → malloc n ≡ some b → length b.bytes ≡ n

infixl 5 ◌>>=◌
abbrev pub ◌>>=◌ {ℓ κ} : {A : Type ℓ} {B : Type κ} → Option A → (A → Option B) → Option B
none >>= f = none
some a >>= f = f a

unfoldable pub read_bytes : List ℕ → ℕ → ℕ → Option (List ℕ)
read_bytes bs off n = if leb (off + n) (length bs) then some (take n (drop off bs)) else none

unfoldable pub write_bytes : List ℕ → ℕ → List ℕ → Option (List ℕ)
write_bytes bs off src =
    if leb (off + length src) (length bs)
    then some (take off bs ++ (src ++ drop (off + length src) bs))
    else none

unfoldable pub read : Owned → ℕ → ℕ → Option (List ℕ)
read none off n = none
read (some b) off n = read_bytes b.bytes off n

unfoldable pub write : Owned → ℕ → List ℕ → Option Owned
write none off src = none
write (some b) off src =
    write_bytes b.bytes off src >>= (λ bs. some (some (record b { bytes = bs })))
