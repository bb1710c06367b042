-- ===== src/Vector.antt =====
-- lib/onyxutil/vector.cpp and vector.h: an array of items of one size that grows. The block that
-- `items` points at belongs to the vector and is the field's value; `malloc` is an argument of what
-- calls it. The bytes that a caller's `items` pointer leads to are the list `src`; they lie outside
-- the vector's own block. `free` ends a block by the vector letting go of it.
pub mod Valid
pub mod Parts
pub mod Grown
pub mod InPlace
pub mod Insert
pub mod Remove
pub mod Reject
pub mod RoundTrip
pub mod Items
use onyxnet.Prelude.{
  ℕ, ◌+◌, ◌/◌, ◌^◌, Bool, true, false, ◌&&◌, Option, none, some, List, ltb, ◌==◌, not,
  if◌then◌else◌,
}
use onyxnet.Memory.{
  Owned, Block, address_of, Malloc, add_size, sub_size, mul_size, ◌>>=◌, read_bytes, write_bytes,
  read, write,
}

-- `vector_t`
pub record Vector : Type 0 where
  pub items : Owned
  pub item_count : ℕ
  pub item_size : ℕ
  pub phys_size : ℕ

abbrev pub vector_max_count : ℕ
vector_max_count = 0x100000

-- The second part is true for the result 0 and false for -1.
unfoldable pub init : ℕ → Vector × Bool
init size = (
  record { items = none; item_count = 0; item_size = size; phys_size = 0 },
  if size == 0 then false else true,
)

-- `vec` is not NULL.
unfoldable pub deinit : Vector → Vector
deinit v = record v { items = none; item_count = 0 }

-- The branch that takes a larger block `nu`, of `q` items.
unfoldable pub insert_grown : Block → Vector → ℕ → List ℕ → ℕ → ℕ → Option (ℕ × Vector)
insert_grown nu v index src count q = do
  front ←
      if index == 0
      then some nu.bytes
      else read v.items 0 (mul_size index v.item_size) >>= (λ old. write_bytes nu.bytes 0 old)
  new ← read_bytes src 0 (mul_size count v.item_size)
  filled ← write_bytes front (mul_size index v.item_size) new
  whole ←
      if ltb index v.item_count
      then read v.items (mul_size index v.item_size)
          (mul_size (sub_size v.item_count index) v.item_size)
        >>= (λ old. write_bytes filled (mul_size (add_size index count) v.item_size) old)
      else some filled
  some (
    count,
    record v {
      items = some (record nu { bytes = whole });
      item_count = add_size v.item_count count;
      phys_size = q;
    },
  )

-- The branch that moves the items behind `index` up within the block.
unfoldable pub insert_in_place : Vector → ℕ → List ℕ → ℕ → Option (ℕ × Vector)
insert_in_place v index src count = do
  moved ←
      if ltb index v.item_count
      then read v.items (mul_size index v.item_size)
          (mul_size (sub_size v.item_count index) v.item_size)
        >>= (λ old. write v.items (mul_size (add_size index count) v.item_size) old)
      else some v.items
  new ← read_bytes src 0 (mul_size count v.item_size)
  filled ← write moved (mul_size index v.item_size) new
  some (count, record v { items = filled; item_count = add_size v.item_count count })

-- `q += (q >> 2) + 16`
abbrev pub grown_size : ℕ → ℕ
grown_size n = add_size n (add_size (n / 2 ^ 2) 16)

-- `vector_item_insert`
unfoldable pub insert : Malloc → Vector → ℕ → List ℕ → ℕ → Option (ℕ × Vector)
insert malloc v index src count =
    if ltb v.item_count index
    then some (0, v)
    else if count == 0
    then some (0, v)
    else if ltb (sub_size vector_max_count v.item_count) count
    then some (0, v)
    else let new_count = add_size v.item_count count in
      if ltb v.phys_size new_count
      then elim (malloc (mul_size (grown_size new_count) v.item_size)) [
        | none ↦ some (0, v)
        | some nu ↦ insert_grown nu v index src count (grown_size new_count)
      ]
      else insert_in_place v index src count

-- `vector_item_append`
unfoldable pub append : Malloc → Vector → List ℕ → Option (ℕ × Vector)
append malloc v src =
    insert malloc v v.item_count src 1
    >>= (λ r. if r.0 == 0 then some (0, r.1) else some (r.1.item_count, r.1))

-- `vector_item_get`: the address of the slot, or NULL.
unfoldable pub get : Vector → ℕ → ℕ
get v index =
    if ltb v.item_count index then 0 else add_size (address_of v.items) (mul_size index v.item_size)

-- `vector_item_remove`
unfoldable pub remove : Vector → ℕ → ℕ → Option (ℕ × Vector)
remove v index asked =
    if ltb v.item_count index
    then some (0, v)
    else let count =
        if ltb (sub_size v.item_count index) asked then sub_size v.item_count index else asked in
      let to_move = sub_size (sub_size v.item_count count) index in
      (if ltb 0 count && ltb 0 to_move
        then read v.items (mul_size (add_size index count) v.item_size)
            (mul_size to_move v.item_size)
          >>= (λ old. write v.items (mul_size index v.item_size) old)
        else some v.items)
      >>= (λ left.
          some (count, record v { items = left; item_count = sub_size v.item_count count }))
