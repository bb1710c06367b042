-- ===== src/Vector/Remove.antt =====
-- `vector_item_remove` of a valid vector does not fault, and closes the gap.
use onyxnet.Prelude.{
  ◌⊎◌, ltb→lt, ℕ, ◌+◌, ◌-◌, ◌*◌, ◌≤◌, ◌<◌, ◌≡◌, refl, sym, ap, ap₂, ◌∙◌, inl, inr, false, ◌&&◌,
  some, List, ◌++◌, length, take, drop, ltb, if◌then◌else◌, Bool-cases, arith, min,
}
use onyxnet.Memory.{Owned, bytes_of, add_size, sub_size, mul_size, ◌>>=◌, read, write}
use onyxnet.Memory.Ranges.{
  written, length-written, length-slice, take-written_end, take-take_le, take-add, drop-take,
}
use onyxnet.Vector.{Vector, remove}
use onyxnet.Vector.Valid.{
  IsValid, contents, mul_le, mul-pos, mul_size-exact, read-inside, write-inside,
}

-- `bs` without the `n` bytes from `off` on.
abbrev pub cut : List ℕ → ℕ → ℕ → List ℕ
cut bs off n = take off bs ++ drop (off + n) bs

pub record IsRemoved (v : Vector) (index count : ℕ) (r : Vector) : Type 0 where
  pub valid : IsValid r
  pub same_size : r.item_size ≡ v.item_size
  pub same_capacity : r.phys_size ≡ v.phys_size
  pub counted : r.item_count + count ≡ v.item_count
  pub holds : contents r ≡ cut (contents v) (index * v.item_size) (count * v.item_size)

module _ (v : Vector) (index count : ℕ) (valid : IsValid v)
    (inside : index + count ≤ v.item_count) where
  abbrev a : ℕ
  a = index * v.item_size

  abbrev k : ℕ
  k = count * v.item_size

  abbrev left : ℕ
  left = v.item_count - count - index

  abbrev t : ℕ
  t = left * v.item_size

  to_move : sub_size (sub_size v.item_count count) index ≡ left
  to_move = omega arith

  whole : v.item_count * v.item_size ≡ a + k + t
  whole =
      let parts : v.item_count ≡ index + count + left = omega arith in
      ap (λ (n : ℕ). n * v.item_size) parts ∙ omega arith

  fits : a + k + t ≤ length (bytes_of v.items)
  fits =
      omega (arith, whole, valid.storage, mul_le v.item_count v.phys_size v.item_size valid.within)

  moved_lem :
      (o : Owned) × ((if ltb 0 count && ltb 0 (sub_size (sub_size v.item_count count) index)
          then read v.items
              (mul_size (add_size index count) v.item_size)
              (mul_size (sub_size (sub_size v.item_count count) index) v.item_size)
            >>= (λ old. write v.items (mul_size index v.item_size) old)
          else some v.items)
        ≡ some o)
      × (length (bytes_of o) ≡ length (bytes_of v.items))
      × (take (a + t) (bytes_of o)
          ≡ take a (bytes_of v.items) ++ take t (drop (a + k) (bytes_of v.items)))
  moved_lem =
      elim (Bool-cases (ltb 0 count && ltb 0 (sub_size (sub_size v.item_count count) index))) [
        | inl move ↦
            let pos : 0 < left = ground (arith, move, to_move) in
            let slice = take t (drop (a + k) (bytes_of v.items)) in
            let width : length slice ≡ t = length-slice (bytes_of v.items) (a + k) t fits in
            let room : a + length slice ≤ length (bytes_of v.items) = omega (arith, width, fits) in
            let (b, e, bytes, _) =
              write-inside v.items a slice
                (omega (arith, width, mul-pos left v.item_size pos valid.size_pos)) room in
            (
              some b,
              rw (
                move,
                ap₂ (read v.items) from_bytes moved_bytes
                    ∙ read-inside v.items (a + k) t (mul-pos left v.item_size pos valid.size_pos)
                        fits,
                ap (λ n. write v.items n slice) index_bytes ∙ e,
              ),
              ap length bytes ∙ length-written (bytes_of v.items) a slice room,
              ap (take (a + t)) bytes
                  ∙ ap (λ n. take (a + n) (written (bytes_of v.items) a slice)) (sym width)
                  ∙ take-written_end (bytes_of v.items) a slice room,
            )
        | inr stay ↦ (
          v.items,
          rw stay,
          refl,
          take-add a t (bytes_of v.items)
              ∙ ap (λ bs. take a (bytes_of v.items) ++ bs) (same_tail (nothing stay)),
        )
      ]
    where
      nothing :
          (ltb 0 count && ltb 0 (sub_size (sub_size v.item_count count) index)) ≡ false
          → (left ≡ 0) ⊎ (count ≡ 0)
      nothing stay = ground (arith, stay, to_move)

      same_tail :
          (left ≡ 0) ⊎ (count ≡ 0)
          → take t (drop a (bytes_of v.items)) ≡ take t (drop (a + k) (bytes_of v.items))
      same_tail (inl e) =
          let z : t ≡ 0 = ap (λ (n : ℕ). n * v.item_size) e ∙ omega arith in
          ap (λ n. take n (drop a (bytes_of v.items))) z
          ∙ sym (ap (λ n. take n (drop (a + k) (bytes_of v.items))) z)
      same_tail (inr e) =
          let z : k ≡ 0 = ap (λ (n : ℕ). n * v.item_size) e ∙ omega arith in
          ap (λ n. take t (drop n (bytes_of v.items))) (omega (arith, z))

      index_bytes : mul_size index v.item_size ≡ a
      index_bytes = mul_size-exact index v.item_size (omega arith) valid.size_small

      moved_bytes : mul_size (sub_size (sub_size v.item_count count) index) v.item_size ≡ t
      moved_bytes =
          ap (λ n. mul_size n v.item_size) to_move
          ∙ mul_size-exact left v.item_size (omega arith) valid.size_small

      from_bytes : mul_size (add_size index count) v.item_size ≡ a + k
      from_bytes =
          let sum : add_size index count ≡ index + count = omega arith in
          ap (λ n. mul_size n v.item_size) sum
          ∙ mul_size-exact (index + count) v.item_size (omega arith) valid.size_small
          ∙ omega arith

  -- The contents behind the gap.
  contents-cut :
      cut (contents v) a k ≡ take a (bytes_of v.items) ++ take t (drop (a + k) (bytes_of v.items))
  unfolding contents
  contents-cut =
      ap₂ ◌++◌
        (take-take_le a (v.item_count * v.item_size) (bytes_of v.items) (omega (arith, whole)))
        (ap (λ n. drop (a + k) (take n (bytes_of v.items))) whole
          ∙ drop-take (a + k) t (bytes_of v.items))

  removed :
      (o : Owned)
      → length (bytes_of o) ≡ length (bytes_of v.items)
      → take (a + t) (bytes_of o)
        ≡ take a (bytes_of v.items) ++ take t (drop (a + k) (bytes_of v.items))
      → IsRemoved v index count (record v { items = o; item_count = sub_size v.item_count count })
  unfolding contents
  removed o width parts = record {
    valid = record {
      size_pos = valid.size_pos;
      size_small = valid.size_small;
      within = omega arith;
      bounded = omega arith;
      reserve = valid.reserve;
      storage = width ∙ valid.storage;
    };
    same_size = refl;
    same_capacity = refl;
    counted = omega arith;
    holds = ap (λ n. take n (bytes_of o)) bytes ∙ parts ∙ sym contents-cut;
  }
    where
      bytes : sub_size v.item_count count * v.item_size ≡ a + t
      bytes =
          let e : sub_size v.item_count count ≡ index + left = omega arith in
          ap (λ (n : ℕ). n * v.item_size) e ∙ omega arith

-- A removal from a valid vector at an index within it does not fault: it takes out the items asked
-- for, or all from the index on if these are fewer, returns their number, and leaves a valid vector
-- of the same capacity with the other items' bytes in order. Past the end it returns 0 and changes
-- nothing.
pub remove_lem :
    (v : Vector) (index asked : ℕ)
    → IsValid v
    → ((index ≤ v.item_count)
        × (r : Vector) × (remove v index asked ≡ some (min asked (v.item_count - index), r))
        × IsRemoved v index (min asked (v.item_count - index)) r)
      ⊎ ((v.item_count < index) × (remove v index asked ≡ some (0, v)))
unfolding remove
remove_lem v index asked valid = elim (Bool-cases (ltb v.item_count index)) [
  | inl past ↦ inr (ltb→lt _ _ past, rw past refl)
  | inr within ↦
      let count = min asked (v.item_count - index) in
      let inside : index + count ≤ v.item_count = ground (arith, within) in
      let clipped : (if ltb (sub_size v.item_count index) asked
            then sub_size v.item_count index
            else asked)
          ≡ count =
        ground (arith, within) in
      let (o, e, width, parts) = moved_lem v index count valid inside in
      inl (
        ground (arith, within),
        record v { items = o; item_count = sub_size v.item_count count },
        rw (within, clipped, e) refl,
        removed v index count valid inside o width parts,
      )
]
