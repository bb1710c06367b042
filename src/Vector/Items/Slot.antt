-- ===== src/Vector/Items/Slot.antt =====
-- `vector_item_get`: the address of an item.
use onyxnet.Prelude.{
  ℕ, suc, zero, ◌+◌, ◌-◌, ◌*◌, ◌^◌, ◌≡◌, ◌≤◌, ◌<◌, ◌⊎◌, inl, inr, refl, sym, ap, ap₂, ◌∙◌, false,
  some, List, [], ◌∷◌, length, take, drop, get_elem?, ltb, Bool-cases, arith, take-append_left,
}
use onyxnet.Memory.{address_of, bytes_of, read, add_size, mul_size}
use onyxnet.Memory.Ranges.{drop-take, take-take_le}
use onyxnet.Vector.{Vector, get}
use onyxnet.Vector.Valid.{contents, mul_le, mul_size-exact, read-inside}
use onyxnet.Vector.Items.{Sequence}
use onyxnet.Vector.Items.Concat.{concat, Wide, drop-concat}
use onyxnet.Vector.Items.Stands.{Stands}

-- The item at an index within the list, and what stands from it on.
item_at :
    (w i : ℕ) (xs : List (List ℕ))
    → Wide w xs
    → i < length xs
    → (x : List ℕ) × (ys : List (List ℕ)) × (get_elem? xs i ≡ some x)
      × (drop i xs ≡ x ∷ ys)
      × (length x ≡ w)
item_at w i [] wide h = absurd (omega arith)
item_at w zero (x ∷ xs) wide h = (x, xs, refl, refl, wide.0)
item_at w (suc i) (x ∷ xs) wide h = item_at w i xs wide.1 (omega arith)

module _ (size : ℕ) (v : Vector) (s : Sequence) (r : Stands size v s) (index : ℕ) where
  -- The slots lie in the address space.
  slot_address :
      address_of v.items + v.phys_size * size < 2 ^ 64
      → index ≤ length s.items
      → get v index ≡ address_of v.items + index * size
  unfolding get
  slot_address room h =
      let inside : ltb v.item_count index ≡ false = ground (arith, r.count) in
      let off : mul_size index v.item_size ≡ index * size =
        mul_size-exact index v.item_size (omega (arith, r.count, r.valid.within, r.valid.reserve))
          r.valid.size_small
        ∙ ap (λ (n : ℕ). index * n) r.sized in
      rw inside (
        ap (add_size (address_of v.items)) off
        ∙ omega
            (arith, room, mul_le index v.phys_size size (omega (arith, r.count, r.valid.within))))

  -- A slot holds its item.
  slot_bytes :
      index < length s.items
      → (x : List ℕ) × (get_elem? s.items index ≡ some x)
        × (read v.items (index * size) size ≡ some x)
  unfolding contents
  slot_bytes h =
      let (x, ys, here, from, width) = item_at size index s.items r.wide h in
      let left = v.item_count - index in
      let bytes = bytes_of v.items in
      let parts : v.item_count ≡ index + left = omega (arith, r.count) in
      let sum : index * size + left * size ≡ v.item_count * v.item_size =
        sym (ap₂ (λ (n m : ℕ). n * m) parts r.sized ∙ omega arith) in
      let some_left : size ≤ left * size =
        omega (arith, mul_le 1 left size (omega (arith, r.count))) in
      let room : index * size + size ≤ length bytes = omega (
        arith,
        sum,
        some_left,
        r.valid.storage,
        mul_le v.item_count v.phys_size v.item_size r.valid.within,
      ) in
      (
        x,
        here,
        read-inside v.items (index * size) size (omega (arith, r.valid.size_pos, r.sized)) room
            ∙ ap (λ bs. some bs)
                (sym (take-take_le size (left * size) (drop (index * size) bytes) some_left)
                  ∙ ap (take size) (
                      sym (drop-take (index * size) (left * size) bytes)
                      ∙ ap (λ n. drop (index * size) (take n bytes)) sum
                      ∙ ap (drop (index * size)) r.holds
                      ∙ drop-concat size index s.items r.wide (omega arith)
                      ∙ ap concat from)
                  ∙ take-append_left size x (concat ys) (sym width)),
      )

-- `vector_item_get` of a vector that stands for a list of items and whose block lies in the address
-- space: up to the number of items, it is the address of the slot, which holds the bytes of the item at
-- the index, if there is one; past that it is NULL.
pub get_lem :
    (size : ℕ) (v : Vector) (s : Sequence) (index : ℕ)
    → Stands size v s
    → address_of v.items + v.phys_size * size < 2 ^ 64
    → ((index < length s.items)
        × (get v index ≡ address_of v.items + index * size)
        × (x : List ℕ) × (get_elem? s.items index ≡ some x)
        × (read v.items (index * size) size ≡ some x))
      ⊎ ((index ≡ length s.items) × (get v index ≡ address_of v.items + index * size))
      ⊎ ((length s.items < index) × (get v index ≡ 0))
unfolding get
get_lem size v s index r room = elim (Bool-cases (ltb index (length s.items))) [
  | inl inside ↦
      let h : index < length s.items = ground (arith, inside) in
      let (x, here, bytes) = slot_bytes size v s r index h in
      inl (h, slot_address size v s r index room (omega arith), x, here, bytes)
  | inr outside ↦ elim (Bool-cases (ltb v.item_count index)) [
    | inl past ↦ inr (inr (ground (arith, past, r.count), rw past refl))
    | inr last ↦
        let h : index ≡ length s.items = ground (arith, outside, last, r.count) in
        inr (inl (h, slot_address size v s r index room (omega arith)))
  ]
]
