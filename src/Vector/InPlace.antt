-- ===== src/Vector/InPlace.antt =====
-- The insertion within the block.
use onyxnet.Prelude.{
  take-append_left, ltb→lt, nil_of_length, ℕ, ◌+◌, ◌-◌, ◌*◌, ◌≤◌, ◌<◌, ◌≡◌, refl, sym, ap, ap₂, ◌∙◌,
  inl, inr, false, some, List, ◌++◌, length, take, drop, ltb, Bool-cases, if◌then◌else◌, arith,
}
use onyxnet.Memory.{Owned, bytes_of, add_size, sub_size, mul_size, ◌>>=◌, read, write}
use onyxnet.Memory.Ranges.{drop-written, take-written_before, written, length-written, take-written}
use onyxnet.Vector.{Vector, insert_in_place}
use onyxnet.Vector.Valid.{IsValid, mul-pos, write-inside}
use onyxnet.Vector.Parts.{
  finish, none_behind, in_block, IsInserted, IsAccepted, IsSplit, split, new, length-new, reads_new,
  tail, length-tail, reads_tail,
}

module _ (v : Vector) (index count : ℕ) (src : List ℕ) (valid : IsValid v)
    (ok : IsAccepted v index count src) where
  abbrev a : ℕ
  a = index * v.item_size

  abbrev k : ℕ
  k = count * v.item_size

  abbrev m : ℕ
  m = (v.item_count - index) * v.item_size

  abbrev fresh : List ℕ
  fresh = new v index count src valid ok

  abbrev rest : List ℕ
  rest = tail v index count src valid ok

  facts : IsSplit v index count
  facts = split v index count src valid ok

  -- In place, the bytes from `index` on move up first.
  move_up :
      v.item_count + count ≤ v.phys_size
      → (o : Owned) × ((if ltb index v.item_count
            then read v.items
                (mul_size index v.item_size)
                (mul_size (sub_size v.item_count index) v.item_size)
              >>= (λ old. write v.items (mul_size (add_size index count) v.item_size) old)
            else some v.items)
          ≡ some o)
        × (length (bytes_of o) ≡ length (bytes_of v.items))
        × (take a (bytes_of o) ≡ take a (bytes_of v.items))
        × (take m (drop (a + k) (bytes_of o)) ≡ rest)
  move_up roomy = elim (Bool-cases (ltb index v.item_count)) [
    | inl more ↦
        let pos : 0 < length rest = omega (
          arith,
          rest_width,
          mul-pos (v.item_count - index) v.item_size (ground (arith, more)) valid.size_pos,
        ) in
        let (b, e, bytes, _) = write-inside v.items (a + k) rest pos inside in
        (
          some b,
          rw (more, reads_tail v index count src valid ok (ltb→lt _ _ more), facts.end_bytes, e),
          ap length bytes ∙ length-written (bytes_of v.items) (a + k) rest inside,
          ap (take a) bytes
              ∙ take-written_before (bytes_of v.items) (a + k) rest a inside (omega arith),
          ap (λ bs. take m (drop (a + k) bs)) bytes
              ∙ ap (take m) (drop-written (bytes_of v.items) (a + k) rest inside)
              ∙ take-append_left m rest _ (sym rest_width),
        )
    | inr last ↦ (
      v.items,
      rw last,
      refl,
      refl,
      ap (λ n. take n (drop (a + k) (bytes_of v.items))) (no_rest last)
          ∙ sym (nil_of_length rest (rest_width ∙ no_rest last)),
    )
  ]
    where
      rest_width : length rest ≡ m
      rest_width = length-tail v index count src valid ok

      inside : a + k + length rest ≤ length (bytes_of v.items)
      inside = omega (arith, rest_width, in_block v index count src valid ok roomy)

      no_rest : ltb index v.item_count ≡ false → m ≡ 0
      no_rest = none_behind v index count

  pub in_place_lem :
      v.item_count + count ≤ v.phys_size
      → (r : Vector) × (insert_in_place v index src count ≡ some (count, r))
        × IsInserted v index count fresh r
  unfolding insert_in_place
  in_place_lem roomy =
      let (o, e_o, l_o, t_o, d_o) = move_up roomy in
      let width = length-new v index count src valid ok in
      let inside : a + length fresh ≤ length (bytes_of o) =
        omega (arith, width, l_o, in_block v index count src valid ok roomy) in
      let (b, e_b, bytes, _) =
        write-inside o a fresh (omega (arith, width, facts.added_pos)) inside in
      (
        record v { items = some b; item_count = add_size v.item_count count },
        rw (
          e_o,
          reads_new v index count src valid ok,
          ap (λ n. write o n fresh) facts.index_bytes ∙ e_b,
        ),
        finish v index count src valid ok b v.phys_size roomy valid.reserve (ground (arith, roomy))
            (ap length bytes ∙ length-written (bytes_of o) a fresh inside ∙ l_o ∙ valid.storage)
            (ap (λ bs. take (a + (k + m)) bs) bytes
              ∙ ap (λ n. take (a + (n + m)) (written (bytes_of o) a fresh)) (sym width)
              ∙ take-written (bytes_of o) a fresh m inside
              ∙ ap₂ (λ xs ys. xs ++ (fresh ++ ys)) t_o
                  (ap (λ n. take m (drop (a + n) (bytes_of o))) width ∙ d_o)),
      )
