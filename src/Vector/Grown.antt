-- ===== src/Vector/Grown.antt =====
-- The insertion into a larger block.
use onyxnet.Prelude.{
  ltb→lt, length-take, nil_of_length, ℕ, ◌+◌, ◌-◌, ◌*◌, ◌≤◌, ◌≡◌, refl, sym, ap, ◌∙◌, inl, inr,
  true, false, some, List, [], ◌++◌, append_assoc, append-nil, length, take, ltb, ◌==◌, Bool-cases,
  if◌then◌else◌, arith,
}
use onyxnet.Memory.{Block, bytes_of, add_size, sub_size, mul_size, ◌>>=◌, write_bytes, read}
use onyxnet.Memory.Ranges.{written, write_bytes-inside, length-written, take-written_end}
use onyxnet.Vector.{Vector, insert_grown}
use onyxnet.Vector.Valid.{max_capacity, IsValid, mul_le, mul-pos, read-inside}
use onyxnet.Vector.Parts.{
  capacity_after, finish, none_behind, IsInserted, IsAccepted, IsSplit, split, new, length-new,
  reads_new, tail, length-tail, reads_tail,
}

module _ (v : Vector) (index count : ℕ) (src : List ℕ) (valid : IsValid v)
    (ok : IsAccepted v index count src) where
  abbrev a : ℕ
  a = index * v.item_size

  abbrev k : ℕ
  k = count * v.item_size

  abbrev m : ℕ
  m = (v.item_count - index) * v.item_size

  abbrev fresh : List ℕ
  fresh = new v index count src valid ok

  abbrev rest : List ℕ
  rest = tail v index count src valid ok

  facts : IsSplit v index count
  facts = split v index count src valid ok

  -- `front` holds the bytes before `index`; the two writes behind them give the three parts.
  assemble :
      (front : List ℕ)
      → a + (k + m) ≤ length front
      → (w : List ℕ) × ((if ltb index v.item_count
            then read v.items
                (mul_size index v.item_size)
                (mul_size (sub_size v.item_count index) v.item_size)
              >>= (λ old.
                  write_bytes
                    (written front a fresh)
                    (mul_size (add_size index count) v.item_size)
                    old)
            else some (written front a fresh))
          ≡ some w)
        × (length w ≡ length front)
        × (take (a + (k + m)) w ≡ take a front ++ (fresh ++ rest))
  assemble front room = elim (Bool-cases (ltb index v.item_count)) [
    | inl more ↦ (
      written (written front a fresh) (a + k) rest,
      rw (
        more,
        reads_tail v index count src valid ok (ltb→lt _ _ more),
        facts.end_bytes,
        write_bytes-inside (written front a fresh) (a + k) rest in_filled,
      ),
      length-written (written front a fresh) (a + k) rest in_filled ∙ same_length,
      ap (λ n. take n (written (written front a fresh) (a + k) rest)) ends
          ∙ take-written_end (written front a fresh) (a + k) rest in_filled
          ∙ ap (λ zs. zs ++ rest) filled_front
          ∙ append_assoc (take a front) fresh rest,
    )
    | inr last ↦ (
      written front a fresh,
      rw last,
      same_length,
      ap (λ n. take n (written front a fresh)) (omega (arith, no_rest last))
          ∙ filled_front
          ∙ ap (λ zs. take a front ++ zs) (sym (append-nil fresh))
          ∙ ap (λ zs. take a front ++ (fresh ++ zs)) (sym (empty_rest last)),
    )
  ]
    where
      width : length fresh ≡ k
      width = length-new v index count src valid ok

      rest_width : length rest ≡ m
      rest_width = length-tail v index count src valid ok

      same_length : length (written front a fresh) ≡ length front
      same_length = length-written front a fresh (omega (arith, width))

      in_filled : a + k + length rest ≤ length (written front a fresh)
      in_filled = omega (arith, same_length, rest_width)

      ends : a + (k + m) ≡ a + k + length rest
      ends = omega (arith, rest_width)

      filled_front : take (a + k) (written front a fresh) ≡ take a front ++ fresh
      filled_front =
          ap (λ n. take (a + n) (written front a fresh)) (sym width)
          ∙ take-written_end front a fresh (omega (arith, width))

      no_rest : ltb index v.item_count ≡ false → m ≡ 0
      no_rest last = none_behind v index count last

      empty_rest : ltb index v.item_count ≡ false → rest ≡ []
      empty_rest last = nil_of_length rest (rest_width ∙ no_rest last)

  -- The bytes before `index` in the new block.
  take_over :
      (nu : List ℕ)
      → a + (k + m) ≤ length nu
      → (front : List ℕ) × ((if index == 0
            then some nu
            else read v.items 0 (mul_size index v.item_size) >>= (λ old. write_bytes nu 0 old))
          ≡ some front)
        × (length front ≡ length nu)
        × (take a front ≡ take a (bytes_of v.items))
  take_over nu room = elim (Bool-cases (index == 0)) [
    | inl first ↦ (
      nu,
      rw first,
      refl,
      ap (λ n. take n nu) (at_start first)
          ∙ sym (ap (λ n. take n (bytes_of v.items)) (at_start first)),
    )
    | inr later ↦ (
      written nu 0 (take a (bytes_of v.items)),
      rw (
        later,
        facts.index_bytes,
        read-inside v.items 0 a (mul-pos index v.item_size (ground (arith, later)) valid.size_pos)
            in_old,
        write_bytes-inside nu 0 (take a (bytes_of v.items)) in_new,
      ),
      length-written nu 0 (take a (bytes_of v.items)) in_new,
      ap (λ n. take n (written nu 0 (take a (bytes_of v.items)))) (omega (arith, width))
          ∙ take-written_end nu 0 (take a (bytes_of v.items)) in_new,
    )
  ]
    where
      at_start : (index == 0) ≡ true → a ≡ 0
      at_start first =
          let e : index ≡ 0 = ground (arith, first) in
          ap (λ (n : ℕ). n * v.item_size) e ∙ omega arith

      in_old : 0 + a ≤ length (bytes_of v.items)
      in_old = omega (arith, facts.whole, facts.fits)

      width : length (take a (bytes_of v.items)) ≡ a
      width = omega (arith, length-take a (bytes_of v.items), facts.whole, facts.fits)

      in_new : 0 + length (take a (bytes_of v.items)) ≤ length nu
      in_new = omega (arith, width)

  filling :
      (front : List ℕ)
      → a + (k + m) ≤ length front
      → write_bytes front (mul_size index v.item_size) fresh ≡ some (written front a fresh)
  filling front room =
      ap (λ n. write_bytes front n fresh) facts.index_bytes
      ∙ write_bytes-inside front a fresh (omega (arith, length-new v index count src valid ok))

  pub grown_lem :
      (nu : Block) (q : ℕ)
      → v.item_count + count ≤ q
      → q ≤ max_capacity
      → q ≡ capacity_after v count
      → length nu.bytes ≡ q * v.item_size
      → (r : Vector) × (insert_grown nu v index src count q ≡ some (count, r))
        × IsInserted v index count fresh r
  unfolding insert_grown
  grown_lem nu q roomy small chosen width =
      let (front, e_front, l_front, t_front) = take_over nu.bytes space in
      let (w, e_w, l_w, t_w) = assemble front (omega (arith, space, l_front)) in
      (
        record v {
          items = some (record nu { bytes = w });
          item_count = add_size v.item_count count;
          phys_size = q;
        },
        rw (
          e_front,
          reads_new v index count src valid ok,
          filling front (omega (arith, space, l_front)),
          e_w,
        ),
        finish v index count src valid ok (record nu { bytes = w }) q roomy small chosen
            (l_w ∙ l_front ∙ width) (t_w ∙ ap (λ zs. zs ++ (fresh ++ rest)) t_front),
      )
    where
      space : a + (k + m) ≤ length nu.bytes
      space = omega (arith, width, facts.whole, mul_le (v.item_count + count) q v.item_size roomy)
