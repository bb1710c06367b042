-- ===== src/Vector/Parts.antt =====
-- What an insertion into a valid vector reads: the bytes before `index`, the new ones, and those from
-- `index` on. The ranges neither wrap nor leave their blocks.
use onyxnet.Prelude.{
  ◌/◌, if◌then◌else◌, refl, sym, false, ltb, ℕ, ◌+◌, ◌-◌, ◌*◌, ◌≤◌, ◌<◌, ◌≡◌, ap, ap₂, ◌∙◌, some,
  List, ◌++◌, length, take, drop, arith, length-take,
}
use onyxnet.Memory.{Block, bytes_of, add_size, sub_size, mul_size, read_bytes, read}
use onyxnet.Memory.Ranges.{drop-take, take-take_le, read_bytes-inside, length-slice}
use onyxnet.Vector.{Vector, vector_max_count}
use onyxnet.Vector.Valid.{
  max_capacity, IsValid, contents, mul_le, mul-pos, mul_size-exact, read-inside,
}

-- `src` put into `bs` at the byte `off`.
abbrev pub spliced : List ℕ → ℕ → List ℕ → List ℕ
spliced bs off src = take off bs ++ (src ++ drop off bs)

-- The capacity that the code asks for, as a sum that does not wrap.
abbrev pub wanted : Vector → ℕ → ℕ
wanted v count = v.item_count + count + ((v.item_count + count) / 4 + 16)

-- The capacity once there is room for `count` more.
abbrev pub capacity_after : Vector → ℕ → ℕ
capacity_after v count =
    if ltb v.phys_size (v.item_count + count) then wanted v count else v.phys_size

-- What a successful insertion of `count` items with the bytes `new` leaves.
pub record IsInserted (v : Vector) (index count : ℕ) (new : List ℕ) (r : Vector) : Type 0 where
  pub valid : IsValid r
  pub same_size : r.item_size ≡ v.item_size
  pub counted : r.item_count ≡ v.item_count + count
  pub capacity : r.phys_size ≡ capacity_after v count
  pub holds : contents r ≡ spliced (contents v) (index * v.item_size) new

-- The arguments that the code accepts, and a source with all its bytes.
pub record IsAccepted (v : Vector) (index count : ℕ) (src : List ℕ) : Type 0 where
  pub in_range : index ≤ v.item_count
  pub some_items : 0 < count
  pub room : v.item_count + count ≤ vector_max_count
  pub readable : count * v.item_size ≤ length src

-- Where the three parts of the result lie, in bytes: nothing wraps and nothing leaves the block.
pub record IsSplit (v : Vector) (index count : ℕ) : Type 0 where
  pub whole :
      v.item_count * v.item_size ≡ index * v.item_size + (v.item_count - index) * v.item_size
  pub fits : v.item_count * v.item_size ≤ length (bytes_of v.items)
  pub index_bytes : mul_size index v.item_size ≡ index * v.item_size
  pub count_bytes : mul_size count v.item_size ≡ count * v.item_size
  pub behind_bytes :
      mul_size (sub_size v.item_count index) v.item_size ≡ (v.item_count - index) * v.item_size
  pub end_bytes :
      mul_size (add_size index count) v.item_size ≡ index * v.item_size + count * v.item_size
  pub added_pos : 0 < count * v.item_size

module _ (v : Vector) (index count : ℕ) (src : List ℕ) (valid : IsValid v)
    (ok : IsAccepted v index count src) where
  pub split : IsSplit v index count
  split = record {
    whole = ap (λ (t : ℕ). t * v.item_size) parts ∙ omega arith;
    fits = omega (arith, mul_le v.item_count v.phys_size v.item_size valid.within);
    index_bytes = mul_size-exact index v.item_size (omega arith) valid.size_small;
    count_bytes = mul_size-exact count v.item_size (omega arith) valid.size_small;
    behind_bytes =
        ap (λ t. mul_size t v.item_size) behind
        ∙ mul_size-exact (v.item_count - index) v.item_size (omega arith) valid.size_small;
    end_bytes =
        ap (λ t. mul_size t v.item_size) ending
        ∙ mul_size-exact (index + count) v.item_size (omega arith) valid.size_small
        ∙ omega arith;
    added_pos = mul-pos count v.item_size ok.some_items valid.size_pos;
  }
    where
      parts : v.item_count ≡ index + (v.item_count - index)
      parts = omega arith

      behind : sub_size v.item_count index ≡ v.item_count - index
      behind = omega arith

      ending : add_size index count ≡ index + count
      ending = omega arith

  -- The new bytes, as read from the source.
  abbrev pub new : List ℕ
  new = take (count * v.item_size) src

  pub length-new : length new ≡ count * v.item_size
  length-new = omega (arith, length-take (count * v.item_size) src)

  pub reads_new : read_bytes src 0 (mul_size count v.item_size) ≡ some new
  reads_new =
      ap (read_bytes src 0) split.count_bytes
      ∙ read_bytes-inside src 0 (count * v.item_size) (omega arith)

  -- The bytes from `index` on.
  abbrev pub tail : List ℕ
  tail = take ((v.item_count - index) * v.item_size) (drop (index * v.item_size) (bytes_of v.items))

  pub length-tail : length tail ≡ (v.item_count - index) * v.item_size
  length-tail =
      length-slice (bytes_of v.items) (index * v.item_size) ((v.item_count - index) * v.item_size)
        (omega (arith, split.whole, split.fits))

  pub reads_tail :
      index < v.item_count
      → read v.items
          (mul_size index v.item_size)
          (mul_size (sub_size v.item_count index) v.item_size)
        ≡ some tail
  reads_tail h =
      ap₂ (read v.items) split.index_bytes split.behind_bytes
      ∙ read-inside v.items (index * v.item_size) ((v.item_count - index) * v.item_size)
          (mul-pos (v.item_count - index) v.item_size (omega arith) valid.size_pos)
          (omega (arith, split.whole, split.fits))

  -- The old contents are the bytes before `index` and those from it.
  pub contents-take :
      take (index * v.item_size) (contents v) ≡ take (index * v.item_size) (bytes_of v.items)
  unfolding contents
  contents-take =
      take-take_le (index * v.item_size) (v.item_count * v.item_size) (bytes_of v.items)
        (omega (arith, split.whole))

  pub contents-drop : drop (index * v.item_size) (contents v) ≡ tail
  unfolding contents
  contents-drop =
      ap (λ n. drop (index * v.item_size) (take n (bytes_of v.items))) split.whole
      ∙ drop-take (index * v.item_size) ((v.item_count - index) * v.item_size) (bytes_of v.items)

-- At the end of the vector no bytes stand behind `index`.
pub none_behind :
    (v : Vector) (index count : ℕ)
    → ltb index v.item_count ≡ false
    → (v.item_count - index) * v.item_size ≡ 0
none_behind v index count last =
    let none_left : v.item_count - index ≡ 0 = ground (arith, last) in
    ap (λ (n : ℕ). n * v.item_size) none_left ∙ omega arith

-- With room for the new items, the three parts lie in the old block.
pub in_block :
    (v : Vector) (index count : ℕ) (src : List ℕ) (valid : IsValid v)
    → IsAccepted v index count src
    → v.item_count + count ≤ v.phys_size
    → index * v.item_size + (count * v.item_size + (v.item_count - index) * v.item_size)
      ≤ length (bytes_of v.items)
in_block v index count src valid ok roomy = omega (
  arith,
  (split v index count src valid ok).whole,
  valid.storage,
  mul_le (v.item_count + count) v.phys_size v.item_size roomy,
)

module _ (v : Vector) (index count : ℕ) (src : List ℕ) (valid : IsValid v)
    (ok : IsAccepted v index count src) where
  abbrev a : ℕ
  a = index * v.item_size

  abbrev k : ℕ
  k = count * v.item_size

  abbrev m : ℕ
  m = (v.item_count - index) * v.item_size

  abbrev fresh : List ℕ
  fresh = new v index count src valid ok

  abbrev rest : List ℕ
  rest = tail v index count src valid ok

  facts : IsSplit v index count
  facts = split v index count src valid ok

  -- A block of `q` items with the three parts in front is the insertion's result.
  pub finish :
      (b : Block) (q : ℕ)
      → v.item_count + count ≤ q
      → q ≤ max_capacity
      → q ≡ capacity_after v count
      → length b.bytes ≡ q * v.item_size
      → take (a + (k + m)) b.bytes ≡ take a (bytes_of v.items) ++ (fresh ++ rest)
      → IsInserted v index count fresh
          (record v { items = some b; item_count = add_size v.item_count count; phys_size = q })
  unfolding contents
  finish b q roomy small chosen width parts = record {
    valid = record {
      size_pos = valid.size_pos;
      size_small = valid.size_small;
      within = omega arith;
      bounded = omega arith;
      reserve = small;
      storage = width;
    };
    same_size = refl;
    counted = omega arith;
    capacity = chosen;
    holds =
        ap (λ n. take n b.bytes) bytes
        ∙ parts
        ∙ ap₂ (λ xs ys. xs ++ (fresh ++ ys)) (sym (contents-take v index count src valid ok))
            (sym (contents-drop v index count src valid ok));
  }
    where
      counted : add_size v.item_count count ≡ v.item_count + count
      counted = omega arith

      bytes : add_size v.item_count count * v.item_size ≡ a + (k + m)
      bytes = ap (λ (n : ℕ). n * v.item_size) counted ∙ omega (arith, facts.whole)
