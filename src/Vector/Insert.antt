-- ===== src/Vector/Insert.antt =====
-- `vector_item_insert` and `vector_item_append` on every branch.
use onyxnet.Prelude.{
  if◌then◌else◌, ℕ, ◌+◌, ◌*◌, ◌≤◌, ◌<◌, ◌≡◌, refl, sym, ap, ◌∙◌, ◌⊎◌, inl, inr, true, false, Option,
  none, some, List, ◌++◌, append-nil, length, take, drop, ltb, ◌==◌, Bool-cases, Option-cases,
  arith, take_all, drop_all, length-take,
}
use onyxnet.Memory.{bytes_of, Malloc, IsMalloc, add_size, sub_size, mul_size}
use onyxnet.Vector.{
  Vector, vector_max_count, insert_grown, insert_in_place, grown_size, insert, append,
}
use onyxnet.Vector.Valid.{IsValid, contents, mul_le, mul_size-exact}
use onyxnet.Vector.Parts.{wanted, spliced, IsInserted, IsAccepted}
use onyxnet.Vector.Grown.{grown_lem}
use onyxnet.Vector.InPlace.{in_place_lem}

-- The request for a larger block failed, and nothing has changed.
abbrev pub IsOutOfMemory : Malloc → Vector → ℕ → Option (ℕ × Vector) → Type 0
IsOutOfMemory malloc v count r =
    (v.phys_size < v.item_count + count)
    × (malloc (wanted v count * v.item_size) ≡ none)
    × (r ≡ some (0, v))

-- Past the guards there is one test, on the capacity.
insert-guards :
    (malloc : Malloc) (v : Vector) (index : ℕ) (src : List ℕ) (count : ℕ)
    → IsAccepted v index count src
    → insert malloc v index src count ≡ (
        if ltb v.phys_size (add_size v.item_count count)
        then elim (malloc (mul_size (grown_size (add_size v.item_count count)) v.item_size)) [
          | none ↦ some (0, v)
          | some nu ↦ insert_grown nu v index src count (grown_size (add_size v.item_count count))
        ]
        else insert_in_place v index src count)
unfolding insert
insert-guards malloc v index src count ok =
    let in_range : ltb v.item_count index ≡ false = ground arith in
    let some_items : (count == 0) ≡ false = ground arith in
    let room : ltb (sub_size vector_max_count v.item_count) count ≡ false = ground arith in
    rw (in_range, some_items, room)

module _ (malloc : Malloc) (is_malloc : IsMalloc malloc) (v : Vector) (index : ℕ) (src : List ℕ)
    (count : ℕ) (valid : IsValid v) (ok : IsAccepted v index count src) where
  counted : add_size v.item_count count ≡ v.item_count + count
  counted = omega arith

  capacity : grown_size (add_size v.item_count count) ≡ wanted v count
  capacity = omega arith

  request :
      mul_size (grown_size (add_size v.item_count count)) v.item_size ≡ wanted v count * v.item_size
  request =
      ap (λ n. mul_size n v.item_size) capacity
      ∙ mul_size-exact (wanted v count) v.item_size (omega arith) valid.size_small

  -- Without a larger block nothing changes.
  pub insert-no_memory :
      v.phys_size < v.item_count + count
      → malloc (wanted v count * v.item_size) ≡ none
      → insert malloc v index src count ≡ some (0, v)
  insert-no_memory full failed =
      let no_room : ltb v.phys_size (add_size v.item_count count) ≡ true = ground arith in
      insert-guards malloc v index src count ok ∙ rw (no_room, ap malloc request ∙ failed) refl

  -- An accepted insertion into a valid vector does not fault. Where the items no longer fit and
  -- `malloc` fails for (n + n / 4 + 16) items, n being the new count, the result is 0 and the vector
  -- is as it was. In every other case the result is `count`, the vector is valid again, and its
  -- bytes are the old ones with the first `count` items of the source put in at `index`; its capacity
  -- is as before if the items fit, and n + n / 4 + 16 if not.
  pub insert_lem :
      IsOutOfMemory malloc v count (insert malloc v index src count)
      ⊎ ((r : Vector) × (insert malloc v index src count ≡ some (count, r))
          × IsInserted v index count (take (count * v.item_size) src) r)
  insert_lem = elim (Bool-cases (ltb v.phys_size (add_size v.item_count count))) [
    | inr fits ↦
        let (r, e, done) = in_place_lem v index count src valid ok (ground (arith, fits)) in
        inr (r, insert-guards malloc v index src count ok ∙ rw fits e, done)
    | inl full ↦
        elim (Option-cases
          (malloc (mul_size (grown_size (add_size v.item_count count)) v.item_size))) [
            | inl failed ↦
                let less : v.phys_size < v.item_count + count = ground (arith, full) in
                let none_left = sym (ap malloc request) ∙ failed in
                inl (less, none_left, insert-no_memory less none_left)
            | inr (nu, got) ↦
                let (r, e, done) =
                  grown_lem v index count src valid ok nu (grown_size (add_size v.item_count count))
                    (omega arith) (omega arith) (ground (arith, full))
                    (is_malloc _ nu got
                      ∙ request
                      ∙ ap (λ (n : ℕ). n * v.item_size) (sym capacity)) in
                inr (r, insert-guards malloc v index src count ok ∙ rw (full, got) e, done)
          ]
  ]

-- The slot behind the last item: the new bytes stand at the end.
pub spliced_end :
    (bs : List ℕ) (off : ℕ) (new : List ℕ) → length bs ≡ off → spliced bs off new ≡ bs ++ new
spliced_end bs off new h =
    ap (λ xs. xs ++ (new ++ drop off bs)) (take_all off bs (omega arith))
    ∙ ap (λ xs. bs ++ (new ++ xs)) (drop_all off bs (omega arith))
    ∙ ap (λ xs. bs ++ xs) (append-nil new)

pub length-contents : (v : Vector) → IsValid v → length (contents v) ≡ v.item_count * v.item_size
unfolding contents
length-contents v valid = omega (
  arith,
  length-take (v.item_count * v.item_size) (bytes_of v.items),
  mul_le v.item_count v.phys_size v.item_size valid.within,
  valid.storage,
)

-- Appending an item to a valid vector that is not full either runs out of memory, returns 0 and
-- changes nothing, or returns the new number of items and puts the item's bytes at the end.
pub append_lem :
    (malloc : Malloc) (v : Vector) (src : List ℕ)
    → IsMalloc malloc
    → IsValid v
    → v.item_count < vector_max_count
    → v.item_size ≤ length src
    → IsOutOfMemory malloc v 1 (append malloc v src)
      ⊎ ((r : Vector) × (append malloc v src ≡ some (v.item_count + 1, r))
          × IsValid r
          × (contents r ≡ contents v ++ take v.item_size src))
unfolding append
append_lem malloc v src is_malloc valid room readable =
    elim (insert_lem malloc is_malloc v v.item_count src 1 valid ok) [
      | inl (full, failed, e) ↦ inl (full, failed, rw e refl)
      | inr (r, e, done) ↦ inr (
        r,
        rw e (ap (λ n. some (n, r)) done.counted),
        done.valid,
        done.holds
            ∙ spliced_end (contents v) (v.item_count * v.item_size) (take (1 * v.item_size) src)
                (length-contents v valid)
            ∙ ap (λ n. contents v ++ take n src) (omega arith),
      )
    ]
  where
    ok : IsAccepted v v.item_count 1 src
    ok = record {
      in_range = omega arith;
      some_items = omega arith;
      room = omega arith;
      readable = omega arith;
    }
