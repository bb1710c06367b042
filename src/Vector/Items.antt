-- ===== src/Vector/Items.antt =====
-- What the users of a vector see: a sequence of items, and how many fit before it has to grow.
pub mod Concat
pub mod Stands
pub mod Refine
pub mod Slot
use onyxnet.Prelude.{
  ℕ, ◌+◌, ◌-◌, ◌*◌, ◌/◌, Bool, true, false, ◌&&◌, Option, none, some, List, [], ◌∷◌, ◌++◌, length,
  take, drop, ltb, leb, ◌==◌, min, if◌then◌else◌,
}
use onyxnet.Memory.{Malloc, ◌>>=◌}
use onyxnet.Vector.{Vector, vector_max_count, insert, append, remove}
use onyxnet.Vector.Items.Concat.{concat}

-- The items, each of them its bytes.
pub record Sequence : Type 0 where
  pub items : List (List ℕ)
  pub capacity : ℕ

-- A call, with the allocator that it meets.
pub data Op : Type 0 where
  inserted : Malloc → ℕ → List (List ℕ) → Op
  appended : Malloc → List ℕ → Op
  removed : ℕ → ℕ → Op

-- What the vector answers, the caller's items lying one behind the other; `none` is a fault.
unfoldable pub perform : Op → Vector → Option (ℕ × Vector)
perform (inserted malloc index new) v = insert malloc v index (concat new) (length new)
perform (appended malloc item) v = append malloc v item
perform (removed index asked) v = remove v index asked

unfoldable pub perform_all : List Op → Vector → Option (List ℕ × Vector)
perform_all [] v = some ([], v)
perform_all (o ∷ os) v =
    perform o v >>= (λ r. perform_all os r.1 >>= (λ rest. some (r.0 ∷ rest.0, rest.1)))

-- A capacity for `n` items of `size` bytes, if there is one.
abbrev pub room_for : Malloc → ℕ → ℕ → ℕ → Option ℕ
room_for malloc size capacity n =
    if ltb capacity n
    then elim (malloc ((n + (n / 4 + 16)) * size)) [
      | none ↦ none
      | some nu ↦ some (n + (n / 4 + 16))
    ]
    else some capacity

abbrev pub accepts : ℕ → List (List ℕ) → Sequence → Bool
accepts index new s =
    leb index (length s.items)
    && ltb 0 (length new)
    && leb (length s.items + length new) vector_max_count

-- The items put in at `index`, if there is a capacity for them.
abbrev pub put_in : ℕ → List (List ℕ) → Sequence → Option ℕ → ℕ × Sequence
put_in index new s none = (0, s)
put_in index new s (some q) =
    (length new, record { items = take index s.items ++ (new ++ drop index s.items); capacity = q })

abbrev pub insert_items : Malloc → ℕ → ℕ → List (List ℕ) → Sequence → ℕ × Sequence
insert_items malloc size index new s =
    if accepts index new s
    then put_in index new s (room_for malloc size s.capacity (length s.items + length new))
    else (0, s)

-- The new number of items, or 0.
abbrev pub counted : ℕ × Sequence → ℕ × Sequence
counted r = (if r.0 == 0 then 0 else length r.1.items, r.1)

abbrev pub take_out : ℕ → ℕ → Sequence → ℕ × Sequence
take_out index n s = (n, record s { items = take index s.items ++ drop (index + n) s.items })

-- What the sequence answers.
unfoldable pub reply : ℕ → Op → Sequence → ℕ × Sequence
reply size (inserted malloc index new) s = insert_items malloc size index new s
reply size (appended malloc item) s =
    counted (insert_items malloc size (length s.items) (item ∷ []) s)
reply size (removed index asked) s =
    if leb index (length s.items)
    then take_out index (min asked (length s.items - index)) s
    else (0, s)

unfoldable pub reply_all : ℕ → List Op → Sequence → List ℕ × Sequence
reply_all size [] s = ([], s)
reply_all size (o ∷ os) s =
    let r = reply size o s in let rest = reply_all size os r.1 in (r.0 ∷ rest.0, rest.1)
