-- ===== src/Vector/Items/Stands.antt =====
-- When a vector stands for a sequence of items, and what an insertion and a removal make of that.
use onyxnet.Prelude.{
  ℕ, ◌+◌, ◌*◌, ◌≤◌, ◌≡◌, sym, ap, ap₂, ◌∙◌, true, some, List, ◌++◌, length, take, drop, All-append,
  All-take, All-drop, length-append, length-take, length-drop, arith, take_all,
}
use onyxnet.Memory.{IsMalloc}
use onyxnet.Vector.{Vector}
use onyxnet.Vector.Valid.{IsValid, contents}
use onyxnet.Vector.Parts.{spliced, IsAccepted, IsInserted}
use onyxnet.Vector.Remove.{cut, IsRemoved}
use onyxnet.Vector.Items.{Sequence, Op, inserted, appended, removed, accepts, put_in, take_out}
use onyxnet.Vector.Items.Concat.{
  concat, Wide, concat-append, length-concat, take-concat, drop-concat,
}

-- A valid vector with the items and the capacity of a sequence.
pub record Stands (size : ℕ) (v : Vector) (s : Sequence) : Type 0 where
  pub valid : IsValid v
  pub sized : v.item_size ≡ size
  pub count : v.item_count ≡ length s.items
  pub capacity : v.phys_size ≡ s.capacity
  pub wide : Wide size s.items
  pub holds : contents v ≡ concat s.items

-- The allocator keeps its promise, and the caller's items have their width.
abbrev pub Keeps : ℕ → Op → Type 0
Keeps size (inserted malloc index new) = IsMalloc malloc × Wide size new
Keeps size (appended malloc item) = IsMalloc malloc × (length item ≡ size)
Keeps size (removed index asked) = Unit

spliced-concat :
    (w i : ℕ) (xs new : List (List ℕ))
    → Wide w xs
    → i ≤ length xs
    → spliced (concat xs) (i * w) (concat new) ≡ concat (take i xs ++ (new ++ drop i xs))
spliced-concat w i xs new wide le =
    ap₂ (λ a b. a ++ (concat new ++ b)) (take-concat w i xs wide le) (drop-concat w i xs wide le)
    ∙ sym (
        concat-append (take i xs) (new ++ drop i xs)
        ∙ ap (λ b. concat (take i xs) ++ b) (concat-append new (drop i xs)))

cut-concat :
    (w i n : ℕ) (xs : List (List ℕ))
    → Wide w xs
    → i + n ≤ length xs
    → cut (concat xs) (i * w) (n * w) ≡ concat (take i xs ++ drop (i + n) xs)
cut-concat w i n xs wide le =
    let sum : i * w + n * w ≡ (i + n) * w = omega arith in
    ap₂ ◌++◌ (take-concat w i xs wide (omega arith))
      (ap (λ k. drop k (concat xs)) sum ∙ drop-concat w (i + n) xs wide le)
    ∙ sym (concat-append (take i xs) (drop (i + n) xs))

module _ (size : ℕ) where
  pub take_out-Stands :
      (v v' : Vector) (s : Sequence) (index n : ℕ)
      → Stands size v s
      → IsRemoved v index n v'
      → index + n ≤ length s.items
      → Stands size v' (take_out index n s).1
  take_out-Stands v v' s index n r done inside = record {
    valid = done.valid;
    sized = done.same_size ∙ r.sized;
    count = omega (
      arith,
      done.counted,
      r.count,
      length-append (take index s.items) (drop (index + n) s.items),
      length-take index s.items,
      length-drop (index + n) s.items,
    );
    capacity = done.same_capacity ∙ r.capacity;
    wide =
        All-append _ (take index s.items) (drop (index + n) s.items)
          (All-take _ index s.items r.wide) (All-drop _ (index + n) s.items r.wide);
    holds =
        done.holds
        ∙ ap₂ (λ bs (w : ℕ). cut bs (index * w) (n * w)) r.holds r.sized
        ∙ cut-concat size index n s.items r.wide inside;
  }

  module _ (v : Vector) (s : Sequence) (index : ℕ) (new : List (List ℕ)) (r : Stands size v s)
      (wide : Wide size new) where
    pub accepted : accepts index new s ≡ true → IsAccepted v index (length new) (concat new)
    accepted ok = record {
      in_range = ground (arith, r.count);
      some_items = ground arith;
      room = ground (arith, r.count);
      readable = omega (arith, length-concat size new wide, ap (λ (n : ℕ). length new * n) r.sized);
    }

    -- A successful insertion.
    pub put_in-Stands :
        (ok : accepts index new s ≡ true) (v' : Vector) (q : ℕ)
        → IsInserted v index (length new) (take (length new * v.item_size) (concat new)) v'
        → v'.phys_size ≡ q
        → Stands size v' (put_in index new s (some q)).1
    put_in-Stands ok v' q done chosen =
        let in_range : index ≤ length s.items = ground (arith, ok) in
        record {
          valid = done.valid;
          sized = done.same_size ∙ r.sized;
          count = omega (
            arith,
            done.counted,
            r.count,
            length-append (take index s.items) (new ++ drop index s.items),
            length-append new (drop index s.items),
            length-take index s.items,
            length-drop index s.items,
          );
          capacity = chosen;
          wide =
              All-append _ (take index s.items) (new ++ drop index s.items)
                (All-take _ index s.items r.wide)
                (All-append _ new (drop index s.items) wide (All-drop _ index s.items r.wide));
          holds =
              done.holds
              ∙ ap₂ (λ bs n. spliced bs (index * v.item_size) n) r.holds whole
              ∙ ap (λ n. spliced (concat s.items) (index * n) (concat new)) r.sized
              ∙ spliced-concat size index s.items new r.wide in_range;
        }
      where
        whole : take (length new * v.item_size) (concat new) ≡ concat new
        whole =
            take_all (length new * v.item_size) (concat new)
              (omega (arith, length-concat size new wide, ap (λ (n : ℕ). length new * n) r.sized))
