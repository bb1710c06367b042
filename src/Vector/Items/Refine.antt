-- ===== src/Vector/Items/Refine.antt =====
-- A vector answers every call as the sequence of its items does, and goes on to stand for it.
use onyxnet.Prelude.{
  ℕ, ◌+◌, ◌-◌, ◌*◌, ◌/◌, ◌<◌, ◌≡◌, refl, sym, ap, ap₂, ◌∙◌, subst, Bool, true, false, Option, some,
  List, [], ◌∷◌, append-nil, length, ltb, leb, min, All, inl, inr, Bool-cases, Option-cases,
  if◌then◌else◌, ◌==◌, arith, ◌^◌, take_all,
}
use onyxnet.Memory.{Malloc, IsMalloc}
use onyxnet.Vector.{Vector, init, insert, append, remove}
use onyxnet.Vector.Valid.{max_capacity, contents}
use onyxnet.Vector.Parts.{wanted}
use onyxnet.Vector.Insert.{insert_lem, insert-no_memory}
use onyxnet.Vector.Remove.{remove_lem}
use onyxnet.Vector.Reject.{insert-reject}
use onyxnet.Vector.Items.{
  Sequence, Op, inserted, appended, removed, perform, perform_all, room_for, accepts, put_in,
  insert_items, counted, take_out, reply, reply_all,
}
use onyxnet.Vector.Items.Concat.{concat, Wide}
use onyxnet.Vector.Items.Stands.{Stands, Keeps, accepted, put_in-Stands, take_out-Stands}

module _ (size : ℕ) where
  abbrev Replies : Option (ℕ × Vector) → ℕ × Sequence → Type 0
  Replies said r = (v : Vector) × (said ≡ some (r.0, v)) × Stands size v r.1

  module _ (malloc : Malloc) (is_malloc : IsMalloc malloc) (v : Vector) (s : Sequence) (index : ℕ)
      (new : List (List ℕ)) (r : Stands size v s) (wide : Wide size new) where
    -- The allocator's answer is the one that the sequence counts on.
    abbrev request : ℕ
    request = wanted v (length new) * v.item_size

    abbrev enough : ℕ
    enough = length s.items + length new

    asks : (enough + (enough / 4 + 16)) * size ≡ request
    asks =
        ap₂ (λ (n m : ℕ). (n + length new + ((n + length new) / 4 + 16)) * m) (sym r.count)
          (sym r.sized)

    past-Replies :
        accepts index new s ≡ false
        → Replies (insert malloc v index (concat new) (length new)) (0, s)
    past-Replies ok = (
      v,
      insert-reject malloc v index (concat new) (length new) r.valid.bounded
          (ground (arith, ok, r.count)),
      r,
    )

    accepted-Replies :
        accepts index new s ≡ true
        → Replies
            (insert malloc v index (concat new) (length new))
            (put_in index new s (room_for malloc size s.capacity enough))
    accepted-Replies ok =
        elim (insert_lem malloc is_malloc v index (concat new) (length new) r.valid
          (accepted size v s index new r wide ok)) [
            | inl (full, failed, e) ↦
                let larger : ltb s.capacity enough ≡ true =
                  ground (arith, full, r.count, r.capacity) in
                rw (larger, ap malloc asks ∙ failed) (v, e, r)
            | inr (v', e, done) ↦ elim (Bool-cases (ltb s.capacity enough)) [
              | inl larger ↦ elim (Option-cases (malloc request)) [
                | inl failed ↦
                    let less : v.phys_size < v.item_count + length new =
                      ground (arith, larger, r.count, r.capacity) in
                    let refused =
                      insert-no_memory malloc is_malloc v index (concat new) (length new) r.valid
                        (accepted size v s index new r wide ok) less failed in
                    absurd (
                      ground (
                        arith,
                        sym refused ∙ e,
                        (accepted size v s index new r wide ok).some_items,
                      ))
                | inr (nu, got) ↦
                    rw (larger, ap malloc asks ∙ got)
                      (
                        v',
                        e,
                        put_in-Stands size v s index new r wide ok v' (enough + (enough / 4 + 16))
                            done (done.capacity ∙ ground (arith, larger, r.count, r.capacity)),
                      )
              ]
              | inr fits ↦ rw fits (
                v',
                e,
                put_in-Stands size v s index new r wide ok v' s.capacity done
                    (done.capacity ∙ ground (arith, fits, r.count, r.capacity)),
              )
            ]
          ]

    insert-Replies :
        Replies
          (insert malloc v index (concat new) (length new))
          (insert_items malloc size index new s)
    insert-Replies = elim (Bool-cases (accepts index new s)) [
      | inl ok ↦ rw ok (accepted-Replies ok)
      | inr ok ↦ rw ok (past-Replies ok)
    ]

  either_count :
      {n m : ℕ} (zero_items : Bool) (v : Vector)
      → n ≡ m
      → let said : Option (ℕ × Vector) = if zero_items then some (0, v) else some (n, v) in
        said ≡ some (if zero_items then 0 else m, v)
  either_count true v same = refl
  either_count false v same = ap (λ n. some (n, v)) same

  append-Replies :
      (malloc : Malloc) (v : Vector) (s : Sequence) (item : List ℕ)
      → IsMalloc malloc
      → Stands size v s
      → length item ≡ size
      → Replies
          (append malloc v item)
          (counted (insert_items malloc size (length s.items) (item ∷ []) s))
  unfolding append
  append-Replies malloc v s item is_malloc r wide =
      let (v', e, r') =
        insert-Replies malloc is_malloc v s (length s.items) (item ∷ []) r (wide, tt) in
      let same : insert malloc v v.item_count item 1
          ≡ insert malloc v (length s.items) (concat (item ∷ [])) 1 =
        ap₂ (λ n bs. insert malloc v n bs 1) r.count (sym (append-nil item)) in
      (
        v',
        rw (same, e)
            (either_count ((insert_items malloc size (length s.items) (item ∷ []) s).0 == 0) v'
              r'.count),
        r',
      )

  remove-Replies :
      (v : Vector) (s : Sequence) (index asked : ℕ)
      → Stands size v s
      → Replies (remove v index asked) (reply size (removed index asked) s)
  unfolding reply
  remove-Replies v s index asked r = elim (remove_lem v index asked r.valid) [
    | inl (within, v', e, done) ↦
        let inside : leb index (length s.items) ≡ true = ground (arith, within, r.count) in
        let n = min asked (v.item_count - index) in
        let taken : n ≡ min asked (length s.items - index) =
          ap (λ (n : ℕ). min asked (n - index)) r.count in
        rw inside (
          subst (λ n. Replies (remove v index asked) (take_out index n s)) taken
            (v', e, take_out-Stands size v v' s index n r done (omega (arith, r.count))))
    | inr (past, e) ↦
        let outside : leb index (length s.items) ≡ false = ground (arith, past, r.count) in
        rw outside (v, e, r)
  ]

  perform-Replies :
      (o : Op) (v : Vector) (s : Sequence)
      → Keeps size o
      → Stands size v s
      → Replies (perform o v) (reply size o s)
  unfolding perform reply
  perform-Replies (inserted malloc index new) v s keeps r =
      insert-Replies malloc keeps.0 v s index new r keeps.1
  perform-Replies (appended malloc item) v s keeps r =
      append-Replies malloc v s item keeps.0 r keeps.1
  perform-Replies (removed index asked) v s keeps r = remove-Replies v s index asked r

  perform_all-Replies :
      (os : List Op) (v : Vector) (s : Sequence)
      → All (Keeps size) os
      → Stands size v s
      → (v' : Vector) × (perform_all os v ≡ some ((reply_all size os s).0, v'))
        × Stands size v' (reply_all size os s).1
  unfolding perform_all reply_all
  perform_all-Replies [] v s keeps r = (v, refl, r)
  perform_all-Replies (o ∷ os) v s keeps r =
      let (v1, step, r1) = perform-Replies o v s keeps.0 r in
      let (v2, steps, r2) = perform_all-Replies os v1 (reply size o s).1 keeps.1 r1 in
      (v2, rw step (rw steps refl), r2)

-- Any sequence of calls on a new vector of items of `size` bytes, at least one and not so many that
-- the greatest block's size wraps, each call with an allocator that returns NULL or a block of the
-- size asked for, and with items of that many bytes: no call is a fault, each answers as the
-- sequence of items does, which refuses an insertion past the end, of nothing, past the greatest
-- count or without memory, and at the end the vector is valid and holds the bytes of the sequence's
-- items one behind the other, with its count and its capacity.
pub perform_all-reply_all :
    (size : ℕ) (os : List Op)
    → 0 < size
    → max_capacity * size < 2 ^ 64
    → All (Keeps size) os
    → (v : Vector) × (perform_all os (init size).0
        ≡ some ((reply_all size os (record { items = []; capacity = 0 })).0, v))
      × Stands size v (reply_all size os (record { items = []; capacity = 0 })).1
unfolding init contents
perform_all-reply_all size os pos small keeps =
    perform_all-Replies size os (init size).0 (record { items = []; capacity = 0 }) keeps
      (record {
        valid = omega arith;
        sized = refl;
        count = refl;
        capacity = refl;
        wide = tt;
        holds = take_all (0 * size) [] (omega arith);
      })
