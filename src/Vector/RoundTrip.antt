-- ===== src/Vector/RoundTrip.antt =====
-- Removing what was inserted gives the old bytes back.
use onyxnet.Prelude.{
  subst, ℕ, ◌-◌, ◌*◌, ◌≤◌, ◌≡◌, sym, ap, ap₂, ◌∙◌, inl, inr, Option, some, List, ◌++◌, length, take,
  drop, arith, min, length-take, take-append_left, drop-append_left, take-append-drop,
}
use onyxnet.Memory.{Malloc, IsMalloc}
use onyxnet.Memory.Ranges.{drop-append_right}
use onyxnet.Vector.{Vector, insert, remove}
use onyxnet.Vector.Valid.{IsValid, contents, mul_le}
use onyxnet.Vector.Parts.{spliced, IsInserted, IsAccepted}
use onyxnet.Vector.Insert.{insert_lem, length-contents}
use onyxnet.Vector.Remove.{cut, remove_lem}

cut-spliced :
    (bs : List ℕ) (off : ℕ) (new : List ℕ) (n : ℕ)
    → off ≤ length bs
    → n ≡ length new
    → cut (spliced bs off new) off n ≡ bs
cut-spliced bs off new n h e =
    ap₂ ◌++◌ (take-append_left off (take off bs) (new ++ drop off bs) front) (
      drop-append_right off n (take off bs) (new ++ drop off bs) front
      ∙ drop-append_left n new (drop off bs) e)
    ∙ take-append-drop off bs
  where
    front : off ≡ length (take off bs)
    front = omega (arith, length-take off bs)

some_pair-injective :
    {A B : Type 0} (a c : A) (b d : B)
    → ◌≡◌ {A = Option (A × B)} (some (a, b)) (some (c, d))
    → (a ≡ c) × (b ≡ d)
some_pair-injective a c b d e = ground arith

-- If an accepted insertion into a valid vector returned `count` and the vector `r`, removing `count`
-- items at the same index from `r` returns `count` and leaves the bytes that the vector had before.
pub remove-insert :
    (malloc : Malloc) (v : Vector) (index : ℕ) (src : List ℕ) (count : ℕ) (r : Vector)
    → IsMalloc malloc
    → IsValid v
    → IsAccepted v index count src
    → insert malloc v index src count ≡ some (count, r)
    → (r' : Vector) × (remove r index count ≡ some (count, r'))
      × IsValid r'
      × (contents r' ≡ contents v)
remove-insert malloc v index src count r is_malloc valid ok e =
    elim (insert_lem malloc is_malloc v index src count valid ok) [
      | inl (full, failed, none_done) ↦
          absurd (omega (arith, (some_pair-injective _ _ _ _ (sym none_done ∙ e)).0, ok.some_items))
      | inr (s, done, inserted) ↦ back (
          subst (IsInserted v index count (take (count * v.item_size) src))
            (some_pair-injective _ _ _ _ (sym done ∙ e)).1 inserted)
    ]
  where
    back :
        IsInserted v index count (take (count * v.item_size) src) r
        → (r' : Vector) × (remove r index count ≡ some (count, r'))
          × IsValid r'
          × (contents r' ≡ contents v)
    back inserted = elim (remove_lem r index count inserted.valid) [
      | inr (past, _) ↦ absurd (omega (arith, inserted.counted, ok.in_range))
      | inl (within, r', gone, removed) ↦
          let all : min count (r.item_count - index) ≡ count =
            omega (arith, inserted.counted, ok.in_range) in
          (
            r',
            gone ∙ ap (λ n. some (n, r')) all,
            removed.valid,
            removed.holds
                ∙ ap₂ (λ n s. cut (contents r) (index * s) (n * s)) all inserted.same_size
                ∙ ap (λ bs. cut bs (index * v.item_size) (count * v.item_size)) inserted.holds
                ∙ cut-spliced (contents v) (index * v.item_size) (take (count * v.item_size) src)
                    (count * v.item_size)
                    (omega (
                      arith,
                      length-contents v valid,
                      mul_le index v.item_count v.item_size ok.in_range,
                    ))
                    (omega (arith, length-take (count * v.item_size) src, ok.readable)),
          )
    ]
