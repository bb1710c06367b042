-- ===== src/HashTable/Full.antt =====
-- `hash_table_assign` when `malloc` fails.
use onyxnet.Prelude.{
  inr, inl, Option-cases, ℕ, ◌≡◌, refl, ap, ◌∙◌, true, false, Bool, Option, none, some, List, [],
  replicate, get_or, sym,
}
use onyxnet.HashTable.{Funcs, Table, table_size, assign, assign_in, place}
use onyxnet.HashTable.Chain.{Node}
use onyxnet.HashTable.Valid.{
  in_use, IsValid, lookup, home, filled, bare, IsValid-cases, slot-inside,
}

used-ne : {b : Bool} → b ≡ true → b ≡ false → ⊥
used-ne e h = cc

module _ {K : Type 0} (memory : ℕ → K) (f : Funcs K) where
  -- The table `t'` has its chains and holds what `t` does.
  pub record IsKept (t t' : Table K) : Type 0 where
    pub valid : IsValid memory f t'
    pub used : in_use t'.top ≡ true
    pub holds : (q : K) → lookup memory f t' q ≡ lookup memory f t q
    pub same_flags : t'.flags ≡ t.flags
    pub same_size : t'.item_size ≡ t.item_size
    pub same_count : t'.item_count ≡ t.item_count

  module _ (cs : List (List (Node K))) (size count flags p : ℕ)
      (valid : IsValid memory f (filled memory f cs size count flags)) where
    abbrev table : Table K
    table = filled memory f cs size count flags

    -- Without room for a node, nothing changes if the key is not there,
    refused :
        lookup memory f table (memory p) ≡ none → assign_in memory none cs table p ≡ some (0, table)
    unfolding assign_in lookup home
    refused e = rw (slot-inside memory f cs (f.hash (memory p) size) valid.placed.width) (
        ap
          (λ o. some (
            place memory none cs table p (λ q. f.same (memory p) q size) (f.hash (memory p) size)
              (get_or cs (home (f.hash (memory p) size)) []) o))
          e)

    -- and no room is needed if it is.
    found_anyway :
        (n : Node K) (fresh : Option ℕ) (a : ℕ)
        → lookup memory f table (memory p) ≡ some n
        → assign_in memory fresh cs table p ≡ assign_in memory (some a) cs table p
    unfolding assign_in lookup home
    found_anyway n fresh a e =
        let at = λ (fresh : Option ℕ) (o : Option (Node K)).
          place memory fresh cs table p (λ q. f.same (memory p) q size) (f.hash (memory p) size)
            (get_or cs (home (f.hash (memory p) size)) []) o in
        rw (slot-inside memory f cs (f.hash (memory p) size) valid.placed.width)
          (ap (λ o. some (at fresh o)) e ∙ sym (ap (λ o. some (at (some a) o)) e))

  -- The table once its chains are there.
  module _ (size count flags : ℕ) where
    abbrev emptied : Table K
    emptied = filled memory f (replicate table_size []) size count flags

    emptied-IsValid :
        (top_size : ℕ)
        → IsValid memory f (bare memory f top_size size count flags)
        → IsValid memory f emptied
    emptied-IsValid top_size valid = record {
      functions = refl;
      keyed = valid.keyed;
      sized = refl;
      placed = valid.placed;
      counted = valid.counted;
    }

  pub assign-refused :
      (t : Table K) (p : ℕ)
      → IsValid memory f t
      → lookup memory f t (memory p) ≡ none
      → (t' : Table K) × (assign memory true none t p ≡ some (0, t')) × IsKept t t'
  unfolding assign lookup
  assign-refused t p valid e =
      IsValid-cases memory f
        (λ t.
          IsValid memory f t
          → lookup memory f t (memory p) ≡ none
          → (t' : Table K) × (assign memory true none t p ≡ some (0, t')) × IsKept t t')
        (λ top_size size count flags valid e.
          let ok = emptied-IsValid size count flags top_size valid in
          (
            emptied size count flags,
            refused (replicate table_size []) size count flags p ok e,
            record {
              valid = ok;
              used = refl;
              holds = λ q. refl;
              same_flags = refl;
              same_size = refl;
              same_count = refl;
            },
          ))
        (λ cs size count flags valid e. (
          filled memory f cs size count flags,
          refused cs size count flags p valid e,
          record {
            valid = valid;
            used = refl;
            holds = λ q. refl;
            same_flags = refl;
            same_size = refl;
            same_count = refl;
          },
        ))
        t valid valid e

  pub assign-anyway :
      (t : Table K) (p : ℕ) (n : Node K) (fresh : Option ℕ) (a : ℕ)
      → IsValid memory f t
      → lookup memory f t (memory p) ≡ some n
      → assign memory true fresh t p ≡ assign memory true (some a) t p
  unfolding assign lookup
  assign-anyway t p n fresh a valid e =
      IsValid-cases memory f
        (λ t.
          IsValid memory f t
          → lookup memory f t (memory p) ≡ some n
          → assign memory true fresh t p ≡ assign memory true (some a) t p)
        (λ top_size size count flags valid e.
          found_anyway (replicate table_size []) size count flags p
            (emptied-IsValid size count flags top_size valid) n fresh a e)
        (λ cs size count flags valid e. found_anyway cs size count flags p valid n fresh a e) t
        valid valid e

  -- Without the chains, and without room for them, nothing happens.
  pub assign-no_chains :
      (t : Table K) (p : ℕ) (fresh : Option ℕ)
      → in_use t.top ≡ false
      → assign memory false fresh t p ≡ some (0, t)
  unfolding assign
  assign-no_chains t p fresh e = elim (Option-cases t.top) [
    | inl h ↦ rw h refl
    | inr (cs, h) ↦ absurd (used-ne (ap in_use h) e)
  ]

  -- With them, no room is needed.
  pub assign-used :
      (room : Bool) (t : Table K) (p : ℕ) (fresh : Option ℕ)
      → in_use t.top ≡ true
      → assign memory room fresh t p ≡ assign memory true fresh t p
  unfolding assign
  assign-used room t p fresh e = elim (Option-cases t.top) [
    | inl h ↦ absurd (used-ne e (ap in_use h))
    | inr (cs, h) ↦ rw h refl
  ]
