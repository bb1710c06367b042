-- ===== src/HashTable/Remove.antt =====
-- `hash_table_remove` of any valid table.
use onyxnet.Prelude.{
  ℕ, ◌+◌, ◌<◌, ◌^◌, ◌≡◌, refl, ap, ◌∙◌, Bool, Option, none, some, List, [], ◌∷◌, get_or, set, ◌==◌,
  ==_iff, Bool-cases, Option-cases, inl, inr, arith,
}
use onyxnet.Memory.{sub_size}
use onyxnet.HashTable.{Funcs, Table, table_size, unlink, remove}
use onyxnet.HashTable.Chain.{Node}
use onyxnet.HashTable.Chain.Laws.{IsCoded, found, deleted, found-deleted}
use onyxnet.HashTable.Chain.Keeps.{All-deleted, deleted-IsDistinct, length-deleted}
use onyxnet.HashTable.Valid.{
  total, total-set, total-empty, home, home-lt, IsPlaced, IsValid, lookup, filled, bare,
  IsValid-cases, slot-inside,
}
use onyxnet.HashTable.Slots.{set-inside, set-IsPlaced, found-set}
use onyxnet.HashTable.Absent.{IsRemoved, lookup-empty, nothing}

module _ {K : Type 0} (memory : ℕ → K) (f : Funcs K) where
  module _ (cs : List (List (Node K))) (size count flags p : ℕ)
      (valid : IsValid memory f (filled memory f cs size count flags))
      (bound : count < 2 ^ 64) where
    abbrev table : Table K
    table = filled memory f cs size count flags

    abbrev code : ℕ
    code = f.hash (memory p) size

    abbrev chain : List (Node K)
    chain = get_or cs (home code) []

    abbrev code_of : K → ℕ
    code_of k = f.hash k size

    abbrev alike : K → K → Bool
    alike a b = f.same a b size

    abbrev chain' : List (Node K)
    chain' = deleted memory code_of alike (memory p) chain

    abbrev table' : Table K
    table' = filled memory f (set cs (home code) chain') size (sub_size count 1) flags

    abbrev found_here : Option (Node K)
    found_here = found memory code_of alike (memory p) chain

    placed' : IsPlaced memory code_of alike (set cs (home code) chain')
    placed' =
        let coded = valid.placed.coded (home code) in
        set-IsPlaced memory code_of alike cs (home code) chain' (home-lt code) valid.placed
          (All-deleted memory code_of alike valid.keyed (IsCoded memory code_of alike) (memory p)
            chain coded coded)
          (All-deleted memory code_of alike valid.keyed (λ m. home m.code ≡ home code) (memory p)
            chain coded (valid.placed.homed (home code)))
          (deleted-IsDistinct memory code_of alike valid.keyed (memory p) chain coded
            (valid.placed.distinct (home code)))

    one_less : (n : Node K) → found_here ≡ some n → total (set cs (home code) chain') + 1 ≡ count
    one_less n e = omega (
      arith,
      total-set cs (home code) chain'
          (set-inside memory code_of alike cs (home code) chain' (home-lt code) valid.placed),
      valid.counted,
      length-deleted memory code_of alike valid.keyed (memory p) chain n e,
    )

    removed :
        (n : Node K) → found_here ≡ some n → IsRemoved memory f table table' p 1 (n.address ∷ [])
    unfolding lookup
    removed n e =
        let e' : lookup memory f table (memory p) ≡ some n = e in
        let less = one_less n e in
        record {
          valid = record {
            functions = refl;
            keyed = valid.keyed;
            sized = refl;
            placed = placed';
            counted = omega (arith, less, bound);
          };
          result_is = rw e' refl;
          frees = rw e' refl;
          holds = λ q.
              found-set memory code_of alike cs (memory p) q chain' none valid.keyed valid.placed (
                found-deleted memory code_of alike valid.keyed (memory p) q chain
                  (valid.placed.coded (home code)) (valid.placed.distinct (home code)));
          same_flags = refl;
          same_size = refl;
          same_use = refl;
          counts = omega (arith, less, bound);
          unlinked = λ m here. refl;
        }

    filled_lem :
        (result : ℕ) × (freed : List ℕ) × (t' : Table K) × (remove memory table p
          ≡ some (result, freed, t'))
        × IsRemoved memory f table t' p result freed
    unfolding remove home lookup
    filled_lem = elim (Bool-cases (count == 0)) [
      | inl z ↦ (
        0,
        [],
        table,
        rw z refl,
        nothing memory f table p valid
            (lookup-empty memory f table (memory p) valid ((==_iff count 0).0 z)),
      )
      | inr nz ↦
          let step : remove memory table p
              ≡ some (unlink memory cs table (alike (memory p)) code chain found_here) =
            rw nz (rw (slot-inside memory f cs code valid.placed.width) refl) in
          elim (Option-cases found_here) [
            | inl e ↦ (
              0,
              [],
              table,
              step ∙ ap (λ o. some (unlink memory cs table (alike (memory p)) code chain o)) e,
              nothing memory f table p valid e,
            )
            | inr (n, e) ↦ (
              1,
              n.address ∷ [],
              table',
              step ∙ ap (λ o. some (unlink memory cs table (alike (memory p)) code chain o)) e,
              removed n e,
            )
          ]
    ]

  -- `hash_table_remove` of a valid table does not fault and leaves a valid table with the same flags and
  -- item size, in which nothing is found under the keys that are the same as the item's, and any other
  -- key is looked up as before; it returns 1, frees the node's address and takes one from the count
  -- exactly if there was such a node, and otherwise returns 0 and frees nothing.
  pub remove-IsRemoved :
      (t : Table K) (p : ℕ)
      → IsValid memory f t
      → t.item_count < 2 ^ 64
      → (result : ℕ) × (freed : List ℕ) × (t' : Table K) × (remove memory t p
          ≡ some (result, freed, t'))
        × IsRemoved memory f t t' p result freed
  unfolding remove
  remove-IsRemoved t p valid bound =
      IsValid-cases memory f
        (λ t.
          IsValid memory f t
          → t.item_count < 2 ^ 64
          → (result : ℕ) × (freed : List ℕ) × (t' : Table K) × (remove memory t p
              ≡ some (result, freed, t'))
            × IsRemoved memory f t t' p result freed)
        (λ top_size size count flags valid bound.
          let table = bare memory f top_size size count flags in
          let z : count ≡ 0 = valid.counted ∙ total-empty (Node K) table_size in
          (
            0,
            [],
            table,
            rw z refl,
            nothing memory f table p valid (lookup-empty memory f table (memory p) valid z),
          ))
        (λ cs size count flags valid bound. filled_lem cs size count flags p valid bound) t valid
        valid bound
