-- ===== src/HashTable/Written.antt =====
-- What `hash_table_assign` promises, and why it holds in a table that has its chains.
use onyxnet.Prelude.{
  ℕ, ◌+◌, ◌^◌, ◌<◌, ◌≡◌, refl, sym, ap, ◌∙◌, subst, Bool, true, Option, none, some, List, [], ◌∷◌,
  length, get_or, set, if◌then◌else◌, Option-cases, inl, inr, arith,
}
use onyxnet.Memory.{add_size}
use onyxnet.HashTable.{Funcs, Table, has_pointers, stored_for, assign_in, place}
use onyxnet.HashTable.Chain.{Node, Stored, key_of, pointer_of}
use onyxnet.HashTable.Chain.Laws.{
  key, IsCoded, Lacks, found, replaced, found-cons, found-replaced, Lacks-found,
}
use onyxnet.HashTable.Chain.Keeps.{All-replaced, replaced-IsDistinct, length-replaced}
use onyxnet.HashTable.Valid.{
  in_use, total, total-set, home, home-lt, hash_of, same_of, IsValid, lookup, filled, slot-inside,
}
use onyxnet.HashTable.Slots.{set-inside, set-IsPlaced, found-set}

module _ {K : Type 0} (memory : ℕ → K) where
  pub key-stored_for : (t : Table K) (p : ℕ) → key_of memory (stored_for memory t p) ≡ memory p
  key-stored_for t p = ground arith

  pub pointer_of-stored_for :
      (t : Table K) (p a : ℕ)
      → (if has_pointers memory t then p else a + 16) ≡ pointer_of a (stored_for memory t p)
  pointer_of-stored_for t p a = ground arith

  -- The node that an assignment of the item at `p` leaves: the one found, overwritten, or a new one at
  -- `a`.
  abbrev pub written : Table K → ℕ → ℕ → ℕ → Option (Node K) → Node K
  written t p a code (some n) = record n { stored = stored_for memory t p }
  written t p a code none = record { address = a; code = code; stored = stored_for memory t p }

  -- The pointer that an assignment returns: the item overwritten in its node, which in
  -- HASHTABLE_POINTERS mode is the old pointer, or else the item in the new node.
  abbrev pub returned : Table K → ℕ → ℕ → Option (Node K) → ℕ
  returned t p a (some n) = pointer_of n.address n.stored
  returned t p a none = pointer_of a (stored_for memory t p)

  abbrev pub counted_after : ℕ → Option (Node K) → ℕ
  counted_after count (some n) = count
  counted_after count none = count + 1

  module _ (f : Funcs K) where
    -- What an assignment of the item at `p` promises, with `a` the address of a new node.
    pub record IsAssigned (t t' : Table K) (p a result : ℕ) : Type 0 where
      pub valid : IsValid memory f t'
      pub result_is : result ≡ returned t p a (lookup memory f t (memory p))
      pub holds :
          (q : K)
          → lookup memory f t' q ≡ (
              if same_of memory f t q (memory p)
              then some
                  (written t p a (hash_of memory f t (memory p)) (lookup memory f t (memory p)))
              else lookup memory f t q)
      pub same_flags : t'.flags ≡ t.flags
      pub same_size : t'.item_size ≡ t.item_size
      pub used : in_use t'.top ≡ true
      pub counts : t'.item_count ≡ counted_after t.item_count (lookup memory f t (memory p))

    -- An assignment in a table that has its chains.
    module _ (cs : List (List (Node K))) (size count flags p a : ℕ)
        (valid : IsValid memory f (filled memory f cs size count flags))
        (bound : count + 1 < 2 ^ 64) where
      abbrev table : Table K
      table = filled memory f cs size count flags

      abbrev code : ℕ
      code = f.hash (memory p) size

      abbrev chain : List (Node K)
      chain = get_or cs (home code) []

      abbrev found_here : K → Option (Node K)
      found_here q = found memory (hash_of memory f table) (same_of memory f table) q chain

      abbrev code_of : K → ℕ
      code_of k = f.hash k size

      abbrev alike : K → K → Bool
      alike a b = f.same a b size

      abbrev stored : Stored K
      stored = stored_for memory table p

      same_key : key_of memory stored ≡ memory p
      same_key = key-stored_for table p

      total_after :
          (c : List (Node K)) → total (set cs (home code) c) + length chain ≡ count + length c
      total_after c = omega (
        arith,
        total-set cs (home code) c
            (set-inside memory code_of alike cs (home code) c (home-lt code) valid.placed),
        valid.counted,
      )

      overwritten :
          (n : Node K)
          → found_here (memory p) ≡ some n
          → (table' : Table K) × (assign_in memory (some a) cs table p
              ≡ some (pointer_of n.address n.stored, table'))
            × IsAssigned table table' p a (pointer_of n.address n.stored)
      unfolding assign_in lookup home
      overwritten n e =
          let c = replaced memory code_of alike (memory p) stored chain in
          let table' = filled memory f (set cs (home code) c) size count flags in
          let e' : lookup memory f table (memory p) ≡ some n = e in
          let coded = valid.placed.coded (home code) in
          (
            table',
            rw (slot-inside memory f cs code valid.placed.width) (
                ap (λ o. some (place memory (some a) cs table p (alike (memory p)) code chain o))
                  e),
            record {
              valid = record {
                functions = refl;
                keyed = valid.keyed;
                sized = refl;
                placed =
                    set-IsPlaced memory code_of alike cs (home code) c (home-lt code) valid.placed
                      (All-replaced memory code_of alike valid.keyed (IsCoded memory code_of alike)
                        (memory p) stored chain coded
                        (λ m _ same own.
                          own
                          ∙ sym (valid.keyed.hash-same (memory p) (key memory code_of alike m) same)
                          ∙ ap code_of (sym same_key))
                        coded)
                      (All-replaced memory code_of alike valid.keyed (λ m. home m.code ≡ home code)
                        (memory p) stored chain coded (λ m _ same own. own)
                        (valid.placed.homed (home code)))
                      (replaced-IsDistinct memory code_of alike valid.keyed (memory p) stored chain
                        coded same_key (valid.placed.distinct (home code)));
                counted = omega (
                  arith,
                  total_after c,
                  length-replaced memory code_of alike valid.keyed (memory p) stored chain,
                );
              };
              result_is = rw e' refl;
              holds = λ q. rw e' (
                  found-set memory code_of alike cs (memory p) q c
                    (some (record n { stored = stored })) valid.keyed valid.placed
                    (found-replaced memory code_of alike valid.keyed (memory p) q stored chain n
                      coded same_key e));
              same_flags = refl;
              same_size = refl;
              used = refl;
              counts = rw e' refl;
            },
          )

      added :
          found_here (memory p) ≡ none
          → (table' : Table K) × (assign_in memory (some a) cs table p
              ≡ some (pointer_of a stored, table'))
            × IsAssigned table table' p a (pointer_of a stored)
      unfolding assign_in lookup home
      added e =
          let new : Node K = record { address = a; code = code; stored = stored } in
          let c : List (Node K) = new ∷ chain in
          let table' = filled memory f (set cs (home code) c) size (add_size count 1) flags in
          let e' : lookup memory f table (memory p) ≡ none = e in
          let coded : IsCoded memory code_of alike new = ap code_of (sym same_key) in
          let lacks =
            Lacks-found memory code_of alike valid.keyed (memory p) chain
              (valid.placed.coded (home code)) e in
          (
            table',
            rw (slot-inside memory f cs code valid.placed.width) (
                ap (λ o. some (place memory (some a) cs table p (alike (memory p)) code chain o)) e
                ∙ ap (λ r. some (r, table')) (pointer_of-stored_for table p a)),
            record {
              valid = record {
                functions = refl;
                keyed = valid.keyed;
                sized = refl;
                placed =
                    set-IsPlaced memory code_of alike cs (home code) c (home-lt code) valid.placed
                      (coded, valid.placed.coded (home code)) (refl, valid.placed.homed (home code))
                      (
                        subst (λ k. Lacks memory code_of alike k chain) (sym same_key) lacks,
                        valid.placed.distinct (home code),
                      );
                counted = omega (arith, total_after c, bound);
              };
              result_is = rw e' refl;
              holds = λ q. rw e' (
                  found-set memory code_of alike cs (memory p) q c (some new) valid.keyed
                    valid.placed
                    (found-cons memory code_of alike valid.keyed q new chain coded
                      ∙ ap (λ k. if alike q k then some new else found_here q) same_key));
              same_flags = refl;
              same_size = refl;
              used = refl;
              counts = rw e' (omega (arith, bound));
            },
          )

      pub assign_in_lem :
          (result : ℕ) × (table' : Table K) × (assign_in memory (some a) cs table p
            ≡ some (result, table'))
          × IsAssigned table table' p a result
      assign_in_lem = elim (Option-cases (found_here (memory p))) [
        | inl e ↦ let (table', step, done) = added e in (pointer_of a stored, table', step, done)
        | inr (n, e) ↦
            let (table', step, done) = overwritten n e in
            (pointer_of n.address n.stored, table', step, done)
      ]
