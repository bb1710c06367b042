-- ===== src/HashTable/Assign.antt =====
-- `hash_table_assign` of any valid table.
use onyxnet.Prelude.{ℕ, ◌+◌, ◌^◌, ◌<◌, ◌≡◌, refl, true, some, [], replicate}
use onyxnet.HashTable.{Funcs, Table, table_size, assign}
use onyxnet.HashTable.Valid.{IsValid, lookup, filled, IsValid-cases}
use onyxnet.HashTable.Written.{IsAssigned, assign_in_lem}

module _ {K : Type 0} (memory : ℕ → K) (f : Funcs K) where
  -- `hash_table_assign` of a valid table, when `malloc` has room for the chains and for a node at `a`
  -- and the count does not wrap: it does not fault and leaves a valid table with the same flags and item
  -- size, in which the items with the same key are looked up to the node written, any other as before;
  -- the count grows by one if the key was not there, and the pointer is the node's item, or in
  -- HASHTABLE_POINTERS mode the pointer that was replaced.
  pub assign_lem :
      (t : Table K) (p a : ℕ)
      → IsValid memory f t
      → t.item_count + 1 < 2 ^ 64
      → (result : ℕ) × (t' : Table K) × (assign memory true (some a) t p ≡ some (result, t'))
        × IsAssigned memory f t t' p a result
  unfolding assign lookup
  assign_lem t p a valid bound =
      IsValid-cases memory f
        (λ t.
          IsValid memory f t
          → t.item_count + 1 < 2 ^ 64
          → (result : ℕ) × (t' : Table K) × (assign memory true (some a) t p ≡ some (result, t'))
            × IsAssigned memory f t t' p a result)
        (λ top_size size count flags valid bound.
          let fresh : IsValid memory f
              (filled memory f (replicate table_size []) size count flags) =
            record {
              functions = refl;
              keyed = valid.keyed;
              sized = refl;
              placed = valid.placed;
              counted = valid.counted;
            } in
          let (result, t', step, done) =
            assign_in_lem memory f (replicate table_size []) size count flags p a fresh bound in
          (
            result,
            t',
            step,
            record {
              valid = done.valid;
              result_is = done.result_is;
              holds = done.holds;
              same_flags = done.same_flags;
              same_size = done.same_size;
              used = done.used;
              counts = done.counts;
            },
          ))
        (λ cs size count flags valid bound.
          assign_in_lem memory f cs size count flags p a valid bound)
        t valid valid bound
