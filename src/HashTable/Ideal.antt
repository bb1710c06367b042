-- ===== src/HashTable/Ideal.antt =====
-- What the users of a hash table see: a map that answers each call, and no chains or slots.
pub mod Represents
pub mod Answers
pub mod Assigns
pub mod Refine
use onyxnet.Prelude.{
  ℕ, ◌+◌, ◌-◌, Bool, true, false, ◌||◌, not, Option, none, some, List, [], ◌∷◌, if◌then◌else◌,
}
use onyxnet.Memory.{◌>>=◌}
use onyxnet.HashTable.{Table, find, assign, remove}

-- An item as it is handed out: its address, and the data behind that.
pub record Entry (K : Type 0) : Type 0 where
  pub pointer : ℕ
  pub item : K

-- A map, and whether its table has its chains.
pub record Ideal (K : Type 0) : Type 0 where
  pub used : Bool
  pub entries : K → Option (Entry K)
  pub count : ℕ

-- The map of a new table.
abbrev pub no_entries : {K : Type 0} → Ideal K
no_entries = record { used = false; entries = λ q. none; count = 0 }

-- A call, with what `malloc` answers: whether there is room for the chains, and for a node.
pub data Op : Type 0 where
  found : ℕ → Op
  assigned : ℕ → Bool → Option ℕ → Op
  removed : ℕ → Op

abbrev pub pointer_of_entry : {K : Type 0} → Option (Entry K) → ℕ
pointer_of_entry none = 0
pointer_of_entry (some e) = e.pointer

module _ {K : Type 0} (memory : ℕ → K) where
  -- What the table answers; `none` is a fault.
  unfoldable pub call : Op → Table K → Option (ℕ × Table K)
  call (found p) t = find memory t p >>= (λ r. some (r, t))
  call (assigned p room fresh) t = assign memory room fresh t p
  call (removed p) t = remove memory t p >>= (λ r. some (r.0, r.2))

  unfoldable pub calls : List Op → Table K → Option (List ℕ × Table K)
  calls [] t = some ([], t)
  calls (o ∷ os) t = call o t >>= (λ r. calls os r.1 >>= (λ rest. some (r.0 ∷ rest.0, rest.1)))

  -- The map compares keys with `same`, and hands out the items by the pointers that it was given, or
  -- else by the addresses of its copies, 16 bytes into a node.
  module _ (same : K → K → Bool) (by_pointer : Bool) where
    abbrev pub write : ℕ → Option (Entry K) → (K → Option (Entry K)) → K → Option (Entry K)
    write p e entries q = if same q (memory p) then e else entries q

    abbrev pub entry_at : ℕ → ℕ → Entry K
    entry_at p own = record { pointer = (if by_pointer then p else own); item = memory p }

    -- An assignment when the chains are there and the key has this entry.
    abbrev pub assign_over : ℕ → Option ℕ → Option (Entry K) → Ideal K → ℕ × Ideal K
    assign_over p fresh (some e) m = (
      e.pointer,
      record m { used = true; entries = write p (some (entry_at p e.pointer)) m.entries },
    )
    assign_over p none none m = (0, record m { used = true })
    assign_over p (some a) none m = (
      (entry_at p (a + 16)).pointer,
      record m {
        used = true;
        entries = write p (some (entry_at p (a + 16))) m.entries;
        count = m.count + 1;
      },
    )

    abbrev pub remove_over : ℕ → Option (Entry K) → Ideal K → ℕ × Ideal K
    remove_over p none m = (0, m)
    remove_over p (some e) m =
        (1, record m { entries = write p none m.entries; count = m.count - 1 })

    -- What the map answers.
    unfoldable pub answer : Op → Ideal K → ℕ × Ideal K
    answer (found p) m = (pointer_of_entry (m.entries (memory p)), m)
    answer (assigned p room fresh) m =
        if m.used || room then assign_over p fresh (m.entries (memory p)) m else (0, m)
    answer (removed p) m = remove_over p (m.entries (memory p)) m

    unfoldable pub answers : List Op → Ideal K → List ℕ × Ideal K
    answers [] m = ([], m)
    answers (o ∷ os) m = let r = answer o m in let rest = answers os r.1 in (r.0 ∷ rest.0, rest.1)
