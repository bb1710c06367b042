-- ===== src/HashTable/Ideal/Represents.antt =====
-- When a table stands for a map, and what an assignment and a removal do to that.
use onyxnet.Prelude.{
  ℕ, ◌+◌, ◌≡◌, refl, sym, ap, ◌∙◌, subst, Bool, true, false, Option, none, some, List,
  if◌then◌else◌, ◌%◌, ◌==◌,
}
use onyxnet.HashTable.{Funcs, Table, has_pointers, stored_for}
use onyxnet.HashTable.Chain.{Node, Stored, copied, pointed, key_of, pointer_of}
use onyxnet.HashTable.Valid.{in_use, IsValid, lookup, pointer_or_null, hash_of, same_of}
use onyxnet.HashTable.Written.{IsAssigned, written}
use onyxnet.HashTable.Absent.{IsRemoved}
use onyxnet.HashTable.Full.{IsKept}
use onyxnet.HashTable.Ideal.{Entry, Ideal, pointer_of_entry, write, entry_at}

module _ {K : Type 0} (memory : ℕ → K) where
  -- What a node hands out.
  abbrev pub entry_of : Option (Node K) → Option (Entry K)
  entry_of none = none
  entry_of (some n) =
      some (record { pointer = pointer_of n.address n.stored; item = key_of memory n.stored })

  pub pointer-entry_of :
      (f : Funcs K) (o : Option (Node K))
      → pointer_or_null memory f o ≡ pointer_of_entry (entry_of o)
  pointer-entry_of f none = refl
  pointer-entry_of f (some n) = refl

  entry_of-if :
      (b : Bool) (x y : Option (Node K)) (e m : Option (Entry K))
      → entry_of x ≡ e
      → m ≡ entry_of y
      → (if b then e else m) ≡ entry_of (if b then x else y)
  entry_of-if true x y e m hx hy = sym hx
  entry_of-if false x y e m hx hy = hy

  -- A node holds a copy or a pointer, as the mode of the table has it.
  abbrev pub Fits : Bool → Stored K → Type 0
  Fits by_pointer (copied k) = by_pointer ≡ false
  Fits by_pointer (pointed p) = by_pointer ≡ true

  pub Fits-pointer :
      (by_pointer : Bool) (a : ℕ) (s : Stored K)
      → Fits by_pointer s
      → by_pointer ≡ false
      → pointer_of a s ≡ a + 16
  Fits-pointer by_pointer a (copied k) fits e = refl
  Fits-pointer by_pointer a (pointed p) fits e = cc

  -- What is stored for the item at `p` hands it out at `p`, or at `own` in the node.
  pub stored_for-entry :
      (by_pointer : Bool) (p a own : ℕ) (t : Table K)
      → has_pointers memory t ≡ by_pointer
      → (by_pointer ≡ false → own ≡ a + 16)
      → Fits by_pointer (stored_for memory t p)
        × (pointer_of a (stored_for memory t p) ≡ (if by_pointer then p else own))
        × (key_of memory (stored_for memory t p) ≡ memory p)
  stored_for-entry true p a own t e at = rw e (refl, refl, refl)
  stored_for-entry false p a own t e at = rw e (refl, sym (at refl), refl)

  abbrev FitsNode : Bool → Option (Node K) → Type 0
  FitsNode by_pointer none = Unit {0}
  FitsNode by_pointer (some n) = Fits by_pointer n.stored

  Fits-if :
      (by_pointer b : Bool) (x y : Option (Node K)) (n : Node K)
      → (if b then x else y) ≡ some n
      → FitsNode by_pointer x
      → (y ≡ some n → Fits by_pointer n.stored)
      → Fits by_pointer n.stored
  Fits-if by_pointer true x y n e hx hy = subst (FitsNode by_pointer) e hx
  Fits-if by_pointer false x y n e hx hy = hy e

  module _ (f : Funcs K) (size : ℕ) (by_pointer : Bool) where
    abbrev pub alike : K → K → Bool
    alike a b = f.same a b size

    -- The table stands for the map.
    pub record Represents (t : Table K) (m : Ideal K) : Type 0 where
      pub valid : IsValid memory f t
      pub sized : t.item_size ≡ size
      pub moded : has_pointers memory t ≡ by_pointer
      pub used : in_use t.top ≡ m.used
      pub holds : (q : K) → m.entries q ≡ entry_of (lookup memory f t q)
      pub fits : (q : K) (n : Node K) → lookup memory f t q ≡ some n → Fits by_pointer n.stored
      pub counts : t.item_count ≡ m.count

    -- The table after an assignment stands for the map with the entry written.
    pub assigned-Represents :
        (t t' : Table K) (m : Ideal K) (p a own result count : ℕ) (w : Node K)
        → Represents t m
        → IsAssigned memory f t t' p a result
        → written memory t p a (hash_of memory f t (memory p)) (lookup memory f t (memory p)) ≡ w
        → w.stored ≡ stored_for memory t p
        → (by_pointer ≡ false → own ≡ w.address + 16)
        → t'.item_count ≡ count
        → Represents t' (record m {
          used = true;
          entries =
              write memory alike by_pointer p
                (some (entry_at memory alike by_pointer p own))
                m.entries;
          count = count;
        })
    assigned-Represents t t' m p a own result count w r done is here at counted =
        let (fits, pointer, key) = stored_for-entry by_pointer p w.address own t r.moded at in
        let entry : entry_of (some w) ≡ some (entry_at memory alike by_pointer p own) = λ i.
          some (record {
            pointer = (ap (pointer_of w.address) here ∙ pointer) i;
            item = (ap (key_of memory) here ∙ key) i;
          }) in
        let looks = λ (q : K).
          done.holds q
          ∙ ap (λ n. if same_of memory f t q (memory p) then some n else lookup memory f t q) is
          ∙ ap (λ s. if f.same q (memory p) s then some w else lookup memory f t q) r.sized in
        record {
          valid = done.valid;
          sized = done.same_size ∙ r.sized;
          moded = ap (λ n. n % 2 == 1) done.same_flags ∙ r.moded;
          used = done.used;
          holds = λ q.
              entry_of-if (alike q (memory p)) (some w) (lookup memory f t q)
                (some (entry_at memory alike by_pointer p own)) (m.entries q) entry (r.holds q)
              ∙ sym (ap entry_of (looks q));
          fits = λ q n e.
              Fits-if by_pointer (alike q (memory p)) (some w) (lookup memory f t q) n
                (sym (looks q) ∙ e) (subst (Fits by_pointer) (sym here) fits) (r.fits q n);
          counts = counted;
        }

    pub removed-Represents :
        (t t' : Table K) (m : Ideal K) (p result count : ℕ) (freed : List ℕ)
        → Represents t m
        → IsRemoved memory f t t' p result freed
        → t'.item_count ≡ count
        → Represents t'
            (record m { entries = write memory alike by_pointer p none m.entries; count = count })
    removed-Represents t t' m p result count freed r done counted =
        let looks = λ (q : K).
          done.holds q
          ∙ ap (λ s. if f.same q (memory p) s then none else lookup memory f t q) r.sized in
        record {
          valid = done.valid;
          sized = done.same_size ∙ r.sized;
          moded = ap (λ n. n % 2 == 1) done.same_flags ∙ r.moded;
          used = done.same_use ∙ r.used;
          holds = λ q.
              entry_of-if (alike q (memory p)) none (lookup memory f t q) none (m.entries q) refl
                (r.holds q)
              ∙ sym (ap entry_of (looks q));
          fits = λ q n e.
              Fits-if by_pointer (alike q (memory p)) none (lookup memory f t q) n
                (sym (looks q) ∙ e) tt (r.fits q n);
          counts = counted;
        }

    pub kept-Represents :
        (t t' : Table K) (m : Ideal K)
        → Represents t m
        → IsKept memory f t t'
        → Represents t' (record m { used = true })
    kept-Represents t t' m r done = record {
      valid = done.valid;
      sized = done.same_size ∙ r.sized;
      moded = ap (λ n. n % 2 == 1) done.same_flags ∙ r.moded;
      used = done.used;
      holds = λ q. r.holds q ∙ sym (ap entry_of (done.holds q));
      fits = λ q n e. r.fits q n (sym (done.holds q) ∙ e);
      counts = done.same_count ∙ r.counts;
    }
