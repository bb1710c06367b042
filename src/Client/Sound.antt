-- ===== src/Client/Sound.antt =====
-- What holds of a client between two calls: its table and its connections agree.
use onyxnet.Prelude.{
  ℕ, ◌≡◌, ◌≢◌, refl, sym, ap, ap₂, ◌∙◌, true, false, ◌&&◌, Option, none, some, List, [], ◌∷◌, All,
  get_or, ◌==◌, ==_iff, ==_refl, Bool-cases, Option-cases, inl, inr, arith,
}
use onyxnet.Hash.{hash_pod}
use onyxnet.HashTable.{Table}
use onyxnet.HashTable.Chain.{Node, pointed, key_of, pointer_of}
use onyxnet.HashTable.Chain.Laws.{IsKeyed}
use onyxnet.HashTable.Valid.{IsValid, lookup, pointer_or_null, chains_of}
use onyxnet.HashTable.Frame.{All-lookup, Unmoved}
use onyxnet.Client.{Connection, Net, same_bytes, connection_funcs}

pub same_bytes→eq : (a b : List ℕ) → same_bytes a b ≡ true → a ≡ b
same_bytes→eq [] [] e = refl
same_bytes→eq [] (y ∷ b) e = cc
same_bytes→eq (x ∷ a) [] e = cc
same_bytes→eq (x ∷ a) (y ∷ b) e = elim (Bool-cases (x == y)) [
  | inl same ↦
      ap₂ (λ z c. z ∷ c) ((==_iff x y).0 same)
        (same_bytes→eq a b (sym (ap (λ t. t && same_bytes a b) same) ∙ e))
  | inr other ↦ ground (arith, e, other)
]

pub same_bytes_refl : (a : List ℕ) → same_bytes a a ≡ true
same_bytes_refl [] = refl
same_bytes_refl (x ∷ a) = rw (==_refl x, same_bytes_refl a) refl

same_bytes_symm : (a b : List ℕ) → same_bytes a b ≡ same_bytes b a
same_bytes_symm [] [] = refl
same_bytes_symm [] (y ∷ b) = refl
same_bytes_symm (x ∷ a) [] = refl
same_bytes_symm (x ∷ a) (y ∷ b) = ground (arith, same_bytes_symm a b)

-- The two functions of the client keep what the table asks of them.
pub connection_funcs-IsKeyed : IsKeyed (λ (k : List ℕ). hash_pod k) (λ a b. same_bytes a b)
connection_funcs-IsKeyed = record {
  same_refl = same_bytes_refl;
  same_symm = same_bytes_symm;
  same_trans = λ a b c e e'. ap (same_bytes a) (sym (same_bytes→eq b c e')) ∙ e;
  hash-same = λ a b e. ap hash_pod (same_bytes→eq a b e);
}

-- The node for an address, and the connection that `hash_table_find` gives for it, or 0.
abbrev pub node_for : Net → List ℕ → Option (Node (List ℕ))
node_for net q = lookup net.bytes_at connection_funcs net.connections q

abbrev pub connection_at : Net → List ℕ → ℕ
connection_at net q = pointer_or_null net.bytes_at connection_funcs (node_for net q)

-- A node points at a connection that is there.
pub record IsOf (conns : ℕ → Option Connection) (n : Node (List ℕ)) : Type 0 where
  pub pointer : ℕ
  pub connection : Connection
  pub points : n.stored ≡ pointed pointer
  pub real : pointer ≢ 0
  pub there : conns pointer ≡ some connection

-- The table is valid and holds pointers; its nodes point at connections, every connection is found
-- under its address, and none has anything in its queue.
pub record IsSound (net : Net) : Type 0 where
  pub valid : IsValid net.bytes_at connection_funcs net.connections
  pub by_pointer : net.connections.flags ≡ 1
  pub stored : (q : List ℕ) (n : Node (List ℕ)) → node_for net q ≡ some n → IsOf net.conns n
  pub known :
      (c : ℕ) (k : Connection) → net.conns c ≡ some k → connection_at net (net.bytes_at c) ≡ c
  pub null_free : net.conns 0 ≡ none
  pub quiet : (c : ℕ) (k : Connection) → net.conns c ≡ some k → k.outgoing.item_count ≡ 0

-- The nodes read the same keys when the bytes at a pointer change that is no connection.
pub nodes-Unmoved :
    (old new : ℕ → List ℕ) (conns : ℕ → Option Connection) (t : Table (List ℕ))
    → IsValid old connection_funcs t
    → ((q : List ℕ) (n : Node (List ℕ)) → lookup old connection_funcs t q ≡ some n → IsOf conns n)
    → ((d : ℕ) (k : Connection) → conns d ≡ some k → new d ≡ old d)
    → (i : ℕ) → All (Unmoved old new) (get_or (chains_of t.top) i [])
nodes-Unmoved old new conns t valid stored same =
    All-lookup old connection_funcs t (Unmoved old new) valid (λ q n e.
      let of = stored q n e in
      ap (key_of new) of.points
      ∙ same of.pointer of.connection of.there
      ∙ sym (ap (key_of old) of.points))

-- What the table gives for an address is a connection, or nothing.
pub pointer-IsOf :
    (conns : ℕ → Option Connection) (m : ℕ → List ℕ) (n : Node (List ℕ)) (of : IsOf conns n)
    → pointer_of n.address n.stored ≡ of.pointer
pointer-IsOf conns m n of = ap (pointer_of n.address) of.points

pub node_for-none :
    (net : Net) (q : List ℕ) → IsSound net → connection_at net q ≡ 0 → node_for net q ≡ none
node_for-none net q sound e = elim (Option-cases (node_for net q)) [
  | inl absent ↦ absent
  | inr (n, here) ↦
      let of = sound.stored q n here in
      absurd (
        of.real (
          sym (ap (pointer_of n.address) of.points)
          ∙ sym (ap (pointer_or_null net.bytes_at connection_funcs) here)
          ∙ e))
]

pub is_zero-ne : {n : ℕ} → n ≢ 0 → (n == 0) ≡ false
is_zero-ne {n} ne = elim (Bool-cases (n == 0)) [
  | inl e ↦ absurd (ne ((==_iff n 0).0 e))
  | inr e ↦ e
]
