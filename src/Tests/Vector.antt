-- ===== src/Tests/Vector.antt =====
-- A vector of four slots of two bytes, and its theorems.
use onyxnet.Prelude.{
  ◌+◌, get_elem?, length, List, All, ℕ, ◌-◌, ◌*◌, ◌≤◌, ◌<◌, ◌≡◌, refl, ◌⊎◌, some, none, [], ◌∷◌,
  arith, replicate, length-replicate, take, min,
}
use onyxnet.Memory.{Malloc, IsMalloc, read, write, read_bytes, write_bytes}
use onyxnet.Vector.{
  Vector, init, deinit, insert, insert_grown, insert_in_place, append, get, remove,
}
use onyxnet.Vector.Valid.{IsValid, contents}
use onyxnet.Vector.Parts.{IsAccepted, IsInserted}
use onyxnet.Vector.Insert.{IsOutOfMemory, insert_lem}
use onyxnet.Vector.Remove.{IsRemoved, remove_lem}
use onyxnet.Vector.RoundTrip.{remove-insert}
use onyxnet.Vector.Items.{
  Op, inserted, appended, removed, Sequence, perform_all, reply_all, reply, Sequence,
}
use onyxnet.Vector.Items.Stands.{Stands, Keeps}
use onyxnet.Vector.Items.Refine.{perform_all-reply_all}
use onyxnet.Vector.Items.Slot.{get_lem}
use onyxnet.Vector.Reject.{insert-deinit}

abbrev zeroed : Malloc
zeroed n = some (record { address = 8192; bytes = replicate n 0 })

zeroed-IsMalloc : IsMalloc zeroed
zeroed-IsMalloc n b e = ground (arith, length-replicate {A = ℕ} n 0)

abbrev two : Vector
two = record {
  items = some (record { address = 4096; bytes = 1 ∷ 2 ∷ 3 ∷ 4 ∷ 0 ∷ 0 ∷ 0 ∷ 0 ∷ [] });
  item_count = 2;
  item_size = 2;
  phys_size = 4;
}

two-IsValid : IsValid two
two-IsValid = omega arith

program : Unit {0}
unfolding init deinit insert insert_grown insert_in_place append get remove read write read_bytes
    write_bytes contents
program = tt

-- The first item of a new vector takes a block of 17 slots.
first_append :
    append zeroed (init 2).0 (7 ∷ 8 ∷ [])
    ≡ some (
      1,
      record {
        items = some (record { address = 8192; bytes = 7 ∷ 8 ∷ replicate 32 0 });
        item_count = 1;
        item_size = 2;
        phys_size = 17;
      },
    )
unfolding program
first_append = refl

accepted : IsAccepted two 1 2 (5 ∷ 6 ∷ 7 ∷ 8 ∷ [])
accepted = omega arith

insert_lem_example :
    IsOutOfMemory zeroed two 2 (insert zeroed two 1 (5 ∷ 6 ∷ 7 ∷ 8 ∷ []) 2)
    ⊎ ((r : Vector) × (insert zeroed two 1 (5 ∷ 6 ∷ 7 ∷ 8 ∷ []) 2 ≡ some (2, r))
        × IsInserted two 1 2 (take (2 * 2) (5 ∷ 6 ∷ 7 ∷ 8 ∷ [])) r)
insert_lem_example =
    insert_lem zeroed zeroed-IsMalloc two 1 (5 ∷ 6 ∷ 7 ∷ 8 ∷ []) 2 two-IsValid accepted

remove_lem_example :
    ((1 ≤ 2)
      × (r : Vector) × (remove two 1 5 ≡ some (min 5 (2 - 1), r))
      × IsRemoved two 1 (min 5 (2 - 1)) r)
    ⊎ ((2 < 1) × (remove two 1 5 ≡ some (0, two)))
remove_lem_example = remove_lem two 1 5 two-IsValid

abbrev larger : Vector
larger = record {
  items = some (record { address = 4096; bytes = 1 ∷ 2 ∷ 5 ∷ 6 ∷ 7 ∷ 8 ∷ 3 ∷ 4 ∷ [] });
  item_count = 4;
  item_size = 2;
  phys_size = 4;
}

inserts : insert zeroed two 1 (5 ∷ 6 ∷ 7 ∷ 8 ∷ []) 2 ≡ some (2, larger)
unfolding program
inserts = refl

remove-insert_example :
    (r' : Vector) × (remove larger 1 2 ≡ some (2, r')) × IsValid r' × (contents r' ≡ contents two)
remove-insert_example =
    remove-insert zeroed two 1 (5 ∷ 6 ∷ 7 ∷ 8 ∷ []) 2 larger zeroed-IsMalloc two-IsValid accepted
      inserts

insert-deinit_example : insert zeroed (deinit two) 0 (5 ∷ 6 ∷ []) 1 ≡ none
insert-deinit_example =
    insert-deinit zeroed two (5 ∷ 6 ∷ []) 1 (omega arith) (omega arith) (omega arith)

abbrev no_memory : Malloc
no_memory n = none

-- An append without memory, one with it, an insertion of two items before it, a removal of the last
-- two, and an insertion past the end.
abbrev some_calls : List Op
some_calls =
    appended no_memory (7 ∷ 8 ∷ [])
    ∷ appended zeroed (7 ∷ 8 ∷ [])
    ∷ inserted no_memory 0 ((1 ∷ 2 ∷ []) ∷ (3 ∷ 4 ∷ []) ∷ [])
    ∷ removed 1 5
    ∷ inserted zeroed 2 ((1 ∷ 2 ∷ []) ∷ [])
    ∷ []

some_calls-Keeps : All (Keeps 2) some_calls
some_calls-Keeps =
    let nothing : IsMalloc no_memory = λ n b e. ground arith in
    (
      (nothing, refl),
      (
        (zeroed-IsMalloc, refl),
        ((nothing, (refl, (refl, tt))), (tt, ((zeroed-IsMalloc, (refl, tt)), tt))),
      ),
    )

perform_all-reply_all_example :
    (v : Vector) × (perform_all some_calls (init 2).0
      ≡ some ((reply_all 2 some_calls (record { items = []; capacity = 0 })).0, v))
    × Stands 2 v (reply_all 2 some_calls (record { items = []; capacity = 0 })).1
perform_all-reply_all_example =
    perform_all-reply_all 2 some_calls (omega arith) (omega arith) some_calls-Keeps

replies :
    reply_all 2 some_calls (record { items = []; capacity = 0 })
    ≡ (0 ∷ 1 ∷ 2 ∷ 2 ∷ 0 ∷ [], record { items = (1 ∷ 2 ∷ []) ∷ []; capacity = 17 })
unfolding reply_all reply
replies = refl

abbrev a_pair : Sequence
a_pair = record { items = (1 ∷ 2 ∷ []) ∷ (3 ∷ 4 ∷ []) ∷ []; capacity = 4 }

two-Stands : Stands 2 two a_pair
unfolding contents
two-Stands = record {
  valid = two-IsValid;
  sized = refl;
  count = refl;
  capacity = refl;
  wide = (refl, (refl, tt));
  holds = refl;
}

get_lem_example :
    ((1 < length a_pair.items)
      × (get two 1 ≡ 4096 + 1 * 2)
      × (x : List ℕ) × (get_elem? a_pair.items 1 ≡ some x)
      × (read two.items (1 * 2) 2 ≡ some x))
    ⊎ ((1 ≡ length a_pair.items) × (get two 1 ≡ 4096 + 1 * 2))
    ⊎ ((length a_pair.items < 1) × (get two 1 ≡ 0))
get_lem_example = get_lem 2 two a_pair 1 two-Stands (omega arith)
