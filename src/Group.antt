-- ===== src/Group.antt =====
-- lib/onyxudp/udpbase.cpp: the creation of a group. A pointer is a number.
pub mod Members
pub mod Chain
pub mod Leave
pub mod Unlink
pub mod Destroy
use onyxnet.Prelude.{ℕ, ◌≡◌, refl, not, Option, none, some, List, [], ◌∷◌, if◌then◌else◌, arith}
use onyxnet.Api.{Report, out_of_memory}
use onyxnet.Vector.{Vector, init}
use onyxnet.Vector.Valid.{IsValid, contents}

-- `udp_group_t`
pub record Group : Type 0 where
  pub instance_at : ℕ
  pub params : ℕ
  pub next_group : ℕ
  pub peers : Vector

pub record Creation : Type 0 where
  pub group : Option (ℕ × Group)
  pub freed : List ℕ
  pub reports : List Report

-- `udp_group_create` for the instance at `owner`, whose parameters are at `owner_params` and whose
-- list of groups starts at `groups`. The first argument is what `malloc` returned, which is not
-- tested; `none` is a fault. The instance is not changed.
unfoldable pub group_create : Option ℕ → ℕ → ℕ → ℕ → ℕ → Option Creation
group_create none owner owner_params groups params = none
group_create (some p) owner owner_params groups params =
    if not (init 8).1
    then some (record {
      group = none;
      freed = p ∷ [];
      reports =
          record {
            to = owner_params;
            code = out_of_memory;
            text = "udp_group_create(): vector_init() failed";
          }
          ∷ [];
    })
    else some (record {
      group = some (
        p,
        record { instance_at = owner; params = params; next_group = groups; peers = (init 8).0 },
      );
      freed = [];
      reports = [];
    })

-- With memory, the creation of a group succeeds and reports nothing, and the new group stands before
-- the others and has a valid vector with no peers; without memory it faults.
pub group_create_lem :
    (p owner owner_params groups params : ℕ)
    → ((g : Group) × (group_create (some p) owner owner_params groups params
          ≡ some (record { group = some (p, g); freed = []; reports = [] }))
        × (g.next_group ≡ groups)
        × IsValid g.peers
        × (contents g.peers ≡ []))
      × (group_create none owner owner_params groups params ≡ none)
unfolding group_create init contents
group_create_lem p owner owner_params groups params = (
  (
    record { instance_at = owner; params = params; next_group = groups; peers = (init 8).0 },
    refl,
    refl,
    record {
      size_pos = omega arith;
      size_small = omega arith;
      within = omega arith;
      bounded = omega arith;
      reserve = omega arith;
      storage = refl;
    },
    refl,
  ),
  refl,
)
