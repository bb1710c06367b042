-- ===== src/Group/Destroy.antt =====
-- `udp_group_destroy` for a group without peers.
use onyxnet.Prelude.{ℕ, ◌<◌, ◌≡◌, refl, none, some, List, [], ◌∷◌, ◌++◌, length}
use onyxnet.Memory.Heap.{put, put_self, put_back}
use onyxnet.Api.{invalid_argument}
use onyxnet.Vector.{init}
use onyxnet.Payload.{report}
use onyxnet.Group.{Group, group_create}
use onyxnet.Group.Members.{Roster, remove_peers}
use onyxnet.Group.Chain.{group_destroy}
use onyxnet.Group.Unlink.{IsChain, IsChain-put, unlink-missing, chain-apart}

-- A group that is created with memory and destroyed at once, whatever groups the instance lists, with
-- one more round than these: the creation succeeds, and the destruction does not find the group in the
-- list, frees it, and reports UDPERR_INVALID_ARGUMENT; the groups are then as before.
pub group_destroy-create :
    (fuel p params owner : ℕ) (ps : List ℕ) (s : Roster)
    → s.groups p ≡ none
    → IsChain s.groups s.first_group ps
    → length ps < fuel
    → (group : Group) × (s' : Roster) × (group_create
          (some p)
          owner
          s.owner_params
          s.first_group
          params
        ≡ some (record { group = some (p, group); freed = []; reports = [] }))
      × (group_destroy fuel p (record s { groups = put s.groups p (some group) }) ≡ some s')
      × ((q : ℕ) → s'.groups q ≡ s.groups q)
      × (s'.first_group ≡ s.first_group)
      × (s'.payloads.reports
          ≡ s.payloads.reports
            ++ record {
              to = s.owner_params;
              code = invalid_argument;
              text = "udp_group_destroy(): errors during group destruction";
            }
              ∷ [])
unfolding group_destroy remove_peers group_create init
group_destroy-create fuel p params owner ps s unused chain enough =
    let group : Group = record {
      instance_at = owner;
      params = params;
      next_group = s.first_group;
      peers = (init 8).0;
    } in
    let s1 : Roster = record s { groups = put s.groups p (some group) } in
    let apart = chain-apart s.groups s.first_group p ps unused chain in
    let missing =
      unlink-missing fuel none p s.first_group ps s1 refl
        (IsChain-put s.groups s.first_group ps p (some group) apart chain) apart enough in
    (
      group,
      record s1 {
        groups = put s1.groups p none;
        payloads =
            report s.owner_params invalid_argument
              "udp_group_destroy(): errors during group destruction" s.payloads;
      },
      refl,
      rw (put_self s.groups p (some group)) (rw missing refl),
      λ q. put_back s.groups p (some group) none q unused,
      refl,
      refl,
    )
