-- ===== src/Group/Chain.antt =====
-- lib/onyxudp/udpbase.cpp: the list of the groups of an instance, and `udp_group_destroy`.
use onyxnet.Prelude.{ℕ, zero, suc, ◌==◌, ltb, Bool, true, false, Option, none, some, if◌then◌else◌}
use onyxnet.Memory.Heap.{put}
use onyxnet.Memory.{◌>>=◌}
use onyxnet.Api.{invalid_argument}
use onyxnet.Payload.{report}
use onyxnet.Group.Members.{Roster, remove_peers}

-- `*gp`, for `gp` the instance's pointer to its first group or the pointer in the group at an address.
unfoldable pub link : Option ℕ → Roster → Option ℕ
link none s = some s.first_group
link (some p) s = s.groups p >>= (λ group. some group.next_group)

-- `*gp = to`
unfoldable pub set_link : Option ℕ → ℕ → Roster → Option Roster
set_link none to s = some (record s { first_group = to })
set_link (some p) to s = s.groups p >>= (λ group.
    some (record s { groups = put s.groups p (some (record group { next_group = to })) }))

-- The loop of `udp_group_destroy` that takes the group at `g` out of the list, from the pointer `gp` on
-- and for at most `fuel` rounds; the result says whether it was found.
unfoldable pub unlink_group : ℕ → Option ℕ → ℕ → Roster → Option (Bool × Roster)
unfolding link set_link
unlink_group zero gp g s = none
unlink_group (suc fuel) gp g s = link gp s >>= (λ cur.
    if cur == 0
    then some (false, s)
    else if cur == g
    then s.groups g >>= (λ group. set_link gp group.next_group s >>= (λ s'. some (true, s')))
    else unlink_group fuel (some cur) g s)

-- `udp_group_destroy`; the groups all belong to the one instance, to whose owner errors are reported.
unfoldable pub group_destroy : ℕ → ℕ → Roster → Option Roster
unfolding unlink_group remove_peers
group_destroy fuel g s = do
  group ← s.groups g
  r ← remove_peers group.peers.item_count g 0 s
  u ← unlink_group fuel none g r.1
  let errors = if u.0 then r.0 else suc r.0
  let freed = record u.1 { groups = put u.1.groups g none }
  some (
      if ltb 0 errors
      then record freed {
        payloads =
            report s.owner_params invalid_argument
              "udp_group_destroy(): errors during group destruction" freed.payloads;
      }
      else freed)
