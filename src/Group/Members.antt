-- ===== src/Group/Members.antt =====
-- lib/onyxudp/udpbase.cpp: the peers of a group, and the end of a group. A peer and a group list each
-- other in vectors of pointers. `vector_item_get` gives the address of a slot, which the code takes for
-- the pointer that stands in it. `none` is a fault or a failed assertion.
pub mod Join
use onyxnet.Prelude.{
  ℕ, zero, suc, ◌+◌, ◌/◌, ◌%◌, ◌^◌, ◌==◌, ltb, Bool, true, false, not, Option, none, some, List, [],
  ◌∷◌, ◌++◌, if◌then◌else◌,
}
use onyxnet.Memory.{◌>>=◌, Malloc, sub_size}
use onyxnet.Memory.Heap.{put}
use onyxnet.Api.{
  UdpErr, udp_ok, invalid_argument, out_of_memory, PeerReason, last_group_destroyed,
  removed_from_group,
}
use onyxnet.Vector as Vec
use onyxnet.Vector.{Vector}
use onyxnet.Payload.{World, report, payload_release}
use onyxnet.Group.{Group}

-- `udp_peer_t`
pub record Peer : Type 0 where
  pub address : List ℕ
  pub last_receive : ℕ
  pub last_send : ℕ
  pub remote_app_version : ℕ
  pub instance_at : ℕ
  pub out_queue : Vector
  pub groups : Vector

-- What the application is told: the parameters called, the peer, and why.
pub data PeerCall : Type 0 where
  on_peer_removed on_peer_expired : ℕ → ℕ → PeerReason → PeerCall

-- An instance with its groups and peers: its parameters, the first group of its list, and the groups,
-- peers and payloads in memory by their addresses.
pub record Roster : Type 0 where
  pub owner_params : ℕ
  pub first_group : ℕ
  pub groups : ℕ → Option Group
  pub peers : ℕ → Option Peer
  pub payloads : World
  pub calls : List PeerCall

-- A pointer in memory, which has eight bytes.
abbrev bytes_of_size : ℕ → ℕ → List ℕ
bytes_of_size zero n = []
bytes_of_size (suc k) n = (n % 2 ^ 8) ∷ bytes_of_size k (n / 2 ^ 8)

abbrev pub pointer_bytes : ℕ → List ℕ
pointer_bytes p = bytes_of_size 8 p

-- The loops that compare `vector_item_get` with a pointer, over the `n` items from `i` on: the first
-- index that fits.
unfoldable pub index_of : ℕ → ℕ → Vector → ℕ → Option ℕ
index_of zero i v p = none
index_of (suc n) i v p = if Vec.get v i == p then some i else index_of n (suc i) v p

-- The loop of `udp_peer_destroy` over the `n` slots from `i` on.
unfoldable pub release_queue : ℕ → ℕ → Vector → World → Option World
release_queue zero i v w = some w
release_queue (suc n) i v w = payload_release (Vec.get v i) w >>= release_queue n (suc i) v

-- `udp_peer_destroy`
unfoldable pub destroy_peer : ℕ → Roster → Option Roster
unfolding release_queue
destroy_peer p s = do
  peer ← s.peers p
  w ←
      if peer.groups.item_count == 0
      then release_queue peer.out_queue.item_count 0 peer.out_queue s.payloads
      else none
  some (record s {
    peers = put s.peers p none;
    payloads = w;
    calls = s.calls ++ on_peer_expired s.owner_params p last_group_destroyed ∷ [];
  })

-- `udp_group_peer_remove_ix` once the group is found at the index `found` of those of the peer at `p`.
unfoldable pub leave_group : ℕ → Peer → Option ℕ → Roster → Option (UdpErr × Roster)
unfolding destroy_peer
leave_group p peer none s = some (invalid_argument, s)
leave_group p peer (some i) s = do
  r ← Vec.remove peer.groups i 1
  let s' = record s { peers = put s.peers p (some (record peer { groups = r.1 })) }
  left ← if r.1.item_count == 0 then destroy_peer p s' else some s'
  some (udp_ok, left)

-- `udp_group_peer_remove_ix` for the group at `g`
unfoldable pub remove_index : ℕ → ℕ → Roster → Option (UdpErr × Roster)
unfolding leave_group index_of
remove_index g ix s = do
  group ← s.groups g
  r ← if ltb ix group.peers.item_count then Vec.remove group.peers ix 1 else none
  let p = Vec.get group.peers ix
  let s' = record s {
    groups = put s.groups g (some (record group { peers = r.1 }));
    calls = s.calls ++ on_peer_removed group.params p removed_from_group ∷ [];
  }
  peer ← s'.peers p
  leave_group p peer (index_of peer.groups.item_count 0 peer.groups g) s'

-- `udp_group_peer_remove` once the peer has been looked for in the group.
unfoldable pub remove_found : ℕ → Option ℕ → Roster → Option (UdpErr × Roster)
unfolding remove_index
remove_found g none s = some (invalid_argument, s)
remove_found g (some i) s = remove_index g i s >>= (λ r. some (udp_ok, r.1))

-- `udp_group_peer_remove`
unfoldable pub peer_remove : ℕ → ℕ → Roster → Option (UdpErr × Roster)
unfolding remove_found
peer_remove g p s =
    s.groups g >>= (λ group. remove_found g (index_of group.peers.item_count 0 group.peers p) s)

-- `udp_group_peer_add` once the peer lists the group, as its last of `n`.
unfoldable pub list_peer : Malloc → ℕ → ℕ → Peer → ℕ → Roster → Option (UdpErr × Roster)
list_peer malloc g p peer n s = do
  group ← s.groups g
  r ← Vec.append malloc group.peers (pointer_bytes p)
  if r.0 == 0
      then Vec.remove peer.groups (sub_size n 1) 1 >>= (λ q. some (
        out_of_memory,
        record s {
          groups = put s.groups g (some (record group { peers = r.1 }));
          peers = put s.peers p (some (record peer { groups = q.1 }));
        },
      ))
      else some (udp_ok, record s { groups = put s.groups g (some (record group { peers = r.1 })) })

-- `udp_group_peer_add` once the group has been looked for among those of the peer; `malloc` and
-- `malloc'` are what `malloc` answers to the one append and the other.
unfoldable pub join_group :
    Malloc → Malloc → ℕ → ℕ → Peer → Option ℕ → Roster → Option (UdpErr × Roster)
unfolding list_peer
join_group malloc malloc' g p peer (some i) s = some (invalid_argument, s)
join_group malloc malloc' g p peer none s = do
  r ← Vec.append malloc peer.groups (pointer_bytes g)
  let peer' = record peer { groups = r.1 }
  let s' = record s { peers = put s.peers p (some peer') }
  if r.0 == 0 then some (udp_ok, s') else list_peer malloc' g p peer' r.0 s'

-- `udp_group_peer_add`
unfoldable pub peer_add : Malloc → Malloc → ℕ → ℕ → Roster → Option (UdpErr × Roster)
unfolding join_group
peer_add malloc malloc' g p s = do
  peer ← s.peers p
  join_group malloc malloc' g p peer (index_of peer.groups.item_count 0 peer.groups g) s

-- The loop of `udp_group_destroy` over the `n` first peers, from the last on: its errors are counted.
unfoldable pub remove_peers : ℕ → ℕ → ℕ → Roster → Option (ℕ × Roster)
unfolding remove_index
remove_peers zero g errors s = some (errors, s)
remove_peers (suc i) g errors s =
    remove_index g i s
    >>= (λ r. remove_peers i g (elim r.0 as (λ _. ℕ) [ udp_ok ↦ errors | _ ↦ suc errors ]) r.1)
