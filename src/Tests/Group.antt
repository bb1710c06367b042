-- ===== src/Tests/Group.antt =====
-- An instance at 8, whose list has the groups at 32, 64 and 96, and a peer at 512.
use onyxnet.Prelude.{
  ℕ, zero, suc, ◌<◌, ◌≡◌, refl, none, some, [], ◌∷◌, arith, replicate, length-replicate, ◌==◌,
  if◌then◌else◌,
}
use onyxnet.Memory.{Malloc, IsMalloc}
use onyxnet.Api.{invalid_argument}
use onyxnet.Vector as Vec
use onyxnet.Vector.{Vector}
use onyxnet.Group.{Group, group_create}
use onyxnet.Group.Members.{Peer, Roster, index_of, peer_add, peer_remove}
use onyxnet.Group.Members.Join.{HasRoom, Outcome, peer_add_lem}
use onyxnet.Group.Chain.{group_destroy}
use onyxnet.Group.Leave.{slots_lem}
use onyxnet.Group.Destroy.{group_destroy-create}
use onyxnet.Memory.Heap.{put}

abbrev no_items : Vector
no_items = record { items = none; item_count = 0; item_size = 8; phys_size = 0 }

abbrev group_before : ℕ → Group
group_before next = record { instance_at = 8; params = 24; next_group = next; peers = no_items }

abbrev player : Peer
player = record {
  address = [];
  last_receive = 0;
  last_send = 0;
  remote_app_version = 0;
  instance_at = 8;
  out_queue = no_items;
  groups = no_items;
}

abbrev roster : Roster
roster = record {
  owner_params = 16;
  first_group = 32;
  groups = λ p.
      if p == 32
      then some (group_before 64)
      else if p == 64
      then some (group_before 96)
      else if p == 96
      then some (group_before 0)
      else none;
  peers = λ p. if p == 512 then some player else none;
  payloads = record { heap = λ p. none; reports = [] };
  calls = [];
}

group_destroy-create_example :
    (group : Group) × (s' : Roster) × (group_create (some 128) 8 16 32 24
      ≡ some (record { group = some (128, group); freed = []; reports = [] }))
    × (group_destroy 4 128 (record roster { groups = put roster.groups 128 (some group) })
        ≡ some s')
    × ((q : ℕ) → s'.groups q ≡ roster.groups q)
    × (s'.first_group ≡ 32)
    × (s'.payloads.reports
        ≡ record {
          to = 16;
          code = invalid_argument;
          text = "udp_group_destroy(): errors during group destruction";
        }
          ∷ [])
group_destroy-create_example =
    group_destroy-create 4 128 24 8 (32 ∷ 64 ∷ 96 ∷ []) roster refl
      (
        refl,
        omega arith,
        (
          group_before 64,
          refl,
          (
            refl,
            omega arith,
            (group_before 96, refl, (refl, omega arith, (group_before 0, refl, refl))),
          ),
        ),
      )
      (omega arith)

no_items-HasRoom : HasRoom no_items
no_items-HasRoom = record {
  valid = record {
    size_pos = omega arith;
    size_small = omega arith;
    within = omega arith;
    bounded = omega arith;
    reserve = omega arith;
    storage = refl;
  };
  pointers = refl;
  room = omega arith;
}

abbrev gives : Malloc
gives n = some (record { address = 4096; bytes = replicate n 0 })

gives-IsMalloc : IsMalloc gives
gives-IsMalloc n b e = ground (arith, length-replicate {A = ℕ} n 0)

abbrev gives_none : Malloc
gives_none n = none

gives_none-IsMalloc : IsMalloc gives_none
gives_none-IsMalloc n b e = cc

-- There is memory for the peer's vector and none for the group's.
peer_add_lem_example :
    Outcome gives gives_none 64 512 roster
      (group_before 96)
      player
      gives-IsMalloc
      gives_none-IsMalloc
      refl
      refl
      no_items-HasRoom
      no_items-HasRoom
      (peer_add gives gives_none 64 512 roster)
unfolding index_of
peer_add_lem_example =
    peer_add_lem gives gives_none 64 512 roster (group_before 96) player gives-IsMalloc
      gives_none-IsMalloc refl refl no_items-HasRoom no_items-HasRoom refl

-- The group at 64 with the peer at 512.
abbrev joined : Group
joined = record (group_before 96) {
  peers = record {
    items = some (record { address = 4096; bytes = 0 ∷ 2 ∷ replicate 6 0 });
    item_count = 1;
    item_size = 8;
    phys_size = 1;
  };
}

abbrev with_player : Roster
with_player = record roster { groups = put roster.groups 64 (some joined) }

no_peer : (i : ℕ) → i < 1 → with_player.peers (Vec.get joined.peers i) ≡ none
unfolding Vec.get
no_peer zero h = refl
no_peer (suc i) h = absurd (omega arith)

slots_lem_example :
    ((p : ℕ) (peer : Peer)
      → with_player.peers p ≡ some peer
      → peer_remove 64 p with_player ≡ some (invalid_argument, with_player))
    × ((fuel : ℕ) → 0 < 1 → group_destroy fuel 64 with_player ≡ none)
slots_lem_example = slots_lem 64 with_player joined refl no_peer
