-- ===== src/Group/Members/Join.antt =====
-- `udp_group_peer_add` on every branch.
use onyxnet.Prelude.{
  ◌*◌, ℕ, ◌+◌, ◌<◌, ◌≡◌, ◌≢◌, ◌⊎◌, refl, sym, subst, false, ap, ◌∙◌, inl, inr, Option, none, some,
  List, [], ◌++◌, append-nil, take, ◌==◌, arith,
}
use onyxnet.Memory.Heap.{put, put_other, put_self}
use onyxnet.Memory.{◌>>=◌, Malloc, IsMalloc, sub_size}
use onyxnet.Api.{UdpErr, udp_ok, out_of_memory}
use onyxnet.Vector as Vec
use onyxnet.Vector.{Vector, vector_max_count, append}
use onyxnet.Vector.Valid.{IsValid, contents}
use onyxnet.Vector.Parts.{IsAccepted}
use onyxnet.Vector.Insert.{IsOutOfMemory, insert_lem, spliced_end, length-contents}
use onyxnet.Vector.RoundTrip.{remove-insert}
use onyxnet.Group.{Group}
use onyxnet.Group.Members.{Peer, Roster, pointer_bytes, index_of, list_peer, join_group, peer_add}

-- A valid vector of pointers that is not full.
pub record HasRoom (v : Vector) : Type 0 where
  pub valid : IsValid v
  pub pointers : v.item_size ≡ 8
  pub room : v.item_count < vector_max_count

-- The vector `r` is `v` with the bytes `new` at its end.
pub record IsExtended (v : Vector) (new : List ℕ) (r : Vector) : Type 0 where
  pub valid : IsValid r
  pub holds : contents r ≡ contents v ++ new

same-IsExtended : (v : Vector) → IsValid v → IsExtended v [] v
same-IsExtended v valid = record { valid = valid; holds = sym (append-nil (contents v)) }

-- Appending a pointer, and taking it off again.
append-IsExtended :
    (malloc : Malloc) (v : Vector) (p : ℕ)
    → IsMalloc malloc
    → HasRoom v
    → IsOutOfMemory malloc v 1 (append malloc v (pointer_bytes p))
      ⊎ ((r : Vector) × (r' : Vector) × (append malloc v (pointer_bytes p)
            ≡ some (v.item_count + 1, r))
          × IsExtended v (pointer_bytes p) r
          × (Vec.remove r v.item_count 1 ≡ some (1, r'))
          × IsExtended v [] r')
unfolding append
append-IsExtended malloc v p is_malloc h =
    elim (insert_lem malloc is_malloc v v.item_count (pointer_bytes p) 1 h.valid ok) [
      | inl (full, failed, e) ↦ inl (full, failed, rw e refl)
      | inr (r, e, done) ↦
          let (r', undone, valid, same) =
            remove-insert malloc v v.item_count (pointer_bytes p) 1 r is_malloc h.valid ok e in
          inr (
            r,
            r',
            rw e (ap (λ n. some (n, r)) done.counted),
            record {
              valid = done.valid;
              holds =
                  done.holds
                  ∙ spliced_end (contents v) (v.item_count * v.item_size)
                      (take (1 * v.item_size) (pointer_bytes p)) (length-contents v h.valid)
                  ∙ ap (λ n. contents v ++ take (1 * n) (pointer_bytes p)) h.pointers;
            },
            undone,
            record { valid = valid; holds = same ∙ sym (append-nil (contents v)) },
          )
    ]
  where
    ok : IsAccepted v v.item_count 1 (pointer_bytes p)
    ok = record {
      in_range = omega arith;
      some_items = omega arith;
      room = omega (arith, h.room);
      readable = omega (arith, h.pointers);
    }

-- The vectors of the peer at `p` and of the group at `g` have grown by these bytes, and nothing else
-- has changed.
pub record IsJoined (s s' : Roster) (g p : ℕ) (group : Group) (peer : Peer)
    (new_groups new_peers : List ℕ) : Type 0 where
  pub their_groups : Vector
  pub its_peers : Vector
  pub peer_is : s'.peers p ≡ some (record peer { groups = their_groups })
  pub group_is : s'.groups g ≡ some (record group { peers = its_peers })
  pub groups_extended : IsExtended peer.groups new_groups their_groups
  pub peers_extended : IsExtended group.peers new_peers its_peers
  pub other_peers : (q : ℕ) → q ≢ p → s'.peers q ≡ s.peers q
  pub other_groups : (q : ℕ) → q ≢ g → s'.groups q ≡ s.groups q
  pub payloads_same : s'.payloads ≡ s.payloads
  pub calls_same : s'.calls ≡ s.calls
  pub first_same : s'.first_group ≡ s.first_group

module _ (m m' : Malloc) (g p : ℕ) (s : Roster) (group : Group) (peer : Peer) (is_m : IsMalloc m)
    (is_m' : IsMalloc m') (there : s.peers p ≡ some peer) (here : s.groups g ≡ some group)
    (peer_room : HasRoom peer.groups) (group_room : HasRoom group.peers) where
  -- What the call may come to.
  abbrev pub Outcome : Option (UdpErr × Roster) → Type 0
  Outcome r =
      (s' : Roster) × (((r ≡ some (udp_ok, s'))
          × IsJoined s s' g p group peer (pointer_bytes g) (pointer_bytes p))
        ⊎ ((r ≡ some (udp_ok, s'))
            × IsOutOfMemory m peer.groups 1 (append m peer.groups (pointer_bytes g))
            × IsJoined s s' g p group peer [] [])
        ⊎ ((r ≡ some (out_of_memory, s'))
            × IsOutOfMemory m' group.peers 1 (append m' group.peers (pointer_bytes p))
            × IsJoined s s' g p group peer [] []))

  -- The roster with these vectors.
  abbrev with_groups : Vector → Roster
  with_groups v = record s { peers = put s.peers p (some (record peer { groups = v })) }

  -- `old` is the peers in memory before the last change, which may have been at `p` already.
  module _ (old : ℕ → Option Peer) (others : (q : ℕ) → q ≢ p → old q ≡ s.peers q) where
    abbrev with_both : Vector → Vector → Roster
    with_both v w = record s {
      peers = put old p (some (record peer { groups = v }));
      groups = put s.groups g (some (record group { peers = w }));
    }

    with_both-IsJoined :
        (v w : Vector) (new_groups new_peers : List ℕ)
        → IsExtended peer.groups new_groups v
        → IsExtended group.peers new_peers w
        → IsJoined s (with_both v w) g p group peer new_groups new_peers
    with_both-IsJoined v w new_groups new_peers hv hw = record {
      their_groups = v;
      its_peers = w;
      peer_is = put_self old p (some (record peer { groups = v }));
      group_is = put_self s.groups g (some (record group { peers = w }));
      groups_extended = hv;
      peers_extended = hw;
      other_peers = λ q ne. put_other old p (some (record peer { groups = v })) q ne ∙ others q ne;
      other_groups = put_other s.groups g (some (record group { peers = w }));
      payloads_same = refl;
      calls_same = refl;
      first_same = refl;
    }

  with_groups-IsJoined :
      (v : Vector) → IsExtended peer.groups [] v → IsJoined s (with_groups v) g p group peer [] []
  with_groups-IsJoined v hv = record {
    their_groups = v;
    its_peers = group.peers;
    peer_is = put_self s.peers p (some (record peer { groups = v }));
    group_is = here;
    groups_extended = hv;
    peers_extended = same-IsExtended group.peers group_room.valid;
    other_peers = put_other s.peers p (some (record peer { groups = v }));
    other_groups = λ q ne. refl;
    payloads_same = refl;
    calls_same = refl;
    first_same = refl;
  }

  -- Once the peer's vector of groups has become `v`.
  list_peer-Outcome :
      (v v' : Vector)
      → IsExtended peer.groups (pointer_bytes g) v
      → Vec.remove v peer.groups.item_count 1 ≡ some (1, v')
      → IsExtended peer.groups [] v'
      → Outcome (
          list_peer m' g p
            (record peer { groups = v })
            (peer.groups.item_count + 1)
            (with_groups v))
  unfolding list_peer
  list_peer-Outcome v v' hv undone hv' =
      elim (append-IsExtended m' group.peers p is_m' group_room) [
        | inl (full, failed, e) ↦
            let last : sub_size (peer.groups.item_count + 1) 1 ≡ peer.groups.item_count =
              omega (arith, peer_room.room) in
            let others = λ (q : ℕ) (ne : q ≢ p).
              put_other s.peers p (some (record peer { groups = v })) q ne in
            (
              with_both (with_groups v).peers others v' group.peers,
              inr (
                  inr (
                    rw here (rw e (rw (last, undone) refl)),
                    (full, failed, e),
                    with_both-IsJoined (with_groups v).peers others v' group.peers [] [] hv'
                        (same-IsExtended group.peers group_room.valid),
                  )),
            )
        | inr (w, w', e, hw, removed, hw') ↦
            let nonzero : (group.peers.item_count + 1 == 0) ≡ false = ground arith in
            (
              with_both s.peers (λ q ne. refl) v w,
              inl (
                rw here (rw e (rw nonzero refl)),
                with_both-IsJoined s.peers (λ q ne. refl) v w (pointer_bytes g) (pointer_bytes p) hv
                    hw,
              ),
            )
      ]

  join_group-Outcome : Outcome (join_group m m' g p peer none s)
  unfolding join_group
  join_group-Outcome = elim (append-IsExtended m peer.groups g is_m peer_room) [
    | inl (full, failed, e) ↦ (
      with_groups peer.groups,
      inr (
          inl (
            rw e refl,
            (full, failed, e),
            with_groups-IsJoined peer.groups (same-IsExtended peer.groups peer_room.valid),
          )),
    )
    | inr (v, v', e, hv, undone, hv') ↦
        let nonzero : (peer.groups.item_count + 1 == 0) ≡ false = ground arith in
        subst Outcome (sym (rw e (rw nonzero refl))) (list_peer-Outcome v v' hv undone hv')
  ]

  -- Adding a peer that does not seem to be in the group, both with vectors that are valid and not full,
  -- comes to one of three. With memory, the result is UDP_OK, and the peer lists the group and the group
  -- the peer, behind those that they listed before. If the group's vector cannot grow, the result is
  -- UDPERR_OUT_OF_MEMORY and both list what they did before. If the peer's cannot grow, they list what
  -- they did before too, yet the result is UDP_OK. Nothing else changes.
  pub peer_add_lem :
      index_of peer.groups.item_count 0 peer.groups g ≡ none → Outcome (peer_add m m' g p s)
  unfolding peer_add
  peer_add_lem new =
      subst Outcome
        (sym (
          ap (λ o. o >>= (λ k. join_group m m' g p k (index_of k.groups.item_count 0 k.groups g) s))
            there
          ∙ ap (λ i. join_group m m' g p peer i s) new))
        join_group-Outcome
