-- ===== src/Group/Leave.antt =====
-- What the slots of a group's vector are taken for.
use onyxnet.Prelude.{
  none-ne-some, ℕ, zero, suc, ◌+◌, ◌<◌, ◌≡◌, ◌≢◌, refl, ap, ◌∙◌, false, none, some, ltb,
  Option-cases, inl, inr, arith, ◌==◌, if◌then◌else◌,
}
use onyxnet.Memory.Heap.{differ}
use onyxnet.Api.{invalid_argument}
use onyxnet.Vector as Vec
use onyxnet.Vector.{Vector}
use onyxnet.Group.{Group}
use onyxnet.Group.Members.{
  Peer, Roster, index_of, remove_index, remove_peers, remove_found, peer_remove,
}
use onyxnet.Group.Chain.{group_destroy}

-- A pointer that is the address of no slot is not found.
index_of-none :
    (n i : ℕ) (v : Vector) (p : ℕ)
    → ((j : ℕ) → j < i + n → Vec.get v j ≢ p)
    → index_of n i v p ≡ none
unfolding index_of
index_of-none zero i v p no_slot = refl
index_of-none (suc n) i v p no_slot =
    let other : (Vec.get v i == p) ≡ false = differ (no_slot i (omega arith)) in
    rw other (index_of-none n (suc i) v p (λ j h. no_slot j (omega (arith, h))))

-- Taking a peer out goes through the address of its slot.
remove_index-none :
    (g i : ℕ) (s : Roster) (group : Group)
    → s.groups g ≡ some group
    → s.peers (Vec.get group.peers i) ≡ none
    → remove_index g i s ≡ none
unfolding remove_index
remove_index-none g i s group here missing =
    rw here
      (elim (Option-cases
        (if ltb i group.peers.item_count then Vec.remove group.peers i 1 else none)) [
          | inl e ↦ rw e refl
          | inr (r, e) ↦ rw e (rw missing refl)
        ])

remove_peers-none :
    (n g : ℕ) (s : Roster) (group : Group)
    → s.groups g ≡ some group
    → ((i : ℕ) → i < n → s.peers (Vec.get group.peers i) ≡ none)
    → 0 < n
    → remove_peers n g 0 s ≡ none
unfolding remove_peers
remove_peers-none zero g s group here no_peer some_peer = absurd (omega arith)
remove_peers-none (suc i) g s group here no_peer some_peer =
    rw (remove_index-none g i s group here (no_peer i (omega arith))) refl

-- Where no slot of the group's vector is the address of a peer, as is so if the block of the vector
-- holds pointers and not peers, no peer in memory is ever found in the group, whatever the vector
-- holds: removing it returns UDPERR_INVALID_ARGUMENT and changes nothing. Destroying the group is a
-- fault if it has peers.
pub slots_lem :
    (g : ℕ) (s : Roster) (group : Group)
    → s.groups g ≡ some group
    → ((i : ℕ) → i < group.peers.item_count → s.peers (Vec.get group.peers i) ≡ none)
    → ((p : ℕ) (peer : Peer)
        → s.peers p ≡ some peer
        → peer_remove g p s ≡ some (invalid_argument, s))
      × ((fuel : ℕ) → 0 < group.peers.item_count → group_destroy fuel g s ≡ none)
unfolding peer_remove remove_found group_destroy
slots_lem g s group here no_peer = (
  λ p peer there. rw here (
      rw
        (index_of-none group.peers.item_count 0 group.peers p
          (λ j h e. none-ne-some (no_peer j (omega (arith, h))) (ap s.peers e ∙ there)))
        refl),
  λ fuel some_peer.
      rw here (rw (remove_peers-none group.peers.item_count g s group here no_peer some_peer) refl),
)
