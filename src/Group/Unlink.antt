-- ===== src/Group/Unlink.antt =====
-- Looking for a group in the list of its instance's groups.
use onyxnet.Prelude.{
  none-ne-some, ℕ, zero, suc, ◌<◌, ◌≡◌, ◌≢◌, refl, sym, ap, ◌∙◌, false, Option, none, some, List,
  [], ◌∷◌, length, All, arith,
}
use onyxnet.Memory.Heap.{put, put_other, differ}
use onyxnet.Group.{Group}
use onyxnet.Group.Members.{Roster}
use onyxnet.Group.Chain.{link, unlink_group}

-- From the pointer `at` on, the groups are listed in this order.
abbrev pub IsChain : (ℕ → Option Group) → ℕ → List ℕ → Type 0
IsChain groups at [] = at ≡ 0
IsChain groups at (p ∷ ps) =
    (at ≡ p)
    × (p ≢ 0)
    × ((group : Group) × (groups p ≡ some group) × IsChain groups group.next_group ps)

-- A chain does not see a change at an address that is not in it.
pub IsChain-put :
    (groups : ℕ → Option Group) (at : ℕ) (ps : List ℕ) (q : ℕ) (v : Option Group)
    → All (λ p. q ≢ p) ps
    → IsChain groups at ps
    → IsChain (put groups q v) at ps
IsChain-put groups at [] q v apart chain = chain
IsChain-put groups at (p ∷ ps) q v apart chain =
    let (e, real, (group, here, rest)) = chain in
    let there = put_other groups q v p (λ same. apart.0 (sym same)) ∙ here in
    (e, real, (group, there, IsChain-put groups group.next_group ps q v apart.1 rest))

-- A group that is not the one looked for is passed by.
unlink-next :
    (fuel : ℕ) (gp : Option ℕ) (g p : ℕ) (s : Roster)
    → link gp s ≡ some p
    → p ≢ 0
    → p ≢ g
    → unlink_group (suc fuel) gp g s ≡ unlink_group fuel (some p) g s
unfolding unlink_group
unlink-next fuel gp g p s e real other = rw e (rw (differ real, differ other) refl)

link-in :
    (p : ℕ) (s : Roster) (group : Group)
    → s.groups p ≡ some group
    → link (some p) s ≡ some group.next_group
unfolding link
link-in p s group here = rw here refl

-- A group that the list does not hold is not found.
pub unlink-missing :
    (fuel : ℕ) (gp : Option ℕ) (g at : ℕ) (ps : List ℕ) (s : Roster)
    → link gp s ≡ some at
    → IsChain s.groups at ps
    → All (λ p. g ≢ p) ps
    → length ps < fuel
    → unlink_group fuel gp g s ≡ some (false, s)
unfolding unlink_group
unlink-missing zero gp g at ps s e chain apart enough = absurd (omega arith)
unlink-missing (suc fuel) gp g at [] s e chain apart enough = rw e (rw chain refl)
unlink-missing (suc fuel) gp g at (p ∷ ps) s e chain apart enough =
    let (same, real, (group, here, rest)) = chain in
    unlink-next fuel gp g p s (e ∙ ap (λ n. some n) same) real (λ h. apart.0 (sym h))
    ∙ unlink-missing fuel (some p) g group.next_group ps s (link-in p s group here) rest apart.1
        (omega (arith, enough))

-- An address with no group is not in a chain.
pub chain-apart :
    (groups : ℕ → Option Group) (at g : ℕ) (ps : List ℕ)
    → groups g ≡ none
    → IsChain groups at ps
    → All (λ p. g ≢ p) ps
chain-apart groups at g [] missing chain = tt
chain-apart groups at g (p ∷ ps) missing chain =
    let (same, real, (group, here, rest)) = chain in
    (
      λ e. none-ne-some missing (ap groups e ∙ here),
      chain-apart groups group.next_group g ps missing rest,
    )
