-- ===== src/Commit/Graph/Links.antt =====
-- Membership in the heads and the children after the loop of `add_commit`.
use coln.Prelude.{◌≡◌, refl, inl, inr, List, [], ◌∷◌, not, ◌&&◌, ◌||◌, arith}
use coln.Prelude.Tests.{◌==◌, if◌then◌else◌, Bool-cases}
use coln.Prelude.Maps
use coln.Prelude.Maps.{HashMap, get-insert}
use coln.Prelude.Sets.{member, member-set_remove, member-set_insert, set_insert, set_remove}
use coln.Commit.Hash.{CommitHash, CommitHash-eq}
use coln.Commit.Graph.{hash_less, children_of, remove_deps, link_deps}

pub member-remove_deps :
    (deps heads : List CommitHash) (j : CommitHash)
    → member j (remove_deps deps heads) ≡ (not (member j deps) && member j heads)
unfolding remove_deps member
member-remove_deps [] heads j = refl
member-remove_deps (dep ∷ deps) heads j = ground (
  arith,
  CommitHash-eq.equals_iff dep j,
  CommitHash-eq.equals_iff j dep,
  member-remove_deps deps (set_remove dep heads) j,
  member-set_remove dep j heads,
)

pub children_of-insert :
    (d e : CommitHash) (s : List CommitHash) (children : HashMap CommitHash (List CommitHash))
    → children_of (Maps.insert d s children) e ≡ (if d == e then s else children_of children e)
unfolding children_of
children_of-insert d e s children = elim (Bool-cases (d == e)) [
  | inl same ↦ rw (get-insert d e s children, children_of, same) refl
  | inr other ↦ rw (get-insert d e s children, children_of, other) refl
]

pub member-link_deps :
    (h : CommitHash) (deps : List CommitHash) (children : HashMap CommitHash (List CommitHash))
    (d j : CommitHash)
    → member j (children_of (link_deps h deps children) d)
      ≡ (((h == j) && member d deps) || member j (children_of children d))
unfolding link_deps member
member-link_deps h [] children d j = ground arith
member-link_deps h (dep ∷ deps) children d j =
    let s = set_insert hash_less h (children_of children dep) in
    elim (Bool-cases (dep == d)) [
      | inl same ↦ ground (
        arith,
        CommitHash-eq.equals_iff dep d,
        CommitHash-eq.equals_iff d dep,
        member-link_deps h deps (Maps.insert dep s children) d j,
        children_of-insert dep d s children,
        member-set_insert hash_less h j (children_of children dep),
      )
      | inr other ↦ ground (
        arith,
        CommitHash-eq.equals_iff dep d,
        CommitHash-eq.equals_iff d dep,
        member-link_deps h deps (Maps.insert dep s children) d j,
        children_of-insert dep d s children,
      )
    ]
