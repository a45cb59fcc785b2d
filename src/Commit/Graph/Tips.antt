-- ===== src/Commit/Graph/Tips.antt =====
-- The invariant of `CommitGraph`, packages/coln-store/src/commit/graph.rs.
use coln.Prelude.{
  ◌≡◌, ◌≢◌, ◌↔◌, refl, ◌∙◌, ap, subst, ◌⊎◌, inl, inr, some, List, [], ◌∷◌, true, false, not, ◌&&◌,
  ◌||◌, arith,
}
use coln.Prelude.Tests.{◌==◌, if◌then◌else◌, Bool-cases, beq_self}
use coln.Prelude.Maps
use coln.Prelude.Maps.{HashMap, get-insert}
use coln.Prelude.Sets.{member, member-set_insert, set_insert}
use coln.Commit.Hash.{CommitHash, CommitHash-eq}
use coln.Commit.Graph.{
  Commit, CommitGraph, hash, hash_less, get, contains, children_of, remove_deps, link_deps,
  add_commit, new,
}
use coln.Commit.Graph.Links.{member-remove_deps, member-link_deps}

-- Some known commit `c`, filed under `j`, has the parent `h`.
abbrev pub IsParent : CommitGraph → CommitHash → CommitHash → Type 0
IsParent graph h j = (c : Commit) × (get graph j ≡ some c) × (member h c.deps ≡ true)

pub record IsWellFormed (graph : CommitGraph) : Type 0 where
  -- The parents of a known commit are known.
  pub closed : (d j : CommitHash) → IsParent graph d j → contains graph d ≡ true
  -- The heads are the known commits that no known commit depends on.
  pub tips :
      (h : CommitHash)
      → (member h graph.heads ≡ true)
        ↔ ((contains graph h ≡ true) × ((j : CommitHash) → ¬ IsParent graph h j))
  -- The children are the commits whose parents name the hash.
  pub linked :
      (h j : CommitHash) → (member j (children_of graph.children h) ≡ true) ↔ IsParent graph h j

pub new-IsWellFormed : IsWellFormed new
unfolding new get contains member children_of Maps.get
new-IsWellFormed = record {
  closed = λ d j p. absurd (ground (arith, p.1));
  tips = λ h. (λ p. absurd (ground (arith, p)), λ p. absurd (ground (arith, p.0)));
  linked = λ h j. (λ p. absurd (ground (arith, p)), λ p. absurd (ground (arith, p.1)));
}

module _ (graph : CommitGraph) (commit : Commit) where
  -- The graph with a commit that it did not have.
  abbrev added : CommitGraph
  added = record {
    commits = Maps.insert (hash commit) commit graph.commits;
    children = link_deps (hash commit) commit.deps graph.children;
    heads = set_insert hash_less (hash commit) (remove_deps commit.deps graph.heads);
  }

  get-added :
      (j : CommitHash) → get added j ≡ (if hash commit == j then some commit else get graph j)
  unfolding get
  get-added j = get-insert (hash commit) j commit graph.commits

  contains-added : (j : CommitHash) → contains added j ≡ (hash commit == j || contains graph j)
  unfolding contains
  contains-added j = elim (Bool-cases (hash commit == j)) [
    | inl same ↦ rw (get-added j, contains, same) refl
    | inr other ↦ rw (get-added j, contains, other) refl
  ]

  no_get : (j : CommitHash) (c : Commit) → contains graph j ≡ false → get graph j ≢ some c
  unfolding contains
  no_get j c fresh e = ground (arith, e, fresh)

  module _ (fresh : contains graph (hash commit) ≡ false) where
    IsParent-cases :
        (d j : CommitHash)
        → IsParent added d j
        → ((hash commit ≡ j) × (member d commit.deps ≡ true)) ⊎ IsParent graph d j
    IsParent-cases d j (c, e, m) = elim (Bool-cases (hash commit == j)) [
      | inl same ↦ inl (
        (CommitHash-eq.equals_iff (hash commit) j).0 same,
        ground (arith, get-added j, e, same, m),
      )
      | inr other ↦ inr (c, ground (arith, get-added j, e, other), m)
    ]

    IsParent-new : (d : CommitHash) → member d commit.deps ≡ true → IsParent added d (hash commit)
    IsParent-new d m = (commit, ground (arith, get-added (hash commit), beq_self (hash commit)), m)

    IsParent-old : (d j : CommitHash) → IsParent graph d j → IsParent added d j
    IsParent-old d j (c, e, m) = elim (Bool-cases (hash commit == j)) [
      | inl same ↦ absurd (
          no_get j c
            (subst (λ x. contains graph x ≡ false)
              ((CommitHash-eq.equals_iff (hash commit) j).0 same) fresh)
            e)
      | inr other ↦ (c, ground (arith, get-added j, e, other), m)
    ]

    member-heads :
        (h : CommitHash)
        → member h added.heads
          ≡ (hash commit == h || (not (member h commit.deps) && member h graph.heads))
    member-heads h =
        member-set_insert hash_less (hash commit) h (remove_deps commit.deps graph.heads)
        ∙ ap (λ b. hash commit == h || b) (member-remove_deps commit.deps graph.heads h)

    module _ (w : IsWellFormed graph)
        (known : (d : CommitHash) → member d commit.deps ≡ true → contains graph d ≡ true) where
      closed-added : (d j : CommitHash) → IsParent added d j → contains added d ≡ true
      closed-added d j p = elim (IsParent-cases d j p) [
        | inl now ↦ ground (arith, contains-added d, known d now.1)
        | inr before ↦ ground (arith, contains-added d, w.closed d j before)
      ]

      not_own-IsParent : (j : CommitHash) → ¬ IsParent added (hash commit) j
      not_own-IsParent j p = elim (IsParent-cases (hash commit) j p) [
        | inl now ↦ ground (arith, known (hash commit) now.1, fresh)
        | inr before ↦ ground (arith, w.closed (hash commit) j before, fresh)
      ]

      tip_of_head :
          (h : CommitHash)
          → member h added.heads ≡ true
          → (contains added h ≡ true) × ((j : CommitHash) → ¬ IsParent added h j)
      tip_of_head h m = elim (Bool-cases (hash commit == h)) [
        | inl same ↦ (
          ground (arith, contains-added h, same),
          subst (λ x. (j : CommitHash) → ¬ IsParent added x j)
              ((CommitHash-eq.equals_iff (hash commit) h).0 same) not_own-IsParent,
        )
        | inr other ↦
            let old : member h graph.heads ≡ true = ground (arith, member-heads h, m, other) in
            let clear : member h commit.deps ≡ false = ground (arith, member-heads h, m, other) in
            (
              ground (arith, contains-added h, ((w.tips h).0 old).0),
              λ j p. elim (IsParent-cases h j p) [
                | inl now ↦ ground (arith, clear, now.1)
                | inr before ↦ ((w.tips h).0 old).1 j before
              ],
            )
      ]

      head_of_tip :
          (h : CommitHash)
          → contains added h ≡ true
          → ((j : CommitHash) → ¬ IsParent added h j)
          → member h added.heads ≡ true
      head_of_tip h k free = elim (Bool-cases (hash commit == h)) [
        | inl same ↦ ground (arith, member-heads h, same)
        | inr other ↦
            let old : member h graph.heads ≡ true =
              (w.tips h).1
                (ground (arith, contains-added h, k, other), λ j p. free j (IsParent-old h j p)) in
            elim (Bool-cases (member h commit.deps)) [
              | inl m ↦ absurd (free (hash commit) (IsParent-new h m))
              | inr clear ↦ ground (arith, member-heads h, old, clear)
            ]
      ]

      child_of_parent :
          (h j : CommitHash) → IsParent added h j → member j (children_of added.children h) ≡ true
      child_of_parent h j p = elim (IsParent-cases h j p) [
        | inl now ↦ ground (
          arith,
          member-link_deps (hash commit) commit.deps graph.children h j,
          now,
          CommitHash-eq.equals_iff (hash commit) j,
        )
        | inr before ↦ ground (
          arith,
          member-link_deps (hash commit) commit.deps graph.children h j,
          (w.linked h j).1 before,
        )
      ]

      IsParent-of_child :
          (h j : CommitHash) → member j (children_of added.children h) ≡ true → IsParent added h j
      IsParent-of_child h j m = elim (Bool-cases ((hash commit == j) && member h commit.deps)) [
        | inl now ↦
            subst (λ x. IsParent added h x)
              ((CommitHash-eq.equals_iff (hash commit) j).0 (ground (arith, now)))
              (IsParent-new h (ground (arith, now)))
        | inr other ↦ IsParent-old h j (
            (w.linked h j).0 (
              ground
                (arith, member-link_deps (hash commit) commit.deps graph.children h j, m, other)))
      ]

      added-IsWellFormed : IsWellFormed added
      added-IsWellFormed = record {
        closed = closed-added;
        tips = λ h. (tip_of_head h, λ p. head_of_tip h p.0 p.1);
        linked = λ h j. (IsParent-of_child h j, child_of_parent h j);
      }

-- Adding a commit whose parents are known to a well-formed graph gives a well-formed graph: its heads are
-- the known commits that no known commit depends on, its children are its parents read backwards, and the
-- parents of its commits are known. This is so for a commit that is known already, too.
pub add_commit-IsWellFormed :
    (graph : CommitGraph) (commit : Commit)
    → IsWellFormed graph
    → ((d : CommitHash) → member d commit.deps ≡ true → contains graph d ≡ true)
    → IsWellFormed (add_commit graph commit)
unfolding add_commit
add_commit-IsWellFormed graph commit w known = elim (Bool-cases (contains graph (hash commit))) [
  | inl seen ↦ rw (contains, seen) w
  | inr fresh ↦ rw (contains, fresh) (added-IsWellFormed graph commit fresh w known)
]

-- The parents of each commit are known when it is added.
abbrev pub IsDelivered : CommitGraph → List Commit → Type 0
IsDelivered graph [] = Unit
IsDelivered graph (c ∷ cs) =
    ((d : CommitHash) → member d c.deps ≡ true → contains graph d ≡ true)
    × IsDelivered (add_commit graph c) cs

abbrev pub add_commits : CommitGraph → List Commit → CommitGraph
add_commits graph [] = graph
add_commits graph (c ∷ cs) = add_commits (add_commit graph c) cs

-- A graph that starts empty and receives commits, each after its parents, is well-formed in the end.
pub add_commits-IsWellFormed :
    (graph : CommitGraph) (cs : List Commit)
    → IsWellFormed graph
    → IsDelivered graph cs
    → IsWellFormed (add_commits graph cs)
add_commits-IsWellFormed graph [] w h = w
add_commits-IsWellFormed graph (c ∷ cs) w h =
    add_commits-IsWellFormed (add_commit graph c) cs (add_commit-IsWellFormed graph c w h.0) h.1
