-- ===== src/Commit/Graph.antt =====
-- packages/coln-store/src/commit/graph.rs: the graph of the known commits and its tips. Of a commit the
-- graph reads the hash in its header, its parents and whether it is a root.
pub mod Links
pub mod Tips
use coln.Prelude.{
  ℕ, zero, suc, ◌-◌, compare, Ordering, Option, none, some, List, [], ◌∷◌, ◌++◌, map, Bool, true,
  false,
}
use coln.Prelude.Tests.{nat_eq, if◌then◌else◌}
use coln.Prelude.Lists.{length}
use coln.Prelude.Maps
use coln.Prelude.Maps.{HashMap}
use coln.Prelude.Sets.{set_insert, set_remove}
use coln.Prelude.Outcome.{Outcome, returns, panic}
use coln.Commit.Hash.{CommitHash, CommitHash-eq}
use coln.Commit.Chunk
use coln.Commit.Chunk.{Header}
use coln.Commit.Codec.{ChunkType}

pub record Commit : Type 0 where
  pub header : Header
  pub deps : List CommitHash

unfoldable pub hash : Commit → CommitHash
hash commit = commit.header.hash

unfoldable pub is_root : Commit → Bool
is_root commit = elim commit.header.chunk_type [ ChunkType.root ↦ true | ChunkType.commit ↦ false ]

-- The derived order of the bytes.
abbrev pub hash_less : CommitHash → CommitHash → Bool
hash_less [] [] = false
hash_less [] (b ∷ h) = true
hash_less (a ∷ g) [] = false
hash_less (a ∷ g) (b ∷ h) = elim (compare a b) [
  | Ordering.lt ↦ true
  | Ordering.eq ↦ hash_less g h
  | Ordering.gt ↦ false
]

pub record CommitGraph : Type 0 where
  pub commits : HashMap CommitHash Commit
  pub children : HashMap CommitHash (List CommitHash)
  pub heads : List CommitHash

pub data CommitGraphError : Type 0 where
  missing_root multiple_roots : CommitGraphError

unfoldable pub new : CommitGraph
new = record { commits = []; children = []; heads = [] }

unfoldable pub get : CommitGraph → CommitHash → Option Commit
get graph h = Maps.get h graph.commits

unfoldable pub contains : CommitGraph → CommitHash → Bool
unfolding get
contains graph h = elim (get graph h) [ some c ↦ true | none ↦ false ]

unfoldable pub parents_of : CommitGraph → CommitHash → Option (List CommitHash)
unfolding get
parents_of graph h = elim (get graph h) [ some c ↦ some c.deps | none ↦ none ]

-- `entry(dep).or_default()`.
unfoldable pub children_of : HashMap CommitHash (List CommitHash) → CommitHash → List CommitHash
children_of children h = elim (Maps.get h children) [ some s ↦ s | none ↦ [] ]

unfoldable pub remove_deps : List CommitHash → List CommitHash → List CommitHash
remove_deps [] heads = heads
remove_deps (dep ∷ deps) heads = remove_deps deps (set_remove dep heads)

unfoldable pub link_deps :
    CommitHash
    → List CommitHash
    → HashMap CommitHash (List CommitHash)
    → HashMap CommitHash (List CommitHash)
unfolding children_of
link_deps h [] children = children
link_deps h (dep ∷ deps) children =
    link_deps h deps (Maps.insert dep (set_insert hash_less h (children_of children dep)) children)

unfoldable pub add_commit : CommitGraph → Commit → CommitGraph
unfolding contains hash
add_commit graph commit = if contains graph (hash commit) then graph else (record {
  commits = Maps.insert (hash commit) commit graph.commits;
  children = link_deps (hash commit) commit.deps graph.children;
  heads = set_insert hash_less (hash commit) (remove_deps commit.deps graph.heads);
})

-- The state of `iter_topological`: the counts of parents still to come, and the commits that are ready.
abbrev pub Pending : Type 0
Pending = HashMap CommitHash ℕ × List CommitHash

-- The loop over the children of a commit that was taken.
unfoldable pub release : List CommitHash → Pending → Outcome Pending
release [] (counts, ready) = returns (counts, ready)
release (child ∷ children) (counts, ready) = elim (Maps.get child counts) [
  | none ↦ release children (counts, ready)
  | some zero ↦ panic
  | some (suc count) ↦ release children (
    Maps.insert child count counts,
    if nat_eq count 0 then set_insert hash_less child ready else ready,
  )
]

-- Each round takes a commit that is ready, and no commit twice, so the commits bound the rounds.
unfoldable pub take_ready :
    ℕ → HashMap CommitHash (List CommitHash) → Pending → Outcome (List CommitHash)
unfolding children_of release
take_ready zero children (counts, ready) = returns []
take_ready (suc rounds) children (counts, []) = returns []
take_ready (suc rounds) children (counts, h ∷ ready) =
    elim (release (children_of children h) (counts, ready)) [
      | panic ↦ panic
      | returns state ↦ elim (take_ready rounds children state) [
        | panic ↦ panic
        | returns ordered ↦ returns (h ∷ ordered)
      ]
    ]

unfoldable pub initially_ready : HashMap CommitHash ℕ → List CommitHash
initially_ready [] = []
initially_ready ((h, count) ∷ counts) =
    let rest = initially_ready counts in
    if nat_eq count 0 then set_insert hash_less h rest else rest

unfoldable pub look_up_all : HashMap CommitHash Commit → List CommitHash → List Commit
look_up_all commits [] = []
look_up_all commits (h ∷ hs) = elim (Maps.get h commits) [
  | some c ↦ c ∷ look_up_all commits hs
  | none ↦ look_up_all commits hs
]

unfoldable pub iter_topological : CommitGraph → Outcome (List Commit)
unfolding take_ready initially_ready look_up_all
iter_topological graph =
    let counts = map (λ entry. (entry.0, length entry.1.deps)) graph.commits in
    elim (take_ready (suc (length graph.commits)) graph.children (counts, initially_ready counts)) [
      | panic ↦ panic
      | returns ordered ↦ returns (look_up_all graph.commits ordered)
    ]

unfoldable pub roots : HashMap CommitHash Commit → List Commit
unfolding is_root
roots [] = []
roots ((h, commit) ∷ commits) =
    let rest = roots commits in if is_root commit then commit ∷ rest else rest

pub data RootCommit : Type 0 where
  ok : Commit → RootCommit
  err : CommitGraphError → RootCommit

unfoldable pub root_commit : CommitGraph → RootCommit
unfolding roots
root_commit graph = elim (roots graph.commits) [
  | [] ↦ err missing_root
  | commit ∷ [] ↦ ok commit
  | commit ∷ _ ∷ _ ↦ err multiple_roots
]
