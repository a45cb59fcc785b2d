-- ===== src/Store.antt =====
-- Commits that wait for their parents: `apply_commits` of packages/coln-store/src/store/mod.rs. What the
-- store does with the data of a commit, `apply_atomic_inner` up to the graph, is a parameter.
pub mod Collect
use coln.Prelude.{
  ℕ, zero, suc, ◌+◌, ◌-◌, Option, none, some, String, List, [], ◌∷◌, ◌++◌, map, Bool, true, false,
  ◌&&◌, not,
}
use coln.Prelude.Int.{ℤ, ℤ-eq}
use coln.Prelude.Tests.{PartialEq, ◌==◌, if◌then◌else◌, nat_eq, ℕ-eq, List-eq, String-eq}
use coln.Prelude.Maps
use coln.Prelude.Maps.{HashMap}
use coln.Prelude.Sets.{set_insert}
use coln.Commit.Hash.{CommitHash, CommitHash-eq}
use coln.Commit.Codec.{ChunkType}
use coln.Commit.Chunk.{Header}
use coln.Commit.Record.{Commit, is_root}
use coln.Commit.Graph
use coln.Commit.Graph.{CommitGraph, contains, add_commit, hash_less}

-- `Commit::hash`.
abbrev pub hash : Commit → CommitHash
hash commit = commit.header.hash

abbrev same_type : ChunkType → ChunkType → Bool
same_type ChunkType.commit ChunkType.commit = true
same_type ChunkType.root ChunkType.root = true
same_type ChunkType.commit ChunkType.root = false
same_type ChunkType.root ChunkType.commit = false

abbrev same_header : Header → Header → Bool
same_header a b =
    same_type a.chunk_type b.chunk_type
    && (nat_eq a.data_len b.data_len
        && (a.stored_checksum == b.stored_checksum && a.hash == b.hash))

abbrev same_message : Option String → Option String → Bool
same_message none none = true
same_message (some a) (some b) = a == b
same_message none (some b) = false
same_message (some a) none = false

-- The derived equality of commits.
unfoldable pub same_commit : Commit → Commit → Bool
same_commit a b =
    a.bytes == b.bytes
    && (same_header a.header b.header
        && (a.author == b.author
            && (a.other_hashes == b.other_hashes
                && (a.deps == b.deps
                    && (a.timestamp == b.timestamp
                        && (same_message a.message b.message && nat_eq a.num_ops b.num_ops))))))

pub data CommitApplyError : Type 0 where
  dangling_commit conflict_payload root_commit : CommitHash → CommitApplyError

-- A run with an error.
pub data Applied {ℓ} (A : Type ℓ) : Type ℓ where
  applied : A → Applied A
  refused : CommitApplyError → Applied A

abbrev pub PendingCommits : Type 0
PendingCommits = HashMap CommitHash Commit

-- The end of a round of the loop over the commits: a commit that is pending already is not replaced.
unfoldable pub register : Commit → PendingCommits → Applied PendingCommits
unfolding same_commit
register commit pending = elim (Maps.get (hash commit) pending) [
  | some existing ↦
      if same_commit existing commit
      then applied pending
      else refused (conflict_payload (hash commit))
  | none ↦ applied (Maps.insert (hash commit) commit pending)
]

-- With the parents of the commit.
unfoldable pub with_parents : Commit → List CommitHash → PendingCommits → Applied PendingCommits
unfolding register
with_parents commit [] pending = refused (dangling_commit (hash commit))
with_parents commit (dep ∷ deps) pending = register commit pending

-- A round, on a commit that the store does not have.
unfoldable pub accept : Commit → PendingCommits → Applied PendingCommits
unfolding with_parents is_root
accept commit pending =
    if is_root commit
    then refused (root_commit (hash commit))
    else with_parents commit commit.deps pending

-- The first loop of `apply_commits`.
unfoldable pub collect_pending : CommitGraph → List Commit → PendingCommits → Applied PendingCommits
unfolding accept
collect_pending graph [] pending = applied pending
collect_pending graph (commit ∷ commits) pending =
    if contains graph (hash commit)
    then collect_pending graph commits pending
    else elim (accept commit pending) [
      | refused e ↦ refused e
      | applied pending' ↦ collect_pending graph commits pending'
    ]

-- The counts of parents that are missing, an `i32` each that only counts up to the parents here, who waits for whom, and the commits that are ready.
pub record Waiting : Type 0 where
  pub unsatisfied : HashMap CommitHash ℕ
  pub waiting_on : HashMap CommitHash (List CommitHash)
  pub ready : List CommitHash

abbrev waiters : HashMap CommitHash (List CommitHash) → CommitHash → List CommitHash
waiters waiting_on dep = elim (Maps.get dep waiting_on) [ some hashes ↦ hashes | none ↦ [] ]

abbrev is_some {ℓ} : {A : Type ℓ} → Option A → Bool
is_some (some a) = true
is_some none = false

-- The loop over the parents of a commit.
unfoldable pub count_missing :
    CommitGraph
    → PendingCommits
    → CommitHash
    → List CommitHash
    → HashMap CommitHash (List CommitHash)
    → ℕ × HashMap CommitHash (List CommitHash)
count_missing graph pending h [] waiting_on = (0, waiting_on)
count_missing graph pending h (dep ∷ deps) waiting_on =
    let registered = Maps.insert dep (waiters waiting_on dep ++ h ∷ []) waiting_on in
    if contains graph dep
    then count_missing graph pending h deps waiting_on
    else if is_some (Maps.get dep pending)
    then (let later = count_missing graph pending h deps registered in (suc later.0, later.1))
    else (let later = count_missing graph pending h deps waiting_on in (suc later.0, later.1))

-- The second loop of `apply_commits`.
unfoldable pub index_pending : CommitGraph → PendingCommits → PendingCommits → Waiting → Waiting
unfolding count_missing
index_pending graph pending [] state = state
index_pending graph pending ((h, commit) ∷ entries) state =
    let counted = count_missing graph pending h commit.deps state.waiting_on in
    index_pending graph pending entries (
      if nat_eq counted.0 0
      then record {
        unsatisfied = state.unsatisfied;
        waiting_on = counted.1;
        ready = set_insert hash_less h state.ready;
      }
      else record {
        unsatisfied = Maps.insert h counted.0 state.unsatisfied;
        waiting_on = counted.1;
        ready = state.ready;
      })
