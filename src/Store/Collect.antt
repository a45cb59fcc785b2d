-- ===== src/Store/Collect.antt =====
-- Lemmas on the first loop of `apply_commits`, packages/coln-store/src/store/mod.rs.
use coln.Prelude.{
  ◌<◌, ◌≡◌, refl, sym, ap, ◌∙◌, subst, ◌⊎◌, inl, inr, none, some, List, [], ◌∷◌, true, false, arith,
}
use coln.Prelude.Tests.{◌==◌, if◌then◌else◌, Bool-cases, Option-cases, beq_self, String-eq}
use coln.Prelude.Lists.{length}
use coln.Prelude.Maps
use coln.Prelude.Maps.{get-insert}
use coln.Commit.Hash.{CommitHash, CommitHash-eq}
use coln.Commit.Record.{Commit, is_root}
use coln.Commit.Graph.{CommitGraph, contains}
use coln.Store.{
  hash, same_commit, Applied, applied, refused, CommitApplyError, PendingCommits, register,
  with_parents, accept, collect_pending,
}

-- What the store waits for: each commit under its own hash, new to the store, no root, and with parents.
pub record IsNews (graph : CommitGraph) (h : CommitHash) (commit : Commit) : Type 0 where
  pub filed : hash commit ≡ h
  pub new : contains graph h ≡ false
  pub not_root : is_root commit ≡ false
  pub parents : 0 < length commit.deps

abbrev pub AreNews : CommitGraph → PendingCommits → Type 0
AreNews graph pending =
    (h : CommitHash) (c : Commit) → Maps.get h pending ≡ some c → IsNews graph h c

-- An equal commit is pending under the hash.
abbrev pub IsPending : PendingCommits → Commit → Type 0
IsPending pending c =
    (existing : Commit) × (Maps.get (hash c) pending ≡ some existing)
    × ((existing ≡ c) ⊎ (same_commit existing c ≡ true))

abbrev pub AllFound : CommitGraph → PendingCommits → List Commit → Type 0
AllFound graph pending [] = Unit
AllFound graph pending (c ∷ cs) =
    ((contains graph (hash c) ≡ true) ⊎ IsPending pending c) × AllFound graph pending cs

abbrev pub Keeps : PendingCommits → PendingCommits → Type 0
Keeps before after =
    (h : CommitHash) (c : Commit) → Maps.get h before ≡ some c → Maps.get h after ≡ some c

pub record Accepted (graph : CommitGraph) (before : PendingCommits) (commit : Commit)
    (after : PendingCommits) : Type 0 where
  pub news : AreNews graph after
  pub keeps : Keeps before after
  pub here : IsPending after commit

applied_inj : {A : Type 0} (a b : A) → applied a ≡ applied b → a ≡ b
applied_inj a b e = cc

applied_cases :
    {A : Type 0} (m : Applied A)
    → ((a : A) × (m ≡ applied a)) ⊎ ((why : CommitApplyError) × (m ≡ refused why))
applied_cases (applied a) = inl (a, refl)
applied_cases (refused why) = inr (why, refl)

some_inj : (a b : Commit) → some a ≡ some b → a ≡ b
some_inj a b e = cc

module _ (graph : CommitGraph) (before : PendingCommits) (commit : Commit)
    (news : AreNews graph before) where
  insert-Accepted :
      Maps.get (hash commit) before ≡ none
      → IsNews graph (hash commit) commit
      → Accepted graph before commit (Maps.insert (hash commit) commit before)
  insert-Accepted absent is_news = record {
    news = λ h c e. elim (Bool-cases (hash commit == h)) [
      | inl same ↦
          let found : some commit ≡ some c =
            sym (
              get-insert (hash commit) h commit before
              ∙ ap (λ b. if b then some commit else Maps.get h before) same)
            ∙ e in
          let under : hash commit ≡ h = (CommitHash-eq.equals_iff (hash commit) h).0 same in
          subst (λ k. IsNews graph k c) under
            (subst (IsNews graph (hash commit)) (some_inj commit c found) is_news)
      | inr other ↦ news h c (
          sym (
            get-insert (hash commit) h commit before
            ∙ ap (λ b. if b then some commit else Maps.get h before) other)
          ∙ e)
    ];
    keeps = λ h c e. elim (Bool-cases (hash commit == h)) [
      | inl same ↦
          let under : hash commit ≡ h = (CommitHash-eq.equals_iff (hash commit) h).0 same in
          let gone : Maps.get h before ≡ none =
            subst (λ k. Maps.get k before ≡ none) under absent in
          absurd (cc (gone, e))
      | inr other ↦
          get-insert (hash commit) h commit before
          ∙ ap (λ b. if b then some commit else Maps.get h before) other
          ∙ e
    ];
    here = (
      commit,
      get-insert (hash commit) (hash commit) commit before
          ∙ ap (λ b. if b then some commit else Maps.get (hash commit) before)
              (beq_self (hash commit)),
      inl refl,
    );
  }

  register-Accepted :
      (after : PendingCommits)
      → IsNews graph (hash commit) commit
      → register commit before ≡ applied after
      → Accepted graph before commit after
  unfolding register
  register-Accepted after is_news e = elim (Option-cases (Maps.get (hash commit) before)) [
    | inl (existing, found) ↦ elim (Bool-cases (same_commit existing commit)) [
      | inl same ↦
          let kept : before ≡ after =
            applied_inj before after (rw (same, register) at (rw (found, register) at e)) in
          subst (Accepted graph before commit) kept
            (record { news = news; keeps = λ h c g. g; here = (existing, found, inr same) })
      | inr differs ↦ absurd (ground (arith, e, found, differs))
    ]
    | inr absent ↦
        let grown : Maps.insert (hash commit) commit before ≡ after =
          applied_inj _ after (rw (absent, register) at e) in
        subst (Accepted graph before commit) grown (insert-Accepted absent is_news)
  ]

  with_parents-Accepted :
      (deps : List CommitHash) (after : PendingCommits)
      → commit.deps ≡ deps
      → contains graph (hash commit) ≡ false
      → is_root commit ≡ false
      → with_parents commit deps before ≡ applied after
      → Accepted graph before commit after
  unfolding with_parents
  with_parents-Accepted [] after d new plain e = absurd (cc)
  with_parents-Accepted (dep ∷ deps) after d new plain e =
      register-Accepted after
        (record { filed = refl; new = new; not_root = plain; parents = omega (arith, ap length d) })
        e

  -- What a round accepts; the commit is not known to the graph.
  accept-Accepted :
      (after : PendingCommits)
      → contains graph (hash commit) ≡ false
      → accept commit before ≡ applied after
      → Accepted graph before commit after
  unfolding accept
  accept-Accepted after new e = elim (Bool-cases (is_root commit)) [
    | inl root ↦ absurd (ground (arith, e, root))
    | inr plain ↦ with_parents-Accepted commit.deps after refl new plain (rw (plain, accept) at e)
  ]

record Collected (graph : CommitGraph) (before : PendingCommits) (commits : List Commit)
    (after : PendingCommits) : Type 0 where
  news : AreNews graph after
  keeps : Keeps before after
  found : AllFound graph after commits

IsPending-Keeps :
    (before after : PendingCommits) (c : Commit)
    → Keeps before after
    → IsPending before c
    → IsPending after c
IsPending-Keeps before after c keeps (existing, e, same) =
    (existing, keeps (hash c) existing e, same)

collect_pending-Collected :
    (graph : CommitGraph) (commits : List Commit) (before after : PendingCommits)
    → AreNews graph before
    → collect_pending graph commits before ≡ applied after
    → Collected graph before commits after
unfolding collect_pending
collect_pending-Collected graph [] before after news e =
    subst (Collected graph before []) (applied_inj before after e)
      (record { news = news; keeps = λ h c g. g; found = tt })
collect_pending-Collected graph (commit ∷ commits) before after news e =
    elim (Bool-cases (contains graph (hash commit))) [
      | inl known ↦
          let rest =
            collect_pending-Collected graph commits before after news
              (rw (known, collect_pending) at e) in
          record { news = rest.news; keeps = rest.keeps; found = (inl known, rest.found) }
      | inr new ↦ elim (applied_cases (accept commit before)) [
        | inr (why, refused_e) ↦ absurd (ground (arith, e, new, refused_e))
        | inl (next, accepted) ↦
            let first = accept-Accepted graph before commit news next new accepted in
            let rest =
              collect_pending-Collected graph commits next after first.news
                (rw (accepted, collect_pending) at (rw (new, collect_pending) at e)) in
            record {
              news = rest.news;
              keeps = λ h c g. rest.keeps h c (first.keeps h c g);
              found = (inr (IsPending-Keeps next after commit rest.keeps first.here), rest.found);
            }
      ]
    ]

-- Commits that `apply_commits` does not refuse at once: each of them is known to the store already, or an
-- equal one waits under its hash; and whatever waits is filed under its own hash, new to the store, no
-- root commit, and names a parent.
pub collect_pending_lem :
    (graph : CommitGraph) (commits : List Commit) (pending : PendingCommits)
    → collect_pending graph commits [] ≡ applied pending
    → AreNews graph pending × AllFound graph pending commits
unfolding Maps.get
collect_pending_lem graph commits pending e =
    let all = collect_pending-Collected graph commits [] pending (λ h c p. absurd (cc)) e in
    (all.news, all.found)
