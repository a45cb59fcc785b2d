-- ===== src/Commit/HashDict/Truncate.antt =====
-- Lemmas on `HashMapper::truncate`, packages/coln-store/src/commit/hash_dict.rs.
use coln.Prelude.{
  ℕ, suc, ◌+◌, ◌-◌, ◌<◌, ◌≤◌, ◌≡◌, ◌⊎◌, inl, inr, refl, sym, ap, ◌∙◌, false, Option, none, some,
  List, [], ◌∷◌, arith,
}
use native.Mathlib.Decide.{dec_lt}
use coln.Prelude.Tests.{leb_of_le, ◌==◌, ltb, if◌then◌else◌, Bool-cases, Option-cases}
use coln.Prelude.Lists.{
  length, get_elem?, take, drop, lt-get_elem?, length-take, get_elem?-drop, get_elem?-take,
  index_cong,
}
use coln.Prelude.Maps
use coln.Prelude.Maps.{HashMap}
use coln.Prelude.Outcome.{returns}
use coln.Commit.Hash.{CommitHash, CommitHash-eq}
use coln.Commit.HashDict.{HashMapper, remove_drained, truncate}
use coln.Commit.HashDict.Consistent.{IsConsistent}

-- The entries below an index.
abbrev below : ℕ → Option ℕ → Option ℕ
below len none = none
below len (some i) = if ltb i len then some i else none

module _ (len : ℕ) where
  -- What the loop of `truncate` finds when `hashes`, from position `start` on, are left to remove.
  record Draining (start : ℕ) (hashes : List CommitHash) (m : HashMap CommitHash ℕ) : Type 0 where
    ordered : len ≤ start
    recorded :
        (k : ℕ) (h : CommitHash) → get_elem? hashes k ≡ some h → Maps.get h m ≡ some (start + k)
    located :
        (h : CommitHash) (i : ℕ)
        → Maps.get h m ≡ some i
        → (i < len) ⊎ ((start ≤ i) × (get_elem? hashes (i - start) ≡ some h))

  module _ (start : ℕ) (x : CommitHash) (hashes : List CommitHash) (m : HashMap CommitHash ℕ)
      (d : Draining start (x ∷ hashes) m) where
    first : Maps.get x m ≡ some start
    first = d.recorded 0 x refl ∙ ap some (omega arith)

    rest_recorded :
        (k : ℕ) (h : CommitHash)
        → get_elem? hashes k ≡ some h
        → Maps.get h (Maps.remove x m) ≡ some (suc start + k)
    rest_recorded k h e =
        ground (
          arith,
          Maps.get-remove x h m,
          CommitHash-eq.equals_iff x h,
          first,
          d.recorded (suc k) h e,
        )

    past_first :
        (h : CommitHash) (i : ℕ)
        → (x == h) ≡ false
        → start ≤ i
        → get_elem? (x ∷ hashes) (i - start) ≡ some h
        → (i < len) ⊎ ((suc start ≤ i) × (get_elem? hashes (i - suc start) ≡ some h))
    past_first h i other high at = elim (dec_lt start i) [
      | yes later ↦
          let step : i - start ≡ suc (i - suc start) = omega arith in inr (later, rw step at at)
      | no here ↦
          let zero_at : i - start ≡ 0 = omega arith in
          let same : some x ≡ some h = rw zero_at at at in
          absurd (ground (arith, CommitHash-eq.equals_iff x h))
    ]

    rest_located :
        (h : CommitHash) (i : ℕ)
        → Maps.get h (Maps.remove x m) ≡ some i
        → (i < len) ⊎ ((suc start ≤ i) × (get_elem? hashes (i - suc start) ≡ some h))
    rest_located h i e = elim (Bool-cases (x == h)) [
      | inl same ↦ absurd (ground (arith, Maps.get-remove x h m))
      | inr other ↦ elim (d.located h i (ground (arith, Maps.get-remove x h m))) [
        | inl low ↦ inl low
        | inr (high, at) ↦ past_first h i other high at
      ]
    ]

    rest-Draining : Draining (suc start) hashes (Maps.remove x m)
    rest-Draining = record {
      ordered = omega (arith, d.ordered);
      recorded = rest_recorded;
      located = rest_located;
    }

  all_below :
      (start : ℕ) (m : HashMap CommitHash ℕ)
      → Draining start [] m
      → (h : CommitHash) → Maps.get h m ≡ below len (Maps.get h m)
  all_below start m d h = elim (Option-cases (Maps.get h m)) [
    | inl (i, e) ↦ ground (arith, d.located h i)
    | inr e ↦ rw e
  ]

  remove_drained_lem :
      (start : ℕ) (hashes : List CommitHash) (m : HashMap CommitHash ℕ)
      → Draining start hashes m
      → (m' : HashMap CommitHash ℕ) × (remove_drained hashes m ≡ returns m')
        × ((h : CommitHash) → Maps.get h m' ≡ below len (Maps.get h m))
  unfolding remove_drained
  remove_drained_lem start [] m d = (m, refl, λ h. all_below start m d h)
  remove_drained_lem start (x ∷ hashes) m d =
      let (m', done, gets) =
        remove_drained_lem (suc start) hashes (Maps.remove x m)
          (rest-Draining start x hashes m d) in
      (
        m',
        rw (first start x hashes m d, remove_drained) done,
        λ h. ground (
          arith,
          gets h,
          Maps.get-remove x h m,
          CommitHash-eq.equals_iff x h,
          first start x hashes m d,
          d.ordered,
        ),
      )

module _ (m : HashMapper) (c : IsConsistent m) (len : ℕ) (inside : len ≤ length m.hashes) where
  drop-Draining : Draining len len (drop len m.hashes) m.indexes
  drop-Draining = record {
    ordered = omega arith;
    recorded = λ k h e. c.recorded h (len + k) (sym (get_elem?-drop len m.hashes k) ∙ e);
    located = λ h i e. elim (dec_lt i len) [
      | yes low ↦ inl low
      | no high ↦ inr (
        omega arith,
        get_elem?-drop len m.hashes (i - len)
            ∙ index_cong m.hashes (len + (i - len)) i (omega arith)
            ∙ c.located h i e,
      )
    ];
  }

  -- Truncation keeps the first hashes and exactly their entries.
  pub truncate_lem :
      (t : HashMapper) × (truncate m len ≡ returns t)
      × (t.hashes ≡ take len m.hashes)
      × ((h : CommitHash) → Maps.get h t.indexes ≡ below len (Maps.get h m.indexes))
  unfolding truncate
  truncate_lem =
      let (m', done, gets) =
        remove_drained_lem len len (drop len m.hashes) m.indexes drop-Draining in
      (
        record { hashes = take len m.hashes; indexes = m' },
        rw (leb_of_le len (length m.hashes) inside, done),
        refl,
        gets,
      )

  module _ (t : HashMapper) (kept : t.hashes ≡ take len m.hashes)
      (gets : (h : CommitHash) → Maps.get h t.indexes ≡ below len (Maps.get h m.indexes)) where
    kept-located :
        (h : CommitHash) (i : ℕ) → Maps.get h t.indexes ≡ some i → get_elem? t.hashes i ≡ some h
    kept-located h i e = rw kept (elim (Option-cases (Maps.get h m.indexes)) [
      | inl (j, found) ↦
          let low : j < len = ground (arith, gets h) in
          let same : j ≡ i = ground (arith, gets h) in
          rw same at (get_elem?-take len m.hashes j low ∙ c.located h j found)
      | inr missing ↦ absurd (ground (arith, gets h))
    ])

    kept-recorded :
        (h : CommitHash) (i : ℕ) → get_elem? t.hashes i ≡ some h → Maps.get h t.indexes ≡ some i
    kept-recorded h i e =
        let e' : get_elem? (take len m.hashes) i ≡ some h = rw kept at e in
        let low : i < len =
          omega (arith, lt-get_elem? (take len m.hashes) i e', length-take len m.hashes inside) in
        let found : Maps.get h m.indexes ≡ some i =
          c.recorded h i (sym (get_elem?-take len m.hashes i low) ∙ e') in
        ground (arith, gets h)

    kept-IsConsistent : IsConsistent t
    kept-IsConsistent = record { located = kept-located; recorded = kept-recorded }

  -- Truncating a consistent dictionary to a length that it has reached does not panic: it returns a
  -- consistent dictionary with the first hashes.
  pub truncate-IsConsistent :
      (t : HashMapper) × (truncate m len ≡ returns t)
      × (t.hashes ≡ take len m.hashes)
      × IsConsistent t
  truncate-IsConsistent =
      let (t, done, kept, gets) = truncate_lem in (t, done, kept, kept-IsConsistent t kept gets)
