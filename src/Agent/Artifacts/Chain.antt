-- ===== src/Agent/Artifacts/Chain.antt =====
-- Commits of the agent chain onto the trunk, and what its methods say of an empty one.
use edge_sync.Base.{
  Text, is_empty, ℕ, ◌<◌, ◌≡◌, refl, subst, ◌≢◌, ◌⊎◌, inl, inr, false, none, some, [], arith,
  Option-cases,
}
use edge_sync.Agent.Artifacts.{
  at, no_rows, CommitOpts, Library, commit_failed, files_failed, Result, ok, err, trunk,
  resolve_commit_parent, commit_on, commit, files, tip,
}

-- What is relied on of libfossil: a commit without tags whose parent is the trunk's tip, or none where
-- the trunk has no rows, is the new tip, under the positive rid and the uuid that Commit returns.
pub record IsFossil (L : Library) : Type 0 where
  pub commit_at_tip :
      (o : CommitOpts) (s s' : L.State) (rid : ℕ) (uuid : Text)
      → L.commit o s ≡ some (rid, uuid, s')
      → o.tags ≡ []
      → (L.branch_tip trunk s ≡ at o.parent_id)
        ⊎ ((L.branch_tip trunk s ≡ no_rows) × (o.parent_id ≡ 0))
      → (L.branch_tip trunk s' ≡ at rid) × (L.uuid_from_rid rid s' ≡ some uuid) × (0 < rid)

module _ (L : Library) where
  -- The parent that an unset one resolves to is the trunk's tip, or 0 where there is none.
  resolved_parent :
      (s : L.State) (parent : ℕ)
      → resolve_commit_parent L 0 s ≡ ok parent
      → (L.branch_tip trunk s ≡ at parent) ⊎ ((L.branch_tip trunk s ≡ no_rows) × (parent ≡ 0))
  unfolding resolve_commit_parent
  resolved_parent s parent e = ground arith

  committed :
      (o : CommitOpts) (s s' : L.State) (uuid : Text) (r : Result ℕ)
      → commit_on L o s r ≡ (ok uuid, s')
      → (parent rid : ℕ) × (r ≡ ok parent)
        × (L.commit (record o { parent_id = parent }) s ≡ some (rid, uuid, s'))
  unfolding commit_on
  committed o s s' uuid (err x) e = cc
  committed o s s' uuid (ok parent) e =
      elim (Option-cases (L.commit (record o { parent_id = parent }) s)) [
        | inl p ↦ ground arith
        | inr ((rid, uuid', s''), p) ↦ (parent, rid, refl, ground arith)
      ]

-- A commit without tags and with no parent set, if it goes through, has the trunk's tip as its parent,
-- or none where the trunk has no rows, and is the new tip, which Tip gives with the uuid that Commit
-- returned.
pub commit-tip :
    (L : Library) (laws : IsFossil L) (o : CommitOpts) (s s' : L.State) (uuid : Text)
    → o.tags ≡ []
    → o.parent_id ≡ 0
    → commit L o s ≡ (ok uuid, s')
    → ((parent rid : ℕ) × (L.commit (record o { parent_id = parent }) s ≡ some (rid, uuid, s'))
        × ((L.branch_tip trunk s ≡ at parent) ⊎ ((L.branch_tip trunk s ≡ no_rows) × (parent ≡ 0)))
        × (L.branch_tip trunk s' ≡ at rid))
      × (tip L trunk s' ≡ ok uuid)
unfolding commit tip
commit-tip L laws o s s' uuid no_tags unset e =
    let on : commit_on L o s (resolve_commit_parent L o.parent_id s) ≡ (ok uuid, s') =
      ground arith in
    let (parent, rid, resolved, stored) = committed L o s s' uuid _ on in
    let from_tip =
      resolved_parent L s parent
        (subst (λ p. resolve_commit_parent L p s ≡ ok parent) unset resolved) in
    let (at_rid, named, positive) =
      laws.commit_at_tip (record o { parent_id = parent }) s s' rid uuid stored no_tags from_tip in
    ((parent, rid, stored, from_tip, at_rid), ground arith)

-- A parent that is set is used as it is, whatever the tip.
pub commit-parent :
    (L : Library) (o : CommitOpts) (s : L.State)
    → is_empty o.author ≡ false
    → o.parent_id ≢ 0
    → (commit L o s).0
      ≡ (elim (L.commit o s) [ none ↦ err commit_failed | some (rid, uuid, s') ↦ ok uuid ])
unfolding commit commit_on resolve_commit_parent
commit-parent L o s a p = ground arith

-- On a trunk without rows Tip gives the empty revision, and a commit gets no parent, but Files fails.
pub files-no_rows :
    (L : Library) (s : L.State)
    → L.branch_tip trunk s ≡ no_rows
    → (tip L trunk s ≡ ok [])
      × (resolve_commit_parent L 0 s ≡ ok 0)
      × (files L s ≡ err files_failed)
unfolding tip resolve_commit_parent files
files-no_rows L s e = (ground arith, ground arith, ground arith)
