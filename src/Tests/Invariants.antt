-- ===== src/Tests/Invariants.antt =====
-- The checks of a simulation at concrete repositories.
use edge_sync.Base.{
  text_eq, member, Text, codes, ℕ, ◌<◌, ◌≡◌, refl, ◌↔◌, Bool, true, false, Option, none, some, List,
  [], ◌∷◌, map, ℕ_discrete, keep, All, ℤ, pos, negsuc,
}
use edge_sync.Base.TextOrder.{text_leb, insert_by, sort_by}
use edge_sync.Sim.Invariants.{
  Blob, list_blobs, Repo, InvariantResult, listed, is_row, count_of, to_set, came, all_repeated,
  repeated, Labelled, load_sets, lacks, set_diffs, compare_sets, check_blob_convergence, not_found,
  all_not_found, check_content_integrity, repeat_diffs, check_no_duplicates, invariants,
  label_leaves, checked_repos,
}
use edge_sync.Sim.Invariants.Convergence.{Answers, Passed}
use edge_sync.Sim.Invariants.Counts.{Counts, check_content_integrity_lem}
use edge_sync.Sim.Invariants.Report.{IsSound, NotFailed, AllWhole, invariants_lem}

abbrev blob : ℕ → ℤ → Blob
blob u n = record { uuid = u ∷ []; size = n }

abbrev healthy : List Blob → Repo
healthy bs = record { blobs = bs; failure = λ q. none; breaks = λ q. none }

abbrev server : Repo
server = healthy (blob 1 (pos 3) ∷ blob 2 (pos 5) ∷ [])

-- The same contents in another order, with a phantom.
abbrev leaf : Repo
leaf = healthy (blob 9 (negsuc 0) ∷ blob 2 (pos 5) ∷ blob 1 (pos 3) ∷ [])

-- A phantom in place of a blob.
abbrev lacking : Repo
lacking = healthy (blob 1 (pos 3) ∷ blob 2 (negsuc 0) ∷ [])

abbrev print : ℕ → Text
print n = n ∷ []

abbrev labelled : List Labelled
labelled = checked_repos print server (leaf ∷ lacking ∷ [])

abbrev verdicts : Option (List InvariantResult) → List Bool
verdicts none = []
verdicts (some results) = map (λ r. r.passed) results

-- The check of contents takes the phantom for the blob; that of convergence does not.
phantom_taken : verdicts (invariants print labelled) ≡ false ∷ true ∷ true ∷ []
unfolding invariants checked_repos label_leaves check_blob_convergence load_sets compare_sets
    set_diffs lacks to_set listed came all_repeated keep check_content_integrity all_not_found
    not_found count_of is_row check_no_duplicates repeat_diffs repeated sort_by insert_by member
    text_eq ℕ_discrete text_leb
phantom_taken = refl

leaf_whole : AllWhole (checked_repos print server (leaf ∷ []))
unfolding checked_repos label_leaves
leaf_whole = (λ q. refl, (λ q. refl, tt))

invariants_lem_example :
    NotFailed (invariants print (checked_repos print server (leaf ∷ [])))
    ↔ IsSound (codes "server", server) (label_leaves print 0 (leaf ∷ []))
invariants_lem_example = invariants_lem print server (leaf ∷ []) leaf_whole

check_content_integrity_lem_example :
    Passed (check_content_integrity print ((codes "a", server) ∷ (codes "b", lacking) ∷ [])) ↔ (
      Answers list_blobs (codes "a", server)
      × All
          (λ u. All (λ y. Counts u y × (0 < count_of u y.1)) ((codes "b", lacking) ∷ []))
          (listed server))
check_content_integrity_lem_example =
    check_content_integrity_lem print (codes "a", server) ((codes "b", lacking) ∷ [])
