-- ===== src/Sim/Invariants/Report.antt =====
-- When the report of a simulation is not failed.
use edge_sync.Base.{
  Text, codes, ℕ, ◌≡◌, ◌↔◌, true, false, Option, none, some, List, [], ◌∷◌, arith, All, All-imp,
  All-and,
}
use edge_sync.Sim.Invariants.{
  Query, list_blobs, count_repeats, Repo, InvariantResult, listed, Labelled, in_front,
  check_blob_convergence, check_content_integrity, check_no_duplicates, invariants, failed,
  label_leaves, checked_repos,
}
use edge_sync.Sim.Invariants.Convergence.{
  Answers, Passed, Converged, check_blob_convergence-Converged, Converged-check_blob_convergence,
}
use edge_sync.Sim.Invariants.Counts.{
  Counts, IsWhole, check_content_integrity-Counts, Converged-check_content_integrity, NoRepeats,
  check_no_duplicates-NoRepeats, NoRepeats-check_no_duplicates,
}

-- The queries of the checks go through; the contents of all repositories are those of the server; no
-- uuid has two rows in a repository.
pub record IsSound (server : Labelled) (leaves : List Labelled) : Type 0 where
  pub listing : All (Answers list_blobs) (server ∷ leaves)
  pub counting : All (λ u. All (Counts u) leaves) (listed server.1)
  pub grouping : All (Answers count_repeats) (server ∷ leaves)
  pub converged : Converged (server ∷ leaves)
  pub unique : All (λ x. NoRepeats x.1) (server ∷ leaves)

All-parts :
    {A : Type 0} (P Q : A → Type 0) (xs : List A) → All (λ x. P x × Q x) xs → All P xs × All Q xs
All-parts P Q [] h = (tt, tt)
All-parts P Q (x ∷ xs) h = let (ps, qs) = All-parts P Q xs h.1 in ((h.0.0, ps), (h.0.1, qs))

-- There is a report, and it is not failed.
abbrev pub NotFailed : Option (List InvariantResult) → Type 0
NotFailed none = ⊥
NotFailed (some results) = failed results ≡ false

-- The three results of such a report.
gathered :
    (o p : Option InvariantResult) (x : InvariantResult)
    → NotFailed (in_front o (in_front p (some (x ∷ []))))
    → Passed o × Passed p × (x.passed ≡ true)
unfolding failed
gathered none p x f = absurd f
gathered (some a) none x f = absurd f
gathered (some a) (some b) x f = ground arith

gather :
    (o p : Option InvariantResult) (x : InvariantResult)
    → Passed o
    → Passed p
    → x.passed ≡ true
    → NotFailed (in_front o (in_front p (some (x ∷ []))))
unfolding failed
gather none p x h k l = h
gather (some a) none x h k l = k
gather (some a) (some b) x h k l = ground arith

module _ (print : ℕ → Text) (server : Labelled) (leaves : List Labelled)
    (whole : All (IsWhole count_repeats) (server ∷ leaves)) where
  invariants-IsSound : NotFailed (invariants print (server ∷ leaves)) → IsSound server leaves
  unfolding invariants
  invariants-IsSound f =
      let (converges, integral, unrepeated) =
        gathered (check_blob_convergence print (server ∷ leaves))
          (check_content_integrity print (server ∷ leaves))
          (check_no_duplicates print (server ∷ leaves)) f in
      let (listing, same) = check_blob_convergence-Converged print server leaves converges in
      let counts = check_content_integrity-Counts print server leaves integral in
      let (grouping, unique) =
        All-parts (Answers count_repeats) (λ x. NoRepeats x.1) (server ∷ leaves)
          (check_no_duplicates-NoRepeats print (server ∷ leaves) whole unrepeated) in
      record {
        listing = listing;
        counting = counts;
        grouping = grouping;
        converged = same;
        unique = unique;
      }

  IsSound-invariants : IsSound server leaves → NotFailed (invariants print (server ∷ leaves))
  unfolding invariants
  IsSound-invariants s =
      gather (check_blob_convergence print (server ∷ leaves))
        (check_content_integrity print (server ∷ leaves))
        (check_no_duplicates print (server ∷ leaves))
        (Converged-check_blob_convergence print server leaves s.listing s.converged)
        (Converged-check_content_integrity print server leaves s.listing.0 s.converged s.counting)
        (NoRepeats-check_no_duplicates print (server ∷ leaves) whole (
          All-and (Answers count_repeats) (λ x. NoRepeats x.1) (server ∷ leaves) s.grouping
            s.unique))

-- All rows of every listing come.
abbrev pub AllWhole : List Labelled → Type 0
AllWhole = All (λ x. (q : Query) → IsWhole q x)

-- If no listing breaks off, RunSimulation gives a report that is not failed exactly if the queries of its checks go through,
-- every leaf has the uuids with content of the server and no others, and no repository has two rows
-- for a uuid.
pub invariants_lem :
    (print : ℕ → Text) (server : Repo) (leaves : List Repo)
    → AllWhole (checked_repos print server leaves)
    → NotFailed (invariants print (checked_repos print server leaves))
      ↔ IsSound (codes "server", server) (label_leaves print 0 leaves)
unfolding checked_repos
invariants_lem print server leaves whole =
    let grouped = All-imp (checked_repos print server leaves) (λ x w. w count_repeats) whole in
    (
      invariants-IsSound print (codes "server", server) (label_leaves print 0 leaves) grouped,
      IsSound-invariants print (codes "server", server) (label_leaves print 0 leaves) grouped,
    )
