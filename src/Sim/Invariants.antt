-- ===== src/Sim/Invariants.antt =====
-- sim/invariants.go, and the part of sim/harness.go (RunSimulation) that makes the report: the checks
-- of the repositories after a simulation. A repository is its table `blob` with what its queries
-- fail with, and with how many rows come before a listing breaks off: the code does not look at
-- rows.Err. No column is NULL, so Scan has no error.
pub mod Passes
pub mod Convergence
pub mod Counts
pub mod Report
pub mod Broken
use edge_sync.Base.{
  text_eq, member, Text, codes, join_with, ℕ, suc, ◌+◌, ◌⊎◌, inl, inr, ite, Bool, true, false, not,
  Option, none, some, List, [], ◌∷◌, ◌++◌, map, ltb, ◌==◌, if◌then◌else◌, length, keep, take, ℤ,
  pos, negsuc,
}
use edge_sync.Base.TextOrder.{
  text_leb, insert_by, sort_by, IsOrdered, All-insert_by, All-sort_by, sort_by-IsOrdered,
  sort_by-IsOrdered_id, keep-sort_by, map-sort_by, map-keep,
}

-- A phantom has a negative size.
pub record Blob : Type 0 where
  pub uuid : Text
  pub size : ℤ

pub data Query : Type 0 where
  list_blobs count_repeats : Query
  count_blob : Text → Query

pub record Repo : Type 0 where
  pub blobs : List Blob
  pub failure : Query → Option Text
  pub breaks : Query → Option ℕ

-- The rows that a loop over rows.Next gets.
unfoldable pub came : {A : Type 0} → Repo → Query → List A → List A
came r q rows = elim (r.breaks q) [ none ↦ rows | some n ↦ take n rows ]

pub record InvariantResult : Type 0 where
  pub name : Text
  pub passed : Bool
  pub details : Text

abbrev pub has_content : Blob → Bool
has_content b = elim (b.size) [ pos n ↦ true | negsuc n ↦ false ]

-- `SELECT uuid FROM blob WHERE size >= 0`.
unfoldable pub listed : Repo → List Text
unfolding came
listed r = came r list_blobs (map (λ b. b.uuid) (keep has_content r.blobs))

unfoldable pub is_row : Text → Blob → Bool
is_row u b = ite (text_eq b.uuid u) true false

-- `SELECT count(*) FROM blob WHERE uuid=?`.
unfoldable pub count_of : Text → Repo → ℕ
count_of u r = length (keep (is_row u) r.blobs)

-- The keys of a map that is filled with the texts.
unfoldable pub to_set : List Text → List Text
to_set [] = []
to_set (u ∷ us) = let set = to_set us in if member u set then set else u ∷ set

-- `GROUP BY uuid HAVING cnt > 1`, in the order of the groups.
unfoldable pub all_repeated : Repo → List Text
all_repeated r =
    keep (λ u. ltb 1 (count_of u r)) (sort_by (λ t. t) (to_set (map (λ b. b.uuid) r.blobs)))

unfoldable pub repeated : Repo → List Text
unfolding came
repeated r = came r count_repeats (all_repeated r)

-- `passes` is what a check gives without a difference.
abbrev pub conclude : Text → Text → List Text → List Text → InvariantResult
conclude name passes order diffs = elim diffs [
  | [] ↦ record { name = name; passed = true; details = passes }
  | d ∷ ds ↦ record { name = name; passed = false; details = join_with (10 ∷ []) order }
]

abbrev pub query_failed : Text → Text → InvariantResult
query_failed name details = record { name = name; passed = false; details = details }

abbrev pub Labelled : Type 0
Labelled = Text × Repo

-- The sets of all repositories, or the result for the first query that fails.
unfoldable pub load_sets : List Labelled → InvariantResult ⊎ List (Text × List Text)
load_sets [] = inr []
load_sets ((label, r) ∷ repos) = elim (r.failure list_blobs) [
  | some e ↦ inl (query_failed (codes "blob_convergence") (label ++ (codes ": query: " ++ e)))
  | none ↦ elim (load_sets repos) [
    | inl failed ↦ inl failed
    | inr sets ↦ inr ((label, to_set (listed r)) ∷ sets)
  ]
]

-- What a set lacks of the other, with a word between the label and the uuid.
unfoldable pub lacks : Text → Text → List Text → List Text → List Text
lacks label word set [] = []
lacks label word set (u ∷ us) =
    let rest = lacks label word set us in
    if member u set then rest else (label ++ (word ++ u)) ∷ rest

unfoldable pub set_diffs : List Text → List (Text × List Text) → List Text
set_diffs ref [] = []
set_diffs ref ((label, set) ∷ sets) =
    lacks label (codes " missing ") set ref
    ++ (lacks label (codes " has extra ") ref set ++ set_diffs ref sets)

abbrev pub in_front :
    Option InvariantResult → Option (List InvariantResult) → Option (List InvariantResult)
in_front none rest = none
in_front (some x) none = none
in_front (some x) (some xs) = some (x ∷ xs)

module _ (print : ℕ → Text) where
  unfoldable pub compare_sets : List (Text × List Text) → Option InvariantResult
  compare_sets [] = none
  compare_sets ((label, ref) ∷ sets) =
      let diffs = set_diffs ref sets in
      some (
        conclude (codes "blob_convergence")
          (codes "all "
            ++ (print (suc (length sets))
                ++ (codes " repos have " ++ (print (length ref) ++ codes " blobs"))))
          (sort_by (λ t. t) diffs) diffs)

  -- Each repository comes with its label. `none` stands for the panic on no repository.
  unfoldable pub check_blob_convergence : List Labelled → Option InvariantResult
  check_blob_convergence repos = elim (load_sets repos) [
    | inl failed ↦ some failed
    | inr sets ↦ compare_sets sets
  ]

  -- The repositories that have no row for the uuid, or whose query fails.
  unfoldable pub not_found : Text → List Labelled → List Text
  not_found u [] = []
  not_found u ((label, r) ∷ repos) =
      let rest = not_found u repos in
      let found : Bool = elim (r.failure (count_blob u)) [
        | some e ↦ false
        | none ↦ not (count_of u r == 0)
      ] in
      if found then rest else (label ++ (codes ": " ++ (u ++ codes " not found"))) ∷ rest

  unfoldable pub all_not_found : List Text → List Labelled → List Text
  all_not_found [] repos = []
  all_not_found (u ∷ us) repos = not_found u repos ++ all_not_found us repos

  abbrev pub all_present : ℕ → ℕ → Text
  all_present blobs repos =
      codes "all "
      ++ (print blobs ++ (codes " blobs present across " ++ (print repos ++ codes " repos")))

  unfoldable pub check_content_integrity : List Labelled → Option InvariantResult
  check_content_integrity [] = none
  check_content_integrity ((label, r) ∷ repos) = elim (r.failure list_blobs) [
    | some e ↦ some (query_failed (codes "content_integrity") (codes "query: " ++ e))
    | none ↦
        let diffs = all_not_found (listed r) repos in
        some (
          conclude (codes "content_integrity")
            (all_present (length (listed r)) (suc (length repos))) (sort_by (λ t. t) diffs) diffs)
  ]

  unfoldable pub repeat_diffs : List Labelled → List Text
  repeat_diffs [] = []
  repeat_diffs ((label, r) ∷ repos) = elim (r.failure count_repeats) [
    | some e ↦ (label ++ (codes ": query: " ++ e)) ∷ repeat_diffs repos
    | none ↦
        map
          (λ u.
            label
            ++ (codes ": "
                ++ (u ++ (codes " appears " ++ (print (count_of u r) ++ codes " times")))))
          (repeated r)
        ++ repeat_diffs repos
  ]

  unfoldable pub check_no_duplicates : List Labelled → InvariantResult
  check_no_duplicates repos =
      let diffs = repeat_diffs repos in conclude (codes "no_duplicates") [] diffs diffs

  -- The invariants of the report.
  unfoldable pub invariants : List Labelled → Option (List InvariantResult)
  invariants repos =
      in_front (check_blob_convergence repos)
        (in_front (check_content_integrity repos) (some (check_no_duplicates repos ∷ [])))

-- `SimReport.Failed`.
unfoldable pub failed : List InvariantResult → Bool
failed [] = false
failed (x ∷ xs) = let rest = failed xs in if not x.passed then true else rest

-- The repositories that RunSimulation checks: that of the server, then the leaves by their index.
unfoldable pub label_leaves : (ℕ → Text) → ℕ → List Repo → List Labelled
label_leaves print i [] = []
label_leaves print i (r ∷ rs) = (codes "leaf-" ++ print i, r) ∷ label_leaves print (i + 1) rs

unfoldable pub checked_repos : (ℕ → Text) → Repo → List Repo → List Labelled
checked_repos print server leaves = (codes "server", server) ∷ label_leaves print 0 leaves
