-- ===== src/Sim/Invariants/Convergence.antt =====
-- When the check of convergence passes.
use edge_sync.Base.{
  member, Text, codes, ℕ, ◌≡◌, refl, sym, subst, ◌∙◌, ◌⊎◌, inl, inr, true, false, Option, none,
  some, List, [], ◌∷◌, ◌++◌, arith, Option-cases, All, All-imp,
}
use edge_sync.Sim.Invariants.{
  Query, list_blobs, Repo, InvariantResult, listed, to_set, conclude, query_failed, Labelled,
  load_sets, lacks, set_diffs, compare_sets, check_blob_convergence,
}
use edge_sync.Sim.Invariants.Passes.{
  append-eq-nil, All-member, member-to_set, lacks-eq-nil, lacks-nil_of, SameTexts, SameTexts-of,
}

abbrev pub Answers : Query → Labelled → Type 0
Answers q x = x.1.failure q ≡ none

abbrev pub Passed : Option InvariantResult → Type 0
Passed none = ⊥
Passed (some x) = x.passed ≡ true

pub conclude-passed :
    (name passes : Text) (order diffs : List Text)
    → (conclude name passes order diffs).passed ≡ true
    → diffs ≡ []
conclude-passed name passes order [] e = refl
conclude-passed name passes order (d ∷ ds) e = cc

-- The set of each repository.
abbrev sets_of : List Labelled → List (Text × List Text)
sets_of [] = []
sets_of ((label, r) ∷ repos) = (label, to_set (listed r)) ∷ sets_of repos

load_sets_answered :
    (repos : List Labelled) → All (Answers list_blobs) repos → load_sets repos ≡ inr (sets_of repos)
unfolding load_sets
load_sets_answered [] h = refl
load_sets_answered ((label, r) ∷ repos) h = ground (arith, h.0, load_sets_answered repos h.1)

-- Either every query went through, or the result is that of one that did not.
load_sets_cases :
    (repos : List Labelled)
    → All (Answers list_blobs) repos
      ⊎ ((x : InvariantResult) × (load_sets repos ≡ inl x) × (x.passed ≡ false))
unfolding load_sets
load_sets_cases [] = inl tt
load_sets_cases ((label, r) ∷ repos) = elim (Option-cases (r.failure list_blobs)) [
  | inr (e, p) ↦ inr (
    query_failed (codes "blob_convergence") (label ++ (codes ": query: " ++ e)),
    ground arith,
    refl,
  )
  | inl p ↦ elim (load_sets_cases repos) [
    | inl all ↦ inl (p, all)
    | inr (x, q, f) ↦ inr (x, ground arith, f)
  ]
]

-- Every set has the texts of the first.
abbrev SetsAgree : List Text → List (Text × List Text) → Type 0
SetsAgree ref sets = All (λ s. SameTexts s.1 ref) sets

set_diffs-eq-nil :
    (ref : List Text) (sets : List (Text × List Text))
    → set_diffs ref sets ≡ []
    → SetsAgree ref sets
unfolding set_diffs
set_diffs-eq-nil ref [] e = tt
set_diffs-eq-nil ref ((label, set) ∷ sets) e =
    let (missing, rest) = append-eq-nil (lacks label (codes " missing ") set ref) _ e in
    let (extra, more) = append-eq-nil (lacks label (codes " has extra ") ref set) _ rest in
    (
      SameTexts-of set ref (lacks-eq-nil _ _ set ref missing) (lacks-eq-nil _ _ ref set extra),
      set_diffs-eq-nil ref sets more,
    )

set_diffs-nil_of :
    (ref : List Text) (sets : List (Text × List Text))
    → SetsAgree ref sets
    → set_diffs ref sets ≡ []
unfolding set_diffs
set_diffs-nil_of ref [] h = refl
set_diffs-nil_of ref ((label, set) ∷ sets) h =
    let all : All (λ u. member u set ≡ true) ref =
      All-imp ref (λ u m. h.0 u ∙ m) (All-member ref) in
    let back : All (λ u. member u ref ≡ true) set =
      All-imp set (λ u m. sym (h.0 u) ∙ m) (All-member set) in
    let missing = lacks-nil_of label (codes " missing ") set ref all in
    let extra = lacks-nil_of label (codes " has extra ") ref set back in
    ground (arith, set_diffs-nil_of ref sets h.1)

-- Every repository has the content of the first.
abbrev pub Converged : List Labelled → Type 0
Converged [] = ⊥
Converged ((label, r) ∷ repos) = All (λ x. SameTexts (listed x.1) (listed r)) repos

SetsAgree-of :
    (r : Repo) (repos : List Labelled)
    → All (λ x. SameTexts (listed x.1) (listed r)) repos
    → SetsAgree (to_set (listed r)) (sets_of repos)
SetsAgree-of r [] h = tt
SetsAgree-of r ((label, x) ∷ repos) h = (
  λ u. member-to_set u (listed x) ∙ h.0 u ∙ sym (member-to_set u (listed r)),
  SetsAgree-of r repos h.1,
)

SetsAgree→Converged :
    (r : Repo) (repos : List Labelled)
    → SetsAgree (to_set (listed r)) (sets_of repos)
    → All (λ x. SameTexts (listed x.1) (listed r)) repos
SetsAgree→Converged r [] h = tt
SetsAgree→Converged r ((label, x) ∷ repos) h = (
  λ u. sym (member-to_set u (listed x)) ∙ h.0 u ∙ member-to_set u (listed r),
  SetsAgree→Converged r repos h.1,
)

module _ (print : ℕ → Text) where
  pub check_blob_convergence-Converged :
      (x : Labelled) (repos : List Labelled)
      → Passed (check_blob_convergence print (x ∷ repos))
      → All (Answers list_blobs) (x ∷ repos) × Converged (x ∷ repos)
  unfolding check_blob_convergence compare_sets
  check_blob_convergence-Converged x repos p = elim (load_sets_cases (x ∷ repos)) [
    | inr (y, e, f) ↦ absurd (ground arith)
    | inl all ↦
        let e = load_sets_answered (x ∷ repos) all in
        let diffs = set_diffs (to_set (listed x.1)) (sets_of repos) in
        (
          all,
          SetsAgree→Converged x.1 repos (
              set_diffs-eq-nil _ _ (
                conclude-passed _ _ _ diffs (
                  subst (λ s. Passed (elim s [ inl y ↦ some y | inr ss ↦ compare_sets print ss ])) e
                    p))),
        )
  ]

  pub Converged-check_blob_convergence :
      (x : Labelled) (repos : List Labelled)
      → All (Answers list_blobs) (x ∷ repos)
      → Converged (x ∷ repos)
      → Passed (check_blob_convergence print (x ∷ repos))
  unfolding check_blob_convergence compare_sets
  Converged-check_blob_convergence x repos all same =
      let e = load_sets_answered (x ∷ repos) all in
      let none' = set_diffs-nil_of _ _ (SetsAgree-of x.1 repos same) in
      rw (e, check_blob_convergence) (rw none' refl)
