-- ===== src/Sim/Invariants/Counts.antt =====
-- When the checks of contents and of duplicates pass.
use edge_sync.Base.{
  zero, none, take, text_eq, member, Text, codes, ℕ, suc, ◌≤◌, ◌<◌, ◌≡◌, refl, sym, ap, ◌∙◌, ◌↔◌,
  ◌⊎◌, inl, inr, if_pos, Bool, true, false, List, [], ◌∷◌, map, arith, ltb, Bool-cases, if_both,
  Option-cases, length, keep, All, All-imp, All-and, keep-eq-nil, keep-nil_of,
}
use edge_sync.Base.TextOrder.{sort_by, sort_by-eq-nil, keep-sort_by}
use edge_sync.Sim.Invariants.{
  Blob, Query, came, all_repeated, list_blobs, count_repeats, count_blob, Repo, has_content, listed,
  is_row, count_of, to_set, repeated, Labelled, not_found, all_not_found, all_present,
  check_content_integrity, repeat_diffs, check_no_duplicates,
}
use edge_sync.Sim.Invariants.Passes.{append-eq-nil, member-All, All-member, member-to_set}
use edge_sync.Sim.Invariants.Convergence.{Answers, Passed, conclude-passed, Converged}

-- A uuid with content has a row.
listed-count :
    (u : Text) (bs : List Blob)
    → member u (map (λ b. b.uuid) (keep has_content bs)) ≡ true
    → 0 < length (keep (is_row u) bs)
unfolding member keep is_row
listed-count u [] m = cc
listed-count u (b ∷ bs) m = elim (text_eq b.uuid u) [
  | yes e ↦ ground (arith, if_pos (text_eq b.uuid u) e true false)
  | no e ↦ elim (Bool-cases (has_content b)) [
    | inl c ↦ ground (arith, listed-count u bs)
    | inr c ↦ ground (arith, listed-count u bs)
  ]
]

member-take : (u : Text) (n : ℕ) (xs : List Text) → member u (take n xs) ≡ true → member u xs ≡ true
unfolding member
member-take u zero xs m = cc
member-take u (suc n) [] m = cc
member-take u (suc n) (x ∷ xs) m = ground (arith, member-take u n xs)

member-came :
    (u : Text) (r : Repo) (q : Query) (xs : List Text)
    → member u (came r q xs) ≡ true
    → member u xs ≡ true
unfolding came
member-came u r q xs m = elim (Option-cases (r.breaks q)) [
  | inl e ↦ ground arith
  | inr (n, e) ↦ member-take u n xs (ground arith)
]

-- All rows of the query come.
abbrev pub IsWhole : Query → Labelled → Type 0
IsWhole q x = x.1.breaks q ≡ none

member-listed-count : (u : Text) (r : Repo) → member u (listed r) ≡ true → 0 < count_of u r
unfolding listed count_of
member-listed-count u r m =
    listed-count u r.blobs
      (member-came u r list_blobs (map (λ b. b.uuid) (keep has_content r.blobs)) m)

List-cases : (xs : List Text) → (xs ≡ []) ⊎ ((y : Text) × (ys : List Text) × (xs ≡ y ∷ ys))
List-cases [] = inl refl
List-cases (y ∷ ys) = inr (y, ys, refl)

-- The repository answers how often it has the uuid.
abbrev pub Counts : Text → Labelled → Type 0
Counts u x = Answers (count_blob u) x

module _ (print : ℕ → Text) where
  not_found-nil_of :
      (u : Text) (repos : List Labelled)
      → All (λ x. Counts u x × (0 < count_of u x.1)) repos
      → not_found print u repos ≡ []
  unfolding not_found
  not_found-nil_of u [] h = refl
  not_found-nil_of u ((label, r) ∷ repos) h =
      ground (arith, h.0.0, h.0.1, not_found-nil_of u repos h.1)

  not_found-Counts :
      (u : Text) (repos : List Labelled)
      → not_found print u repos ≡ []
      → All (λ x. Counts u x × (0 < count_of u x.1)) repos
  unfolding not_found
  not_found-Counts u [] e = tt
  not_found-Counts u ((label, r) ∷ repos) e = elim (Option-cases (r.failure (count_blob u))) [
    | inl p ↦ ((p, ground arith), not_found-Counts u repos (ground arith))
    | inr (w, p) ↦ absurd (ground arith)
  ]

  all_not_found-Counts :
      (us : List Text) (repos : List Labelled)
      → all_not_found print us repos ≡ []
      → All (λ u. All (λ x. Counts u x × (0 < count_of u x.1)) repos) us
  unfolding all_not_found
  all_not_found-Counts [] repos e = tt
  all_not_found-Counts (u ∷ us) repos e =
      let (here, rest) = append-eq-nil (not_found print u repos) _ e in
      (not_found-Counts u repos here, all_not_found-Counts us repos rest)

  all_not_found-nil_of :
      (us : List Text) (repos : List Labelled)
      → All (λ u. All (λ x. Counts u x × (0 < count_of u x.1)) repos) us
      → all_not_found print us repos ≡ []
  unfolding all_not_found
  all_not_found-nil_of [] repos h = refl
  all_not_found-nil_of (u ∷ us) repos h =
      ground (arith, not_found-nil_of u repos h.0, all_not_found-nil_of us repos h.1)

  module _ (x : Labelled) (repos : List Labelled) where
    integrity-rows :
        Passed (check_content_integrity print (x ∷ repos))
        → Answers list_blobs x
          × All (λ u. All (λ y. Counts u y × (0 < count_of u y.1)) repos) (listed x.1)
    unfolding check_content_integrity
    integrity-rows p = elim (Option-cases (x.1.failure list_blobs)) [
      | inr (e, q) ↦ absurd (ground arith)
      | inl q ↦
          let diffs = all_not_found print (listed x.1) repos in
          let e : diffs ≡ [] =
            conclude-passed (codes "content_integrity")
              (all_present print (length (listed x.1)) (suc (length repos)))
              (sort_by (λ t. t) diffs) diffs (ground arith) in
          (q, all_not_found-Counts (listed x.1) repos e)
    ]

    rows-integrity :
        Answers list_blobs x
        → All (λ u. All (λ y. Counts u y × (0 < count_of u y.1)) repos) (listed x.1)
        → Passed (check_content_integrity print (x ∷ repos))
    unfolding check_content_integrity
    rows-integrity a h =
        let none' = all_not_found-nil_of (listed x.1) repos h in
        rw (a, check_content_integrity) (rw none' refl)

    -- The check of contents passes exactly if its queries go through and every uuid that comes in the
    -- listing of the first repository's content has a row in each other one, be it a phantom.
    pub check_content_integrity_lem : Passed (check_content_integrity print (x ∷ repos)) ↔ (
        Answers list_blobs x
        × All (λ u. All (λ y. Counts u y × (0 < count_of u y.1)) repos) (listed x.1))
    check_content_integrity_lem = (integrity-rows, λ h. rows-integrity h.0 h.1)

    pub check_content_integrity-Counts :
        Passed (check_content_integrity print (x ∷ repos))
        → All (λ u. All (Counts u) repos) (listed x.1)
    check_content_integrity-Counts p =
        All-imp (listed x.1) (λ u h. All-imp repos (λ y c. c.0) h) (integrity-rows p).1

    -- Where the contents agree, the check of contents adds only that its queries go through.
    pub Converged-check_content_integrity :
        Answers list_blobs x
        → Converged (x ∷ repos)
        → All (λ u. All (Counts u) repos) (listed x.1)
        → Passed (check_content_integrity print (x ∷ repos))
    Converged-check_content_integrity a same h =
        let rows : All (λ u. All (λ y. 0 < count_of u y.1) repos) (listed x.1) =
          All-imp (listed x.1)
            (λ u m. All-imp repos (λ y s. member-listed-count u y.1 (s u ∙ m)) same)
            (All-member (listed x.1)) in
        rows-integrity a (
          All-imp (listed x.1) (λ u p. All-and (Counts u) (λ y. 0 < count_of u y.1) repos p.0 p.1)
            (All-and _ _ (listed x.1) h rows))

-- No uuid has two rows.
abbrev pub NoRepeats : Repo → Type 0
NoRepeats r = All (λ b. count_of b.uuid r ≤ 1) r.blobs

abbrev is_repeated : Repo → Text → Bool
is_repeated r u = ltb 1 (count_of u r)

All-to_set : (P : Text → Type 0) (us : List Text) → All P us → All P (to_set us)
unfolding to_set
All-to_set P [] h = tt
All-to_set P (u ∷ us) h =
    if_both (All P) (member u (to_set us)) (All-to_set P us h.1) (h.0, All-to_set P us h.1)

module _ (P : Text → Type 0) where
  All-uuids : (bs : List Blob) → All P (map (λ b. b.uuid) bs) → All (λ b. P b.uuid) bs
  All-uuids [] h = tt
  All-uuids (b ∷ bs) h = (h.0, All-uuids bs h.1)

  uuids-All : (bs : List Blob) → All (λ b. P b.uuid) bs → All P (map (λ b. b.uuid) bs)
  uuids-All [] h = tt
  uuids-All (b ∷ bs) h = (h.0, uuids-All bs h.1)

module _ (r : Repo) where
  abbrev uuids : List Text
  uuids = map (λ b. b.uuid) r.blobs

  all_repeated-NoRepeats : all_repeated r ≡ [] → NoRepeats r
  unfolding all_repeated
  all_repeated-NoRepeats e =
      let kept : keep (is_repeated r) (to_set uuids) ≡ [] =
        sort_by-eq-nil (λ t. t) _
          (sym (keep-sort_by (λ t. t) (is_repeated r) (to_set uuids)) ∙ e) in
      let once = keep-eq-nil (is_repeated r) (to_set uuids) kept in
      All-uuids (λ u. count_of u r ≤ 1) r.blobs
        (All-imp uuids
          (λ u m.
            let no_repeat : is_repeated r u ≡ false =
              member-All (λ t. is_repeated r t ≡ false) u (to_set uuids) once
                (member-to_set u uuids ∙ m) in
            ground arith)
          (All-member uuids))

  NoRepeats-all_repeated : NoRepeats r → all_repeated r ≡ []
  unfolding all_repeated sort_by
  NoRepeats-all_repeated h =
      let once : All (λ u. is_repeated r u ≡ false) uuids =
        uuids-All (λ u. is_repeated r u ≡ false) r.blobs
          (All-imp r.blobs (λ b s. ground arith) h) in
      keep-sort_by (λ t. t) (is_repeated r) (to_set uuids)
      ∙ ap (sort_by (λ t. t)) (
          keep-nil_of (is_repeated r) (to_set uuids)
            (All-to_set (λ u. is_repeated r u ≡ false) uuids once))

  repeated_whole : r.breaks count_repeats ≡ none → repeated r ≡ all_repeated r
  unfolding repeated
  repeated_whole e = ground arith

  repeated-NoRepeats : r.breaks count_repeats ≡ none → repeated r ≡ [] → NoRepeats r
  repeated-NoRepeats w e = all_repeated-NoRepeats (sym (repeated_whole w) ∙ e)

  NoRepeats-repeated : r.breaks count_repeats ≡ none → NoRepeats r → repeated r ≡ []
  NoRepeats-repeated w h = repeated_whole w ∙ NoRepeats-all_repeated h

module _ (print : ℕ → Text) where
  repeat_diffs-eq-nil :
      (repos : List Labelled)
      → All (IsWhole count_repeats) repos
      → repeat_diffs print repos ≡ []
      → All (λ x. Answers count_repeats x × NoRepeats x.1) repos
  unfolding repeat_diffs
  repeat_diffs-eq-nil [] w e = tt
  repeat_diffs-eq-nil ((label, r) ∷ repos) w e = elim (Option-cases (r.failure count_repeats)) [
    | inr (x, p) ↦ absurd (ground arith)
    | inl p ↦ elim (List-cases (repeated r)) [
      | inl q ↦ ((p, repeated-NoRepeats r w.0 q), repeat_diffs-eq-nil repos w.1 (ground arith))
      | inr (u, us, q) ↦ absurd (ground arith)
    ]
  ]

  repeat_diffs-nil_of :
      (repos : List Labelled)
      → All (IsWhole count_repeats) repos
      → All (λ x. Answers count_repeats x × NoRepeats x.1) repos
      → repeat_diffs print repos ≡ []
  unfolding repeat_diffs
  repeat_diffs-nil_of [] w h = refl
  repeat_diffs-nil_of ((label, r) ∷ repos) w h =
      let (answered, once) = h.0 in
      ground (arith, NoRepeats-repeated r w.0 once, repeat_diffs-nil_of repos w.1 h.1)

  pub check_no_duplicates-NoRepeats :
      (repos : List Labelled)
      → All (IsWhole count_repeats) repos
      → (check_no_duplicates print repos).passed ≡ true
      → All (λ x. Answers count_repeats x × NoRepeats x.1) repos
  unfolding check_no_duplicates
  check_no_duplicates-NoRepeats repos w e =
      let diffs = repeat_diffs print repos in
      repeat_diffs-eq-nil repos w (conclude-passed (codes "no_duplicates") [] diffs diffs e)

  pub NoRepeats-check_no_duplicates :
      (repos : List Labelled)
      → All (IsWhole count_repeats) repos
      → All (λ x. Answers count_repeats x × NoRepeats x.1) repos
      → (check_no_duplicates print repos).passed ≡ true
  unfolding check_no_duplicates
  NoRepeats-check_no_duplicates repos w h = rw (repeat_diffs-nil_of repos w h) refl
