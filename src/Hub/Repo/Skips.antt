-- ===== src/Hub/Repo/Skips.antt =====
-- Announcements are never taken back, and what follows for a rid that the loop skips.
use edge_sync.Base.{
  ℕ, ◌≡◌, ◌<◌, ◌≤◌, sym, ◌∙◌, subst, inl, inr, List, [], ◌∷◌, ◌++◌, true, false, none, some, Elem,
  Elem-All, Elem-append-right, Text, arith, Bool-cases, Option-cases, append-nil, append_assoc,
  is_empty, ◌&&◌, not, ◌⊎◌,
}
use edge_sync.Base.Sorting.{IsStrict}
use edge_sync.Hub.Repo.Table.{Event, checkins_above, put_events}
use edge_sync.Hub.Repo.Announce.{
  publish-sent, publish_complete, publish_each-sent, announced, new_announcements-IsGenuine,
  IsGenuine,
}
use edge_sync.Hub.Repo.History.{IsDurable, IsHealthy, AllHealthy, run-IsDurable, publish-IsDurable}
use edge_sync.Hub.Repo.{
  Codec, ReadsBack, Reply, Repo, CommitOpts, Op, commits, xfers, catches_up, restarts,
  publish_new_commits, commit, serve_xfer, restart, step, run, to_lib_opts,
}

-- The later list goes on from the earlier one.
abbrev pub GoesOn : List (ℕ × Text) → List (ℕ × Text) → Type 0
GoesOn xs ys = (more : List (ℕ × Text)) × (ys ≡ xs ++ more)

GoesOn-refl : (xs : List (ℕ × Text)) → GoesOn xs xs
GoesOn-refl xs = ([], sym (append-nil xs))

GoesOn-trans : (xs ys zs : List (ℕ × Text)) → GoesOn xs ys → GoesOn ys zs → GoesOn xs zs
GoesOn-trans xs ys zs (m, p) (n, q) = (m ++ n, q ∙ (rw p (append_assoc xs m n)))

module _ (c : Codec) (a : Reply) where
  publish-GoesOn : (r : Repo) → GoesOn r.sent (publish_new_commits c a r).sent
  unfolding publish_new_commits
  publish-GoesOn r =
      let rids = checkins_above r.published_rid r.events in
      elim (Bool-cases (r.publish_wired && not a.query_fails)) [
        | inl e ↦ rw e (announced a rids, publish_each-sent c a rids r)
        | inr e ↦ rw e (GoesOn-refl r.sent)
      ]

  restart-sent : (r : Repo) → (restart c a r).sent ≡ r.sent
  unfolding restart
  restart-sent r = ground arith

  commit-GoesOn : (o : CommitOpts) (r : Repo) → GoesOn r.sent (commit c a o r).0.sent
  unfolding commit
  commit-GoesOn o r = elim (Bool-cases (is_empty o.author)) [
    | inl e ↦ rw e (GoesOn-refl r.sent)
    | inr e ↦ elim (Option-cases (a.lib_commit (to_lib_opts o))) [
      | inl q ↦ rw (e, q, commit) (GoesOn-refl r.sent)
      | inr ((rid, uuid), q) ↦
          rw (e, q, commit)
            (publish-GoesOn (record r {
              events = put_events (record { objid = rid; is_checkin = true } ∷ []) r.events;
            }))
    ]
  ]

  step-GoesOn : (op : Op) (r : Repo) → GoesOn r.sent (step c (a, op) r).sent
  unfolding step serve_xfer
  step-GoesOn (commits o) r = commit-GoesOn o r
  step-GoesOn (xfers landed) r = publish-GoesOn (record r { events = put_events landed r.events })
  step-GoesOn catches_up r = publish-GoesOn r
  step-GoesOn restarts r = subst (GoesOn r.sent) (sym (restart-sent r)) (GoesOn-refl r.sent)

run-GoesOn : (c : Codec) (ops : List (Reply × Op)) (r : Repo) → GoesOn r.sent (run c ops r).sent
unfolding run
run-GoesOn c [] r = GoesOn-refl r.sent
run-GoesOn c ((a, op) ∷ ops) r =
    GoesOn-trans r.sent (step c (a, op) r).sent _ (step-GoesOn c a op r)
      (run-GoesOn c ops (step c (a, op) r))

Elem-append-cases :
    (p : ℕ × Text) (xs ys : List (ℕ × Text)) → Elem p (xs ++ ys) → Elem p xs ⊎ Elem p ys
Elem-append-cases p [] ys m = inr m
Elem-append-cases p (x ∷ xs) ys (inl e) = inl (inl e)
Elem-append-cases p (x ∷ xs) ys (inr m) = elim (Elem-append-cases p xs ys m) [
  | inl h ↦ inl (inr h)
  | inr h ↦ inr h
]

IsStrict-append :
    (p q : ℕ × Text) (xs ys : List (ℕ × Text))
    → IsStrict (λ t. t.0) (xs ++ ys)
    → Elem p xs
    → Elem q ys
    → p.0 < q.0
IsStrict-append p q [] ys s m n = absurd m
IsStrict-append p q (x ∷ xs) ys s (inl e) n =
    subst (λ (t : ℕ × Text). t.0 < q.0) e
      (Elem-All (λ t. x.0 < t.0) q (xs ++ ys) s.0 (Elem-append-right q xs ys n))
IsStrict-append p q (x ∷ xs) ys s (inr m) n = IsStrict-append p q xs ys s.1 m n

module _ (c : Codec) (back : ReadsBack c) (a : Reply) (healthy : IsHealthy a) (r : Repo)
    (durable : IsDurable c r) (wired : r.publish_wired ≡ true)
    (answers : a.query_fails ≡ false) where
  not_sent_before : (rid : ℕ) (uuid : Text) → r.published_rid < rid → ¬ Elem (rid, uuid) r.sent
  not_sent_before rid uuid lt m =
      let old : rid ≤ r.published_rid =
        Elem-All (λ p. p.0 ≤ r.published_rid) (rid, uuid) r.sent durable.ordered.below m in
      omega arith

  not_sent_now :
      (rid : ℕ) (uuid : Text)
      → a.uuid_from_rid rid ≡ none
      → ¬ Elem (rid, uuid) (announced a (checkins_above r.published_rid r.events))
  not_sent_now rid uuid unknown m =
      let told = (Elem-All (IsGenuine a r) (rid, uuid) _ (new_announcements-IsGenuine a r) m).1 in
      ground arith

  -- From a well-formed state, as long as the config row can be read and written: a check-in whose
  -- uuid cannot be read while a later one is announced in the same call is not announced by that
  -- call, nor in any history that follows, restarts included.
  pub skipped_forever :
      (rid : ℕ) (later : Event) (uuid uuid' : Text) (ops : List (Reply × Op))
      → r.published_rid < rid
      → a.uuid_from_rid rid ≡ none
      → rid < later.objid
      → Elem later r.events
      → later.is_checkin ≡ true
      → a.uuid_from_rid later.objid ≡ some uuid'
      → AllHealthy ops
      → ¬ Elem (rid, uuid) (run c ops (publish_new_commits c a r)).sent
  skipped_forever rid later uuid uuid' ops lt unknown gap m ci named hs found =
      let r₁ = publish_new_commits c a r in
      let (more, e) = run-GoesOn c ops r₁ in
      let strict : IsStrict (λ p. p.0) (r₁.sent ++ more) =
        subst (IsStrict (λ p. p.0)) e
          (run-IsDurable c back ops r₁ hs
            (publish-IsDurable c a healthy r durable)).ordered.strict in
      let sent : Elem (later.objid, uuid') r₁.sent =
        publish_complete c a r wired answers later uuid' m ci (omega arith) named in
      elim (Elem-append-cases (rid, uuid) r₁.sent more (subst (Elem (rid, uuid)) e found)) [
        | inr late ↦
            let wrong : later.objid < rid =
              IsStrict-append (later.objid, uuid') (rid, uuid) r₁.sent more strict sent late in
            omega arith
        | inl early ↦
            elim (Elem-append-cases (rid, uuid) r.sent _
              (subst (Elem (rid, uuid)) (publish-sent c a r wired answers) early)) [
                | inl old ↦ not_sent_before rid uuid lt old
                | inr new ↦ not_sent_now rid uuid unknown new
              ]
      ]
