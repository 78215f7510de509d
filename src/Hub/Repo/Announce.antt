-- ===== src/Hub/Repo/Announce.antt =====
-- What one call of `publishNewCommits` sends, and where it leaves the watermark.
use edge_sync.Base.{
  ℕ, ◌≡◌, ◌≤◌, ◌<◌, refl, ap, All-and, inl, inr, List, [], ◌∷◌, ◌++◌, true, false, none, some, All,
  All-imp, All-append, Elem, Elem-append-right, Text, sym, ◌∙◌, append-nil, append_assoc, ◌&&◌, not,
  arith, Bool-cases, Option-cases,
}
use edge_sync.Base.Sorting.{IsStrict, IsStrict-snoc}
use edge_sync.Hub.Repo.Table.{
  Event, IsTable, Listed, checkins_above, checkins_above-IsStrict, checkins_above-bound,
  checkins_above-Listed, Elem-checkins_above,
}
use edge_sync.Hub.Repo.{Codec, Reply, Repo, publish_one, publish_each, publish_new_commits}

-- The announcements so far rise strictly in rid and lie at or below the watermark.
pub record IsOrdered (r : Repo) : Type 0 where
  pub strict : IsStrict (λ p. p.0) r.sent
  pub below : All (λ p. p.0 ≤ r.published_rid) r.sent

module _ (a : Reply) where
  -- The calls of `publish` for the new rids: those that have a uuid, in order.
  pub announced : List ℕ → List (ℕ × Text)
  announced [] = []
  announced (rid ∷ rids) = elim (a.uuid_from_rid rid) [
    | none ↦ announced rids
    | some uuid ↦ (rid, uuid) ∷ announced rids
  ]

  Elem-announced :
      (rid : ℕ) (uuid : Text) (rids : List ℕ)
      → a.uuid_from_rid rid ≡ some uuid
      → Elem rid rids
      → Elem (rid, uuid) (announced rids)
  unfolding announced
  Elem-announced rid uuid [] e m = absurd m
  Elem-announced rid uuid (x ∷ rids) e (inl h) =
      let named : a.uuid_from_rid x ≡ some uuid = rw h e in
      rw (named, announced) (inl (ap (λ n. (n, uuid)) h))
  Elem-announced rid uuid (x ∷ rids) e (inr m) =
      let rest = Elem-announced rid uuid rids e m in
      elim (Option-cases (a.uuid_from_rid x)) [
        | inl q ↦ rw (q, announced) rest
        | inr (u, q) ↦ rw (q, announced) (inr rest)
      ]

  announced-All :
      (P : ℕ → Type 0) (rids : List ℕ)
      → All P rids
      → All (λ p. P p.0 × (a.uuid_from_rid p.0 ≡ some p.1)) (announced rids)
  unfolding announced
  announced-All P [] h = tt
  announced-All P (x ∷ rids) h = elim (Option-cases (a.uuid_from_rid x)) [
    | inl q ↦ rw (q, announced) (announced-All P rids h.1)
    | inr (u, q) ↦ rw (q, announced) ((h.0, q), announced-All P rids h.1)
  ]

module _ (c : Codec) (a : Reply) where
  publish_one-IsOrdered :
      (rid : ℕ) (r : Repo) → r.published_rid < rid → IsOrdered r → IsOrdered (publish_one c a rid r)
  unfolding publish_one
  publish_one-IsOrdered rid r lt h = elim (Option-cases (a.uuid_from_rid rid)) [
    | inl e ↦ rw (e, publish_one) h
    | inr (uuid, e) ↦
        rw (e, publish_one)
          (record {
            strict =
                IsStrict-snoc (λ p. p.0) (rid, uuid) r.sent h.strict
                  (All-imp r.sent (λ p q. omega arith) h.below);
            below =
                All-append (λ p. p.0 ≤ rid) r.sent _ (All-imp r.sent (λ p q. omega arith) h.below)
                  (omega arith);
          })
  ]

  publish_one-between :
      (rid : ℕ) (r : Repo)
      → r.published_rid < rid
      → (r.published_rid ≤ (publish_one c a rid r).published_rid)
        × ((publish_one c a rid r).published_rid ≤ rid)
  unfolding publish_one
  publish_one-between rid r lt = ground arith

  publish_each-IsOrdered :
      (rids : List ℕ) (r : Repo)
      → IsStrict (λ n. n) rids
      → All (λ n. r.published_rid < n) rids
      → IsOrdered r
      → IsOrdered (publish_each c a rids r)
  unfolding publish_each
  publish_each-IsOrdered [] r s b h = h
  publish_each-IsOrdered (rid ∷ rids) r s b h =
      let move = publish_one-between rid r b.0 in
      publish_each-IsOrdered rids (publish_one c a rid r) s.1
        (All-imp rids (λ n lt. omega arith) s.0) (publish_one-IsOrdered rid r b.0 h)

  publish_each-events : (rids : List ℕ) (r : Repo) → (publish_each c a rids r).events ≡ r.events
  unfolding publish_each publish_one
  publish_each-events [] r = refl
  publish_each-events (rid ∷ rids) r =
      publish_each-events rids (publish_one c a rid r) ∙ ground arith

  publish_one-sent :
      (rid : ℕ) (r : Repo) → (publish_one c a rid r).sent ≡ r.sent ++ announced a (rid ∷ [])
  unfolding publish_one announced
  publish_one-sent rid r = ground (arith, append-nil r.sent)

  announced-cons :
      (rid : ℕ) (rids : List ℕ)
      → announced a (rid ∷ rids) ≡ announced a (rid ∷ []) ++ announced a rids
  unfolding announced
  announced-cons rid rids = ground arith

  pub publish_each-sent :
      (rids : List ℕ) (r : Repo) → (publish_each c a rids r).sent ≡ r.sent ++ announced a rids
  unfolding publish_each
  publish_each-sent [] r = unfold announced in (sym (append-nil r.sent))
  publish_each-sent (rid ∷ rids) r = rw (
    publish_each-sent rids (publish_one c a rid r),
    publish_one-sent rid r,
    announced-cons rid rids,
    append_assoc,
  )

  pub publish-events : (r : Repo) → (publish_new_commits c a r).events ≡ r.events
  unfolding publish_new_commits
  publish-events r = ground (arith, publish_each-events (checkins_above r.published_rid r.events) r)

  pub publish-IsOrdered :
      (r : Repo) → IsTable r.events → IsOrdered r → IsOrdered (publish_new_commits c a r)
  unfolding publish_new_commits
  publish-IsOrdered r t h =
      let rids = checkins_above r.published_rid r.events in
      let done =
        publish_each-IsOrdered rids r (checkins_above-IsStrict r.published_rid r.events t)
          (checkins_above-bound r.published_rid r.events) h in
      elim (Bool-cases (r.publish_wired && not a.query_fails)) [
        | inl e ↦ rw e done
        | inr e ↦ rw e h
      ]

  -- What a working call sends.
  abbrev pub new_announcements : Repo → List (ℕ × Text)
  new_announcements r = announced a (checkins_above r.published_rid r.events)

  module _ (r : Repo) (wired : r.publish_wired ≡ true) (answers : a.query_fails ≡ false) where
    pub publish-sent : (publish_new_commits c a r).sent ≡ r.sent ++ new_announcements r
    unfolding publish_new_commits
    publish-sent = ground (arith, publish_each-sent (checkins_above r.published_rid r.events) r)

    -- If the hook is wired and the events can be listed, every check-in above the watermark whose
    -- uuid can be read is announced by one call.
    pub publish_complete :
        (e : Event) (uuid : Text)
        → Elem e r.events
        → e.is_checkin ≡ true
        → r.published_rid < e.objid
        → a.uuid_from_rid e.objid ≡ some uuid
        → Elem (e.objid, uuid) (publish_new_commits c a r).sent
    publish_complete e uuid m ci lt named = rw publish-sent (
        Elem-append-right _ r.sent (new_announcements r) (
          Elem-announced a e.objid uuid _ named
            (Elem-checkins_above r.published_rid e r.events m ci lt)))

-- An announcement names a check-in of the table above the watermark, with its uuid.
abbrev pub IsGenuine : Reply → Repo → ℕ × Text → Type 0
IsGenuine a r p = (Listed r.events p.0 × (r.published_rid < p.0)) × (a.uuid_from_rid p.0 ≡ some p.1)

pub new_announcements-IsGenuine :
    (a : Reply) (r : Repo)
    → All (IsGenuine a r) (announced a (checkins_above r.published_rid r.events))
new_announcements-IsGenuine a r = announced-All a _ _ (
    All-and _ _ (checkins_above r.published_rid r.events)
      (checkins_above-Listed r.published_rid r.events)
      (checkins_above-bound r.published_rid r.events))
