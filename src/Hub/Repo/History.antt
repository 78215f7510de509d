-- ===== src/Hub/Repo/History.antt =====
-- Whole histories of commits, xfer requests, catchups and restarts: what is announced over the
-- life of a repository file.
use edge_sync.Base.{
  ℕ, ◌≡◌, refl, sym, subst, inl, inr, List, [], ◌∷◌, true, false, none, some, All, arith,
  Bool-cases, Option-cases, is_empty,
}
use edge_sync.Base.Sorting.{IsStrict}
use edge_sync.Hub.Repo.Table.{
  Event, IsTable, put_events, put_events-IsTable, max_checkin, checkins_above,
}
use edge_sync.Hub.Repo.Announce.{IsOrdered, publish-IsOrdered, publish-events}
use edge_sync.Hub.Repo.{
  Codec, ReadsBack, Reply, Repo, CommitOpts, Op, commits, xfers, catches_up, restarts, publish_one,
  publish_each, publish_new_commits, commit, serve_xfer, restart, step, run, to_lib_opts,
}

-- libfossil reads and writes the config row without an error.
pub record IsHealthy (a : Reply) : Type 0 where
  pub reads : a.read_config_fails ≡ false
  pub writes : (rid : ℕ) → a.set_config_fails rid ≡ false

-- Every reply of the history is healthy.
abbrev pub AllHealthy : List (Reply × Op) → Type 0
AllHealthy = All (λ o. IsHealthy o.0)

module _ (c : Codec) where
  -- The table has its key, the announcements are in order, the row holds the watermark.
  pub record IsDurable (r : Repo) : Type 0 where
    pub table : IsTable r.events
    pub ordered : IsOrdered r
    pub row : r.watermark_row ≡ some (c.format_int r.published_rid)

  module _ (a : Reply) (healthy : IsHealthy a) where
    publish_one-row :
        (rid : ℕ) (r : Repo)
        → r.watermark_row ≡ some (c.format_int r.published_rid)
        → (publish_one c a rid r).watermark_row
          ≡ some (c.format_int (publish_one c a rid r).published_rid)
    unfolding publish_one
    publish_one-row rid r h = ground (arith, healthy.writes rid)

    publish_each-row :
        (rids : List ℕ) (r : Repo)
        → r.watermark_row ≡ some (c.format_int r.published_rid)
        → (publish_each c a rids r).watermark_row
          ≡ some (c.format_int (publish_each c a rids r).published_rid)
    unfolding publish_each
    publish_each-row [] r h = h
    publish_each-row (rid ∷ rids) r h =
        publish_each-row rids (publish_one c a rid r) (publish_one-row rid r h)

    publish-row :
        (r : Repo)
        → r.watermark_row ≡ some (c.format_int r.published_rid)
        → (publish_new_commits c a r).watermark_row
          ≡ some (c.format_int (publish_new_commits c a r).published_rid)
    unfolding publish_new_commits
    publish-row r h = ground (arith, publish_each-row (checkins_above r.published_rid r.events) r h)

    pub publish-IsDurable : (r : Repo) → IsDurable r → IsDurable (publish_new_commits c a r)
    publish-IsDurable r h = record {
      table = subst IsTable (sym (publish-events c a r)) h.table;
      ordered = publish-IsOrdered c a r h.table h.ordered;
      row = publish-row r h.row;
    }

    land-IsDurable :
        (landed : List Event) (r : Repo)
        → IsDurable r
        → IsDurable (record r { events = put_events landed r.events })
    land-IsDurable landed r h = record {
      table = put_events-IsTable landed r.events h.table;
      ordered = record { strict = h.ordered.strict; below = h.ordered.below };
      row = h.row;
    }

    restart-watermark :
        ReadsBack c → (r : Repo) → IsDurable r → (restart c a r ≡ record r { publish_wired = true })
    unfolding restart
    restart-watermark back r h = ground (arith, h.row, healthy.reads, back r.published_rid)

    commit-IsDurable : (o : CommitOpts) (r : Repo) → IsDurable r → IsDurable (commit c a o r).0
    unfolding commit
    commit-IsDurable o r h = elim (Bool-cases (is_empty o.author)) [
      | inl e ↦ rw e h
      | inr e ↦ elim (Option-cases (a.lib_commit (to_lib_opts o))) [
        | inl q ↦ rw (e, q, commit) h
        | inr ((rid, uuid), q) ↦ rw (e, q, commit) (publish-IsDurable _ (land-IsDurable _ r h))
      ]
    ]

    -- Every operation keeps the announcements in order and the config row at the watermark.
    pub step-IsDurable :
        ReadsBack c → (op : Op) (r : Repo) → IsDurable r → IsDurable (step c (a, op) r)
    unfolding step serve_xfer
    step-IsDurable back (commits o) r h = commit-IsDurable o r h
    step-IsDurable back (xfers landed) r h = publish-IsDurable _ (land-IsDurable landed r h)
    step-IsDurable back catches_up r h = publish-IsDurable r h
    step-IsDurable back restarts r h = subst IsDurable (sym (restart-watermark back r h)) (record {
      table = h.table;
      ordered = record { strict = h.ordered.strict; below = h.ordered.below };
      row = h.row;
    })

    restart_cold :
        (r : Repo)
        → r.watermark_row ≡ none
        → a.max_query_fails ≡ false
        → let top = max_checkin r.events in
          restart c a r ≡ record r {
            published_rid = top;
            watermark_row = some (c.format_int top);
            publish_wired = true;
          }
    unfolding restart
    restart_cold r row answers =
        ground (arith, healthy.reads, healthy.writes (max_checkin r.events))

    -- The first start of a hub on a repository file, which has no config row yet.
    pub restart_cold-IsDurable :
        (r : Repo)
        → IsTable r.events
        → r.watermark_row ≡ none
        → r.sent ≡ []
        → a.max_query_fails ≡ false
        → IsDurable (restart c a r)
    restart_cold-IsDurable r t row quiet answers =
        subst IsDurable (sym (restart_cold r row answers)) (record {
          table = t;
          ordered = record { strict = rw quiet tt; below = rw quiet tt };
          row = refl;
        })

  pub run-IsDurable :
      ReadsBack c
      → (ops : List (Reply × Op)) (r : Repo) → AllHealthy ops
      → IsDurable r
      → IsDurable (run c ops r)
  unfolding run
  run-IsDurable back [] r ok h = h
  run-IsDurable back ((a, op) ∷ ops) r ok h =
      run-IsDurable back ops (step c (a, op) r) ok.1 (step-IsDurable a ok.0 back op r h)

  -- Over any history of commits, xfer requests, catchups and restarts of the hub, from its first
  -- start on, over a table without repeated rids, if the greatest check-in can be queried at that start,
  -- printed rids are parsed back and the config row can be read and written throughout, no commit is announced twice, and the
  -- announcements go out in rid order.
  pub run-IsStrict :
      ReadsBack c
      → (a : Reply) (ops : List (Reply × Op)) (r : Repo) → IsHealthy a
      → a.max_query_fails ≡ false
      → AllHealthy ops
      → IsTable r.events
      → r.watermark_row ≡ none
      → r.sent ≡ []
      → IsStrict (λ p. p.0) (run c ops (restart c a r)).sent
  run-IsStrict back a ops r ha answers hs t row quiet =
      (run-IsDurable back ops (restart c a r) hs
        (restart_cold-IsDurable a ha r t row quiet answers)).ordered.strict
