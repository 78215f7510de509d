-- ===== src/Hub/Repo.antt =====
-- hub/repo.go: the hub's repository handle, the announcement of new commits on the .commit subject
-- and the persisted watermark. libfossil, its database and strconv answer through `Reply` and
-- `Codec`. The event table is keyed by objid; row ids are positive, so they are natural numbers.
pub mod Table
pub mod Announce
pub mod History
pub mod Skips
use edge_sync.Base.{
  ℕ, ◌≡◌, List, [], ◌∷◌, ◌++◌, map, Bool, true, false, not, ◌&&◌, Option, none, some, ltb, max,
  Text, is_empty, if◌then◌else◌,
}
use edge_sync.Base.Sorting.{sort}
use Table.{Event, put_events, checkins_above, max_checkin}

-- `FormatInt` and `ParseInt` of strconv, base 10.
pub record Codec : Type 0 where
  pub format_int : ℕ → Text
  pub parse_int : Text → Option ℕ

-- `ParseInt` reads what `FormatInt` wrote.
abbrev pub ReadsBack : Codec → Type 0
ReadsBack c = (n : ℕ) → c.parse_int (c.format_int n) ≡ some n

pub record FileToCommit : Type 0 where
  pub name : Text
  pub content : Text
  pub perm : Text

pub record TagSpec : Type 0 where
  pub name : Text
  pub value : Text

pub record CommitOpts : Type 0 where
  pub files : List FileToCommit
  pub message : Text
  pub author : Text
  pub time : ℕ
  pub tags : List TagSpec

-- The fields of `libfossil.CommitOpts` that `Commit` fills.
pub record LibCommitOpts : Type 0 where
  pub files : List FileToCommit
  pub comment : Text
  pub user : Text
  pub time : ℕ
  pub tags : List TagSpec

-- What libfossil answers during one call: whether the enumeration of new commits fails (the query,
-- a scan or the rows), the uuid of a rid, whether a write or the read of the config row fails,
-- whether the maximum can be read, and the rid and uuid that a commit makes.
pub record Reply : Type 0 where
  pub query_fails : Bool
  pub uuid_from_rid : ℕ → Option Text
  pub set_config_fails : ℕ → Bool
  pub read_config_fails : Bool
  pub max_query_fails : Bool
  pub lib_commit : LibCommitOpts → Option (ℕ × Text)

-- `watermark_row` is the config row, `publish_wired` says that `publish` is not nil, and `sent`
-- holds the calls of `publish`, oldest first.
pub record Repo : Type 0 where
  pub events : List Event
  pub watermark_row : Option Text
  pub published_rid : ℕ
  pub publish_wired : Bool
  pub sent : List (ℕ × Text)

pub data CommitError : Type 0 where
  author_required commit_failed : CommitError

pub data Result {ℓ} (A : Type ℓ) : Type ℓ where
  ok : A → Result A
  err : CommitError → Result A

pub data Op : Type 0 where
  commits : CommitOpts → Op
  xfers : List Event → Op
  catches_up : Op
  restarts : Op

pub to_lib_opts : CommitOpts → LibCommitOpts
to_lib_opts o = record {
  files = map (λ f. record { name = f.name; content = f.content; perm = f.perm }) o.files;
  comment = o.message;
  user = o.author;
  time = o.time;
  tags = map (λ t. record { name = t.name; value = t.value }) o.tags;
}

module _ (c : Codec) where
  pub persist : Reply → ℕ → Option Text → Option Text
  persist a rid row = if a.set_config_fails rid then row else some (c.format_int rid)

  -- The body of the loop over the new rids; a rid without uuid is skipped.
  pub publish_one : Reply → ℕ → Repo → Repo
  unfolding persist
  publish_one a rid r = elim (a.uuid_from_rid rid) [
    | none ↦ r
    | some uuid ↦ record r {
      sent = r.sent ++ (rid, uuid) ∷ [];
      published_rid = rid;
      watermark_row = persist a rid r.watermark_row;
    }
  ]

  pub publish_each : Reply → List ℕ → Repo → Repo
  publish_each a [] r = r
  publish_each a (rid ∷ rids) r = publish_each a rids (publish_one a rid r)

  pub publish_new_commits : Reply → Repo → Repo
  publish_new_commits a r =
      if r.publish_wired && not a.query_fails
      then publish_each a (checkins_above r.published_rid r.events) r
      else r

  pub snapshot_max : Reply → Repo → Repo
  unfolding persist
  snapshot_max a r =
      let top = max_checkin r.events in
      if a.max_query_fails
      then r
      else record r { published_rid = top; watermark_row = persist a top r.watermark_row }

  pub read_watermark : Reply → Repo → Option ℕ
  read_watermark a r = elim a.read_config_fails [
    | true ↦ none
    | false ↦ elim r.watermark_row [ none ↦ none | some val ↦ c.parse_int val ]
  ]

  pub init_publish_watermark : Reply → Repo → Repo
  unfolding read_watermark snapshot_max
  init_publish_watermark a r = elim (read_watermark a r) [
    | some parsed ↦ record r { published_rid = parsed }
    | none ↦ snapshot_max a r
  ]

  -- `Repo.Commit`. libfossil records a check-in event for the commit that it makes.
  pub commit : Reply → CommitOpts → Repo → Repo × Result Text
  unfolding to_lib_opts
  commit a o r =
      if is_empty o.author then (r, err author_required) else elim (a.lib_commit (to_lib_opts o)) [
        | none ↦ (r, err commit_failed)
        | some (rid, uuid) ↦ (
          publish_new_commits a (record r {
            events = put_events (record { objid = rid; is_checkin = true } ∷ []) r.events;
          }),
          ok uuid,
        )
      ]

  -- The handler that `NewHub` installs: the xfer request lands any events, then new commits are
  -- announced.
  pub serve_xfer : Reply → List Event → Repo → Repo
  serve_xfer a landed r = publish_new_commits a (record r { events = put_events landed r.events })

  -- A new hub process over the same repository file: `publish` is wired, the watermark is
  -- restored. What was sent before stays sent.
  pub restart : Reply → Repo → Repo
  unfolding init_publish_watermark
  restart a r = init_publish_watermark a (record r { published_rid = 0; publish_wired = true })

  pub step : Reply × Op → Repo → Repo
  unfolding commit serve_xfer restart
  step (a, commits o) r = (commit a o r).0
  step (a, xfers landed) r = serve_xfer a landed r
  step (a, catches_up) r = publish_new_commits a r
  step (a, restarts) r = restart a r

  pub run : List (Reply × Op) → Repo → Repo
  run [] r = r
  run (op ∷ ops) r = run ops (step op r)
