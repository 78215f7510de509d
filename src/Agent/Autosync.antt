-- ===== src/Agent/Autosync.antt =====
-- leaf/agent/autosync.go: a checkin with a pull before and a push after it. The calls of libfossil
-- are recorded in order; their answers are the parameter `Answers`.
pub mod Protocol
use edge_sync.Base.{
  ℕ, List, [], ◌∷◌, Bool, true, false, not, ◌&&◌, ◌||◌, non_empty, Option, none, some,
  if◌then◌else◌, Text,
}

-- `other` is any integer that names no mode.
pub data Mode : Type 0 where
  off on pull_only : Mode
  other : ℕ → Mode

pub record SyncOpts : Type 0 where
  pub push : Bool
  pub pull : Bool
  pub project_code : Text
  pub user : Text
  pub password : Text
  pub peer_id : Text

pub record Opts : Type 0 where
  pub has_repo : Bool
  pub has_checkout : Bool
  pub has_transport : Bool
  pub mode : Mode
  pub branch : Text
  pub sync : SyncOpts
  pub allow_fork : Bool

pub data Call : Type 0 where
  synced : SyncOpts → Call
  asked_fork checked_in : Call

pub data Error : Type 0 where
  nil_repo nil_checkout invalid_mode sync_flags_set nil_transport : Error
  pull_failed fork_query_failed would_fork checkin_failed : Error

-- `push_failed` carries the rid and uuid of the local checkin.
pub data Outcome : Type 0 where
  done : ℕ → Text → Outcome
  push_failed : ℕ → Text → Outcome
  failed : Error → Outcome

-- Whether the pull, the push go through; the answers of WouldFork and Checkin, `none` for an error.
pub record Answers : Type 0 where
  pub pull_ok : Bool
  pub push_ok : Bool
  pub would_fork : Option Bool
  pub checkin : Option (ℕ × Text)

unfoldable pub is_off : Mode → Bool
is_off off = true
is_off _ = false

unfoldable pub is_on : Mode → Bool
is_on on = true
is_on _ = false

unfoldable pub is_known : Mode → Bool
is_known (other n) = false
is_known _ = true

-- The guards in front of any call.
unfoldable pub check : Opts → Option Error
unfolding is_known is_off
check o =
    if not o.has_repo
    then some nil_repo
    else if not o.has_checkout
    then some nil_checkout
    else if not (is_known o.mode)
    then some invalid_mode
    else if o.sync.push || o.sync.pull
    then some sync_flags_set
    else if not (is_off o.mode) && not o.has_transport
    then some nil_transport
    else none

unfoldable pub skip_fork_check : Opts → Bool
unfolding is_off
skip_fork_check o = is_off o.mode || o.allow_fork || non_empty o.branch

abbrev then_call : Call → Outcome × List Call → Outcome × List Call
then_call c (out, calls) = (out, c ∷ calls)

unfoldable pub push_step : Answers → Opts → ℕ → Text → Outcome × List Call
unfolding is_on
push_step a o rid uuid =
    if is_on o.mode
    then (
      if a.push_ok then done rid uuid else push_failed rid uuid,
      synced (record (o.sync) { push = true }) ∷ [],
    )
    else (done rid uuid, [])

unfoldable pub checkin_step : Answers → Opts → Outcome × List Call
checkin_step a o = elim a.checkin [
  | none ↦ (failed checkin_failed, checked_in ∷ [])
  | some (rid, uuid) ↦ then_call checked_in (push_step a o rid uuid)
]

unfoldable pub fork_step : Answers → Opts → Outcome × List Call
fork_step a o = if skip_fork_check o then checkin_step a o else elim a.would_fork [
  | none ↦ (failed fork_query_failed, asked_fork ∷ [])
  | some forks ↦
      if forks
      then (failed would_fork, asked_fork ∷ [])
      else then_call asked_fork (checkin_step a o)
]

unfoldable pub pull_step : Answers → Opts → Outcome × List Call
unfolding is_off
pull_step a o =
    let pull = synced (record (o.sync) { pull = true }) in
    if is_off o.mode
    then fork_step a o
    else if a.pull_ok
    then then_call pull (fork_step a o)
    else (failed pull_failed, pull ∷ [])

-- The outcome, and the calls made, first call first.
unfoldable pub autosync_commit : Answers → Opts → Outcome × List Call
autosync_commit a o = elim (check o) [ some e ↦ (failed e, []) | none ↦ pull_step a o ]
