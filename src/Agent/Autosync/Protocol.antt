-- ===== src/Agent/Autosync/Protocol.antt =====
-- What AutosyncCommit does to the repository and on the network, in every mode.
use edge_sync.Base.{
  ℕ, ◌≡◌, ◌≢◌, refl, List, [], ◌∷◌, ◌++◌, Bool, true, false, ◌||◌, is_empty, none, some, Text,
  arith, if◌then◌else◌,
}
use edge_sync.Agent.Autosync.{
  Mode, off, on, pull_only, other, Opts, Call, synced, asked_fork, checked_in, push_failed, Answers,
  is_off, is_on, check, skip_fork_check, push_step, checkin_step, fork_step, pull_step,
  autosync_commit,
}

pub has_checkin : List Call → Bool
has_checkin [] = false
has_checkin (checked_in ∷ calls) = true
has_checkin (_ ∷ calls) = has_checkin calls

unfoldable pub has_push : List Call → Bool
has_push [] = false
has_push (synced o ∷ calls) = o.push || has_push calls
has_push (_ ∷ calls) = has_push calls

check_clean : (o : Opts) → check o ≡ none → (o.sync.push ≡ false) × (o.sync.pull ≡ false)
unfolding check
check_clean o h = ground arith

is_off_iff : (m : Mode) → is_off m ≡ true → m ≡ off
unfolding is_off
is_off_iff off h = refl
is_off_iff on h = cc
is_off_iff pull_only h = cc
is_off_iff (other n) h = cc

is_off_on : (m : Mode) → is_on m ≡ true → is_off m ≡ false
unfolding is_off is_on
is_off_on off h = cc
is_off_on on h = refl
is_off_on pull_only h = cc
is_off_on (other n) h = cc

-- In off mode the calls are the checkin alone, or none if a guard refuses.
pub autosync_commit_off :
    (a : Answers) (o : Opts)
    → o.mode ≡ off
    → (autosync_commit a o).1 ≡ (elim (check o) [ some e ↦ [] | none ↦ checked_in ∷ [] ])
unfolding autosync_commit pull_step fork_step checkin_step push_step skip_fork_check
autosync_commit_off a o m = ground arith

-- A fork that is neither allowed nor put on a branch is refused outside off mode: whatever else is
-- answered, nothing is checked in, nothing is pushed.
pub autosync_commit_fork :
    (a : Answers) (o : Opts)
    → o.mode ≢ off
    → o.allow_fork ≡ false
    → is_empty o.branch ≡ true
    → a.would_fork ≡ some true
    → (has_checkin (autosync_commit a o).1 ≡ false) × (has_push (autosync_commit a o).1 ≡ false)
unfolding autosync_commit pull_step fork_step checkin_step push_step skip_fork_check has_checkin
    has_push
autosync_commit_fork a o m f b w = ground (arith, check_clean o, is_off_iff o.mode)

-- A failed push is reported with the rid and uuid of the checkin, which was made: only in on mode,
-- after the pull went through.
pub autosync_commit_push_failed :
    (a : Answers) (o : Opts) (rid : ℕ) (uuid : Text)
    → (autosync_commit a o).0 ≡ push_failed rid uuid
    → (a.checkin ≡ some (rid, uuid))
      × (is_on o.mode ≡ true)
      × (a.pull_ok ≡ true)
      × (a.push_ok ≡ false)
      × (has_checkin (autosync_commit a o).1 ≡ true)
unfolding autosync_commit pull_step fork_step checkin_step push_step has_checkin
autosync_commit_push_failed a o rid uuid h = ground (arith, is_off_on o.mode)

-- A push is made only in on mode and after a checkin that succeeded; the calls are then exactly the
-- pull, the fork query unless it is skipped, the checkin and the push, in this order.
pub autosync_commit_push :
    (a : Answers) (o : Opts)
    → has_push (autosync_commit a o).1 ≡ true
    → (is_on o.mode ≡ true)
      × (a.checkin ≢ none)
      × ((autosync_commit a o).1
          ≡ synced (record (o.sync) { pull = true })
            ∷ ((if skip_fork_check o then [] else asked_fork ∷ [])
                ++ (checked_in ∷ synced (record (o.sync) { push = true }) ∷ [])))
unfolding autosync_commit pull_step fork_step checkin_step push_step has_push
autosync_commit_push a o h = ground (arith, check_clean o, is_off_on o.mode)
