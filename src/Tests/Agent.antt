-- ===== src/Tests/Agent.antt =====
-- The leaf agent at concrete inputs.
use edge_sync.Base.{
  ◌≡◌, ◌≢◌, ap, length, refl, List, [], ◌∷◌, ◌++◌, true, false, none, some, if◌then◌else◌, Text,
  codes, text_eq, arith,
}
use edge_sync.Agent.Autosync.{
  Mode, off, on, Opts, synced, asked_fork, checked_in, push_failed, Answers, check, is_on, is_off,
  is_known, skip_fork_check, autosync_commit, pull_step, fork_step, checkin_step, push_step,
}
use edge_sync.Agent.Autosync.Protocol.{
  has_checkin, has_push, autosync_commit_fork, autosync_commit_push,
}
use edge_sync.Agent.Outcomes.{
  no_responders, other, SyncResult, succeeded, erred, Effect, Input, calls_sync_now, receives_done,
  times_out, receives, Loop, loop_step, run, emit_sync_outcomes, any_success,
}
use edge_sync.Agent.Outcomes
use edge_sync.Agent.Mesh.{Answer, unreachable, port, SidecarInfo}

abbrev opts : Mode → Opts
opts m = record {
  has_repo = true;
  has_checkout = true;
  has_transport = true;
  mode = m;
  branch = [];
  sync = record {
    push = false;
    pull = false;
    project_code = codes "p";
    user = [];
    password = [];
    peer_id = [];
  };
  allow_fork = false;
}

abbrev answers : Answers
answers = record {
  pull_ok = true;
  push_ok = true;
  would_fork = some false;
  checkin = some (4, codes "u4");
}

abbrev offline_push : Answers
offline_push = record answers { push_ok = false }

on_off : on ≢ off
on_off e = cc

autosync_commit_fork_example :
    (has_checkin (autosync_commit (record answers { would_fork = some true }) (opts on)).1 ≡ false)
    × (has_push (autosync_commit (record answers { would_fork = some true }) (opts on)).1 ≡ false)
autosync_commit_fork_example =
    autosync_commit_fork (record answers { would_fork = some true }) (opts on) on_off refl refl refl

push_fails : (autosync_commit offline_push (opts on)).0 ≡ push_failed 4 (codes "u4")
unfolding autosync_commit check pull_step fork_step checkin_step push_step skip_fork_check is_off
    is_on is_known
push_fails = refl

pushes : has_push (autosync_commit answers (opts on)).1 ≡ true
unfolding autosync_commit check pull_step fork_step checkin_step push_step skip_fork_check is_off
    is_on is_known has_push
pushes = refl

autosync_commit_push_example :
    (is_on on ≡ true)
    × (answers.checkin ≢ none)
    × ((autosync_commit answers (opts on)).1
        ≡ synced (record (opts on).sync { pull = true })
          ∷ ((if skip_fork_check (opts on) then [] else asked_fork ∷ [])
              ++ (checked_in ∷ synced (record (opts on).sync { push = true }) ∷ [])))
autosync_commit_push_example = autosync_commit_push answers (opts on) pushes

abbrev synced_well : SyncResult
synced_well = record { files_sent = 1; files_recvd = 0; rounds = 2; errors = codes "e" ∷ [] }

abbrev broken : Outcomes.Outcome
broken = record { label = codes "http"; attempt = erred (other (codes "refused")) }

abbrev lonely : Outcomes.Outcome
lonely = record { label = codes "nats"; attempt = erred no_responders }

abbrev fine : Outcomes.Outcome
fine = record { label = codes "hub"; attempt = succeeded synced_well }

abbrev idle : Loop
idle = record { pending = false; finished = false; cycles = 0; effects = [] }

abbrev inputs : List Input
inputs =
    calls_sync_now
    ∷ times_out false (fine ∷ [])
    ∷ receives (broken ∷ [])
    ∷ times_out true []
    ∷ receives_done
    ∷ []

abbrev id_a : Text
id_a = codes "aa"

abbrev id_b : Text
id_b = codes "abc"

differ : id_a ≢ id_b
differ e = omega (arith, ap length e)

-- The sidecar reaches only the peer "abc".
reaches : Text → Answer
reaches id = elim (text_eq id id_b) [ yes _ ↦ port 4222 | no _ ↦ unreachable ]

abbrev sidecar : SidecarInfo
sidecar = record { endpoint_id = id_a; socket_path = codes "/tmp/s" }

abbrev peers : List Text
peers = codes "ac" ∷ id_b ∷ []
