-- ===== src/Agent/Outcomes.antt =====
-- leaf/agent/sync_outcomes.go and leaf/agent/agent.go: the events of the agent, one poll cycle over
-- its sync targets, and what is logged and called for the outcomes.
pub mod Levels
use edge_sync.Base.{
  ℕ, ◌+◌, List, [], ◌∷◌, ◌++◌, map, Bool, true, false, ◌&&◌, ◌||◌, Option, none, some,
  if◌then◌else◌, Text,
}

-- `errors.Is` finds one of the two benign errors in the chain, or neither.
pub data SyncError : Type 0 where
  no_responders canceled : SyncError
  other : Text → SyncError

-- The fields of libfossil's result that the logger's lines show.
pub record SyncResult : Type 0 where
  pub files_sent : ℕ
  pub files_recvd : ℕ
  pub rounds : ℕ
  pub errors : List Text

pub data Attempt : Type 0 where
  succeeded : SyncResult → Attempt
  erred : SyncError → Attempt

-- `syncOutcome`: a target's label and the result or error of its attempt.
pub record Outcome : Type 0 where
  pub label : Text
  pub attempt : Attempt

pub data Level : Type 0 where
  debug error : Level

-- What one outcome leads to: a log record, a line to the configured logger, a call of the hook.
pub data Effect : Type 0 where
  logged : Level → Text → Effect
  told_error : Text → SyncError → Effect
  told_done : Text → ℕ → ℕ → ℕ → Effect
  warned : Text → Text → Effect
  hooked : SyncResult → Effect

pub is_success : Attempt → Bool
is_success (succeeded r) = true
is_success (erred e) = false

pub any_success : List Outcome → Bool
unfolding is_success
any_success [] = false
any_success (o ∷ os) = is_success o.attempt || any_success os

pub is_benign : SyncError → Bool
is_benign no_responders = true
is_benign canceled = true
is_benign (other t) = false

pub failure_level : Bool → SyncError → Level
unfolding is_benign
failure_level any e = if any || is_benign e then debug else error

pub emit_attempt : Bool → Bool → Text → Attempt → List Effect
unfolding failure_level
emit_attempt hook any label (erred e) = told_error label e ∷ logged (failure_level any e) label ∷ []
emit_attempt hook any label (succeeded r) =
    told_done label r.files_sent r.files_recvd r.rounds
    ∷ logged debug label
    ∷ (map (warned label) r.errors ++ (if hook then hooked r ∷ [] else []))

pub emit_each : Bool → Bool → List Outcome → List Effect
emit_each hook any [] = []
emit_each hook any (o ∷ os) = emit_attempt hook any o.label o.attempt ++ emit_each hook any os

-- `hook` says that PostSyncHook is set.
pub emit_sync_outcomes : Bool → List Outcome → List Effect
emit_sync_outcomes hook os = emit_each hook (any_success os) os

pub data Event : Type 0 where
  timer sync_now stop unnamed : Event

pub data Action : Type 0 where
  nothing stopped : Action
  synced : Attempt → Action

-- `Tick`; `fires` is the answer of the Buggify check, false without one, and `run_sync` that of the
-- primary transport.
pub tick : Bool → Attempt → Event → Action
tick fires run_sync timer = if fires then nothing else synced run_sync
tick fires run_sync sync_now = synced run_sync
tick fires run_sync stop = stopped
tick fires run_sync unnamed = nothing

-- The loop's state: whether a manual trigger waits in the channel, whether the loop has returned,
-- how many cycles ran, and their effects.
pub record Loop : Type 0 where
  pub pending : Bool
  pub finished : Bool
  pub cycles : ℕ
  pub effects : List Effect

-- What happens next: a call of SyncNow, or the loop's select receives that the context is done,
-- the poll timer with the answer of its Buggify check, or a waiting trigger. The timer and the
-- trigger come with the outcomes of the cycle that they start.
pub data Input : Type 0 where
  calls_sync_now receives_done : Input
  times_out : Bool → List Outcome → Input
  receives : List Outcome → Input

pub cycle : Bool → List Outcome → Loop → Loop
cycle hook os l = record l {
  cycles = l.cycles + 1;
  effects = l.effects ++ emit_sync_outcomes hook os;
}

pub loop_step : Bool → Input → Loop → Loop
unfolding cycle
loop_step hook calls_sync_now l = record l { pending = true }
loop_step hook receives_done l = record l { finished = true }
loop_step hook (times_out fires os) l = if l.finished || fires then l else cycle hook os l
loop_step hook (receives os) l =
    if l.finished then l else if l.pending then cycle hook os (record l { pending = false }) else l

pub run : Bool → List Input → Loop → Loop
run hook [] l = l
run hook (i ∷ is) l = run hook is (loop_step hook i l)
