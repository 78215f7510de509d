-- ===== src/Agent/Sidecar/Ends.antt =====
-- No process is left behind.
use edge_sync.Base.{
  Text, ℕ, ◌+◌, ◌/◌, ◌≤◌, ◌≡◌, refl, sym, subst, ◌≢◌, ◌⊎◌, inl, Bool, true, false, Option, none,
  some, List, ◌++◌, arith, if◌then◌else◌,
}
use edge_sync.Agent.Sidecar.Waits.{Sleeps, wait_ready_total}
use edge_sync.Base.Replay.{replay, then_replay}
use edge_sync.Agent.Sidecar.{
  Poll, pause, wait_ready, Process, absent, running, gone, Call, started, posted, terminated,
  killed, awaited, removed, StartError, kill, start_ready, start, reacts, force, request, shutdown,
}

-- What a call does to the process. Waiting for the exit, and removing the socket, are allowed once
-- the process has exited, and no signal goes to a process that was not started.
module _ (dies : Bool) (exits : Call → Bool) where
  abbrev asked : Call → Process → Option Process
  asked c absent = none
  asked c p = some (reacts exits c p)

  abbrev if_gone : Process → Option Process
  if_gone gone = some gone
  if_gone _ = none

  unfoldable pub react : Call → Process → Option Process
  react started absent = some (if dies then gone else running)
  react started _ = none
  react posted p = asked posted p
  react terminated p = asked terminated p
  react killed absent = none
  react killed _ = some gone
  react awaited p = if_gone p
  react removed p = if_gone p

  shutdown-replay : (p : Process) → replay react (shutdown exits p).1 p ≡ some (shutdown exits p).0
  unfolding replay react shutdown request force kill
  shutdown-replay absent = refl
  shutdown-replay running = ground arith
  shutdown-replay gone = ground arith

  shutdown-ne-running : (p : Process) → (shutdown exits p).0 ≢ running
  unfolding shutdown request force
  shutdown-ne-running absent e = cc
  shutdown-ne-running running e = ground arith
  shutdown-ne-running gone e = ground arith

  start_ready-replay :
      (ready : Option Text)
      → replay react (start_ready dies ready).2 absent ≡ some (start_ready dies ready).1
  unfolding replay react start_ready kill
  start_ready-replay none = ground arith
  start_ready-replay (some status) = ground arith

  -- What Start gives, its calls allowed, and no process running behind an error.
  abbrev Started : Option ((StartError ⊎ Text) × Process × List Call) → Type 0
  Started none = ⊥
  Started (some (result, p, calls)) =
      (replay react calls absent ≡ some p) × ((e : StartError) → result ≡ inl e → p ≢ running)

  start-Started :
      (has_binary starts : Bool) (ready : Option Text)
      → Started (start has_binary starts dies (some ready))
  unfolding start replay
  start-Started false starts ready = (refl, λ e q r. cc)
  start-Started true false ready = (refl, λ e q r. cc)
  start-Started true true none = (start_ready-replay none, λ e q r. not_left r)
    where
      not_left : (start_ready dies none).1 ≢ running
      not_left r = unfold start_ready in (ground arith)
  start-Started true true (some status) =
      (start_ready-replay (some status), λ e q r. absurd (not_failed e q))
    where
      not_failed : (e : StartError) → (start_ready dies (some status)).0 ≢ inl e
      not_failed e q = unfold start_ready in (ground arith)

  -- The same with shutdown behind it.
  abbrev pub Ended : Option ((StartError ⊎ Text) × Process × List Call) → Type 0
  Ended none = ⊥
  Ended (some (result, p, calls)) =
      (replay react (calls ++ (shutdown exits p).1) absent ≡ some (shutdown exits p).0)
      × ((shutdown exits p).0 ≢ running)
      × ((e : StartError) → result ≡ inl e → p ≢ running)

  Started-Ended : (o : Option ((StartError ⊎ Text) × Process × List Call)) → Started o → Ended o
  Started-Ended none h = h
  Started-Ended (some (result, p, calls)) h = (
    then_replay react calls (shutdown exits p).1 absent p (shutdown exits p).0 h.0
        (shutdown-replay p),
    shutdown-ne-running p,
    h.1,
  )

  -- With sleeps of 200 milliseconds between the polls Start comes to an end; its calls, and those of
  -- shutdown behind them, each come where they are allowed, whatever the process does; behind a
  -- Start that failed, and behind the shutdown, no process runs.
  pub start-shutdown :
      (has_binary starts : Bool) (clock : ℕ → ℕ) (poll : ℕ → Poll) (from timeout : ℕ)
      → Sleeps clock poll
      → from ≤ clock 0
      → Ended (
          start has_binary starts dies
            (wait_ready clock poll ((timeout + 199999999) / pause + 1) from timeout))
  start-shutdown has_binary starts clock poll from timeout sleeps h =
      let (ready, e, _) = wait_ready_total clock poll sleeps from timeout h in
      Started-Ended _ (
        subst (λ w. Started (start has_binary starts dies w)) (sym e)
          (start-Started has_binary starts ready))
