-- ===== src/Hub/Catchup.antt =====
-- startPublishCatchup and the end of Stop in hub/hub.go: the goroutine that publishes late and the
-- goroutine that stops the hub, as interleaved steps. Stop runs once (stopOnce).
pub mod Waits
use edge_sync.Base.{ℕ, ◌+◌, ◌≡◌, Bool, true, false}

-- In the select, in publishNewCommits, and behind close(catchupDone).
pub data Goroutine : Type 0 where
  selecting publishing ended : Goroutine

-- In front of the end of Stop, behind close(catchupStop), behind the receipt of catchupDone, and
-- behind the close of the repository.
pub data Stopper : Type 0 where
  running stopping waited closed : Stopper

-- `elapsed` says that publishCatchupDelay is over, `scans` counts the calls of publishNewCommits.
pub record Catchup : Type 0 where
  pub goroutine : Goroutine
  pub stopper : Stopper
  pub elapsed : Bool
  pub stop_closed : Bool
  pub done_closed : Bool
  pub repo_open : Bool
  pub scans : ℕ

abbrev pub new_catchup : Catchup
new_catchup = record {
  goroutine = selecting;
  stopper = running;
  elapsed = false;
  stop_closed = false;
  done_closed = false;
  repo_open = true;
  scans = 0;
}

-- With both channels ready the select takes either.
pub data Step : Catchup → Catchup → Type 0 where
  elapse : (s : Catchup) → Step s (record s { elapsed = true })
  give_up :
      (s : Catchup)
      → s.goroutine ≡ selecting
      → s.stop_closed ≡ true
      → Step s (record s { goroutine = ended; done_closed = true })
  fire :
      (s : Catchup)
      → s.goroutine ≡ selecting
      → s.elapsed ≡ true
      → Step s (record s { goroutine = publishing; scans = s.scans + 1 })
  finish :
      (s : Catchup)
      → s.goroutine ≡ publishing
      → Step s (record s { goroutine = ended; done_closed = true })
  close_stop :
      (s : Catchup)
      → s.stopper ≡ running
      → Step s (record s { stopper = stopping; stop_closed = true })
  receive_done :
      (s : Catchup)
      → s.stopper ≡ stopping
      → s.done_closed ≡ true
      → Step s (record s { stopper = waited })
  close_repo :
      (s : Catchup) → s.stopper ≡ waited → Step s (record s { stopper = closed; repo_open = false })

pub data Reach : Catchup → Catchup → Type 0 where
  here : (s : Catchup) → Reach s s
  further : (s t u : Catchup) → Reach s t → Step t u → Reach s u
