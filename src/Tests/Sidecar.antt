-- ===== src/Tests/Sidecar.antt =====
-- The sidecar and the replies to other agents at concrete inputs.
use edge_sync.Base.{
  Text, codes, ℕ, ◌+◌, ◌*◌, ◌/◌, ◌≡◌, refl, Bool, true, false, Option, none, some, arith, ◌==◌,
  if◌then◌else◌,
}
use edge_sync.Agent.Sidecar.{
  Poll, refused, answer, poll_status, pause, wait_until, wait_ready, Call, terminated, start,
}
use edge_sync.Agent.Sidecar.Waits.{Sleeps, Outcome, wait_ready_total}
use edge_sync.Agent.Sidecar.Ends.{Ended, start-shutdown}

-- A poll takes no time, and a sleep as long as it is asked for.
abbrev clock : ℕ → ℕ
clock k = k * pause

clock-Sleeps : (poll : ℕ → Poll) → Sleeps clock poll
clock-Sleeps poll k = omega arith

-- The third poll gets a status.
abbrev poll : ℕ → Poll
poll k =
    if k == 2 then answer 200 (some (codes "id")) else if k == 1 then answer 500 none else refused

waited : wait_ready clock poll 7 0 1000000000 ≡ some (some (codes "id"))
unfolding wait_ready wait_until poll_status
waited = refl

wait_ready_total_example :
    (r : Option Text) × (wait_ready clock poll 6 0 1000000000 ≡ some r)
    × Outcome clock poll 1000000000 r
wait_ready_total_example =
    wait_ready_total clock poll (clock-Sleeps poll) 0 1000000000 (omega arith)

-- The process reacts to SIGTERM only.
abbrev exits : Call → Bool
exits c = elim c [ terminated ↦ true | _ ↦ false ]

start-shutdown_example : Ended false exits (
    start true true false (wait_ready clock poll ((400000000 + 199999999) / pause + 1) 0 400000000))
start-shutdown_example =
    start-shutdown false exits true true clock poll 0 400000000 (clock-Sleeps poll) (omega arith)
