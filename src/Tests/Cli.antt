-- ===== src/Tests/Cli.antt =====
-- The late publishing of a hub, commands, the registry of peers and the headers of messages at concrete inputs.
use edge_sync.Base.{
  Text, codes, ◌+◌, ◌-◌, ◌≤◌, ◌≡◌, refl, ap, true, false, not, ◌&&◌, some, List, [], ◌∷◌, map,
  arith, leb, if◌then◌else◌, length, keep,
}
use edge_sync.Cli.Notify.{
  ask, Answers, repo, conn, service, acquired, operated, watched, exited, with_deferred,
  with_opened, open_notify_repo, with_repo, with_nats, with_service, wait_reply, send_and_wait,
  run_notify,
}
use edge_sync.Cli.Notify.Releases.{IsClean, is_exit, run_notify-IsClean}
use edge_sync.Agent.Config.{Config}
use edge_sync.Agent.Peers.{PeerRow, is_row_of, run_registry}
use edge_sync.Agent.Peers.OwnRow.{last_update, rows_of, Registered, run_registry-Registered}
use edge_sync.Hub.Catchup.{
  publishing, stopping, Catchup, new_catchup, elapse, fire, close_stop, Reach, here, further,
}
use edge_sync.Hub.Catchup.Waits.{catchup_safe}
use edge_sync.Agent.Carrier.{Entry, Header, get, set}
use edge_sync.Agent.Carrier.SetGet.{IsVisit, get-set}
use edge_sync.Tests.Settings.{bare}

-- Ask with a timeout that no reply comes in.
abbrev silence : Answers
silence = record {
  repo_given = true;
  exists = true;
  opens = true;
  nats_given = true;
  connects = true;
  serves = true;
  operates = true;
  timeout_given = true;
  replied = false;
  endpoint_given = false;
  renders = false;
}

asked :
    run_notify silence ask
    ≡ (exited 2, acquired repo ∷ acquired conn ∷ acquired service ∷ operated ∷ watched ∷ [])
unfolding run_notify with_repo open_notify_repo with_opened with_deferred with_nats with_service
    send_and_wait wait_reply
asked = refl

run_notify-IsClean_example :
    IsClean [] (run_notify silence ask)
    × (is_exit (run_notify silence ask).0 ≡ true → (ask ≡ ask) × (true ≡ true) × (false ≡ false))
run_notify-IsClean_example = run_notify-IsClean silence ask

abbrev this : Config
this = record bare { peer_id = codes "me"; subject_prefix = codes "fossil" }

abbrev other_row : PeerRow
other_row = record {
  peer_id = codes "you";
  last_sync = 3;
  repo_hash = [];
  version = [];
  platform = [];
  capabilities = [];
  nats_subject = [];
  addr = [];
  mtime = 3;
}

-- The second update fails.
run_registry-Registered_example :
    (rows : List PeerRow) × (run_registry this [] [] false 5 false
        ((7, false) ∷ (9, true) ∷ [])
        (some (other_row ∷ []))
      ≡ some rows)
    × Registered this [] []
        (last_update 5 ((7, false) ∷ (9, true) ∷ []))
        (keep (λ r. not (is_row_of this.peer_id r)) (rows_of (some (other_row ∷ []))))
        rows
run_registry-Registered_example =
    run_registry-Registered this [] [] 5 ((7, false) ∷ (9, true) ∷ []) (some (other_row ∷ []))

abbrev lower_case : Text → Text
lower_case = map (λ c. if leb b'A' c && leb c b'Z' then c + 32 else c)

-- With a capital in front.
abbrev capital : Text → Text
capital [] = []
capital (c ∷ t) = (if leb b'a' c && leb c b'z' then c - 32 else c) ∷ t

abbrev header : Header
header = (codes "Baggage", codes "x" ∷ []) ∷ []

abbrev as_listed : Header → List Entry
as_listed c = c

as_listed-IsVisit : IsVisit as_listed
as_listed-IsVisit = record { forth = λ e c m. m; back = λ e c m. m }

get-set_example :
    get lower_case capital as_listed
      (set lower_case capital (codes "traceparent") (codes "v") header)
      (codes "TRACEPARENT")
    ≡ codes "v"
get-set_example =
    get-set lower_case capital (codes "traceparent") (codes "v") as_listed (codes "TRACEPARENT")
      header as_listed-IsVisit refl (λ e. absurd (omega (arith, ap (λ t. length t) e)), tt)

-- The delay is over and the scan runs when Stop closes its channel.
abbrev late : Catchup
late = record new_catchup { elapsed = true }

abbrev scanning : Catchup
scanning = record late { goroutine = publishing; scans = 1 }

abbrev stopping_hub : Catchup
stopping_hub = record scanning { stopper = stopping; stop_closed = true }

stopping_hub-Reach : Reach new_catchup stopping_hub
stopping_hub-Reach =
    further new_catchup scanning stopping_hub
      (further new_catchup late scanning
        (further new_catchup new_catchup late (here new_catchup) (elapse new_catchup))
        (fire late refl refl))
      (close_stop scanning refl)

catchup_safe_example :
    (stopping_hub.goroutine ≡ publishing → stopping_hub.repo_open ≡ true) × (stopping_hub.scans ≤ 1)
catchup_safe_example = catchup_safe stopping_hub stopping_hub-Reach
