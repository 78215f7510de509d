-- ===== src/Hub/Lifecycle/Build.antt =====
-- NewHub of hub/hub.go, from the settings to a hub or an error; each step is followed by a
-- definition that goes on from its result.
use edge_sync.Base.{
  not, ◌&&◌, Text, codes, is_empty, non_empty, false, not, ◌&&◌, Option, none, some, List, [], ◌∷◌,
  ◌++◌, if◌then◌else◌,
}
use edge_sync.Hub.Lifecycle.{
  Config, repo, listener, server, client, sync_sub, peer_sub, checkpoint, Action, acquired,
  released, Error, repo_path_required, set_caps_failed, bind_failed, Answers, Hub, Outcome, made,
  failed, after,
}
use edge_sync.Hub.Lifecycle.Start.{
  localhost, checkpoint_period, is_positive, with_defaults, seed_step, open_or_create_repo,
  start_nats, start_fossil_sync_subscriber, start_commit_subscriber,
}

unfoldable pub close_server : List Action
close_server = released server ∷ released listener ∷ released repo ∷ []

-- startCheckpointLoop.
unfoldable pub start_checkpoint_loop : Config → Hub → Outcome × List Action
start_checkpoint_loop c h = (
  made (record h { checkpoint_interval = checkpoint_period c.checkpoint_interval }),
  acquired checkpoint ∷ [],
)

unfoldable pub commit_started : Config → Outcome × List Action → Outcome × List Action
commit_started c (made h, calls) = after calls (start_checkpoint_loop c h)
commit_started c (failed e, calls) =
    (failed e, calls ++ (released sync_sub ∷ released peer_sub ∷ released client ∷ close_server))

unfoldable pub sync_started : Answers → Config → Outcome × List Action → Outcome × List Action
sync_started w c (made h, calls) = after calls (commit_started c (start_commit_subscriber w c h))
sync_started w c (failed e, calls) = (failed e, calls ++ close_server)

-- The fields of the hub before the subscribers start.
unfoldable pub fresh_hub : Answers → Config → Text → Hub
fresh_hub w c http_addr = record {
  has_client = false;
  has_sync_sub = false;
  has_peer_sub = false;
  has_commit_sub = false;
  has_catchup = false;
  sync_subject = [];
  peer_sync_subject = [];
  commit_subject = [];
  peer_id = [];
  http_addr = http_addr;
  leaf_url = elim w.varz_leaf_port [
    | none ↦ []
    | some p ↦ if is_positive p then codes "nats-leaf://127.0.0.1:" ++ w.print p else []
  ];
  websocket_url = if c.enable_web_socket then w.websocket_url else [];
  checkpoint_interval = c.checkpoint_interval;
  ready_closed = false;
  stopped = false;
}

-- The subscribers, unless they are disabled, and the checkpoint loop.
unfoldable pub start_loops : Answers → Config → Hub → Outcome × List Action
start_loops w c h =
    if c.disable_fossil_sync_over_nats
    then start_checkpoint_loop c h
    else sync_started w c (start_fossil_sync_subscriber w c h)

unfoldable pub nats_started :
    Answers → Config → Text → Option Error × List Action → Outcome × List Action
nats_started w c addr (some e, calls) =
    (failed e, calls ++ (released listener ∷ released repo ∷ []))
nats_started w c addr (none, calls) = after calls (start_loops w c (fresh_hub w c addr))

unfoldable pub listened : Answers → Config → Option Text → Outcome × List Action
listened w c none = (failed bind_failed, released repo ∷ [])
listened w c (some addr) = after (acquired listener ∷ []) (nats_started w c addr (start_nats w c))

unfoldable pub listen_step : Answers → Config → Outcome × List Action
listen_step w c = listened w c (w.listen (localhost ++ (codes ":" ++ w.print c.fossil_http_port)))

-- The capabilities of `nobody`, if any are set, and the listener.
unfoldable pub caps_step : Answers → Config → Outcome × List Action
caps_step w c =
    if non_empty c.nobody_caps && not w.set_caps_ok
    then (failed set_caps_failed, released repo ∷ [])
    else listen_step w c

unfoldable pub repo_opened : Answers → Config → Option Error × List Action → Outcome × List Action
repo_opened w c (some e, calls) = (failed e, calls)
repo_opened w c (none, calls) = after calls (caps_step w c)

unfoldable pub seeded : Answers → Config → Option Error × List Action → Outcome × List Action
seeded w c (some e, calls) = (failed e, calls)
seeded w c (none, calls) = after calls (repo_opened w c (open_or_create_repo w c))

unfoldable pub new_hub : Answers → Config → Outcome × List Action
new_hub w c =
    if is_empty c.repo_path
    then (failed repo_path_required, [])
    else seeded w (with_defaults w c) (seed_step w (with_defaults w c))
