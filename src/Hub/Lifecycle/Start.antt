-- ===== src/Hub/Lifecycle/Start.antt =====
-- NewHub, startNATS, openOrCreateRepo, startFossilSyncSubscriber and startCommitSubscriber of
-- hub/hub.go, and seedFromUpstream of hub/clone.go: the outcome and the calls made, first call first.
use edge_sync.Base.{
  text_eq, Text, codes, is_empty, non_empty, default_to, zero, suc, ite, Bool, true, false, not,
  ◌&&◌, Option, none, some, List, [], ◌∷◌, ◌++◌, if◌then◌else◌, ℤ, pos, negsuc,
}
use edge_sync.Hub.Lifecycle.{
  Config, ServerOptions, CreateOpts, repo, server, client, sync_sub, peer_sub, commit_sub, catchup,
  Action, acquired, released, cloned, removed, Error, seed_url_invalid, seed_scheme, clone_failed,
  close_clone_failed, seed_drift, read_code_failed, drift, create_failed, upstream_url_invalid,
  new_server_failed, server_not_ready, sync_code_failed, sync_code_empty, server_name_empty,
  connect_failed, queue_subscribe_failed, peer_subscribe_failed, sync_flush_failed,
  commit_code_failed, commit_code_empty, commit_subscribe_failed, commit_flush_failed, Answers, Hub,
  Outcome, made, failed,
}

abbrev pub localhost : Text
localhost = codes "127.0.0.1"

-- The loop's period in nanoseconds: a non-positive setting is ten seconds.
pub checkpoint_period : ℤ → ℤ
checkpoint_period (pos (suc n)) = pos (suc n)
checkpoint_period _ = pos 10000000000

-- nats-server picks a port for -1.
pub port_or_auto : ℤ → ℤ
port_or_auto (pos zero) = negsuc 0
port_or_auto p = p

unfoldable pub is_positive : ℤ → Bool
is_positive (pos (suc n)) = true
is_positive _ = false

-- The defaults that NewHub fills in.
unfoldable pub with_defaults : Answers → Config → Config
with_defaults w c = record c {
  bootstrap_user = default_to (codes "hub") c.bootstrap_user;
  nats_store_dir = default_to (w.join (w.dir c.repo_path) (codes "messaging")) c.nats_store_dir;
}

-- The clone is closed before its project code is compared.
unfoldable pub clone_step : Answers → Config → Option Error × List Action
clone_step w c = elim w.clone [
  | none ↦ (some clone_failed, [])
  | some code ↦
      let calls = cloned ∷ acquired repo ∷ released repo ∷ [] in
      if not w.close_clone_ok
      then (some close_clone_failed, calls)
      else if is_empty c.project_code
      then (none, calls)
      else ite (text_eq code c.project_code) (none, calls)
          (some seed_drift, calls ++ (removed ∷ []))
]

-- `none` if the seed went through.
unfoldable pub seed_from_upstream : Answers → Config → Option Error × List Action
seed_from_upstream w c = elim (w.url_scheme c.seed_from_upstream) [
  | none ↦ (some seed_url_invalid, [])
  | some scheme ↦
      ite (text_eq scheme (codes "http")) (clone_step w c)
        (ite (text_eq scheme (codes "https")) (clone_step w c) (some seed_scheme, []))
]

-- The guard in front of the seed.
unfoldable pub seed_step : Answers → Config → Option Error × List Action
seed_step w c =
    if non_empty c.seed_from_upstream && w.path_missing then seed_from_upstream w c else (none, [])

unfoldable pub create_opts : Config → CreateOpts
create_opts c = record { user = c.bootstrap_user; project_code = c.project_code }

unfoldable pub open_or_create_repo : Answers → Config → Option Error × List Action
unfolding create_opts
open_or_create_repo w c =
    let open_calls = acquired repo ∷ [] in
    let refused = acquired repo ∷ released repo ∷ [] in
    if w.open_ok
    then if is_empty c.project_code then (none, open_calls) else elim w.code_at_open [
      | none ↦ (some read_code_failed, refused)
      | some on_disk ↦ ite (text_eq on_disk c.project_code) (none, open_calls) (some drift, refused)
    ]
    else if w.create_ok (create_opts c)
    then (none, open_calls)
    else (some create_failed, [])

pub server_options : Config → ServerOptions
unfolding port_or_auto
server_options c = record {
  host = localhost;
  port = port_or_auto c.nats_client_port;
  server_name = c.server_name;
  jet_stream = true;
  store_dir = c.nats_store_dir;
  leaf_host = localhost;
  leaf_port = port_or_auto c.nats_leaf_port;
  websocket = if c.enable_web_socket then some (port_or_auto c.nats_web_socket_port) else none;
  remotes = if is_empty c.leaf_upstream then [] else c.leaf_upstream ∷ [];
}

unfoldable pub start_nats : Answers → Config → Option Error × List Action
unfolding server_options
start_nats w c =
    let start =
      if not (w.new_server_ok (server_options c))
      then (some new_server_failed, [])
      else if w.ready_ok
      then (none, acquired server ∷ [])
      else (some server_not_ready, acquired server ∷ released server ∷ []) in
    if is_empty c.leaf_upstream then start else elim (w.url_scheme c.leaf_upstream) [
      | none ↦ (some upstream_url_invalid, [])
      | some scheme ↦ start
    ]

-- `<prefix>.<project code>.<name>`.
unfoldable pub subject : Config → Text → Text → Text
subject c code name =
    default_to (codes "fossil") c.fossil_sync_subject_prefix
    ++ (codes "." ++ (code ++ (codes "." ++ name)))

-- The calls from nats.Connect on, for a subject and a peer's subject.
unfoldable pub connect_step : Answers → Text → Text → Text → Option Error × List Action
connect_step w code broadcast peer =
    if not w.connect_ok
    then (some connect_failed, [])
    else if not (w.queue_subscribe_ok broadcast (codes "sync-" ++ code))
    then (some queue_subscribe_failed, acquired client ∷ released client ∷ [])
    else if not (w.subscribe_ok peer)
    then (
      some peer_subscribe_failed,
      acquired client ∷ acquired sync_sub ∷ released sync_sub ∷ released client ∷ [],
    )
    else if not w.sync_flush_ok
    then (
      some sync_flush_failed,
      acquired client
          ∷ acquired sync_sub
          ∷ acquired peer_sub
          ∷ released sync_sub
          ∷ released peer_sub
          ∷ released client
          ∷ [],
    )
    else (none, acquired client ∷ acquired sync_sub ∷ acquired peer_sub ∷ [])

-- The fields set on the hub at the end of startFossilSyncSubscriber.
unfoldable pub with_sync : Text → Text → Text → Hub → Hub
with_sync broadcast peer id h = record h {
  has_client = true;
  has_sync_sub = true;
  has_peer_sub = true;
  sync_subject = broadcast;
  peer_sync_subject = peer;
  peer_id = id;
}

unfoldable pub sync_connected :
    Text → Text → Text → Hub → Option Error × List Action → Outcome × List Action
sync_connected broadcast peer id h (some e, calls) = (failed e, calls)
sync_connected broadcast peer id h (none, calls) = (made (with_sync broadcast peer id h), calls)

unfoldable pub start_fossil_sync_subscriber : Answers → Config → Hub → Outcome × List Action
start_fossil_sync_subscriber w c h = elim w.code_at_sync [
  | none ↦ (failed sync_code_failed, [])
  | some code ↦
      if is_empty code
      then (failed sync_code_empty, [])
      else let broadcast = subject c code (codes "sync") in
        let peer = broadcast ++ (codes "." ++ w.peer_name) in
        if is_empty w.peer_name
        then (failed server_name_empty, [])
        else sync_connected broadcast peer w.peer_name h (connect_step w code broadcast peer)
]

-- On success the publish hook is set and the catchup scheduled.
unfoldable pub start_commit_subscriber : Answers → Config → Hub → Outcome × List Action
start_commit_subscriber w c h = elim w.code_at_commit [
  | none ↦ (failed commit_code_failed, [])
  | some code ↦
      let name = subject c code (codes "commit") in
      if is_empty code
      then (failed commit_code_empty, [])
      else if not (w.subscribe_ok name)
      then (failed commit_subscribe_failed, [])
      else if not w.commit_flush_ok
      then (failed commit_flush_failed, acquired commit_sub ∷ released commit_sub ∷ [])
      else (
        made (record h { has_commit_sub = true; commit_subject = name; has_catchup = true }),
        acquired commit_sub ∷ acquired catchup ∷ [],
      )
]
