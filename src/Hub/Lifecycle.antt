-- ===== src/Hub/Lifecycle.antt =====
-- hub/hub.go and hub/clone.go, the life of a hub: its settings, what it holds and the calls that take
-- and release it. The answers of the libraries are the parameter `Answers`.
pub mod Start
pub mod Build
pub mod Stop
pub mod Resources
pub mod Balance
pub mod Guard
use edge_sync.Base.{ℕ, List, [], ◌∷◌, ◌++◌, Bool, Option, Text, ℤ}

pub record Config : Type 0 where
  pub repo_path : Text
  pub server_name : Text
  pub bootstrap_user : Text
  pub nats_store_dir : Text
  pub fossil_http_port : ℤ
  pub nats_client_port : ℤ
  pub nats_leaf_port : ℤ
  pub enable_web_socket : Bool
  pub nats_web_socket_port : ℤ
  pub leaf_upstream : Text
  pub nobody_caps : Text
  pub disable_fossil_sync_over_nats : Bool
  pub fossil_sync_subject_prefix : Text
  pub project_code : Text
  pub seed_from_upstream : Text
  pub checkpoint_interval : ℤ

-- What the hub hands to nats-server; `websocket` is the port of an enabled listener without TLS.
pub record ServerOptions : Type 0 where
  pub host : Text
  pub port : ℤ
  pub server_name : Text
  pub jet_stream : Bool
  pub store_dir : Text
  pub leaf_host : Text
  pub leaf_port : ℤ
  pub websocket : Option ℤ
  pub remotes : List Text

-- A loop that runs in its own goroutine is a resource too: `catchup` and `checkpoint`.
pub data Resource : Type 0 where
  repo listener server client sync_sub peer_sub commit_sub catchup checkpoint : Resource

-- A call that takes or gives back a resource, writes or removes the cloned file, or shuts the HTTP
-- server down.
pub data Action : Type 0 where
  acquired released : Resource → Action
  cloned removed shut_http : Action

pub data Error : Type 0 where
  repo_path_required seed_url_invalid seed_scheme clone_failed close_clone_failed seed_drift : Error
  read_code_failed drift create_failed set_caps_failed bind_failed : Error
  upstream_url_invalid new_server_failed server_not_ready : Error
  sync_code_failed sync_code_empty server_name_empty connect_failed queue_subscribe_failed : Error
  peer_subscribe_failed sync_flush_failed : Error
  commit_code_failed commit_code_empty commit_subscribe_failed commit_flush_failed : Error

-- libfossil's options of Create.
pub record CreateOpts : Type 0 where
  pub user : Text
  pub project_code : Text

-- url.Parse gives the scheme; `clone` the project code of the clone; `code_at_open`, `code_at_sync`
-- and `code_at_commit` what the three reads of "project-code" give; `listen` the bound address.
pub record Answers : Type 0 where
  pub print : ℤ → Text
  pub dir : Text → Text
  pub join : Text → Text → Text
  pub url_scheme : Text → Option Text
  pub path_missing : Bool
  pub clone : Option Text
  pub close_clone_ok : Bool
  pub open_ok : Bool
  pub code_at_open : Option Text
  pub create_ok : CreateOpts → Bool
  pub set_caps_ok : Bool
  pub listen : Text → Option Text
  pub new_server_ok : ServerOptions → Bool
  pub ready_ok : Bool
  pub varz_leaf_port : Option ℤ
  pub websocket_url : Text
  pub peer_name : Text
  pub code_at_sync : Option Text
  pub connect_ok : Bool
  pub queue_subscribe_ok : Text → Text → Bool
  pub subscribe_ok : Text → Bool
  pub sync_flush_ok : Bool
  pub code_at_commit : Option Text
  pub commit_flush_ok : Bool

-- The fields that NewHub and the two subscribers set. `has_client`, `has_sync_sub`, `has_peer_sub`,
-- `has_commit_sub` and `has_catchup` say that the field is not nil; the other handles are set in
-- every hub.
pub record Hub : Type 0 where
  pub has_client : Bool
  pub has_sync_sub : Bool
  pub has_peer_sub : Bool
  pub has_commit_sub : Bool
  pub has_catchup : Bool
  pub sync_subject : Text
  pub peer_sync_subject : Text
  pub commit_subject : Text
  pub peer_id : Text
  pub http_addr : Text
  pub leaf_url : Text
  pub websocket_url : Text
  pub checkpoint_interval : ℤ
  pub ready_closed : Bool
  pub stopped : Bool

pub data Outcome : Type 0 where
  made : Hub → Outcome
  failed : Error → Outcome

-- Calls made before those of a result.
abbrev pub after {ℓ} : {A : Type ℓ} → List Action → A × List Action → A × List Action
after calls (a, more) = (a, calls ++ more)
