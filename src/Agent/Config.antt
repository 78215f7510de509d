-- ===== src/Agent/Config.antt =====
-- leaf/agent/config.go: the defaults and the validation of the settings of an agent. `hostname` is
-- the answer of os.Hostname and `notify_path` the join of the repository's folder with
-- "notify.fossil".
pub mod Valid
use edge_sync.Base.{
  ℕ, ◌<◌, List, [], ◌∷◌, ◌++◌, Bool, true, false, ◌&&◌, ◌||◌, not, ◌==◌, ite, ltb, is_empty,
  if◌then◌else◌, Option, none, some, default_to, Text, text_eq, codes, ℤ, pos, negsuc,
}
use edge_sync.Agent.Autosync.{Mode}

-- The settings. Durations and sizes are plain numbers; of the six interfaces and functions
-- (Clock, Buggify, Observer, CustomDialer, Logger, PostSyncHook) a `has_` field says that it is not
-- nil.
pub record Config : Type 0 where
  pub repo_path : Text
  pub clone_from_hub_url : Text
  pub nats_upstream : Text
  pub nats_client_port : ℤ
  pub nats_store_dir : Text
  pub nats_role : Text
  pub poll_interval : ℤ
  pub user : Text
  pub password : Text
  pub push : Bool
  pub pull : Bool
  pub uv : Bool
  pub private : Bool
  pub peer_id : Text
  pub subject_prefix : Text
  pub has_clock : Bool
  pub has_buggify : Bool
  pub has_observer : Bool
  pub serve_http_addr : Text
  pub serve_nats_enabled : Bool
  pub nobody_caps : Text
  pub has_custom_dialer : Bool
  pub has_logger : Bool
  pub has_post_sync_hook : Bool
  pub iroh_enabled : Bool
  pub iroh_peers : List Text
  pub iroh_key_path : Text
  pub iroh_binary_path : Text
  pub content_cache_size : ℤ
  pub notify_enabled : Bool
  pub notify_repo_path : Text
  pub autosync : Mode
  pub allow_fork : Bool
  pub override_lock : Bool

pub data ConfigError : Type 0 where
  repo_path_required : ConfigError
  invalid_role : Text → ConfigError
  port_out_of_range : ℤ → ConfigError

abbrev pub role_peer : Text
role_peer = codes "peer"

abbrev pub role_hub : Text
role_hub = codes "hub"

abbrev pub role_leaf : Text
role_leaf = codes "leaf"

-- `if n == 0 { n = d }`.
unfoldable pub default_number : ℕ → ℤ → ℤ
default_number d (pos n) = if n == 0 then pos d else pos n
default_number d (negsuc n) = negsuc n

unfoldable pub default_peer_id : Option Text → Text → Text
default_peer_id none id = default_to (codes "unknown") id
default_peer_id (some h) id = default_to h id

abbrev pub five_seconds : ℕ
five_seconds = 5000000000

unfoldable pub apply_defaults : Option Text → (Text → Text) → Config → Config
unfolding default_number default_peer_id
apply_defaults hostname notify_path c =
    let neither = not c.push && not c.pull in
    record c {
      nats_role = default_to role_peer c.nats_role;
      poll_interval = default_number five_seconds c.poll_interval;
      push = if neither then true else c.push;
      pull = if neither then true else c.pull;
      peer_id = default_peer_id hostname c.peer_id;
      subject_prefix = default_to (codes "fossil") c.subject_prefix;
      has_clock = true;
      iroh_key_path =
          if c.iroh_enabled && is_empty c.iroh_key_path
          then c.repo_path ++ codes ".iroh-key"
          else c.iroh_key_path;
      content_cache_size = default_number 33554432 c.content_cache_size;
      notify_repo_path =
          if c.notify_enabled && is_empty c.notify_repo_path
          then notify_path c.repo_path
          else c.notify_repo_path;
    }

pub is_role : Text → Bool
is_role r =
    ite (text_eq r role_peer) true
      (ite (text_eq r role_hub) true (ite (text_eq r role_leaf) true false))

pub port_in_range : ℤ → Bool
port_in_range (pos n) = not (ltb 65535 n)
port_in_range (negsuc n) = false

pub validate : Config → Option ConfigError
unfolding is_role port_in_range
validate c =
    if is_empty c.repo_path
    then some repo_path_required
    else if not (is_role c.nats_role)
    then some (invalid_role c.nats_role)
    else if not (port_in_range c.nats_client_port)
    then some (port_out_of_range c.nats_client_port)
    else none
