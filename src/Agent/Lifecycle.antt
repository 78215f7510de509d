-- ===== src/Agent/Lifecycle.antt =====
-- leaf/agent/agent.go, leaf/agent/clone.go and Start and Stop of leaf/agent/nats_mesh.go: the life of
-- an agent, as the calls that take and release what it holds. The answers of the libraries and of the
-- operating system are the parameter `Answers`.
pub mod Run
pub mod Rules
pub mod Balance
pub mod Targets
use edge_sync.Base.{
  Text, is_empty, non_empty, ◌⊎◌, inl, inr, Bool, false, not, ◌&&◌, ◌||◌, Option, none, some, List,
  [], ◌∷◌, ◌++◌, if◌then◌else◌,
}
use edge_sync.Agent.Config.{
  Config, ConfigError, repo_path_required, invalid_role, port_out_of_range, role_peer, role_hub,
  role_leaf, default_number, default_peer_id, five_seconds, apply_defaults, is_role, port_in_range,
  validate,
}

-- A goroutine that runs until the context is cancelled is a resource too: `callback`, `monitor`,
-- `serve_nats`, `serve_http` and `poll_loop`.
pub data Resource : Type 0 where
  repo context callback sidecar monitor mesh conn : Resource
  serve_nats serve_http notify_repo notify_svc poll_loop : Resource

-- `cancelled` is the call of the context's cancel.
pub data Action : Type 0 where
  acquired released : Resource → Action
  cloned cancelled : Action

pub data Error : Type 0 where
  config_refused : ConfigError → Error
  clone_failed stat_failed open_failed set_caps_failed project_code_failed server_code_failed :
      Error
  binary_missing reserve_failed listen_failed sidecar_failed mesh_failed connect_failed : Error
  notify_open_failed notify_service_failed : Error

-- What os.Stat says of the repository's path.
pub data Stat : Type 0 where
  present missing unknown : Stat

-- `notify_path` and `hostname` are what the defaults use; `sidecar_endpoint` is the endpoint id of a
-- sidecar that gets ready.
pub record Answers : Type 0 where
  pub hostname : Option Text
  pub notify_path : Text → Text
  pub stat : Stat
  pub clone_ok : Bool
  pub open_ok : Bool
  pub set_caps_ok : Bool
  pub project_code : Option Text
  pub server_code : Option Text
  pub binary_found : Bool
  pub reserve_ok : Bool
  pub listen_ok : Bool
  pub sidecar_endpoint : Option Text
  pub new_server_ok : Bool
  pub server_ready : Bool
  pub connect_ok : Bool
  pub notify_open_ok : Bool
  pub notify_service_ok : Bool

-- The fields of an agent that New made. `has_cancel`, `has_done`, `has_sidecar`, `has_server` (of the
-- mesh), `has_conn`, `has_notify_repo` and `has_notify_svc` say that the field is not nil;
-- `sync_targets` are the labels.
pub record Agent : Type 0 where
  pub config : Config
  pub project_code : Text
  pub server_code : Text
  pub has_cancel : Bool
  pub has_done : Bool
  pub has_sidecar : Bool
  pub has_server : Bool
  pub has_conn : Bool
  pub has_notify_repo : Bool
  pub has_notify_svc : Bool
  pub iroh_endpoint_id : Text
  pub sync_targets : List Text

-- CloneRepo, with whether the clone goes through.
unfoldable pub clone_repo : Bool → Text → Text → Option Error × List Action
clone_repo clone_ok repo_path hub_url =
    if is_empty repo_path || is_empty hub_url
    then (some clone_failed, [])
    else if clone_ok
    then (none, cloned ∷ [])
    else (some clone_failed, [])

unfoldable pub clone_step : Answers → Config → Option Error × List Action
unfolding clone_repo
clone_step w c = if is_empty c.clone_from_hub_url then (none, []) else elim w.stat [
  | present ↦ (none, [])
  | missing ↦ clone_repo w.clone_ok c.repo_path c.clone_from_hub_url
  | unknown ↦ (some stat_failed, [])
]

abbrev pub give_up : Error → (Error ⊎ Agent) × List Action
give_up e = (inl e, acquired repo ∷ released repo ∷ [])

abbrev pub fresh_agent : Config → Text → Text → Agent
fresh_agent c project server = record {
  config = c;
  project_code = project;
  server_code = server;
  has_cancel = false;
  has_done = false;
  has_sidecar = false;
  has_server = false;
  has_conn = false;
  has_notify_repo = false;
  has_notify_svc = false;
  iroh_endpoint_id = [];
  sync_targets = [];
}

-- From the opening of the repository on.
unfoldable pub open_step : Answers → Config → (Error ⊎ Agent) × List Action
open_step w c =
    if not w.open_ok
    then (inl open_failed, [])
    else if non_empty c.nobody_caps && not w.set_caps_ok
    then give_up set_caps_failed
    else elim w.project_code [
      | none ↦ give_up project_code_failed
      | some project ↦ elim w.server_code [
        | none ↦ give_up server_code_failed
        | some server ↦ (inr (fresh_agent c project server), acquired repo ∷ [])
      ]
    ]

unfoldable pub cloned_step :
    Answers → Config → Option Error × List Action → (Error ⊎ Agent) × List Action
cloned_step w c (some e, calls) = (inl e, calls)
cloned_step w c (none, calls) = ((open_step w c).0, calls ++ (open_step w c).1)

unfoldable pub validated : Answers → Config → Option ConfigError → (Error ⊎ Agent) × List Action
validated w c (some e) = (inl (config_refused e), [])
validated w c none = cloned_step w c (clone_step w c)

unfoldable pub new_agent : Answers → Config → (Error ⊎ Agent) × List Action
new_agent w cfg = let c = apply_defaults w.hostname w.notify_path cfg in validated w c (validate c)
