-- ===== src/Agent/Serve.antt =====
-- leaf/agent/serve_nats.go, serve_http.go and iroh.go: what an agent answers to its peers, and the
-- transport over the sidecar. HandleSync of libfossil, the sidecar and encoding/json are parameters;
-- telemetry is left out.
pub mod Peer
use edge_sync.Base.{
  text_eq, Text, codes, ℕ, ◌⊎◌, inl, inr, ite, Bool, true, false, not, Option, none, some, List, [],
  ◌++◌, ◌==◌, if◌then◌else◌,
}
use edge_sync.Agent.Config.{Config}
use edge_sync.Agent.Sidecar.{Process, running, absent, gone}

-- The subject that startNATSServe gives to ServeNATS.
unfoldable pub serve_subject : Config → Text → Text
serve_subject c project_code = c.subject_prefix ++ (codes "." ++ (project_code ++ codes ".sync"))

-- The reply to an xfer request, empty on an error.
unfoldable pub serve_nats : (Text → Option Text) → Text → Text
serve_nats handle_sync payload = elim (handle_sync payload) [ none ↦ [] | some resp ↦ resp ]

-- The handlers of the HTTP server, by their paths; `/` takes every other one.
pub data Handler : Type 0 where
  healthz iroh_status xfer : Handler

unfoldable pub route : Config → Text → Handler
route c path =
    ite (text_eq path (codes "/healthz")) healthz
      (if c.iroh_enabled then ite (text_eq path (codes "/iroh/status")) iroh_status xfer else xfer)

abbrev pub healthz_body : Text
healthz_body = codes "{\"status\":\"ok\"}"

-- The status of the sidecar, where an agent without one has `none`.
pub record IrohStatus : Type 0 where
  pub enabled : Bool
  pub endpoint_id : Text
  pub peers : List Text
  pub alive : Bool

unfoldable pub iroh_sidecar_exited : Option Process → Bool
iroh_sidecar_exited none = true
iroh_sidecar_exited (some absent) = true
iroh_sidecar_exited (some running) = false
iroh_sidecar_exited (some gone) = true

unfoldable pub status_of : Config → Text → Option Process → IrohStatus
status_of c endpoint_id sidecar = record {
  enabled = true;
  endpoint_id = endpoint_id;
  peers = c.iroh_peers;
  alive = not (iroh_sidecar_exited sidecar);
}

pub data IrohError : Type 0 where
  create_failed request_failed read_failed : IrohError
  bad_status : ℕ → IrohError

-- What the sidecar answers to a POST: nothing, or a code and a body that can be read or not.
pub data Answer : Type 0 where
  no_answer : Answer
  answer : ℕ → Option Text → Answer

unfoldable pub iroh_url : Text → Text
iroh_url endpoint_id = codes "http://iroh-sidecar/exchange/" ++ endpoint_id

unfoldable pub read_answer : Answer → IrohError ⊎ Text
read_answer no_answer = inl request_failed
read_answer (answer code body) =
    if not (code == 200)
    then inl (bad_status code)
    else elim body [ none ↦ inl read_failed | some payload ↦ inr payload ]

-- `accepts` says whether a request can be made of the URL.
unfoldable pub iroh_round_trip :
    (Text → Bool) → (Text → Text → Answer) → Text → Text → IrohError ⊎ Text
iroh_round_trip accepts post endpoint_id payload =
    let url = iroh_url endpoint_id in
    if accepts url then read_answer (post url payload) else inl create_failed
