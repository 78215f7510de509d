-- ===== src/Bridge.antt =====
-- bridge/bridge/bridge.go and bridge/bridge/config.go, with the transport of the agents that ask the
-- bridge, leaf/agent/nats.go. The upstream server, NATS and the Buggify check are parameters.
pub mod Trip
pub mod Life
use edge_sync.Base.{
  ℕ, List, [], ◌∷◌, ◌++◌, Bool, true, false, ◌&&◌, not, ◌==◌, is_empty, Option, none, some,
  if◌then◌else◌, default_to, Text, codes,
}

-- `has_upstream` and `has_buggify` say that Upstream and Buggify are not nil.
pub record Config : Type 0 where
  pub nats_url : Text
  pub fossil_url : Text
  pub project_code : Text
  pub subject_prefix : Text
  pub has_upstream : Bool
  pub has_buggify : Bool

pub data ConfigError : Type 0 where
  fossil_url_required project_code_required : ConfigError

unfoldable pub apply_defaults : Config → Config
apply_defaults c = record c {
  nats_url = default_to (codes "nats://localhost:4222") c.nats_url;
  subject_prefix = default_to (codes "fossil") c.subject_prefix;
}

unfoldable pub validate : Config → Option ConfigError
validate c =
    if is_empty c.fossil_url && not c.has_upstream
    then some fossil_url_required
    else if is_empty c.project_code
    then some project_code_required
    else none

-- `%s.%s.sync`.
unfoldable pub sync_subject : Text → Text → Text
sync_subject prefix project_code = prefix ++ (codes "." ++ (project_code ++ codes ".sync"))

-- The transport to the Fossil server that `New` chooses: the given one or HTTP to the URL.
pub data Upstream : Type 0 where
  given : Upstream
  http : Text → Upstream

-- A started bridge: its settings, its transport and the subject that it listens on.
pub record Bridge : Type 0 where
  pub config : Config
  pub upstream : Upstream
  pub subject : Text

-- `New` behind the validation; connecting to NATS is left out.
unfoldable pub connect : Config → Option ConfigError → Option Bridge
unfolding sync_subject
connect c (some e) = none
connect c none = some (record {
  config = c;
  upstream = if c.has_upstream then given else http c.fossil_url;
  subject = sync_subject c.subject_prefix c.project_code;
})

unfoldable pub new_bridge : Config → Option Bridge
unfolding apply_defaults
new_bridge cfg = let c = apply_defaults cfg in connect c (validate c)

-- The reply to a message; `fires` is the answer of the Buggify check, and `trip` makes the round
-- trip on the chosen transport, with `none` for an error.
pub handle_message : Bool → (Upstream → Text → Option Text) → Bridge → Text → Text
handle_message fires trip b payload =
    if b.config.has_buggify && fires
    then []
    else elim (trip b.upstream payload) [ none ↦ [] | some resp ↦ resp ]

-- `NATSTransport`; timeouts are in nanoseconds.
pub record NatsTransport : Type 0 where
  pub subject : Text
  pub timeout : ℕ

unfoldable pub new_nats_transport : Text → ℕ → Text → NatsTransport
unfolding sync_subject
new_nats_transport project_code timeout prefix = record {
  subject = sync_subject (default_to (codes "fossil") prefix) project_code;
  timeout = if timeout == 0 then 30000000000 else timeout;
}

-- `request` is the request and reply of NATS on a subject, within a timeout.
unfoldable pub round_trip : (Text → ℕ → Text → Option Text) → NatsTransport → Text → Option Text
round_trip request t payload = request t.subject t.timeout payload
