-- ===== src/Agent/Lifecycle/Rules.antt =====
-- When an agent's resources may be taken and given back. The rules do not look at the code.
use edge_sync.Base.{Bool, true, false, not, ◌&&◌, ◌||◌, Option, none, some, if◌then◌else◌}
use edge_sync.Agent.Lifecycle.{
  Resource, repo, context, callback, sidecar, monitor, mesh, conn, serve_nats, serve_http,
  notify_repo, notify_svc, poll_loop, Action, acquired, released, cloned, cancelled,
}

pub record Held : Type 0 where
  pub has_repo : Bool
  pub has_context : Bool
  pub has_callback : Bool
  pub has_sidecar : Bool
  pub has_monitor : Bool
  pub has_mesh : Bool
  pub has_conn : Bool
  pub has_serve_nats : Bool
  pub has_serve_http : Bool
  pub has_notify_repo : Bool
  pub has_notify_svc : Bool
  pub has_poll_loop : Bool

unfoldable pub put : Bool → Resource → Held → Held
put b repo s = record s { has_repo = b }
put b context s = record s { has_context = b }
put b callback s = record s { has_callback = b }
put b sidecar s = record s { has_sidecar = b }
put b monitor s = record s { has_monitor = b }
put b mesh s = record s { has_mesh = b }
put b conn s = record s { has_conn = b }
put b serve_nats s = record s { has_serve_nats = b }
put b serve_http s = record s { has_serve_http = b }
put b notify_repo s = record s { has_notify_repo = b }
put b notify_svc s = record s { has_notify_svc = b }
put b poll_loop s = record s { has_poll_loop = b }

-- What must be held already: a goroutine its context, the sidecar the server that it calls back, the
-- connection its server, the service its repository.
unfoldable pub is_ready : Resource → Held → Bool
is_ready context s = s.has_repo
is_ready callback s = s.has_context
is_ready sidecar s = s.has_callback
is_ready monitor s = s.has_sidecar && s.has_context
is_ready conn s = s.has_mesh
is_ready serve_nats s = s.has_conn && s.has_context
is_ready serve_http s = s.has_context
is_ready notify_svc s = s.has_notify_repo
is_ready poll_loop s = s.has_context
is_ready _ s = true

unfoldable pub has : Resource → Held → Bool
has repo s = s.has_repo
has context s = s.has_context
has callback s = s.has_callback
has sidecar s = s.has_sidecar
has monitor s = s.has_monitor
has mesh s = s.has_mesh
has conn s = s.has_conn
has serve_nats s = s.has_serve_nats
has serve_http s = s.has_serve_http
has notify_repo s = s.has_notify_repo
has notify_svc s = s.has_notify_svc
has poll_loop s = s.has_poll_loop

-- What still stands on a resource. A server stands on the repository and on the connection until it is
-- told to stop, by its own close or by the end of the context. The poll loop ends only once its
-- context is cancelled: a wait for it before that would last forever.
unfoldable pub is_used : Resource → Held → Bool
is_used repo s =
    s.has_context && (s.has_callback || s.has_serve_nats || s.has_serve_http) || s.has_poll_loop
is_used mesh s = s.has_conn
is_used conn s = s.has_context && s.has_serve_nats || s.has_notify_svc || s.has_poll_loop
is_used notify_repo s = s.has_notify_svc
is_used poll_loop s = s.has_context
is_used _ s = false

-- The sidecar's shutdown and the mesh's Stop may be called for what does not run.
unfoldable pub is_idempotent : Resource → Bool
is_idempotent sidecar = true
is_idempotent mesh = true
is_idempotent _ = false

-- Cancelling twice is allowed.
unfoldable pub step : Action → Held → Option Held
unfolding put has is_ready is_used is_idempotent
step (acquired r) s = if is_ready r s && not (has r s) then some (put true r s) else none
step (released r) s =
    if not (is_used r s) && (has r s || is_idempotent r) then some (put false r s) else none
step cloned s = some s
step cancelled s = some (record s { has_context = false })

-- Everything is given back, but for servers and a monitor that are told to stop and not waited for.
unfoldable pub is_over : Option Held → Bool
is_over none = false
is_over (some s) = not (
    s.has_repo || s.has_context || s.has_sidecar || s.has_mesh || s.has_conn || s.has_notify_repo
    || s.has_notify_svc || s.has_poll_loop)

-- What a Start may leave that failed: its context is cancelled, no server of its own runs, and the
-- callback server is closed unless the sidecar that calls it is up.
unfoldable pub is_settled : {E : Type 0} → Option E → Option Held → Bool
is_settled e none = false
is_settled none (some s) = true
is_settled (some e) (some s) = not (
    s.has_context
    || s.has_mesh
    || s.has_conn
    || s.has_notify_repo
    || s.has_notify_svc
    || s.has_serve_nats
    || s.has_serve_http
    || s.has_poll_loop
    || s.has_callback && not s.has_sidecar)

abbrev pub nothing_held : Held
nothing_held = record {
  has_repo = false;
  has_context = false;
  has_callback = false;
  has_sidecar = false;
  has_monitor = false;
  has_mesh = false;
  has_conn = false;
  has_serve_nats = false;
  has_serve_http = false;
  has_notify_repo = false;
  has_notify_svc = false;
  has_poll_loop = false;
}
