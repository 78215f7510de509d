-- ===== src/Agent/Lifecycle/Run.antt =====
-- Start and Stop of leaf/agent/agent.go, with startIrohSidecar, startNATSMesh, startNATSServe,
-- startHTTPServer and startNotify: the error, the agent and the calls made, first call first.
use edge_sync.Base.{
  text_eq, Text, codes, non_empty, ◌⊎◌, inl, inr, ite, Bool, true, not, ◌&&◌, Option, none, some,
  List, [], ◌∷◌, ◌++◌, map, if◌then◌else◌,
}
use edge_sync.Agent.Config.{Config, role_leaf}
use edge_sync.Agent.Lifecycle.{
  repo, context, callback, sidecar, monitor, mesh, conn, serve_nats, serve_http, notify_repo,
  notify_svc, poll_loop, Action, acquired, released, cancelled, Error, binary_missing,
  reserve_failed, listen_failed, sidecar_failed, mesh_failed, connect_failed, Answers, Agent,
  new_agent,
}

-- ReserveLeafPort: nothing to reserve for the leaf role.
unfoldable pub reserve_leaf_port : Answers → Agent → Bool
reserve_leaf_port w a = ite (text_eq a.config.nats_role role_leaf) true w.reserve_ok

-- A peer's label among the sync targets.
abbrev pub iroh_label : Text → Text
iroh_label peer = codes "iroh:" ++ peer

abbrev pub nats_label : Text
nats_label = codes "nats"

unfoldable pub sidecar_step : Agent → Option Text → Option Error × Agent × List Action
sidecar_step a none = (
  some sidecar_failed,
  record a { has_sidecar = true },
  acquired callback ∷ released callback ∷ [],
)
sidecar_step a (some endpoint) = (
  none,
  record a {
    has_sidecar = true;
    iroh_endpoint_id = endpoint;
    sync_targets = a.sync_targets ++ map iroh_label a.config.iroh_peers;
  },
  acquired callback ∷ acquired sidecar ∷ acquired monitor ∷ [],
)

unfoldable pub start_iroh_sidecar : Answers → Agent → Option Error × Agent × List Action
start_iroh_sidecar w a =
    if not a.config.iroh_enabled
    then (none, a, [])
    else if not w.binary_found
    then (some binary_missing, a, [])
    else if not (reserve_leaf_port w a)
    then (some reserve_failed, a, [])
    else if not w.listen_ok
    then (some listen_failed, a, [])
    else sidecar_step a w.sidecar_endpoint

-- The mesh's server stays in its field when it does not get ready, and not when NewServer fails.
unfoldable pub start_nats_mesh : Answers → Agent → Option Error × Agent × List Action
start_nats_mesh w a =
    if not w.new_server_ok
    then (some mesh_failed, a, [])
    else if not w.server_ready
    then (some mesh_failed, record a { has_server = true }, acquired mesh ∷ released mesh ∷ [])
    else if not w.connect_ok
    then (some connect_failed, a, acquired mesh ∷ released mesh ∷ [])
    else (none, record a { has_server = true; has_conn = true }, acquired mesh ∷ acquired conn ∷ [])

-- The agent's transport is set with its connection.
unfoldable pub start_nats_serve : Agent → Agent × List Action
start_nats_serve a = (
  if a.has_conn then record a { sync_targets = a.sync_targets ++ nats_label ∷ [] } else a,
  if a.config.serve_nats_enabled && a.has_conn then acquired serve_nats ∷ [] else [],
)

unfoldable pub start_http_server : Agent → List Action
start_http_server a = if non_empty a.config.serve_http_addr then acquired serve_http ∷ [] else []

-- Its error is logged only.
unfoldable pub start_notify : Answers → Agent → Agent × List Action
start_notify w a =
    if not a.config.notify_enabled
    then (a, [])
    else if not w.notify_open_ok
    then (a, [])
    else if not w.notify_service_ok
    then (a, acquired notify_repo ∷ released notify_repo ∷ [])
    else (
      record a { has_notify_repo = true; has_notify_svc = true },
      acquired notify_repo ∷ acquired notify_svc ∷ [],
    )

-- What Start does once the mesh is up.
unfoldable pub serve : Answers → Agent → Option Error × Agent × List Action
serve w a =
    let (a₁, nats_calls) = start_nats_serve a in
    let (a₂, notify_calls) = start_notify w a₁ in
    (
      none,
      record a₂ { has_done = true },
      nats_calls ++ (start_http_server a₁ ++ (notify_calls ++ acquired poll_loop ∷ [])),
    )

abbrev pub after_calls :
    List Action → Option Error × Agent × List Action → Option Error × Agent × List Action
after_calls calls (e, a, more) = (e, a, calls ++ more)

unfoldable pub mesh_started :
    Answers → Option Error × Agent × List Action → Option Error × Agent × List Action
mesh_started w (some e, a, calls) = (some e, a, calls ++ cancelled ∷ [])
mesh_started w (none, a, calls) = after_calls calls (serve w a)

unfoldable pub iroh_started :
    Answers → Option Error × Agent × List Action → Option Error × Agent × List Action
iroh_started w (some e, a, calls) = (some e, a, calls ++ cancelled ∷ [])
iroh_started w (none, a, calls) = after_calls calls (mesh_started w (start_nats_mesh w a))

unfoldable pub start : Answers → Agent → Option Error × Agent × List Action
start w a =
    let a₁ = record a { has_cancel = true } in
    after_calls (acquired context ∷ []) (iroh_started w (start_iroh_sidecar w a₁))

unfoldable pub call_if : Bool → Action → List Action → List Action
call_if b c calls = if b then c ∷ calls else calls

-- Every agent that New made has its repository.
unfoldable pub stop_calls : Agent → List Action
unfolding call_if
stop_calls a = call_if a.has_cancel cancelled (
    call_if a.has_done (released poll_loop) (
      call_if a.has_notify_svc (released notify_svc) (
        call_if a.has_notify_repo (released notify_repo) (
          call_if a.has_sidecar (released sidecar) (
            call_if a.has_conn (released conn)
              (call_if a.has_server (released mesh) (released repo ∷ [])))))))

-- The calls of Start and of Stop behind it, for an agent that New made.
unfoldable pub lived : Answers → Error ⊎ Agent → List Action
unfolding start stop_calls
lived w (inl e) = []
lived w (inr a) = let (e, b, calls) = start w a in calls ++ stop_calls b

-- The error and the calls of Start alone, for an agent that New made.
unfoldable pub begun_with : Answers → Error ⊎ Agent → Option Error × List Action
unfolding start
begun_with w (inl e) = (none, [])
begun_with w (inr a) = let (e, b, calls) = start w a in (e, calls)

-- The calls of a whole life: New, and Start and Stop if it gives an agent.
unfoldable pub life : Answers → Answers → Config → List Action
unfolding lived
life w v c = let (made, calls) = new_agent w c in calls ++ lived v made
