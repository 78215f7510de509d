-- ===== src/Agent/Lifecycle/Targets.antt =====
-- Where an agent syncs to once Start went through.
use edge_sync.Base.{
  Text, ◌≡◌, true, Option, none, some, [], ◌∷◌, ◌++◌, map, append-nil, arith, if◌then◌else◌,
}
use edge_sync.Agent.Lifecycle.{Answers, Agent}
use edge_sync.Agent.Lifecycle.Run.{
  iroh_label, nats_label, sidecar_step, start_iroh_sidecar, start_nats_mesh, start_nats_serve,
  start_notify, serve, mesh_started, iroh_started, start,
}

serve-targets :
    (w : Answers) (a : Agent)
    → a.has_conn ≡ true
    → (serve w a).1.sync_targets ≡ a.sync_targets ++ nats_label ∷ []
unfolding serve start_nats_serve start_notify
serve-targets w a c = ground arith

mesh_started-targets :
    (w : Answers) (a : Agent)
    → (mesh_started w (start_nats_mesh w a)).0 ≡ none
    → (mesh_started w (start_nats_mesh w a)).1.sync_targets ≡ a.sync_targets ++ nats_label ∷ []
unfolding mesh_started start_nats_mesh
mesh_started-targets w a e =
    ground (arith, serve-targets w (record a { has_server = true; has_conn = true }))

sidecar_step-targets :
    (w : Answers) (a : Agent) (endpoint : Option Text)
    → (iroh_started w (sidecar_step a endpoint)).0 ≡ none
    → (iroh_started w (sidecar_step a endpoint)).1.sync_targets
      ≡ (a.sync_targets ++ map iroh_label a.config.iroh_peers) ++ nats_label ∷ []
unfolding sidecar_step iroh_started
sidecar_step-targets w a none e = cc
sidecar_step-targets w a (some endpoint) e = mesh_started-targets w _ e

iroh_started-targets :
    (w : Answers) (a : Agent)
    → (iroh_started w (start_iroh_sidecar w a)).0 ≡ none
    → (iroh_started w (start_iroh_sidecar w a)).1.sync_targets
      ≡ (a.sync_targets
          ++ (if a.config.iroh_enabled then map iroh_label a.config.iroh_peers else []))
        ++ nats_label ∷ []
unfolding start_iroh_sidecar iroh_started
iroh_started-targets w a e = ground (
  arith,
  sidecar_step-targets w a w.sidecar_endpoint,
  mesh_started-targets w a,
  append-nil a.sync_targets,
)

-- After a Start that went through, the agent syncs to the targets that it had, then, with the sidecar
-- enabled, to each configured iroh peer in order, and last over NATS.
pub start-targets :
    (w : Answers) (a : Agent)
    → (start w a).0 ≡ none
    → (start w a).1.sync_targets
      ≡ (a.sync_targets
          ++ (if a.config.iroh_enabled then map iroh_label a.config.iroh_peers else []))
        ++ nats_label ∷ []
unfolding start
start-targets w a e = iroh_started-targets w (record a { has_cancel = true }) e
