-- ===== src/Tests/Life.antt =====
-- The life of an agent at concrete inputs.
use edge_sync.Base.{text_eq, codes, ◌≡◌, refl, true, false, none, some, [], ◌∷◌}
use edge_sync.Agent.Config.{Config}
use edge_sync.Agent.Lifecycle.{
  context, callback, sidecar, monitor, mesh, acquired, released, cancelled, present, Answers,
  fresh_agent,
}
use edge_sync.Agent.Lifecycle.Run.{
  reserve_leaf_port, sidecar_step, start_iroh_sidecar, start_nats_mesh, serve, mesh_started,
  iroh_started, start,
}
use edge_sync.Tests.Settings.{bare}

-- Everything goes through.
abbrev willing : Answers
willing = record {
  hostname = some (codes "host");
  notify_path = λ p. p;
  stat = present;
  clone_ok = true;
  open_ok = true;
  set_caps_ok = true;
  project_code = some (codes "c1");
  server_code = some (codes "s1");
  binary_found = true;
  reserve_ok = true;
  listen_ok = true;
  sidecar_endpoint = some (codes "e1");
  new_server_ok = true;
  server_ready = true;
  connect_ok = true;
  notify_open_ok = true;
  notify_service_ok = true;
}

abbrev with_peers : Config
with_peers = record bare { iroh_peers = codes "e2" ∷ codes "e3" ∷ [] }

-- Start alone leaves the sidecar, its flag and nothing else but the repository.
start_test :
    (start
      (record willing { connect_ok = false })
      (fresh_agent with_peers (codes "c1") (codes "s1"))).2
    ≡ acquired context
      ∷ acquired callback
      ∷ acquired sidecar
      ∷ acquired monitor
      ∷ acquired mesh
      ∷ released mesh
      ∷ cancelled
      ∷ []
unfolding start iroh_started start_iroh_sidecar reserve_leaf_port sidecar_step mesh_started
    start_nats_mesh text_eq
start_test = refl

starts : (start willing (fresh_agent with_peers (codes "c1") (codes "s1"))).0 ≡ none
unfolding start iroh_started start_iroh_sidecar reserve_leaf_port sidecar_step mesh_started
    start_nats_mesh serve text_eq
starts = refl
