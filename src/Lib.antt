-- ===== src/Lib.antt =====
-- EdgeSync, its Go code (github.com/danmestas/EdgeSync): a sync engine in which leaf agents,
-- hubs and bridges replicate Fossil repositories over NATS, HTTP and iroh. Paths below are from
-- the repository's root.
--
-- The parts and the files that model them:
-- - Base, Base/*: shared names, Boolean tests, lists, texts, sorting by a key.
-- - Hub, Hub/Repo, Hub/Repo/*: hub/repo.go and hub/commit.go. `Repo` holds the event table, the
--   watermark and the announcements sent; `commit`, `serve_xfer`, `publish_new_commits`,
--   `init_publish_watermark` and `restart` are Repo.Commit, the handler of NewHub,
--   publishNewCommits, initPublishWatermark and a new hub over the same file.
-- - Hub/Catchup, Hub/Catchup/*: startPublishCatchup and the end of Stop in hub/hub.go, as a step relation on
--   the two goroutines.
-- - Hub/Users: hub/users.go and the user methods of hub/repo.go over an interface for the user table.
-- - Notify/Message, Notify/Message/*: leaf/agent/notify/message.go, and the choice of files and priorities of store.go.
-- - Agent/Identity: leaf/agent/clientid.go. `ensure_client_id` and `generate_uuid4` are ensureClientID
--   and generateUUID4.
-- - Agent/Config: leaf/agent/config.go. `apply_defaults` and `validate` are applyDefaults and validate.
-- - Notify/Dedup: leaf/agent/notify/pubsub.go. `is_duplicate` is isDuplicate, with the map `seen` as
--   the list of its keys; the theorems hold for any cap, of which maxSeenIDs is one.
-- - Notify/Token: leaf/agent/notify/token.go. `generate_token` is GenerateToken on a list of random
--   bytes, which ends where rand.Read fails; `format_pair_url` and `parse_pair_url` are FormatPairURL
--   and ParsePairURL.
-- - Notify/JsonFile, Notify/Devices, Notify/Pending: leaf/agent/notify/device_registry.go and
--   token_store.go, two lists in JSON files of the notify repository. The file's content goes in
--   and comes out; encoding/json and the failures of the read and of the commit are parameters.
-- - Agent/Autosync: leaf/agent/autosync.go. `autosync_commit` gives AutosyncCommit's outcome and the
--   calls it makes, in order.
-- - Agent/Outcomes: leaf/agent/sync_outcomes.go and the event loop of leaf/agent/agent.go
--   (`emit_sync_outcomes`, `tick`, and `loop_step` for one turn of pollLoop).
-- - Agent/Mesh: leaf/agent/nats_mesh.go. `should_solicit`, `establish_tunnels` and
--   `build_server_opts` are shouldSolicit, establishTunnels and buildServerOpts.
-- - Sim/Proxy, Sim/Schedule: sim/proxy.go, sim/schedule.go and the loops of sim/harness.go that play a
--   schedule. `generate_schedule` is GenerateSchedule on a function for the random draws, and
--   `play` is ExecuteSchedule without its waits.
-- - Bridge: bridge/bridge/ and leaf/agent/nats.go. `new_bridge`, `handle_message` and `round_trip` are New,
--   handleMessage and NATSTransport.RoundTrip.
-- - Hub/Lifecycle, Hub/Lifecycle/*: hub/hub.go and hub/clone.go. `new_hub`, `serve_http` and `stop` are
--   NewHub, ServeHTTP and Stop, with the calls that take and give back resources, in order. NewHub is
--   cut into steps (Start) that the definitions of Build go on from. Resources has the rules that the
--   calls are checked by.
-- - Hub/Pull: the commit notifications of hub/hub.go and hub/nats_transport.go. `publish`, `on_commit`
--   and `handle` are the publish hook and the two message handlers. Hub/Replicate puts them behind the
--   announcements of Hub/Repo.
-- - Notify/Store, Notify/Store/*: leaf/agent/notify/store.go. Mailbox has the list of messages that the
--   repository stands for; Refines the laws that libfossil, zlib and encoding/json are taken to have.
-- - Notify/Service, Notify/Service/*: leaf/agent/notify/notify.go. `send` and `resolve_thread` are Send and
--   resolveThread; Ownership has the opening and closing. Notify/Watch: Service.Watch as a step relation on the callback, the goroutine that
--   tears down, the consumer and the context.
-- - Agent/Artifacts: leaf/agent/code_artifact.go, one function per method.
-- - Agent/Lifecycle, Agent/Lifecycle/*: leaf/agent/agent.go, clone.go and the use of nats_mesh.go. `new_agent`,
--   `start` and `stop_calls` are New, Start and Stop; Rules has the rules that their calls are checked by.
-- - Notify/Pubsub: the rest of pubsub.go. `deliver` is the callback of subscribeReturn over a run of
--   messages to any subscriptions of one subscriber.
-- - Notify/Store/Threads, Notify/Store/Threads/*: ListThreads of store.go. Grouping has which files a
--   thread gets.
-- - Sim/Invariants, Sim/Invariants/*: sim/invariants.go and the report of RunSimulation.
-- - Agent/Sidecar, Agent/Sidecar/*: leaf/agent/sidecar.go. `wait_ready` runs on fuel, of which Waits
--   says how much is enough.
-- - Agent/Peers: leaf/agent/peer_registry.go. `run_registry` is what New and the poll loop do with it.
-- - Bridge/Life: bridge/bridge/bridge.go. It has New, Start and Stop by their calls.
-- - Agent/Mesh/Server: Start and Stop of leaf/agent/nats_mesh.go behind the tunnels.
-- - Agent/Serve, Agent/Serve/*: leaf/agent/serve_nats.go, serve_http.go and iroh.go. Agent/Carrier:
--   leaf/agent/internal/natshdr/carrier.go.
-- - Cli, Cli/*: cli/notify.go, cli/hub_serve.go and cli/doctor.go. `run_notify` gives the outcome of a notify command and
--   the calls that it makes, in order.
-- - Leaf, Leaf/*: leaf/cmd/leaf/main.go (`parse_headers`, the environment, `await_signals`) and, in
--   Leaf/Telemetry, leaf/telemetry/setup.go.
-- - Tests: concrete stand-ins for the parameters, runs, and instances of the theorems.
--
-- Code outside the repository (libfossil, nats.go, nats-server, the Go standard library, SQLite) is
-- a parameter of the definitions that use it, with the documented behaviour that they rely on as
-- named hypotheses; each hypothesis is met by a concrete function in Tests.
--
-- Texts are lists of bytes. Times are natural numbers, on one scale throughout a component. Row
-- ids are positive and are natural numbers. No definition runs on fuel unless its file says so.
--
-- Not modelled: what only does input, output, logging or telemetry, the parsing of flags, the run of the hub command, the set-up and
-- tear-down of the simulator, the Rust
-- sidecar, and data races inside one call; calls under one mutex are single steps.
pub mod Base
pub mod Hub
pub mod Leaf
pub mod Notify
pub mod Agent
pub mod Sim
pub mod Bridge
pub mod Cli
mod Tests
