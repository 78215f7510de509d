-- ===== src/Tests/Lifecycle.antt =====
-- The life of a hub and a cluster of two hubs at concrete inputs.
use edge_sync.Base.{
  ℕ, Elem, text_eq, Text, codes, has_prefix, ◌≡◌, refl, sym, ap, subst, ◌≢◌, ◌⊎◌, inl, inr, true,
  false, Option, none, some, List, [], ◌∷◌, ◌++◌, if◌then◌else◌, length, take, drop,
  drop-length-append, pos,
}
use mathlib.Core.Option.{some-injective}
use edge_sync.Hub.Lifecycle.{
  Config, repo, acquired, released, cloned, removed, seed_drift, drift, Answers, Hub, Outcome, made,
  failed,
}
use edge_sync.Hub.Lifecycle.Start.{
  with_defaults, clone_step, seed_from_upstream, seed_step, open_or_create_repo, start_nats,
  subject, connect_step, sync_connected, start_fossil_sync_subscriber, start_commit_subscriber,
}
use edge_sync.Hub.Lifecycle.Build.{
  start_checkpoint_loop, commit_started, sync_started, fresh_hub, start_loops, nats_started,
  listened, listen_step, caps_step, repo_opened, seeded, new_hub,
}
use edge_sync.Hub.Lifecycle.Stop.{clean, broken, stop}
use edge_sync.Hub.Lifecycle.Resources.{step, lenient_step, nothing_held, all_held}
use edge_sync.Base.Replay.{replay}
use edge_sync.Hub.Lifecycle.Balance.{held_with, new_hub_balanced, new_hub-stop}
use edge_sync.Hub.Lifecycle.Guard.{IsPinned, new_hub-project_code, new_hub-subjects}
use edge_sync.Hub.Pull.{
  CommitNotification, Json, round_trip, notification, publish, pull_at, on_commit, Member, handle,
  responders, IsNetwork,
}
use edge_sync.Hub.Pull.Cluster.{
  new_hub-IsServing, HasDistinctPeers, AllServing, reply_of, only_responder, publish-pull,
}

abbrev name_a : Text
name_a = 1 ∷ []

abbrev pub name_b : Text
name_b = 2 ∷ []

abbrev scheme : Text → Option Text
scheme url = if has_prefix (codes "http:") url then some (codes "http") else none

-- Everything goes through; the server is named `id`.
abbrev willing : Text → Answers
willing id = record {
  print = λ _. codes "8080";
  dir = λ p. p;
  join = λ p q. p ++ q;
  url_scheme = scheme;
  path_missing = true;
  clone = some (codes "c1");
  close_clone_ok = true;
  open_ok = true;
  code_at_open = some (codes "c1");
  create_ok = λ o. true;
  set_caps_ok = true;
  listen = λ a. some a;
  new_server_ok = λ o. true;
  ready_ok = true;
  varz_leaf_port = some (pos 7422);
  websocket_url = codes "ws";
  peer_name = id;
  code_at_sync = some (codes "c1");
  connect_ok = true;
  queue_subscribe_ok = λ s q. true;
  subscribe_ok = λ s. true;
  sync_flush_ok = true;
  code_at_commit = some (codes "c1");
  commit_flush_ok = true;
}

abbrev settings : Config
settings = record {
  repo_path = codes "hub.fossil";
  server_name = [];
  bootstrap_user = [];
  nats_store_dir = [];
  fossil_http_port = pos 0;
  nats_client_port = pos 0;
  nats_leaf_port = pos 0;
  enable_web_socket = false;
  nats_web_socket_port = pos 0;
  leaf_upstream = [];
  nobody_caps = codes "gio";
  disable_fossil_sync_over_nats = false;
  fossil_sync_subject_prefix = [];
  project_code = codes "c1";
  seed_from_upstream = codes "http://up";
  checkpoint_interval = pos 0;
}

abbrev hub_of : Outcome → Hub
hub_of (made h) = h
hub_of (failed e) = fresh_hub (willing []) settings []

abbrev pub hub_named : Text → Hub
hub_named id = hub_of (new_hub (willing id) settings).0

made_a : (new_hub (willing name_a) settings).0 ≡ made (hub_named name_a)
unfolding new_hub with_defaults seed_step seeded seed_from_upstream clone_step text_eq
    open_or_create_repo repo_opened caps_step listen_step listened start_nats nats_started
    start_loops start_fossil_sync_subscriber sync_connected connect_step sync_started
    start_commit_subscriber commit_started start_checkpoint_loop
made_a = refl

-- The repository opens with another code: nothing but the repository was taken, and it is given back.
drift_test :
    (new_hub
      (record (willing name_a) { code_at_open = some (codes "c2"); path_missing = false })
      settings)
    ≡ (failed drift, acquired repo ∷ released repo ∷ [])
unfolding new_hub with_defaults seed_step seeded open_or_create_repo text_eq repo_opened
drift_test = refl

-- A clone of another project is removed.
seed_drift_test :
    (new_hub (record (willing name_a) { clone = some (codes "c2") }) settings)
    ≡ (failed seed_drift, cloned ∷ acquired repo ∷ released repo ∷ removed ∷ [])
unfolding new_hub with_defaults seed_step seeded seed_from_upstream clone_step text_eq
seed_drift_test = refl

new_hub_balanced_example :
    replay step (new_hub (willing name_a) settings).1 nothing_held
    ≡ some (held_with settings (new_hub (willing name_a) settings).0)
new_hub_balanced_example = new_hub_balanced (willing name_a) settings

new_hub-stop_example :
    let (stopped, _, calls) = stop clean true (hub_named name_a) in
    (replay step (new_hub (willing name_a) settings).1 nothing_held ≡ some (all_held true))
    × (replay step calls (all_held true) ≡ none)
    × (replay lenient_step calls (all_held true) ≡ some nothing_held)
    × (stop broken false stopped ≡ (stopped, none, []))
new_hub-stop_example =
    new_hub-stop (willing name_a) settings (hub_named name_a) clean broken true false made_a

new_hub-project_code_example :
    IsPinned (willing name_a) (codes "hub") (codes "c1")
    × ((false ≡ true) ⊎ (true ≡ false) ⊎ (some (codes "c1") ≡ some (codes "c1")))
new_hub-project_code_example =
    new_hub-project_code (willing name_a) settings (hub_named name_a) made_a refl

made_b : (new_hub (willing name_b) settings).0 ≡ made (hub_named name_b)
unfolding new_hub with_defaults seed_step seeded seed_from_upstream clone_step text_eq
    open_or_create_repo repo_opened caps_step listen_step listened start_nats nats_started
    start_loops start_fossil_sync_subscriber sync_connected connect_step sync_started
    start_commit_subscriber commit_started start_checkpoint_loop
made_b = refl

peers : (hub_named name_a).peer_id ≡ name_a
peers =
    (new_hub-subjects (willing name_a) settings (hub_named name_a) (codes "c1") made_a refl refl
      refl).3

peer_b : (hub_named name_b).peer_id ≡ name_b
peer_b =
    (new_hub-subjects (willing name_b) settings (hub_named name_b) (codes "c1") made_b refl refl
      refl).3

abbrev pub sync_name : Text
sync_name = subject settings (codes "c1") (codes "sync")

abbrev pub member_a : Member
member_a = record { hub = hub_named name_a; handle_sync = λ p. some (codes "new") }

abbrev member_b : Member
member_b = record { hub = hub_named name_b; handle_sync = λ p. none }

abbrev pub cluster : List Member
cluster = member_b ∷ member_a ∷ []

pub cluster_serves : AllServing sync_name cluster
cluster_serves = (
  new_hub-IsServing (willing name_b) settings _ (codes "c1") made_b refl refl refl,
  (new_hub-IsServing (willing name_a) settings _ (codes "c1") made_a refl refl refl, tt),
)

pub differ : (hub_named name_b).peer_id ≢ (hub_named name_a).peer_id
differ e = cc (e, peers, peer_b)

pub cluster_distinct : HasDistinctPeers cluster
cluster_distinct = ((λ e. differ (sym e), tt), (tt, tt))

-- Stands for encoding/json: the rid, the length of the uuid, the uuid and the peer.
abbrev encode : CommitNotification → Text
encode n = n.rid ∷ length n.uuid ∷ (n.uuid ++ n.peer_id)

abbrev pub json : Json
json = record {
  marshal = λ n. some (encode n);
  unmarshal = λ p. elim p [
    | [] ↦ none
    | rid ∷ rest ↦ elim rest [
      | [] ↦ none
      | n ∷ t ↦ some (record { rid = rid; uuid = take n t; peer_id = drop n t })
    ]
  ];
}

take-length-append : (xs ys : Text) → take (length xs) (xs ++ ys) ≡ xs
take-length-append [] ys = refl
take-length-append (x ∷ xs) ys = ap (◌∷◌ x) (take-length-append xs ys)

pub decoded : (n : CommitNotification) → json.unmarshal (encode n) ≡ some n
decoded n = cc (take-length-append n.uuid n.peer_id, drop-length-append n.uuid n.peer_id)

abbrev sent : Text
sent = encode (notification (hub_named name_a) 7 (codes "u7"))

abbrev answer : List Member → Text → Option Text
answer [] payload = none
answer (m ∷ ms) payload = some (handle m payload)

-- Stands for NATS: the first subscriber answers.
pub cluster_request : Text → ℕ → Text → Option Text
cluster_request subject time payload = answer (responders cluster subject) payload

answer-Elem :
    (ms : List Member) (payload reply : Text)
    → answer ms payload ≡ some reply
    → (m : Member) × Elem m ms × (reply ≡ handle m payload)
answer-Elem [] payload reply e = cc
answer-Elem (m ∷ ms) payload reply e = (m, inl refl, sym (some-injective _ _ e))

pub cluster-IsNetwork : IsNetwork cluster cluster_request
unfolding IsNetwork cluster_request
cluster-IsNetwork subject time payload reply e =
    answer-Elem (responders cluster subject) payload reply e

pub cluster_request_new :
    cluster_request (hub_named name_a).peer_sync_subject 30000000000 (codes "pull")
    ≡ some (codes "new")
unfolding cluster_request handle
cluster_request_new =
    ap (λ ms. answer ms (codes "pull"))
      (only_responder sync_name member_a cluster cluster_serves cluster_distinct (inr (inl refl)))

pub one_commit_subject : (hub_named name_b).commit_subject ≡ (hub_named name_a).commit_subject
one_commit_subject = cc (
  (new_hub-subjects (willing name_a) settings (hub_named name_a) (codes "c1") made_a refl refl
      refl).2,
  (new_hub-subjects (willing name_b) settings (hub_named name_b) (codes "c1") made_b refl refl
      refl).2,
)

publish-pull_example :
    let call = pull_at (codes "c1") (hub_named name_a).peer_sync_subject in
    (on_commit json (hub_named name_b) (codes "c1") sync_name sent ≡ some call)
    × (call.transport.subject ≢ sync_name)
    × (round_trip cluster_request call.left call.transport (codes "pull")
        ≡ reply_of member_a (codes "pull"))
    × (on_commit json (hub_named name_a) (codes "c1") sync_name sent ≡ none)
unfolding publish
publish-pull_example =
    publish-pull json sync_name (codes "c1") cluster cluster_request member_a (hub_named name_b) 7
      (codes "u7") sent (codes "pull") (codes "new") cluster-IsNetwork cluster_serves
      cluster_distinct (inr (inl refl)) refl
      (λ n e. subst (λ p. json.unmarshal p ≡ some n) (some-injective _ _ e) (decoded n)) differ
      cluster_request_new
