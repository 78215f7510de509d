-- ===== src/Agent/Lifecycle/Balance.antt =====
-- Stop gives back what New and Start took, also when Start failed on the way.
use edge_sync.Base.{
  Text, ◌≡◌, refl, ◌⊎◌, inl, inr, Bool, true, false, not, Option, none, some, List, ◌++◌, map,
  arith, if_both,
}
use edge_sync.Base.Replay.{replay, replay-append, then_replay}
use edge_sync.Agent.Config.{Config, ConfigError, apply_defaults}
use edge_sync.Agent.Lifecycle.{
  Action, Error, Answers, Agent, clone_repo, clone_step, open_step, cloned_step, validated,
  new_agent,
}
use edge_sync.Agent.Lifecycle.Run.{
  reserve_leaf_port, iroh_label, sidecar_step, start_iroh_sidecar, start_nats_mesh,
  start_nats_serve, start_http_server, start_notify, serve, mesh_started, iroh_started, start,
  call_if, stop_calls, lived, begun_with, life,
}
use edge_sync.Agent.Lifecycle.Rules.{
  Held, put, has, is_ready, is_used, is_idempotent, step, is_over, is_settled, nothing_held,
}

abbrev only_repo : Held
only_repo = record nothing_held { has_repo = true }

-- With the context, and with the sidecar if it is enabled.
abbrev begun : Bool → Held
begun iroh = record only_repo {
  has_context = true;
  has_callback = iroh;
  has_sidecar = iroh;
  has_monitor = iroh;
}

abbrev meshed : Bool → Held
meshed iroh = record (begun iroh) { has_mesh = true; has_conn = true }

-- The calls of a step and those of a Stop behind it keep to the rules and leave nothing; an error leaves
-- what it may.
abbrev IsStopped : Held → Option Error × Agent × List Action → Type 0
IsStopped s (e, a, calls) =
    (is_over (replay step (calls ++ stop_calls a) s) ≡ true)
    × (is_settled e (replay step calls s) ≡ true)

-- Fields that Start has not set yet.
abbrev IsEarly : Agent → Type 0
IsEarly a =
    (a.has_cancel ≡ true)
    × (a.has_done ≡ false)
    × (a.has_notify_repo ≡ false)
    × (a.has_notify_svc ≡ false)

-- New holds the repository alone, or nothing with an error.
abbrev pub held_with : Error ⊎ Agent → Held
held_with (inl e) = nothing_held
held_with (inr a) = only_repo

abbrev IsBalanced : (Error ⊎ Agent) × List Action → Type 0
IsBalanced r = replay step r.1 nothing_held ≡ some (held_with r.0)

open_step-IsBalanced : (w : Answers) (c : Config) → IsBalanced (open_step w c)
unfolding open_step replay step put has is_ready is_used is_idempotent is_over is_settled
open_step-IsBalanced w c = ground arith

cloned_step-IsBalanced :
    (w : Answers) (c : Config) (r : Option Error × List Action)
    → replay step r.1 nothing_held ≡ some nothing_held
    → IsBalanced (cloned_step w c r)
unfolding cloned_step
cloned_step-IsBalanced w c (some e, calls) h = h
cloned_step-IsBalanced w c (none, calls) h =
    then_replay step calls _ nothing_held nothing_held _ h (open_step-IsBalanced w c)

clone_step-replay :
    (w : Answers) (c : Config) → replay step (clone_step w c).1 nothing_held ≡ some nothing_held
unfolding clone_step clone_repo replay step
clone_step-replay w c = ground arith

validated-IsBalanced :
    (w : Answers) (c : Config) (e : Option ConfigError) → IsBalanced (validated w c e)
unfolding validated replay
validated-IsBalanced w c (some e) = refl
validated-IsBalanced w c none = cloned_step-IsBalanced w c (clone_step w c) (clone_step-replay w c)

new_agent-IsBalanced : (w : Answers) (c : Config) → IsBalanced (new_agent w c)
unfolding new_agent
new_agent-IsBalanced w c = validated-IsBalanced w (apply_defaults w.hostname w.notify_path c) _

serve-IsStopped :
    (w : Answers) (a : Agent) (iroh : Bool)
    → IsEarly a
    → a.has_sidecar ≡ iroh
    → a.has_server ≡ true
    → a.has_conn ≡ true
    → IsStopped (meshed iroh) (serve w a)
unfolding serve start_nats_serve start_http_server start_notify stop_calls call_if replay step put
    has is_ready is_used is_idempotent is_over is_settled
serve-IsStopped w a iroh early s m n = ground arith

mesh_started-IsStopped :
    (w : Answers) (a : Agent) (iroh : Bool)
    → IsEarly a
    → a.has_sidecar ≡ iroh
    → a.has_server ≡ false
    → a.has_conn ≡ false
    → IsStopped (begun iroh) (mesh_started w (start_nats_mesh w a))
unfolding start_nats_mesh mesh_started stop_calls call_if replay step put has is_ready is_used
    is_idempotent is_over is_settled
mesh_started-IsStopped w a iroh early s m n =
    let P : Option Error × Agent × List Action → Type 0 =
      λ r. IsStopped (begun iroh) (mesh_started w r) in
    if_both P (not w.new_server_ok) (ground arith) (
      if_both P (not w.server_ready) (ground arith) (
        if_both P (not w.connect_ok) (ground arith) (
          serve-IsStopped w (record a { has_server = true; has_conn = true }) iroh early s refl
            refl)))

abbrev IsBare : Agent → Type 0
IsBare a =
    (a.has_cancel ≡ false)
    × (a.has_done ≡ false)
    × (a.has_sidecar ≡ false)
    × (a.has_server ≡ false)
    × (a.has_conn ≡ false)
    × (a.has_notify_repo ≡ false)
    × (a.has_notify_svc ≡ false)

sidecar_step-IsStopped :
    (w : Answers) (a : Agent) (endpoint : Option Text)
    → IsEarly a
    → a.has_server ≡ false
    → a.has_conn ≡ false
    → IsStopped (begun false) (iroh_started w (sidecar_step a endpoint))
unfolding sidecar_step iroh_started stop_calls call_if replay step put has is_ready is_used
    is_idempotent is_over is_settled
sidecar_step-IsStopped w a none early m n = ground arith
sidecar_step-IsStopped w a (some endpoint) early m n =
    mesh_started-IsStopped w
      (record a {
        has_sidecar = true;
        iroh_endpoint_id = endpoint;
        sync_targets = a.sync_targets ++ map iroh_label a.config.iroh_peers;
      })
      true early refl m n

iroh_started-IsStopped :
    (w : Answers) (a : Agent)
    → IsEarly a
    → a.has_sidecar ≡ false
    → a.has_server ≡ false
    → a.has_conn ≡ false
    → IsStopped (begun false) (iroh_started w (start_iroh_sidecar w a))
unfolding start_iroh_sidecar iroh_started stop_calls call_if replay step put has is_ready is_used
    is_idempotent is_over is_settled
iroh_started-IsStopped w a early s m n =
    let P : Option Error × Agent × List Action → Type 0 =
      λ r. IsStopped (begun false) (iroh_started w r) in
    if_both P (not a.config.iroh_enabled) (mesh_started-IsStopped w a false early s m n) (
      if_both P (not w.binary_found) (ground arith) (
        if_both P (not (reserve_leaf_port w a)) (ground arith) (
          if_both P (not w.listen_ok) (ground arith)
            (sidecar_step-IsStopped w a w.sidecar_endpoint early m n))))

start-IsStopped : (w : Answers) (a : Agent) → IsBare a → IsStopped only_repo (start w a)
unfolding start replay step put has is_ready is_over is_settled
start-IsStopped w a bare =
    iroh_started-IsStopped w (record a { has_cancel = true }) (refl, bare.1, bare.5, bare.6) bare.2
      bare.3 bare.4

inr_injective : {a b : Agent} → ◌≡◌ {A = Error ⊎ Agent} (inr a) (inr b) → a ≡ b
inr_injective p = cc

open_step-IsBare : (w : Answers) (c : Config) (a : Agent) → (open_step w c).0 ≡ inr a → IsBare a
unfolding open_step
open_step-IsBare w c a e = ground arith

cloned_step-IsBare :
    (w : Answers) (c : Config) (a : Agent) (r : Option Error × List Action)
    → (cloned_step w c r).0 ≡ inr a
    → IsBare a
unfolding cloned_step
cloned_step-IsBare w c a (some x, calls) e = cc
cloned_step-IsBare w c a (none, calls) e = open_step-IsBare w c a e

validated-IsBare :
    (w : Answers) (c : Config) (a : Agent) (e : Option ConfigError)
    → (validated w c e).0 ≡ inr a
    → IsBare a
unfolding validated
validated-IsBare w c a (some x) e = cc
validated-IsBare w c a none e = cloned_step-IsBare w c a _ e

new_agent-IsBare : (w : Answers) (c : Config) (a : Agent) → (new_agent w c).0 ≡ inr a → IsBare a
unfolding new_agent
new_agent-IsBare w c a e = validated-IsBare w (apply_defaults w.hostname w.notify_path c) a _ e

lived-replay :
    (w v : Answers) (c : Config) (made : Error ⊎ Agent)
    → (new_agent w c).0 ≡ made
    → (is_over (replay step (lived v made) (held_with made)) ≡ true)
      × (is_settled (begun_with v made).0 (replay step (begun_with v made).1 (held_with made))
          ≡ true)
unfolding lived begun_with replay is_over is_settled
lived-replay w v c (inl e) p = (refl, refl)
lived-replay w v c (inr a) p = start-IsStopped v a (new_agent-IsBare w c a p)

pub life-replay :
    (w v : Answers) (c : Config)
    → let (made, calls) = new_agent w c in
      let (error, more) = begun_with v made in
      (is_over (replay step (life w v c) nothing_held) ≡ true)
      × (is_settled error (replay step (calls ++ more) nothing_held) ≡ true)
unfolding life
life-replay w v c =
    let (made, calls) = new_agent w c in
    let balanced = new_agent-IsBalanced w c in
    let (over, settled) = lived-replay w v c made refl in
    (
      rw (replay-append step calls (lived v made) nothing_held (held_with made) balanced) over,
      rw (replay-append step calls (begun_with v made).1 nothing_held (held_with made) balanced)
          settled,
    )
