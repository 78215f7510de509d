-- ===== src/Hub/Lifecycle/Balance.antt =====
-- NewHub keeps to the rules of Resources: on an error nothing stays held, and what a hub holds Stop
-- gives back.
use edge_sync.Base.{
  Text, is_empty, non_empty, ◌≡◌, refl, subst, Bool, true, false, not, ◌&&◌, Option, none, some,
  List, [], ◌∷◌, arith, if_both, if_cases, if◌then◌else◌,
}
use edge_sync.Hub.Lifecycle.{
  Config, listener, Action, acquired, Error, Answers, Hub, Outcome, made, failed, after,
}
use edge_sync.Hub.Lifecycle.Start.{
  with_defaults, clone_step, seed_from_upstream, seed_step, open_or_create_repo, start_nats,
  connect_step, with_sync, sync_connected, start_fossil_sync_subscriber, start_commit_subscriber,
}
use edge_sync.Hub.Lifecycle.Build.{
  close_server, start_checkpoint_loop, commit_started, sync_started, fresh_hub, start_loops,
  nats_started, listened, listen_step, caps_step, repo_opened, seeded, new_hub,
}
use edge_sync.Hub.Lifecycle.Stop.{HttpEnd, release_if, stop_calls, stop}
use edge_sync.Hub.Lifecycle.Resources.{
  Held, has, put, is_ready, is_used, step, lenient_step, nothing_held, all_held,
}
use edge_sync.Base.Replay.{replay, then_replay}

-- The fields of a running hub with or without the sync over NATS.
abbrev pub IsWired : Bool → Hub → Type 0
IsWired over_nats h =
    (h.has_client ≡ over_nats)
    × (h.has_sync_sub ≡ over_nats)
    × (h.has_peer_sub ≡ over_nats)
    × (h.has_commit_sub ≡ over_nats)
    × (h.has_catchup ≡ over_nats)
    × (h.ready_closed ≡ false)
    × (h.stopped ≡ false)

-- The calls of a step keep to the rules; a hub is wired and they end in `held`, an error ends in
-- `otherwise`.
abbrev pub Ends : Bool → Held → Held → Held → Outcome × List Action → Type 0
Ends over_nats held otherwise before (made h, calls) =
    (replay step calls before ≡ some held) × IsWired over_nats h
Ends over_nats held otherwise before (failed e, calls) = replay step calls before ≡ some otherwise

-- The same for a step that gives an error or `none`.
EndsAt : Held → Held → Held → Option Error × List Action → Type 0
EndsAt before held otherwise (none, calls) = replay step calls before ≡ some held
EndsAt before held otherwise (some e, calls) = replay step calls before ≡ some otherwise

abbrev synced : Held
synced = record (all_held true) {
  has_commit_sub = false;
  has_catchup = false;
  has_checkpoint = false;
}

abbrev loops_left : Held
loops_left = record (all_held true) { has_checkpoint = false }

abbrev serving : Held
serving = record (all_held false) { has_checkpoint = false }

abbrev listening : Held
listening = record (serving) { has_server = false }

abbrev open_repo : Held
open_repo = record nothing_held { has_repo = true }

-- The fields that the sync subscriber leaves.
abbrev IsPlugged : Hub → Type 0
IsPlugged h =
    (h.has_client ≡ true)
    × (h.has_sync_sub ≡ true)
    × (h.has_peer_sub ≡ true)
    × (h.ready_closed ≡ false)
    × (h.stopped ≡ false)

commit-Ends :
    (w : Answers) (c : Config) (h : Hub)
    → IsPlugged h
    → Ends true loops_left synced synced (start_commit_subscriber w c h)
unfolding start_commit_subscriber replay step has put is_ready is_used
commit-Ends w c h p = ground arith

IsSynced : Outcome × List Action → Type 0
IsSynced (made h, calls) = (replay step calls serving ≡ some synced) × IsPlugged h
IsSynced (failed e, calls) = replay step calls serving ≡ some serving

sync-IsSynced :
    (w : Answers) (c : Config) (h : Hub)
    → h.ready_closed ≡ false
    → h.stopped ≡ false
    → IsSynced (start_fossil_sync_subscriber w c h)
unfolding start_fossil_sync_subscriber sync_connected connect_step with_sync IsSynced replay step
    has put is_ready is_used
sync-IsSynced w c h p q = ground arith

nats-EndsAt : (w : Answers) (c : Config) → EndsAt listening serving listening (start_nats w c)
unfolding start_nats EndsAt replay step has put is_ready is_used
nats-EndsAt w c = ground arith

open-EndsAt :
    (w : Answers) (c : Config)
    → EndsAt nothing_held open_repo nothing_held (open_or_create_repo w c)
unfolding open_or_create_repo EndsAt replay step has put is_ready is_used
open-EndsAt w c = ground arith

seed-EndsAt :
    (w : Answers) (c : Config) → EndsAt nothing_held nothing_held nothing_held (seed_step w c)
unfolding seed_step seed_from_upstream clone_step EndsAt replay step has put is_ready is_used
seed-EndsAt w c = ground arith

module _ (b : Bool) (held otherwise : Held) where
  after-Ends :
      (xs : List Action) (s t : Held) (r : Outcome × List Action)
      → replay step xs s ≡ some t
      → Ends b held otherwise t r
      → Ends b held otherwise s (after xs r)
  after-Ends xs s t (made h, calls) e k = (then_replay step xs calls s t _ e k.0, k.1)
  after-Ends xs s t (failed x, calls) e k = then_replay step xs calls s t _ e k

commit_started-Ends :
    (c : Config) (r : Outcome × List Action)
    → Ends true loops_left synced synced r
    → Ends true (all_held true) nothing_held synced (commit_started c r)
unfolding commit_started start_checkpoint_loop close_server replay step has put is_ready is_used
commit_started-Ends c (made h, calls) e =
    (then_replay step calls _ synced loops_left _ e.0 refl, e.1)
commit_started-Ends c (failed x, calls) e = then_replay step calls _ synced synced _ e refl

sync_started-Ends :
    (w : Answers) (c : Config) (r : Outcome × List Action)
    → IsSynced r
    → Ends true (all_held true) nothing_held serving (sync_started w c r)
unfolding sync_started IsSynced close_server replay step has put is_ready is_used
sync_started-Ends w c (made h, calls) e =
    after-Ends true (all_held true) nothing_held calls serving synced _ e.0
      (commit_started-Ends c _ (commit-Ends w c h e.1))
sync_started-Ends w c (failed x, calls) e = then_replay step calls _ serving serving _ e refl

-- A step that goes on to a running hub, as its settings ask.
EndsHub : Config → Held → Outcome × List Action → Type 0
EndsHub c =
    Ends (not c.disable_fossil_sync_over_nats) (all_held (not c.disable_fossil_sync_over_nats))
      nothing_held

start_loops-EndsHub :
    (w : Answers) (c : Config) (addr : Text)
    → EndsHub c serving (start_loops w c (fresh_hub w c addr))
unfolding start_loops start_checkpoint_loop fresh_hub replay step has put is_ready is_used EndsHub
start_loops-EndsHub w c addr =
    if_cases (λ b. Ends (not b) (all_held (not b)) nothing_held serving)
      c.disable_fossil_sync_over_nats (refl, (refl, refl, refl, refl, refl, refl, refl))
      (sync_started-Ends w c _ (sync-IsSynced w c (fresh_hub w c addr) refl refl))

nats_started-EndsHub :
    (w : Answers) (c : Config) (addr : Text) (r : Option Error × List Action)
    → EndsAt listening serving listening r
    → EndsHub c listening (nats_started w c addr r)
unfolding nats_started EndsAt replay step has put is_ready is_used EndsHub
nats_started-EndsHub w c addr (some x, calls) e =
    then_replay step calls _ listening listening _ e refl
nats_started-EndsHub w c addr (none, calls) e =
    after-Ends _ _ nothing_held calls listening serving (start_loops w c (fresh_hub w c addr)) e
      (start_loops-EndsHub w c addr)

listened-EndsHub :
    (w : Answers) (c : Config) (bound : Option Text) → EndsHub c open_repo (listened w c bound)
unfolding listened replay step has put is_ready is_used EndsHub
listened-EndsHub w c none = refl
listened-EndsHub w c (some addr) =
    after-Ends _ _ nothing_held (acquired listener ∷ []) open_repo listening _ refl
      (nats_started-EndsHub w c addr (start_nats w c) (nats-EndsAt w c))

caps_step-EndsHub : (w : Answers) (c : Config) → EndsHub c open_repo (caps_step w c)
unfolding caps_step listen_step replay step has put is_ready is_used EndsHub
caps_step-EndsHub w c =
    if_both (EndsHub c open_repo) (non_empty c.nobody_caps && not w.set_caps_ok) refl
      (listened-EndsHub w c _)

repo_opened-EndsHub :
    (w : Answers) (c : Config) (r : Option Error × List Action)
    → EndsAt nothing_held open_repo nothing_held r
    → EndsHub c nothing_held (repo_opened w c r)
unfolding repo_opened EndsAt EndsHub
repo_opened-EndsHub w c (some x, calls) e = e
repo_opened-EndsHub w c (none, calls) e =
    after-Ends _ _ nothing_held calls nothing_held open_repo _ e (caps_step-EndsHub w c)

seeded-EndsHub :
    (w : Answers) (c : Config) (r : Option Error × List Action)
    → EndsAt nothing_held nothing_held nothing_held r
    → EndsHub c nothing_held (seeded w c r)
unfolding seeded EndsAt EndsHub
seeded-EndsHub w c (some x, calls) e = e
seeded-EndsHub w c (none, calls) e =
    after-Ends _ _ nothing_held calls nothing_held nothing_held _ e
      (repo_opened-EndsHub w c (open_or_create_repo w c) (open-EndsAt w c))

new_hub-EndsHub : (w : Answers) (c : Config) → EndsHub c nothing_held (new_hub w c)
unfolding new_hub replay EndsHub with_defaults
new_hub-EndsHub w c =
    if_both (EndsHub c nothing_held) (is_empty c.repo_path) refl
      (seeded-EndsHub w (with_defaults w c) _ (seed-EndsAt w (with_defaults w c)))

-- What a result of NewHub holds: nothing with an error.
abbrev pub held_with : Config → Outcome → Held
held_with c (made h) = all_held (not c.disable_fossil_sync_over_nats)
held_with c (failed e) = nothing_held

balanced :
    (c : Config) (r : Outcome × List Action)
    → EndsHub c nothing_held r
    → replay step r.1 nothing_held ≡ some (held_with c r.0)
unfolding EndsHub
balanced c (made h, calls) e = e.0
balanced c (failed x, calls) e = e

-- Whatever the libraries answer, the calls of NewHub keep to the rules, and in the end nothing is
-- held with an error, and exactly what the settings ask for with a hub.
pub new_hub_balanced :
    (w : Answers) (c : Config)
    → replay step (new_hub w c).1 nothing_held ≡ some (held_with c (new_hub w c).0)
new_hub_balanced w c = balanced c (new_hub w c) (new_hub-EndsHub w c)

stop_calls-replay :
    (b : Bool) (h : Hub)
    → IsWired b h
    → (replay step (stop_calls h) (all_held b) ≡ (if b then none else some nothing_held))
      × (replay lenient_step (stop_calls h) (all_held b) ≡ some nothing_held)
unfolding stop_calls release_if replay lenient_step step has put is_ready is_used
stop_calls-replay true h e = ground arith
stop_calls-replay false h e = ground arith

made_injective : {h k : Hub} → made k ≡ made h → k ≡ h
made_injective p = cc

made-IsWired :
    (c : Config) (h : Hub) (r : Outcome × List Action)
    → EndsHub c nothing_held r
    → r.0 ≡ made h
    → IsWired (not c.disable_fossil_sync_over_nats) h
unfolding EndsHub
made-IsWired c h (made k, calls) e p =
    subst (IsWired (not c.disable_fossil_sync_over_nats)) (made_injective p) e.1
made-IsWired c h (failed x, calls) e p = cc

stop-open :
    (shutdown : HttpEnd) (close_ok : Bool) (h : Hub)
    → h.stopped ≡ false
    → (stop shutdown close_ok h).2 ≡ stop_calls h
unfolding stop
stop-open shutdown close_ok h e = ground arith

stop_twice :
    (first second : HttpEnd) (first_ok second_ok : Bool) (h : Hub)
    → stop second second_ok (stop first first_ok h).0 ≡ ((stop first first_ok h).0, none, [])
unfolding stop
stop_twice first second first_ok second_ok h = ground arith

-- What a hub that NewHub made holds is what its settings ask for. Without the sync over NATS its Stop
-- gives all of it back, each call allowed where it stands: the repository last, behind the listener
-- and the loop of checkpoints. With the sync over NATS Stop breaks one rule, and only that one: it
-- closes the client while the late publishing may still run; otherwise it gives everything back, the
-- client behind its subscriptions, the server behind its client, the repository last. A second Stop
-- makes no call and gives no error, whatever the first one gave.
pub new_hub-stop :
    (w : Answers) (c : Config) (h : Hub) (shutdown again : HttpEnd) (close_ok again_ok : Bool)
    → (new_hub w c).0 ≡ made h
    → let (stopped, _, calls) = stop shutdown close_ok h in
      let held = all_held (not c.disable_fossil_sync_over_nats) in
      (replay step (new_hub w c).1 nothing_held ≡ some held)
      × (replay step calls held
          ≡ (if not c.disable_fossil_sync_over_nats then none else some nothing_held))
      × (replay lenient_step calls held ≡ some nothing_held)
      × (stop again again_ok stopped ≡ (stopped, none, []))
new_hub-stop w c h shutdown again close_ok again_ok e =
    let wired = made-IsWired c h (new_hub w c) (new_hub-EndsHub w c) e in
    let over_nats = not c.disable_fossil_sync_over_nats in
    let (strict, lenient) = stop_calls-replay over_nats h wired in
    (
      subst (λ o. replay step (new_hub w c).1 nothing_held ≡ some (held_with c o)) e
          (new_hub_balanced w c),
      rw (stop-open shutdown close_ok h wired.6) strict,
      rw (stop-open shutdown close_ok h wired.6) lenient,
      stop_twice shutdown again close_ok again_ok h,
    )
