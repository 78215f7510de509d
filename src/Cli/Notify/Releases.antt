-- ===== src/Cli/Notify/Releases.antt =====
-- Every command gives back what it took, in reverse order.
use edge_sync.Base.{
  ◌≡◌, refl, inl, inr, Bool, true, false, not, ◌&&◌, Option, none, some, List, [], ◌∷◌, ◌++◌, arith,
  if◌then◌else◌, Bool-cases, if_both,
}
use edge_sync.Base.Replay.{replay, then_replay}
use edge_sync.Cli.Notify.{
  Command, init, send, ask, watch, threads, log, status, pair, unpair, devices, Answers, Resource,
  repo, conn, service, Call, acquired, released, operated, watched, Error, repo_required,
  operation_failed, Outcome, done, failed, exited, Run, with_deferred, with_opened,
  open_notify_repo, with_repo, with_nats, with_service, operate, wait_reply, send_and_wait,
  make_token, init_repo, run_notify,
}

-- What is held, the latest first.
abbrev pub Held : Type 0
Held = List Resource

abbrev same : Resource → Resource → Bool
same repo repo = true
same conn conn = true
same service service = true
same _ _ = false

abbrev holds : Resource → Held → Bool
holds r [] = false
holds r (q ∷ held) = let rest = holds r held in if same r q then true else rest

-- The latest is given back first; a call of the store needs the repository, a call of Watch the
-- service.
unfoldable pub rule : Call → Held → Option Held
rule (acquired r) held = if holds r held then none else some (r ∷ held)
rule (released r) [] = none
rule (released r) (q ∷ held) = if same r q then some held else none
rule operated held = if holds repo held then some held else none
rule watched held = if holds service held then some held else none

-- A run from what is held, that gives everything back or ends the process.
abbrev pub IsClean : Held → Run → Type 0
IsClean held (exited n, calls) = (held' : Held) × (replay rule calls held ≡ some held')
IsClean held (done, calls) = replay rule calls held ≡ some held
IsClean held (failed e, calls) = replay rule calls held ≡ some held

same_self : (r : Resource) → same r r ≡ true
same_self repo = refl
same_self conn = refl
same_self service = refl

taken :
    (r : Resource) (held : Held) (calls : List Call) (end : Held)
    → holds r held ≡ false
    → replay rule calls (r ∷ held) ≡ some end
    → replay rule (acquired r ∷ calls) held ≡ some end
unfolding replay rule
taken r held calls end e h = ground arith

given_back :
    (r : Resource) (held : Held) (calls : List Call)
    → holds r held ≡ false
    → replay rule calls (r ∷ held) ≡ some (r ∷ held)
    → replay rule (acquired r ∷ (calls ++ released r ∷ [])) held ≡ some held
given_back r held calls e h =
    taken r held (calls ++ released r ∷ []) held e
      (then_replay rule calls (released r ∷ []) (r ∷ held) (r ∷ held) held h last)
  where
    last : replay rule (released r ∷ []) (r ∷ held) ≡ some held
    last = unfold replay rule in (ground (arith, same_self r))

deferred-IsClean :
    (r : Resource) (held : Held) (body : Run)
    → holds r held ≡ false
    → IsClean (r ∷ held) body
    → IsClean held (with_deferred r body)
unfolding with_deferred
deferred-IsClean r held (exited n, calls) e (held', h) = (held', taken r held calls held' e h)
deferred-IsClean r held (done, calls) e h = given_back r held calls e h
deferred-IsClean r held (failed w, calls) e h = given_back r held calls e h

opened-IsClean :
    (o : Option Error) (body : Run) → IsClean (repo ∷ []) body → IsClean [] (with_opened o body)
unfolding with_opened replay
opened-IsClean (some e) body h = refl
opened-IsClean none body h = deferred-IsClean repo [] body refl h

module _ (a : Answers) where
  repo-IsClean : (body : Run) → IsClean (repo ∷ []) body → IsClean [] (with_repo a body)
  unfolding with_repo replay
  repo-IsClean body h =
      if_both (IsClean []) (not a.repo_given) refl (opened-IsClean (open_notify_repo a) body h)

  nats-IsClean :
      (body : Run)
      → IsClean (repo ∷ []) body
      → IsClean (conn ∷ repo ∷ []) body
      → IsClean (repo ∷ []) (with_nats a body)
  unfolding with_nats replay
  nats-IsClean body h k = if_both (IsClean (repo ∷ [])) (not a.nats_given) h (
      if_both (IsClean (repo ∷ [])) a.connects (deferred-IsClean conn (repo ∷ []) body refl k) refl)

  service-IsClean :
      (held : Held) (body : Run)
      → holds service held ≡ false
      → IsClean (service ∷ held) body
      → IsClean held (with_service a body)
  unfolding with_service replay
  service-IsClean held body e h =
      if_both (IsClean held) a.serves (deferred-IsClean service held body e h) refl

  -- A command of the service is clean if its own calls are, with the connection and without.
  served-IsClean :
      (body : Run)
      → IsClean (service ∷ repo ∷ []) body
      → IsClean (service ∷ conn ∷ repo ∷ []) body
      → IsClean [] (with_repo a (with_nats a (with_service a body)))
  served-IsClean body h k = repo-IsClean (with_nats a (with_service a body)) (
      nats-IsClean (with_service a body) (service-IsClean (repo ∷ []) body refl h)
        (service-IsClean (conn ∷ repo ∷ []) body refl k))

  operate-IsClean : (held : Held) → holds repo held ≡ true → IsClean held (operate a)
  unfolding operate replay rule
  operate-IsClean held e = elim (Bool-cases a.operates) [
    | inl p ↦ rw (p, operate) (ground arith)
    | inr p ↦ rw (p, operate) (ground arith)
  ]

  ask-IsClean :
      (held : Held)
      → holds repo held ≡ true
      → holds service held ≡ true
      → IsClean held (send_and_wait a)
  unfolding send_and_wait wait_reply replay rule
  ask-IsClean held e f = elim (Bool-cases a.operates) [
    | inr p ↦ rw (p, send_and_wait) (ground arith)
    | inl p ↦ elim (Bool-cases a.replied) [
      | inl q ↦ rw (p, send_and_wait, q, wait_reply) (ground arith)
      | inr q ↦ elim (Bool-cases a.timeout_given) [
        | inl r ↦ rw (p, send_and_wait, q, r, wait_reply) (held, ground arith)
        | inr r ↦ rw (p, send_and_wait, q, r, wait_reply) (ground arith)
      ]
    ]
  ]

  watch-IsClean : (held : Held) → holds service held ≡ true → IsClean held (done, watched ∷ [])
  unfolding replay rule
  watch-IsClean held e = ground arith

  token-IsClean : IsClean (repo ∷ []) (make_token a)
  unfolding make_token replay rule
  token-IsClean =
      if_both (IsClean (repo ∷ [])) (not a.operates) refl (
        if_both (IsClean (repo ∷ [])) (a.endpoint_given && a.nats_given && not a.renders) refl refl)

  init-IsClean : IsClean [] (init_repo a)
  unfolding init_repo replay
  init-IsClean =
      if_both (IsClean []) (not a.repo_given) refl
        (if_both (IsClean []) a.operates (deferred-IsClean repo [] (done, []) refl refl) refl)

  status-IsClean : (b : Bool) → IsClean [] (if b then done else failed repo_required, [])
  unfolding replay
  status-IsClean true = refl
  status-IsClean false = refl

  run-IsClean : (c : Command) → IsClean [] (run_notify a c)
  unfolding run_notify
  run-IsClean init = init-IsClean
  run-IsClean send =
      served-IsClean (operate a) (operate-IsClean (service ∷ repo ∷ []) refl)
        (operate-IsClean (service ∷ conn ∷ repo ∷ []) refl)
  run-IsClean ask =
      served-IsClean (send_and_wait a) (ask-IsClean (service ∷ repo ∷ []) refl refl)
        (ask-IsClean (service ∷ conn ∷ repo ∷ []) refl refl)
  run-IsClean watch =
      served-IsClean (done, watched ∷ []) (watch-IsClean (service ∷ repo ∷ []) refl)
        (watch-IsClean (service ∷ conn ∷ repo ∷ []) refl)
  run-IsClean threads = repo-IsClean (operate a) (operate-IsClean (repo ∷ []) refl)
  run-IsClean log = repo-IsClean (operate a) (operate-IsClean (repo ∷ []) refl)
  run-IsClean status = status-IsClean a.repo_given
  run-IsClean pair = repo-IsClean (make_token a) token-IsClean
  run-IsClean unpair = repo-IsClean (operate a) (operate-IsClean (repo ∷ []) refl)
  run-IsClean devices = repo-IsClean (operate a) (operate-IsClean (repo ∷ []) refl)

abbrev pub is_exit : Outcome → Bool
is_exit (exited n) = true
is_exit _ = false

-- The run ends the process only if the other one does.
abbrev ExitsAs : Run → Run → Type 0
ExitsAs body run = is_exit run.0 ≡ true → is_exit body.0 ≡ true

deferred-ExitsAs : (r : Resource) (body : Run) → ExitsAs body (with_deferred r body)
unfolding with_deferred
deferred-ExitsAs r (exited n, calls) e = refl
deferred-ExitsAs r (done, calls) e = e
deferred-ExitsAs r (failed w, calls) e = e

opened-ExitsAs : (o : Option Error) (body : Run) → ExitsAs body (with_opened o body)
unfolding with_opened
opened-ExitsAs (some w) body e = cc
opened-ExitsAs none body e = deferred-ExitsAs repo body e

module _ (a : Answers) (body : Run) where
  repo-ExitsAs : ExitsAs body (with_repo a body)
  unfolding with_repo
  repo-ExitsAs =
      if_both (ExitsAs body) (not a.repo_given) (λ e. cc) (opened-ExitsAs (open_notify_repo a) body)

  nats-ExitsAs : ExitsAs body (with_nats a body)
  unfolding with_nats
  nats-ExitsAs =
      if_both (ExitsAs body) (not a.nats_given) (λ e. e)
        (if_both (ExitsAs body) a.connects (deferred-ExitsAs conn body) (λ e. cc))

  service-ExitsAs : ExitsAs body (with_service a body)
  unfolding with_service
  service-ExitsAs = if_both (ExitsAs body) a.serves (deferred-ExitsAs service body) (λ e. cc)

module _ (a : Answers) where
  served-ExitsAs : (body : Run) → ExitsAs body (with_repo a (with_nats a (with_service a body)))
  served-ExitsAs body e =
      service-ExitsAs a body (
        nats-ExitsAs a (with_service a body) (repo-ExitsAs a (with_nats a (with_service a body)) e))

  stays : (b : Bool) (x : Error) → is_exit (if b then done else failed x) ≡ true → ⊥
  stays true x e = cc
  stays false x e = cc

  operate_stays : is_exit (operate a).0 ≡ true → ⊥
  unfolding operate
  operate_stays e = stays a.operates operation_failed e

  ask_exits : is_exit (send_and_wait a).0 ≡ true → (a.timeout_given ≡ true) × (a.replied ≡ false)
  unfolding send_and_wait wait_reply
  ask_exits e = ground arith

  token_stays : is_exit (make_token a).0 ≡ true → ⊥
  unfolding make_token
  token_stays e = ground arith

  init_stays : is_exit (init_repo a).0 ≡ true → ⊥
  unfolding init_repo with_deferred
  init_stays e = ground arith

  only_ask :
      (c : Command)
      → is_exit (run_notify a c).0 ≡ true
      → (c ≡ ask) × (a.timeout_given ≡ true) × (a.replied ≡ false)
  unfolding run_notify
  only_ask init e = absurd (init_stays e)
  only_ask send e = absurd (operate_stays (served-ExitsAs (operate a) e))
  only_ask ask e =
      let (timed, silent) = ask_exits (served-ExitsAs (send_and_wait a) e) in (refl, timed, silent)
  only_ask watch e = cc (served-ExitsAs (done, watched ∷ []) e)
  only_ask threads e = absurd (operate_stays (repo-ExitsAs a (operate a) e))
  only_ask log e = absurd (operate_stays (repo-ExitsAs a (operate a) e))
  only_ask status e = absurd (stays a.repo_given repo_required e)
  only_ask pair e = absurd (token_stays (repo-ExitsAs a (make_token a) e))
  only_ask unpair e = absurd (operate_stays (repo-ExitsAs a (operate a) e))
  only_ask devices e = absurd (operate_stays (repo-ExitsAs a (operate a) e))

  -- Whatever it finds, each call of a notify command comes where it is allowed (a call of the store
  -- with the repository held, a call of Watch with the service), and the command gives back what it
  -- took, the latest first; only Ask, when it has a timeout and gets no reply, ends the process with
  -- its resources held.
  pub run_notify-IsClean :
      (c : Command)
      → IsClean [] (run_notify a c)
        × (is_exit (run_notify a c).0 ≡ true
            → (c ≡ ask) × (a.timeout_given ≡ true) × (a.replied ≡ false))
  run_notify-IsClean c = (run-IsClean a c, only_ask c)
