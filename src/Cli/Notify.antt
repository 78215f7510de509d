-- ===== src/Cli/Notify.antt =====
-- cli/notify.go: the commands around the notify service, as the calls that take and give back the
-- repository, the connection and the service, with those of the service between. Output is left out.
pub mod Releases
use edge_sync.Base.{
  Text, codes, is_empty, ℕ, ◌-◌, max, Bool, not, ◌&&◌, Option, none, some, List, [], ◌∷◌, ◌++◌, map,
  ltb, leb, ◌==◌, if◌then◌else◌, length, take,
}
use edge_sync.Notify.Message.{Action}

pub data Command : Type 0 where
  init send ask watch threads log status pair unpair devices : Command

-- What a command finds; `operates` says that the call of the service or of the store goes through,
-- `replied` that a message comes out of the channel of Watch before it is closed.
pub record Answers : Type 0 where
  pub repo_given : Bool
  pub exists : Bool
  pub opens : Bool
  pub nats_given : Bool
  pub connects : Bool
  pub serves : Bool
  pub operates : Bool
  pub timeout_given : Bool
  pub replied : Bool
  pub endpoint_given : Bool
  pub renders : Bool

pub data Resource : Type 0 where
  repo conn service : Resource

pub data Call : Type 0 where
  acquired released : Resource → Call
  operated watched : Call

pub data Error : Type 0 where
  repo_required not_found open_failed connect_failed service_failed operation_failed : Error
  render_failed : Error

-- `exited` is os.Exit, which runs no deferred call.
pub data Outcome : Type 0 where
  done : Outcome
  failed : Error → Outcome
  exited : ℕ → Outcome

abbrev pub Run : Type 0
Run = Outcome × List Call

-- What is taken here is given back by a deferred call.
unfoldable pub with_deferred : Resource → Run → Run
with_deferred r (exited n, calls) = (exited n, acquired r ∷ calls)
with_deferred r (done, calls) = (done, acquired r ∷ (calls ++ released r ∷ []))
with_deferred r (failed e, calls) = (failed e, acquired r ∷ (calls ++ released r ∷ []))

-- A command behind the opening of the repository.
unfoldable pub with_opened : Option Error → Run → Run
with_opened (some e) body = (failed e, [])
with_opened none body = with_deferred repo body

module _ (a : Answers) where
  unfoldable pub open_notify_repo : Option Error
  open_notify_repo =
      if not a.exists then some not_found else if a.opens then none else some open_failed

  unfoldable pub with_repo : Run → Run
  with_repo body =
      if not a.repo_given then (failed repo_required, []) else with_opened open_notify_repo body

  unfoldable pub with_nats : Run → Run
  with_nats body =
      if not a.nats_given
      then body
      else if a.connects
      then with_deferred conn body
      else (failed connect_failed, [])

  unfoldable pub with_service : Run → Run
  with_service body = if a.serves then with_deferred service body else (failed service_failed, [])

  unfoldable pub operate : Run
  operate = (if a.operates then done else failed operation_failed, operated ∷ [])

  -- Ask sends first and listens then.
  unfoldable pub wait_reply : Outcome
  wait_reply = if a.replied then done else if a.timeout_given then exited 2 else done

  unfoldable pub send_and_wait : Run
  send_and_wait =
      if a.operates
      then (wait_reply, operated ∷ watched ∷ [])
      else (failed operation_failed, operated ∷ [])

  unfoldable pub make_token : Run
  make_token =
      if not a.operates
      then (failed operation_failed, operated ∷ [])
      else if a.endpoint_given && a.nats_given && not a.renders
      then (failed render_failed, operated ∷ [])
      else (done, operated ∷ [])

  unfoldable pub init_repo : Run
  init_repo =
      if not a.repo_given
      then (failed repo_required, [])
      else if a.operates
      then with_deferred repo (done, [])
      else (failed operation_failed, [])

  unfoldable pub run_notify : Command → Run
  run_notify init = init_repo
  run_notify send = with_repo (with_nats (with_service operate))
  run_notify ask = with_repo (with_nats (with_service send_and_wait))
  run_notify watch = with_repo (with_nats (with_service (done, watched ∷ [])))
  run_notify threads = with_repo operate
  run_notify log = with_repo operate
  run_notify status = (if a.repo_given then done else failed repo_required, [])
  run_notify pair = with_repo make_token
  run_notify unpair = with_repo operate
  run_notify devices = with_repo operate

-- The texts between the commas.
unfoldable pub split_commas : Text → List Text
split_commas [] = [] ∷ []
split_commas (c ∷ t) = elim (split_commas t) [
  | [] ↦ []
  | part ∷ parts ↦ if c == b',' then [] ∷ part ∷ parts else (c ∷ part) ∷ parts
]

-- `trim` and `lower` are strings.TrimSpace and strings.ToLower.
unfoldable pub parse_actions : (Text → Text) → (Text → Text) → Text → List Action
parse_actions trim lower s =
    if is_empty s
    then []
    else map
        (λ p. record {
          id = lower (map (λ c. if c == b' ' then b'_' else c) (trim p));
          label = trim p;
        })
        (split_commas s)

-- `none` stands for the panic on a slice with a negative end.
unfoldable pub truncate : Text → ℕ → Option Text
truncate s max =
    if leb (length s) max
    then some s
    else if ltb max 3
    then none
    else some (take (max - 3) s ++ codes "...")
