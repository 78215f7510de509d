-- ===== src/Agent/Sidecar.antt =====
-- leaf/agent/sidecar.go: the process of the iroh sidecar, waiting for it and shutting it down. Times
-- are nanoseconds; the process, its socket and the clock are parameters.
pub mod Waits
pub mod Ends
use edge_sync.Base.{
  Text, codes, non_empty, ℕ, zero, suc, ◌+◌, ◌⊎◌, inl, inr, Bool, true, false, not, Option, none,
  some, List, [], ◌∷◌, ◌++◌, ltb, ◌==◌, if◌then◌else◌,
}

pub record Sidecar : Type 0 where
  pub bin_path : Text
  pub socket_path : Text
  pub key_path : Text
  pub callback_url : Text
  pub alpn : Text
  pub nats_addr : Text

-- The arguments of the process.
pub arguments : Sidecar → List Text
arguments s =
    (codes "--socket"
      ∷ s.socket_path
      ∷ codes "--key-path"
      ∷ s.key_path
      ∷ codes "--callback"
      ∷ s.callback_url
      ∷ codes "--alpn"
      ∷ s.alpn
      ∷ [])
    ++ (if non_empty s.nats_addr then codes "--nats-addr" ∷ s.nats_addr ∷ [] else [])

-- The answer to GET /status: no connection, or a code with the endpoint id of a body that can be
-- decoded.
pub data Poll : Type 0 where
  refused : Poll
  answer : ℕ → Option Text → Poll

unfoldable pub poll_status : Poll → Option Text
poll_status refused = none
poll_status (answer code status) = if code == 200 then status else none

abbrev pub pause : ℕ
pause = 200000000

module _ (clock : ℕ → ℕ) (poll : ℕ → Poll) where
  -- The loop of waitReady from its check number `k` on, where the clock reads `clock k`; the outer
  -- `none` stands for fuel that ran out.
  unfoldable pub wait_until : ℕ → ℕ → ℕ → Option (Option Text)
  wait_until zero deadline k = none
  wait_until (suc fuel) deadline k =
      let rest = wait_until fuel deadline (k + 1) in
      if ltb (clock k) deadline
      then elim (poll_status (poll k)) [ none ↦ rest | some status ↦ some (some status) ]
      else some none

  unfoldable pub wait_ready : ℕ → ℕ → ℕ → Option (Option Text)
  wait_ready fuel start timeout = wait_until fuel (start + timeout) 0

-- What has become of the process: not started, running, or exited.
pub data Process : Type 0 where
  absent running gone : Process

-- `awaited` is the receipt of `exited` behind Kill.
pub data Call : Type 0 where
  started posted terminated killed awaited removed : Call

pub data StartError : Type 0 where
  binary_not_found start_failed not_ready : StartError

unfoldable pub kill : List Call
kill = killed ∷ awaited ∷ removed ∷ []

-- Start behind the waiting; the process may exit by itself in that time.
unfoldable pub start_ready : Bool → Option Text → (StartError ⊎ Text) × Process × List Call
unfolding kill
start_ready dies none = (inl not_ready, gone, started ∷ kill)
start_ready dies (some status) = (inr status, if dies then gone else running, started ∷ [])

-- `none` stands for fuel that ran out.
unfoldable pub start :
    Bool → Bool → Bool → Option (Option Text) → Option ((StartError ⊎ Text) × Process × List Call)
start has_binary starts dies waited =
    if not has_binary
    then some (inl binary_not_found, absent, [])
    else if not starts
    then some (inl start_failed, absent, [])
    else elim waited [ none ↦ none | some ready ↦ some (start_ready dies ready) ]

-- `exits` says whether the running process exits within the wait behind a request.
module _ (exits : Call → Bool) where
  -- Whether the wait behind a request ends because the process is gone, and what it is then.
  abbrev pub reacts : Call → Process → Process
  reacts c absent = absent
  reacts c gone = gone
  reacts c running = if exits c then gone else running

  abbrev is_gone : Process → Bool
  is_gone gone = true
  is_gone _ = false

  unfoldable pub force : Process → Process × List Call
  unfolding kill
  force p =
      let q = reacts terminated p in
      if is_gone q then (q, terminated ∷ removed ∷ []) else (gone, terminated ∷ kill)

  unfoldable pub request : Process → Process × List Call
  unfolding force
  request p =
      let q = reacts posted p in
      if is_gone q
      then (q, posted ∷ removed ∷ [])
      else let (last, calls) = force q in (last, posted ∷ calls)

  unfoldable pub shutdown : Process → Process × List Call
  unfolding request
  shutdown absent = (absent, [])
  shutdown running = request running
  shutdown gone = request gone
