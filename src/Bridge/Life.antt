-- ===== src/Bridge/Life.antt =====
-- New, Start and Stop of bridge/bridge/bridge.go as the calls that take and give back the connection,
-- the context and the subscription.
use edge_sync.Base.{
  ◌≡◌, ◌⊎◌, inl, inr, Bool, true, false, not, ◌&&◌, Option, none, some, List, [], ◌∷◌, ◌++◌, arith,
  if◌then◌else◌, Option-cases,
}
use edge_sync.Base.Replay.{replay}
use edge_sync.Bridge.{Config, apply_defaults, validate}

pub data Resource : Type 0 where
  conn context sub : Resource

pub data Call : Type 0 where
  acquired released : Resource → Call
  flushed drained : Call

pub data Error : Type 0 where
  config_refused connect_failed subscribe_failed flush_failed : Error

-- The fields of a bridge that are not nil.
pub record Holds : Type 0 where
  pub has_conn : Bool
  pub has_context : Bool
  pub has_sub : Bool

-- `connects`, `subscribes` and `flushes` are the answers of NATS.
unfoldable pub new_holds : Bool → Config → (Error ⊎ Holds) × List Call
new_holds connects cfg = elim (validate (apply_defaults cfg)) [
  | some e ↦ (inl config_refused, [])
  | none ↦
      if connects
      then (
        inr (record { has_conn = true; has_context = false; has_sub = false }),
        acquired conn ∷ [],
      )
      else (inl connect_failed, [])
]

-- A flush that fails leaves the subscription.
unfoldable pub start : Bool → Bool → Holds → Option Error × Holds × List Call
start subscribes flushes b =
    if not subscribes
    then (some subscribe_failed, record b { has_context = true }, acquired context ∷ [])
    else (
      if flushes then none else some flush_failed,
      record b { has_context = true; has_sub = true },
      acquired context ∷ acquired sub ∷ flushed ∷ [],
    )

unfoldable pub release_if : Bool → Resource → List Call → List Call
release_if b r calls = if b then released r ∷ calls else calls

unfoldable pub stop : Holds → List Call
unfolding release_if
stop b =
    release_if b.has_sub sub
      (release_if b.has_context context (if b.has_conn then drained ∷ released conn ∷ [] else []))

-- What is held: a subscription, a flush and a drain need the connection.
unfoldable pub rule : Call → Holds → Option Holds
rule (acquired conn) h = if h.has_conn then none else some (record h { has_conn = true })
rule (acquired context) h = if h.has_context then none else some (record h { has_context = true })
rule (acquired sub) h =
    if h.has_conn && not h.has_sub then some (record h { has_sub = true }) else none
rule (released conn) h =
    if h.has_conn && not h.has_sub then some (record h { has_conn = false }) else none
rule (released context) h = if h.has_context then some (record h { has_context = false }) else none
rule (released sub) h = if h.has_sub then some (record h { has_sub = false }) else none
rule flushed h = if h.has_conn then some h else none
rule drained h = if h.has_conn then some h else none

abbrev pub nothing : Holds
nothing = record { has_conn = false; has_context = false; has_sub = false }

-- The calls of New, Start and Stop of a bridge.
unfoldable pub life : Bool → Bool → Bool → Config → List Call
life connects subscribes flushes cfg =
    let (made, calls) = new_holds connects cfg in
    elim made [
      | inl e ↦ calls
      | inr b ↦ let (failed, b', more) = start subscribes flushes b in calls ++ (more ++ stop b')
    ]

-- They come where they are allowed and leave nothing held, whether New or Start fails or not.
pub life-replay :
    (connects subscribes flushes : Bool) (cfg : Config)
    → replay rule (life connects subscribes flushes cfg) nothing ≡ some nothing
unfolding life new_holds start stop release_if replay rule
life-replay connects subscribes flushes cfg = elim (Option-cases (validate (apply_defaults cfg))) [
  | inr (e, p) ↦ ground arith
  | inl p ↦ by_answers connects subscribes flushes
]
  where
    by_answers : (x y z : Bool) → replay rule (life x y z cfg) nothing ≡ some nothing
    by_answers false y z = ground arith
    by_answers true false z = ground arith
    by_answers true true z = ground arith
