-- ===== src/Leaf.antt =====
-- leaf/cmd/leaf/main.go: what the flags' defaults and values are read from, and the loop on signals.
-- `trim`, `lower` and `atoi` are strings.TrimSpace, strings.ToLower and strconv.Atoi. A negative
-- port is left to `atoi`.
pub mod Headers
pub mod Telemetry
use edge_sync.Base.{
  text_eq, Text, codes, is_empty, non_empty, ite, Bool, true, false, Option, none, some, List, [],
  ◌∷◌, ◌++◌, map, ◌==◌, if◌then◌else◌, keep,
}
use edge_sync.Cli.Notify.{split_commas}
use edge_sync.Agent.Autosync.{Mode, off, on, pull_only}

-- An unset variable reads as the empty text.
abbrev pub Environment : Type 0
Environment = Text → Text

unfoldable pub env_or_default : Environment → Text → Text → Text
env_or_default env key fallback = let v = env key in if non_empty v then v else fallback

unfoldable pub env_bool : (Text → Text) → Environment → Text → Bool
env_bool lower env key =
    let v = lower (env key) in
    ite (text_eq v (codes "1")) true
      (ite (text_eq v (codes "true")) true (ite (text_eq v (codes "yes")) true false))

unfoldable pub env_int : {A : Type 0} → (Text → Option A) → Environment → Text → A → A
env_int atoi env key fallback =
    let v = env key in
    if is_empty v then fallback else elim (atoi v) [ none ↦ fallback | some i ↦ i ]

unfoldable pub parse_autosync_mode : Text → Mode
parse_autosync_mode s =
    ite (text_eq s (codes "on")) on (ite (text_eq s (codes "pullonly")) pull_only off)

-- The peers of LEAF_IROH_PEERS, which those of the flag follow.
unfoldable pub iroh_peers : (Text → Text) → Environment → List Text → List Text
iroh_peers trim env flags =
    keep non_empty (map trim (split_commas (env (codes "LEAF_IROH_PEERS")))) ++ flags

-- The text before the first '=' and the text behind it.
unfoldable pub cut_equals : Text → Option (Text × Text)
cut_equals [] = none
cut_equals (c ∷ t) =
    let rest = cut_equals t in
    if c == b'=' then some ([], t) else elim rest [ none ↦ none | some (k, v) ↦ some (c ∷ k, v) ]

abbrev pub Headers : Type 0
Headers = List (Text × Text)

-- `headers[k] = v`.
unfoldable pub put : Text → Text → Headers → Headers
put k v [] = (k, v) ∷ []
put k v ((a, b) ∷ headers) =
    let rest = put k v headers in ite (text_eq a k) ((a, v) ∷ headers) ((a, b) ∷ rest)

unfoldable pub lookup : Text → Headers → Option Text
lookup k [] = none
lookup k ((a, b) ∷ headers) = let rest = lookup k headers in ite (text_eq a k) (some b) rest

-- The loop over the pairs.
unfoldable pub put_pairs : (Text → Text) → List Text → Headers → Headers
put_pairs trim [] headers = headers
put_pairs trim (pair ∷ pairs) headers = elim (cut_equals pair) [
  | none ↦ put_pairs trim pairs headers
  | some (k, v) ↦ put_pairs trim pairs (put (trim k) (trim v) headers)
]

unfoldable pub parse_headers : (Text → Text) → Text → Headers
parse_headers trim s = if is_empty s then [] else put_pairs trim (split_commas s) []

pub data Signal : Type 0 where
  sigint sigterm sigusr1 : Signal

pub data Call : Type 0 where
  synced agent_stopped telemetry_shut_down exited : Call

-- The calls for the signals as they come; a signal behind the exit is not seen.
unfoldable pub await_signals : List Signal → List Call
await_signals [] = []
await_signals (sigusr1 ∷ signals) = synced ∷ await_signals signals
await_signals (_ ∷ signals) = agent_stopped ∷ telemetry_shut_down ∷ exited ∷ []
