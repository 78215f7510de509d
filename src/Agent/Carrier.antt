-- ===== src/Agent/Carrier.antt =====
-- leaf/agent/internal/natshdr/carrier.go: the trace context in the headers of a NATS message. A
-- header is a map from keys to values; Go visits it in any order. `canonical` is the form of a key
-- that http.Header.Set writes, and two keys are strings.EqualFold if `fold` is the same for both.
pub mod SetGet
use edge_sync.Base.{text_eq, Text, ite, Bool, true, false, not, List, [], ◌∷◌, ◌++◌, map, keep}

abbrev pub Entry : Type 0
Entry = Text × List Text

abbrev pub Header : Type 0
Header = List Entry

unfoldable pub is_key : Text → Entry → Bool
is_key k e = ite (text_eq e.0 k) true false

module _ (fold canonical : Text → Text) where
  -- The loop of Get over the entries as they are visited.
  unfoldable pub get_visited : List Entry → Text → Text
  get_visited [] key = []
  get_visited ((k, []) ∷ entries) key = get_visited entries key
  get_visited ((k, v ∷ vs) ∷ entries) key =
      let rest = get_visited entries key in ite (text_eq (fold k) (fold key)) v rest

  unfoldable pub get : (Header → List Entry) → Header → Text → Text
  get visit c key = get_visited (visit c) key

  unfoldable pub set : Text → Text → Header → Header
  set key value c = keep (λ e. not (is_key (canonical key) e)) c ++ (canonical key, value ∷ []) ∷ []

abbrev pub keys : (Header → List Entry) → Header → List Text
keys visit c = map (λ e. e.0) (visit c)
