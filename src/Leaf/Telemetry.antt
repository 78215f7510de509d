-- ===== src/Leaf/Telemetry.antt =====
-- leaf/telemetry/setup.go: Setup with its providers, its shutdown function, and the tee of the log
-- records. OpenTelemetry and log/slog are parameters.
use edge_sync.Base.{
  Text, codes, is_empty, non_empty, has_prefix, ℕ, ◌≡◌, refl, Bool, true, false, ◌||◌, Option, none,
  some, List, [], ◌∷◌, ◌++◌, arith, if◌then◌else◌,
}
use edge_sync.Leaf.{Headers}

pub record TelemetryConfig : Type 0 where
  pub service_name : Text
  pub endpoint : Text
  pub headers : Headers

pub data Provider : Type 0 where
  tracer meter logger : Provider

pub data EndpointOption : Type 0 where
  with_endpoint_url with_endpoint : Text → EndpointOption

pub record Options : Type 0 where
  pub at : Option EndpointOption
  pub with_headers : Option Headers

unfoldable pub has_scheme : Text → Bool
has_scheme endpoint =
    has_prefix (codes "http://") endpoint || has_prefix (codes "https://") endpoint

-- The same for the three exporters.
unfoldable pub endpoint_option : Text → EndpointOption
endpoint_option endpoint =
    if has_scheme endpoint then with_endpoint_url endpoint else with_endpoint endpoint

unfoldable pub options : TelemetryConfig → Options
options cfg = record {
  at = if non_empty cfg.endpoint then some (endpoint_option cfg.endpoint) else none;
  with_headers = elim cfg.headers [ [] ↦ none | h ∷ hs ↦ some (h ∷ hs) ];
}

unfoldable pub service_of : TelemetryConfig → Text
service_of cfg = if is_empty cfg.service_name then codes "edgesync-leaf" else cfg.service_name

-- What is installed, in order, and what the shutdown function holds, if there is one.
pub record Setup : Type 0 where
  pub installed : List Provider
  pub shutdowns : Option (List Provider)
  pub logs_tee : Bool

-- `merges` says whether a resource of this name is made, `opens` whether an exporter is.
module _ (merges : Text → Bool) (opens : Provider → Options → Bool) (cfg : TelemetryConfig) where
  unfoldable pub provide : List Provider → List Provider → Setup
  provide done [] = record { installed = done; shutdowns = some done; logs_tee = true }
  provide done (p ∷ ps) =
      let rest = provide (done ++ p ∷ []) ps in
      if opens p (options cfg)
      then rest
      else record { installed = done; shutdowns = none; logs_tee = false }

  unfoldable pub setup : Setup
  setup =
      if merges (service_of cfg)
      then provide [] (tracer ∷ meter ∷ logger ∷ [])
      else record { installed = []; shutdowns = none; logs_tee = false }

-- The loop of the shutdown function, from the last provider to the first: the providers that are
-- shut down, in order, and the errors that are joined.
module _ {E : Type 0} (fails : Provider → Option E) where
  unfoldable pub shut_down : List Provider → List Provider × List E
  shut_down [] = ([], [])
  shut_down (p ∷ ps) =
      let (called, errors) = shut_down ps in
      (called ++ p ∷ [], errors ++ elim (fails p) [ none ↦ [] | some e ↦ e ∷ [] ])

-- A handler of log records: the lines that it writes and the errors that it returns.
pub record Handler (R L E : Type 0) : Type 0 where
  pub enabled : ℕ → Bool
  pub handle : ℕ → R → List L × List E

module _ {R L E : Type 0} where
  unfoldable pub handle_enabled : Handler R L E → ℕ → R → List L × List E
  handle_enabled h level r = if h.enabled level then h.handle level r else ([], [])

  unfoldable pub tee : Handler R L E → Handler R L E → Handler R L E
  tee primary secondary = record {
    enabled = λ level. primary.enabled level || secondary.enabled level;
    handle = λ level r.
        let (written, errors) = handle_enabled primary level r in
        let (written2, errors2) = handle_enabled secondary level r in
        (written ++ written2, errors ++ errors2);
  }

-- Setup succeeds only with all three providers, and its shutdown function then shuts down each of
-- them, the latest first, whatever the others return.
pub setup-shut_down :
    {E : Type 0} (merges : Text → Bool) (opens : Provider → Options → Bool) (cfg : TelemetryConfig)
    (fails : Provider → Option E) (held : List Provider)
    → (setup merges opens cfg).shutdowns ≡ some held
    → ((setup merges opens cfg).installed ≡ held)
      × ((shut_down fails held).0 ≡ logger ∷ meter ∷ tracer ∷ [])
unfolding setup provide shut_down
setup-shut_down merges opens cfg fails held h = grind arith

-- A log record reaches a handler as it does without the other: behind the lines of the first come
-- those of the second.
pub tee_writes :
    {R L E : Type 0} (primary secondary : Handler R L E) (level : ℕ) (r : R)
    → ((tee primary secondary).handle level r).0
      ≡ (handle_enabled primary level r).0 ++ (handle_enabled secondary level r).0
unfolding tee
tee_writes primary secondary level r = refl
