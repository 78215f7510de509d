-- ===== src/Cli/Doctor.antt =====
-- cli/doctor.go: the checks of `doctor` and its verdict. What the machine says is a parameter.
use edge_sync.Base.{
  text_eq, Text, codes, non_empty, has_prefix, ℕ, ◌+◌, ◌≡◌, refl, ite, Bool, true, false, ◌||◌,
  Option, none, some, List, [], ◌∷◌, ◌++◌, arith, ltb, ◌==◌, if◌then◌else◌, length,
}

-- What fn returns: an error, or a detail.
pub data Answer : Type 0 where
  failure detail : Text → Answer

pub record Machine : Type 0 where
  pub go_version : Text
  pub go_output : Option Text
  pub fossil_path : Option Text
  pub fossil_output : Text → Text
  pub given_repo : Text
  pub exists : Text → Bool
  pub opens_repo : Bool
  pub host_of : Text → Option Text
  pub dials : Text → Bool
  pub doppler_path : Option Text
  pub hooks_path : Option Text
  pub trim : Text → Text

abbrev pub warn : Text
warn = codes "WARN:"

unfoldable pub check_go : Machine → Answer
check_go m = elim m.go_output [
  | none ↦ failure (codes "go not found in PATH")
  | some out ↦ detail (m.trim out)
]

unfoldable pub check_fossil : Machine → Answer
check_fossil m = elim m.fossil_path [
  | none ↦ detail (warn ++ codes "not found in PATH (needed for sim/interop tests)")
  | some path ↦ detail (m.trim (m.fossil_output path))
]

-- The error of Stat is left out of the text.
unfoldable pub check_repository : Machine → Answer
check_repository m =
    if non_empty m.given_repo
    then if m.exists m.given_repo then detail m.given_repo else failure m.given_repo
    else if m.opens_repo
    then detail (codes "auto-detected")
    else detail (warn ++ codes "no .fossil file found in cwd or parents (use -R <path>)")

unfoldable pub has_colon : Text → Bool
has_colon [] = false
has_colon (c ∷ t) = let rest = has_colon t in if c == b':' then true else rest

unfoldable pub with_port : Text → Text
with_port host = if has_colon host then host else host ++ codes ":4222"

-- The error of the dial is left out of the text.
unfoldable pub check_nats : Machine → Text → Answer
check_nats m nats_url = elim (m.host_of nats_url) [
  | none ↦ failure (codes "invalid URL: " ++ nats_url)
  | some host ↦
      if m.dials (with_port host)
      then detail (nats_url ++ codes " reachable")
      else detail (warn ++ nats_url ++ codes " unreachable")
]

unfoldable pub check_doppler : Machine → Answer
check_doppler m = elim m.doppler_path [
  | none ↦ detail (warn ++ codes "not found (optional, needed for OTel secret injection)")
  | some path ↦ detail path
]

unfoldable pub check_hook : Machine → Answer
check_hook m =
    let not_configured =
      detail (warn ++ codes ".githooks exists but git not configured (run: make setup-hooks)") in
    if m.exists (codes ".githooks/pre-commit")
    then elim m.hooks_path [
      | none ↦ not_configured
      | some out ↦
          ite (text_eq (m.trim out) (codes ".githooks")) (detail (codes "installed")) not_configured
    ]
    else detail (warn ++ codes "not installed (run: make setup-hooks)")

pub record Tally : Type 0 where
  pub passed : ℕ
  pub warned : ℕ
  pub failed : ℕ

abbrev new_tally : Tally
new_tally = record { passed = 0; warned = 0; failed = 0 }

unfoldable pub check : Answer → Tally → Tally
check (failure _) t = record t { failed = t.failed + 1 }
check (detail d) t =
    if has_prefix warn d
    then record t { warned = t.warned + 1 }
    else record t { passed = t.passed + 1 }

unfoldable pub check_each : List Answer → Tally → Tally
check_each [] t = t
check_each (a ∷ answers) t = check_each answers (check a t)

unfoldable pub answers : Machine → Text → List Answer
answers m nats_url =
    detail m.go_version
    ∷ check_go m
    ∷ check_fossil m
    ∷ check_repository m
    ∷ check_nats m nats_url
    ∷ check_doppler m
    ∷ check_hook m
    ∷ []

-- The tally, and whether Run returns an error.
unfoldable pub run_doctor : Machine → Text → Tally × Bool
run_doctor m nats_url =
    let tally = check_each (answers m nats_url) new_tally in (tally, ltb 0 tally.failed)

abbrev pub total : Tally → ℕ
total t = t.passed + t.warned + t.failed

check_counts : (a : Answer) (t : Tally) → total (check a t) ≡ total t + 1
unfolding check
check_counts (failure _) t = omega arith
check_counts (detail d) t = ground arith

-- Every answer is counted once.
pub check_each_counts :
    (given : List Answer) (t : Tally) → total (check_each given t) ≡ total t + length given
unfolding check_each
check_each_counts [] t = omega arith
check_each_counts (a ∷ given) t =
    omega (arith, check_each_counts given (check a t), check_counts a t)

abbrev pub is_failure : Answer → Bool
is_failure (failure _) = true
is_failure (detail _) = false

unfoldable pub failures : List Answer → ℕ
failures [] = 0
failures (a ∷ given) = let rest = failures given in if is_failure a then rest + 1 else rest

check-failed :
    (a : Answer) (t : Tally)
    → (check a t).failed ≡ (if is_failure a then t.failed + 1 else t.failed)
unfolding check
check-failed (failure _) t = refl
check-failed (detail d) t = ground arith

check_each-failed :
    (given : List Answer) (t : Tally) → (check_each given t).failed ≡ t.failed + failures given
unfolding check_each failures
check_each-failed [] t = omega arith
check_each-failed (a ∷ given) t =
    ground (arith, check_each-failed given (check a t), check-failed a t)

fossil_passes : (m : Machine) → is_failure (check_fossil m) ≡ false
unfolding check_fossil
fossil_passes m = ground arith

doppler_passes : (m : Machine) → is_failure (check_doppler m) ≡ false
unfolding check_doppler
doppler_passes m = ground arith

hook_passes : (m : Machine) → is_failure (check_hook m) ≡ false
unfolding check_hook
hook_passes m = ground arith

-- Run returns an error exactly if go does not run, the given repository is missing or the URL of
-- NATS cannot be parsed; whatever else is missing gives a warning.
pub run_doctor_lem :
    (m : Machine) (nats_url : Text)
    → (run_doctor m nats_url).1 ≡ (
        is_failure (check_go m)
        || is_failure (check_repository m)
        || is_failure (check_nats m nats_url))
unfolding run_doctor answers failures
run_doctor_lem m nats_url = ground (
  arith,
  check_each-failed (answers m nats_url) new_tally,
  fossil_passes m,
  doppler_passes m,
  hook_passes m,
)
