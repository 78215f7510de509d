-- ===== src/Base/Replay.antt =====
-- Calls replayed by rules that may forbid one: a run of a partial step function.
use mathlib.Core.Path.{◌≡◌}
use mathlib.Core.Logic.{inl, inr}
use mathlib.Core.List.{List, [], ◌∷◌, ◌++◌}
use mathlib.Core.Option.{Option, none, some}
use native.Mathlib.Omega.{arith}
use edge_sync.Base.Tests.{Option-cases}

module _ {A S : Type 0} (step : A → S → Option S) where
  -- `none` once a call is forbidden.
  unfoldable pub replay : List A → S → Option S
  replay [] s = some s
  replay (a ∷ calls) s = elim (step a s) [ none ↦ none | some s' ↦ replay calls s' ]

  pub replay-append :
      (xs ys : List A) (s t : S) → replay xs s ≡ some t → replay (xs ++ ys) s ≡ replay ys t
  unfolding replay
  replay-append [] ys s t h = ground arith
  replay-append (x ∷ xs) ys s t h = elim (Option-cases (step x s)) [
    | inl e ↦ ground arith
    | inr (u, e) ↦ ground (arith, replay-append xs ys u t)
  ]

  -- The calls behind a step, replayed from where it ended.
  pub then_replay :
      (xs ys : List A) (s t u : S)
      → replay xs s ≡ some t
      → replay ys t ≡ some u
      → replay (xs ++ ys) s ≡ some u
  then_replay xs ys s t u h k = rw (replay-append xs ys s t h) k
