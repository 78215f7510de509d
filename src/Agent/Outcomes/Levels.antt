-- ===== src/Agent/Outcomes/Levels.antt =====
-- Which outcomes raise an alert, and when the hook is called.
use edge_sync.Base.{
  ℕ, zero, suc, ◌+◌, ◌≤◌, ◌≡◌, refl, ap, ◌∙◌, List, [], ◌∷◌, ◌++◌, map, Bool, true, false, ◌||◌,
  Text, arith, if◌then◌else◌,
}
use edge_sync.Agent.Outcomes.{
  SyncResult, Attempt, succeeded, erred, Outcome, debug, error, Effect, logged, warned, told_error,
  told_done, hooked, any_success, is_benign, emit_attempt, emit_each, emit_sync_outcomes, Input,
  calls_sync_now, receives_done, times_out, receives, Loop, loop_step, run,
}

-- The labels of the ERROR records.
pub alerts : List Effect → List Text
alerts [] = []
alerts (logged error label ∷ es) = label ∷ alerts es
alerts (_ ∷ es) = alerts es

-- The results with which the hook was called.
pub hook_calls : List Effect → List SyncResult
hook_calls [] = []
hook_calls (hooked r ∷ es) = r ∷ hook_calls es
hook_calls (_ ∷ es) = hook_calls es

-- The labels of the targets that failed with an error that is not benign.
pub actionable : List Outcome → List Text
actionable [] = []
actionable (o ∷ os) = elim o.attempt [
  | succeeded r ↦ actionable os
  | erred e ↦ elim (is_benign e) [ true ↦ actionable os | false ↦ o.label ∷ actionable os ]
]

pub results : List Outcome → List SyncResult
results [] = []
results (o ∷ os) = elim o.attempt [ succeeded r ↦ r ∷ results os | erred e ↦ results os ]

alerts-append : (xs ys : List Effect) → alerts (xs ++ ys) ≡ alerts xs ++ alerts ys
unfolding alerts
alerts-append [] ys = refl
alerts-append (logged error l ∷ xs) ys = ap (◌∷◌ l) (alerts-append xs ys)
alerts-append (logged debug l ∷ xs) ys = alerts-append xs ys
alerts-append (warned l t ∷ xs) ys = alerts-append xs ys
alerts-append (told_error l e ∷ xs) ys = alerts-append xs ys
alerts-append (told_done l a b c ∷ xs) ys = alerts-append xs ys
alerts-append (hooked r ∷ xs) ys = alerts-append xs ys

hook_calls-append : (xs ys : List Effect) → hook_calls (xs ++ ys) ≡ hook_calls xs ++ hook_calls ys
unfolding hook_calls
hook_calls-append [] ys = refl
hook_calls-append (hooked r ∷ xs) ys = ap (◌∷◌ r) (hook_calls-append xs ys)
hook_calls-append (logged v l ∷ xs) ys = hook_calls-append xs ys
hook_calls-append (warned l t ∷ xs) ys = hook_calls-append xs ys
hook_calls-append (told_error l e ∷ xs) ys = hook_calls-append xs ys
hook_calls-append (told_done l a b c ∷ xs) ys = hook_calls-append xs ys

alerts-warned : (l : Text) (ts : List Text) → alerts (map (warned l) ts) ≡ []
unfolding alerts
alerts-warned l [] = refl
alerts-warned l (t ∷ ts) = alerts-warned l ts

hook_calls-warned : (l : Text) (ts : List Text) → hook_calls (map (warned l) ts) ≡ []
unfolding hook_calls
hook_calls-warned l [] = refl
hook_calls-warned l (t ∷ ts) = hook_calls-warned l ts

emit_attempt-alerts :
    (hook any : Bool) (l : Text) (t : Attempt)
    → alerts (emit_attempt hook any l t)
      ≡ (elim t [ succeeded r ↦ [] | erred e ↦ if any || is_benign e then [] else l ∷ [] ])
unfolding emit_attempt alerts
emit_attempt-alerts hook any l (succeeded r) =
    let tail : List Effect = if hook then hooked r ∷ [] else [] in
    alerts-append (map (warned l) r.errors) tail ∙ ground (arith, alerts-warned l r.errors)
emit_attempt-alerts hook any l (erred e) = ground arith

emit_attempt-hook_calls :
    (hook any : Bool) (l : Text) (t : Attempt)
    → hook_calls (emit_attempt hook any l t)
      ≡ (elim t [ succeeded r ↦ if hook then r ∷ [] else [] | erred e ↦ [] ])
unfolding emit_attempt hook_calls
emit_attempt-hook_calls hook any l (succeeded r) =
    let tail : List Effect = if hook then hooked r ∷ [] else [] in
    hook_calls-append (map (warned l) r.errors) tail ∙ ground (arith, hook_calls-warned l r.errors)
emit_attempt-hook_calls hook any l (erred e) = ground arith

emit_each-alerts :
    (hook any : Bool) (os : List Outcome)
    → alerts (emit_each hook any os) ≡ (if any then [] else actionable os)
unfolding emit_each actionable alerts
emit_each-alerts hook any [] = ground arith
emit_each-alerts hook any (o ∷ os) =
    alerts-append (emit_attempt hook any o.label o.attempt) (emit_each hook any os)
    ∙ ground (arith, emit_attempt-alerts hook any o.label o.attempt, emit_each-alerts hook any os)

emit_each-hook_calls :
    (any : Bool) (os : List Outcome) → hook_calls (emit_each true any os) ≡ results os
unfolding emit_each results hook_calls
emit_each-hook_calls any [] = refl
emit_each-hook_calls any (o ∷ os) =
    hook_calls-append (emit_attempt true any o.label o.attempt) (emit_each true any os)
    ∙ ground
        (arith, emit_attempt-hook_calls true any o.label o.attempt, emit_each-hook_calls any os)

-- In a poll cycle in which a target succeeded nothing is logged at ERROR; otherwise exactly the
-- targets that failed with an error that is not benign are, in order.
pub emit_sync_outcomes-alerts :
    (hook : Bool) (os : List Outcome)
    → alerts (emit_sync_outcomes hook os) ≡ (if any_success os then [] else actionable os)
unfolding emit_sync_outcomes
emit_sync_outcomes-alerts hook os = emit_each-alerts hook (any_success os) os

-- With a hook set, it is called once for each success, in order, whatever the other targets do.
pub emit_sync_outcomes-hook_calls :
    (os : List Outcome) → hook_calls (emit_sync_outcomes true os) ≡ results os
unfolding emit_sync_outcomes
emit_sync_outcomes-hook_calls os = emit_each-hook_calls (any_success os) os

-- The cycles that may be started: one for each timer that is not skipped, one for each call of
-- SyncNow.
pub allowed : List Input → ℕ
allowed [] = 0
allowed (calls_sync_now ∷ is) = suc (allowed is)
allowed (receives_done ∷ is) = allowed is
allowed (times_out fires os ∷ is) = (if fires then 0 else 1) + allowed is
allowed (receives os ∷ is) = allowed is

-- Every cycle of the loop answers to a timer that was not skipped or to a call of SyncNow of its
-- own; a trigger that waits at the start counts as one more.
pub run-cycles :
    (hook : Bool) (inputs : List Input) (l : Loop)
    → (run hook inputs l).cycles ≤ l.cycles + (if l.pending then 1 else 0) + allowed inputs
unfolding run loop_step allowed
run-cycles hook [] l = omega arith
run-cycles hook (calls_sync_now ∷ is) l =
    ground (arith, run-cycles hook is (record l { pending = true }))
run-cycles hook (receives_done ∷ is) l =
    ground (arith, run-cycles hook is (record l { finished = true }))
run-cycles hook (times_out fires os ∷ is) l =
    ground (arith, run-cycles hook is (loop_step hook (times_out fires os) l))
run-cycles hook (receives os ∷ is) l =
    ground (arith, run-cycles hook is (loop_step hook (receives os) l))

-- The inputs that let a caller trigger, `n` times.
abbrev pub triggers : ℕ → List Input
triggers zero = []
triggers (suc n) = calls_sync_now ∷ triggers n

run_pending : (hook : Bool) (n : ℕ) (l : Loop) → l.pending ≡ true → run hook (triggers n) l ≡ l
unfolding run loop_step
run_pending hook zero l p = refl
run_pending hook (suc n) l p = ground (arith, run_pending hook n l p)

run-triggers :
    (hook : Bool) (n : ℕ) (l : Loop) → run hook (triggers (suc n)) l ≡ record l { pending = true }
unfolding run loop_step
run-triggers hook n l = run_pending hook n (record l { pending = true }) refl

receive_idle :
    (hook : Bool) (os : List Outcome) (l : Loop)
    → l.pending ≡ false
    → loop_step hook (receives os) l ≡ l
unfolding loop_step
receive_idle hook os l p = ground arith

received_once :
    (hook : Bool) (os more : List Outcome) (l : Loop)
    → l.finished ≡ false
    → loop_step hook (receives more) (loop_step hook (receives os) (record l { pending = true }))
      ≡ record l {
        pending = false;
        cycles = l.cycles + 1;
        effects = l.effects ++ emit_sync_outcomes hook os;
      }
unfolding loop_step
received_once hook os more l f = ground arith

-- While the loop has not returned, any positive number of calls of SyncNow in front of a receipt
-- starts one cycle: the first receipt runs it, and a second one finds nothing.
pub triggers_coalesce :
    (hook : Bool) (n : ℕ) (os more : List Outcome) (l : Loop)
    → l.finished ≡ false
    → loop_step hook (receives more) (loop_step hook (receives os) (run hook (triggers (suc n)) l))
      ≡ record l {
        pending = false;
        cycles = l.cycles + 1;
        effects = l.effects ++ emit_sync_outcomes hook os;
      }
triggers_coalesce hook n os more l f =
    ap (λ k. loop_step hook (receives more) (loop_step hook (receives os) k))
      (run-triggers hook n l)
    ∙ received_once hook os more l f
