-- ===== src/Agent/Sidecar/Waits.antt =====
-- The waiting ends, and with the first answer that there is in time.
use edge_sync.Base.{
  Text, ℕ, zero, suc, ◌+◌, ◌-◌, ◌*◌, ◌/◌, ◌≤◌, ◌<◌, ◌≡◌, sym, subst, inl, inr, Option, none, some,
  arith, dec_lt, ℕ_discrete, ltb, ltb→lt, Bool-cases, Option-cases,
}
use edge_sync.Agent.Sidecar.{Poll, poll_status, pause, wait_until, wait_ready, start}

module _ (clock : ℕ → ℕ) (poll : ℕ → Poll) where
  -- A sleep lasts at least as long as it is asked for.
  abbrev pub Sleeps : Type 0
  Sleeps = (k : ℕ) → clock k + pause ≤ clock (k + 1)

  abbrev Unanswered : ℕ → Type 0
  Unanswered j = poll_status (poll j) ≡ none

  -- The first status that a poll before the deadline gave, or no poll gave one.
  abbrev pub Outcome : ℕ → Option Text → Type 0
  Outcome deadline (some status) =
      (k : ℕ) × (clock k < deadline)
      × (poll_status (poll k) ≡ some status)
      × ((j : ℕ) → j < k → Unanswered j)
  Outcome deadline none = (j : ℕ) → clock j < deadline → Unanswered j

  module _ (sleeps : Sleeps) where
    clock_mono : (k n : ℕ) → clock k ≤ clock (k + n)
    clock_mono k zero = let e : k + 0 ≡ k = omega arith in rw e (omega arith)
    clock_mono k (suc n) =
        let e : k + suc n ≡ k + n + 1 = omega arith in
        rw e (omega (arith, clock_mono k n, sleeps (k + n)))

    late : (deadline k j : ℕ) → deadline ≤ clock k → clock j < deadline → j < k
    late deadline k j h l = elim (dec_lt j k) [
      | yes p ↦ p
      | no p ↦
          let e : k + (j - k) ≡ j = omega arith in
          let m : clock k ≤ clock j = subst (λ i. clock k ≤ clock i) e (clock_mono k (j - k)) in
          absurd (omega arith)
    ]

    -- The loop gives a result, and the right one.
    abbrev Ends : ℕ → ℕ → ℕ → Type 0
    Ends fuel deadline k =
        (r : Option Text) × (wait_until clock poll fuel deadline k ≡ some r) × Outcome deadline r

    module _ (deadline k : ℕ) (before : (j : ℕ) → j < k → Unanswered j) where
      one_more : Unanswered k → (j : ℕ) → j < k + 1 → Unanswered j
      one_more e j l = elim (ℕ_discrete j k) [
        | yes p ↦ subst Unanswered (sym p) e
        | no p ↦ before j (omega arith)
      ]

      one_round :
          (fuel : ℕ)
          → (clock k < deadline → Unanswered k → Ends fuel deadline (k + 1))
          → Ends (suc fuel) deadline k
      unfolding wait_until
      one_round fuel rest = elim (Bool-cases (ltb (clock k) deadline)) [
        | inr over ↦
            let h : deadline ≤ clock k = ground arith in
            (none, ground arith, λ j l. before j (late deadline k j h l))
        | inl early ↦ elim (Option-cases (poll_status (poll k))) [
          | inr (status, e) ↦
              (some status, ground arith, (k, ltb→lt (clock k) deadline early, e, before))
          | inl e ↦ let (r, q, o) = rest (ltb→lt (clock k) deadline early) e in (r, ground arith, o)
        ]
      ]

    wait_until_lem :
        (fuel deadline k : ℕ)
        → deadline ≤ clock k + fuel * pause
        → ((j : ℕ) → j < k → Unanswered j)
        → Ends (suc fuel) deadline k
    wait_until_lem zero deadline k enough before =
        one_round deadline k before zero (λ early e. absurd (omega arith))
    wait_until_lem (suc fuel) deadline k enough before =
        one_round deadline k before (suc fuel) (λ early e.
          wait_until_lem fuel deadline (k + 1) (omega (arith, sleeps k))
            (one_more deadline k before e))

    -- With a sleep of 200 milliseconds behind each poll and a clock that does not start late, one
    -- check more than the timeout has such sleeps, rounded up, ends the waiting: with the first
    -- status that a poll before the deadline gave, or without one if no such poll gave one.
    pub wait_ready_total :
        (start timeout : ℕ)
        → start ≤ clock 0
        → (r : Option Text) × (wait_ready clock poll
              ((timeout + 199999999) / pause + 1)
              start
              timeout
            ≡ some r)
          × Outcome (start + timeout) r
    unfolding wait_ready
    wait_ready_total start timeout h =
        let rounds = (timeout + 199999999) / pause in
        let e : rounds + 1 ≡ suc rounds = omega arith in
        rw e (wait_until_lem rounds (start + timeout) 0 (omega arith) (λ j l. absurd (omega arith)))
