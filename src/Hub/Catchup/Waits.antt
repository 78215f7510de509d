-- ===== src/Hub/Catchup/Waits.antt =====
-- Stop waits for the late publishing before it closes the repository, and does not wait forever.
use edge_sync.Base.{ℕ, ◌+◌, ◌≤◌, ◌≡◌, refl, ap, ◌∙◌, Bool, true, false, not, arith}
use edge_sync.Hub.Catchup.{
  Goroutine, selecting, publishing, ended, Stopper, running, stopping, waited, closed, Catchup,
  new_catchup, Step, elapse, give_up, fire, finish, close_stop, receive_done, close_repo, Reach,
  here, further,
}

abbrev is_running : Stopper → Bool
is_running running = true
is_running _ = false

abbrev has_waited : Stopper → Bool
has_waited waited = true
has_waited closed = true
has_waited _ = false

abbrev is_closed : Stopper → Bool
is_closed closed = true
is_closed _ = false

abbrev is_ended : Goroutine → Bool
is_ended ended = true
is_ended _ = false

abbrev scans_left : Goroutine → ℕ
scans_left selecting = 1
scans_left publishing = 0
scans_left ended = 0

record IsOrderly (s : Catchup) : Type 0 where
  done : s.done_closed ≡ is_ended s.goroutine
  stop : s.stop_closed ≡ not (is_running s.stopper)
  repo : s.repo_open ≡ not (is_closed s.stopper)
  joined : has_waited s.stopper ≡ true → s.done_closed ≡ true
  once : s.scans + scans_left s.goroutine ≤ 1

Step-IsOrderly : (s t : Catchup) → Step s t → IsOrderly s → IsOrderly t
Step-IsOrderly _ _ (elapse s) h = ground arith
Step-IsOrderly _ _ (give_up s p q) h = ground arith
Step-IsOrderly _ _ (fire s p q) h = ground arith
Step-IsOrderly _ _ (finish s p) h = ground arith
Step-IsOrderly _ _ (close_stop s p) h = ground arith
Step-IsOrderly _ _ (receive_done s p q) h = ground arith
Step-IsOrderly _ _ (close_repo s p) h = ground arith

Reach-IsOrderly : (s t : Catchup) → Reach s t → IsOrderly s → IsOrderly t
Reach-IsOrderly _ _ (here s) h = h
Reach-IsOrderly _ _ (further s t u r p) h = Step-IsOrderly t u p (Reach-IsOrderly s t r h)

new-IsOrderly : IsOrderly new_catchup
new-IsOrderly = record {
  done = refl;
  stop = refl;
  repo = refl;
  joined = λ p. cc;
  once = omega arith;
}

-- However the two interleave, the repository is open while the goroutine publishes, and it publishes
-- at most once.
pub catchup_safe :
    (s : Catchup)
    → Reach new_catchup s
    → (s.goroutine ≡ publishing → s.repo_open ≡ true) × (s.scans ≤ 1)
catchup_safe s r =
    let h = Reach-IsOrderly new_catchup s r new-IsOrderly in
    (λ p. open_while s h s.stopper refl p, ground (arith, h.once))
  where
    open_while :
        (s : Catchup)
        → IsOrderly s
        → (p : Stopper) → s.stopper ≡ p
        → s.goroutine ≡ publishing
        → s.repo_open ≡ true
    open_while s h running e p = ground (arith, h.repo)
    open_while s h stopping e p = ground (arith, h.repo)
    open_while s h waited e p = ground (arith, h.repo)
    open_while s h closed e p = cc (ap is_ended p, h.done, h.joined (ap has_waited e))

-- It can go on until the repository is closed.
abbrev pub Closes : Catchup → Type 0
Closes s = (t : Catchup) × Reach s t × (t.repo_open ≡ false)

Reach-append : (s t u : Catchup) → Reach s t → Reach t u → Reach s u
Reach-append s _ _ r (here t) = r
Reach-append s _ _ r (further t u v q p) = further s u v (Reach-append s t u r q) p

Closes-after : (s t : Catchup) → Step s t → Closes t → Closes s
Closes-after s t p (u, r, e) = (u, Reach-append s t u (further s s t (here s) p) r, e)

Closes-waited : (s : Catchup) → s.stopper ≡ waited → Closes s
Closes-waited s e =
    Closes-after s (record s { stopper = closed; repo_open = false }) (close_repo s e)
      (record s { stopper = closed; repo_open = false }, here _, refl)

Closes-done : (s : Catchup) → s.stopper ≡ stopping → s.done_closed ≡ true → Closes s
Closes-done s e d =
    Closes-after s (record s { stopper = waited }) (receive_done s e d)
      (Closes-waited (record s { stopper = waited }) refl)

Closes-stopping :
    (s : Catchup)
    → IsOrderly s
    → s.stopper ≡ stopping
    → (g : Goroutine) → s.goroutine ≡ g
    → Closes s
Closes-stopping s h e selecting p =
    let done = record s { goroutine = ended; done_closed = true } in
    Closes-after s done (give_up s p (h.stop ∙ ap (λ x. not (is_running x)) e))
      (Closes-done done e refl)
Closes-stopping s h e publishing p =
    let done = record s { goroutine = ended; done_closed = true } in
    Closes-after s done (finish s p) (Closes-done done e refl)
Closes-stopping s h e ended p = Closes-done s e (h.done ∙ ap is_ended p)

-- From every state that they get to in which Stop has closed its channel, they can go on until the
-- repository is closed.
pub catchup-Closes : (s : Catchup) → Reach new_catchup s → s.stop_closed ≡ true → Closes s
catchup-Closes s r c = by_stopper s (Reach-IsOrderly new_catchup s r new-IsOrderly) c s.stopper refl
  where
    by_stopper :
        (s : Catchup)
        → IsOrderly s
        → s.stop_closed ≡ true
        → (p : Stopper) → s.stopper ≡ p
        → Closes s
    by_stopper s h c running e = cc (h.stop, ap is_running e)
    by_stopper s h c stopping e = Closes-stopping s h e s.goroutine refl
    by_stopper s h c waited e = Closes-waited s e
    by_stopper s h c closed e = (s, here s, h.repo ∙ ap (λ x. not (is_closed x)) e)
