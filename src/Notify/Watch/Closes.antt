-- ===== src/Notify/Watch/Closes.antt =====
-- Whatever the interleaving, a watch does not panic, and once cancelled it can always close.
use edge_sync.Base.{
  ◌≤◌, ◌≡◌, ◌≢◌, refl, inl, inr, Bool, true, false, not, ◌&&◌, ◌||◌, [], ◌∷◌, arith, Bool-cases,
  length, length-append,
}
use edge_sync.Notify.Message.{Message}
use edge_sync.Notify.Watch.{
  Subscription, no_subscriber, subscribe_failed, flush_failed, subscribed, Callback, idle, waiting,
  holding, selecting, Closer, absent, parked, cancelled, unsubscribed, locked, flagged, closed,
  gone, Watch, capacity, new_watch, Step, arrive, lock_callback, skip, enter, put, put_closed,
  give_up, receive, cancel, wake, unsubscribe, lock_closer, set_flag, close_channel, close_again,
  unlock_closer, Reach, here, further,
}

abbrev pub callback_holds : Callback → Bool
callback_holds (holding m) = true
callback_holds (selecting m) = true
callback_holds _ = false

abbrev pub is_selecting : Callback → Bool
is_selecting (selecting m) = true
is_selecting _ = false

abbrev pub closer_holds : Closer → Bool
closer_holds locked = true
closer_holds flagged = true
closer_holds closed = true
closer_holds _ = false

-- The goroutine has set the flag.
abbrev pub has_flagged : Closer → Bool
has_flagged flagged = true
has_flagged closed = true
has_flagged gone = true
has_flagged _ = false

-- The channel is closed, by the goroutine or by Watch itself.
abbrev pub has_closed : Closer → Bool
has_closed absent = true
has_closed closed = true
has_closed gone = true
has_closed _ = false

abbrev pub is_absent : Closer → Bool
is_absent absent = true
is_absent _ = false

abbrev pub is_idle : Callback → Bool
is_idle idle = true
is_idle _ = false

-- The mutex has one holder at most, the flag and the channel are as the goroutine left them, nobody
-- is in the select once the flag is set, no callback runs without the goroutine, and the channel is within its capacity.
abbrev pub IsSafe : Watch → Type 0
IsSafe s =
    (s.is_locked ≡ callback_holds s.callback || closer_holds s.closer)
    × (callback_holds s.callback && closer_holds s.closer ≡ false)
    × (s.closed_flag ≡ has_flagged s.closer)
    × (s.is_open ≡ not (has_closed s.closer))
    × (is_selecting s.callback && s.closed_flag ≡ false)
    × (length s.queue ≤ capacity)
    × (is_absent s.closer && (s.is_live || not (is_idle s.callback)) ≡ false)
    × (s.panicked ≡ false)

Step-IsSafe : {s t : Watch} → Step s t → IsSafe s → IsSafe t
Step-IsSafe (arrive s m l e) i = ground (arith)
Step-IsSafe (lock_callback s m e f) i = ground (arith)
Step-IsSafe (skip s m e f) i = ground (arith)
Step-IsSafe (enter s m e f) i = ground (arith)
Step-IsSafe (put s m e f g) i = ground (arith, length-append s.queue (m ∷ []))
Step-IsSafe (put_closed s m e f) i = ground (arith)
Step-IsSafe (give_up s m e f) i = ground (arith)
Step-IsSafe (receive s m rest e) i = ground (arith)
Step-IsSafe (cancel s) i = i
Step-IsSafe (wake s e f) i = ground (arith)
Step-IsSafe (unsubscribe s e) i = ground (arith)
Step-IsSafe (lock_closer s e f) i = ground (arith)
Step-IsSafe (set_flag s e) i = ground (arith)
Step-IsSafe (close_channel s e f) i = ground (arith)
Step-IsSafe (close_again s e f) i = ground (arith)
Step-IsSafe (unlock_closer s e) i = ground (arith)

Reach-IsSafe : {s t : Watch} → Reach s t → IsSafe s → IsSafe t
Reach-IsSafe (here s) i = i
Reach-IsSafe (further s t u r step) i = Step-IsSafe step (Reach-IsSafe r i)

start-IsSafe : (o : Subscription) → o ≢ flush_failed → IsSafe (new_watch o)
unfolding new_watch
start-IsSafe no_subscriber d = (refl, refl, refl, refl, refl, omega arith, refl, refl)
start-IsSafe subscribe_failed d = (refl, refl, refl, refl, refl, omega arith, refl, refl)
start-IsSafe flush_failed d = absurd (d refl)
start-IsSafe subscribed d = (refl, refl, refl, refl, refl, omega arith, refl, refl)

-- Unless the Flush behind the subscription failed, however the callbacks, the goroutine, the consumer
-- and the cancelling of the context interleave, a watch never panics: it neither sends on its closed channel nor closes it twice. Its channel holds
-- at most 16 messages, and it is closed with no callback in the select.
pub watch_safe :
    (o : Subscription) (s : Watch)
    → o ≢ flush_failed
    → Reach (new_watch o) s
    → (s.panicked ≡ false)
      × (length s.queue ≤ capacity)
      × (not s.is_open && is_selecting s.callback ≡ false)
watch_safe o s d r = let i = Reach-IsSafe r (start-IsSafe o d) in (i.7, i.5, open_select s i)
  where
    open_select : (s : Watch) → IsSafe s → not s.is_open && is_selecting s.callback ≡ false
    open_select s i = ground arith

-- The goroutine has ended, or there is none.
abbrev pub is_over : Closer → Bool
is_over gone = true
is_over absent = true
is_over _ = false

-- The state can go on to one in which no goroutine runs and the channel is closed.
abbrev pub Finishes : Watch → Type 0
Finishes s = (t : Watch) × Reach s t × (is_over t.closer ≡ true) × (t.is_open ≡ false)

first_step : {s t u : Watch} → Step s t → Reach t u → Reach s u
first_step step (here t) = further _ _ _ (here _) step
first_step step (further t v u r last) = further _ _ _ (first_step step r) last

in_front : {s t : Watch} → Step s t → Finishes t → Finishes s
in_front step (u, r, e, o) = (u, first_step step r, e, o)

-- From the lock on, the goroutine runs to its end.
from_closed : (s : Watch) → s.closer ≡ closed → s.is_open ≡ false → Finishes s
from_closed s e o = (
  record s { closer = gone; is_locked = false },
  further s s _ (here s) (unlock_closer s e),
  refl,
  o,
)

from_flagged : (s : Watch) → s.closer ≡ flagged → s.is_open ≡ true → Finishes s
from_flagged s e o = in_front (close_channel s e o) (from_closed _ refl refl)

from_locked : (s : Watch) → s.closer ≡ locked → s.is_open ≡ true → Finishes s
from_locked s e o = in_front (set_flag s e) (from_flagged _ refl o)

from_unsubscribed :
    (s : Watch) → s.closer ≡ unsubscribed → s.is_locked ≡ false → s.is_open ≡ true → Finishes s
from_unsubscribed s e l o = in_front (lock_closer s e l) (from_locked _ refl o)

from_cancelled :
    (s : Watch) → s.closer ≡ cancelled → s.is_locked ≡ false → s.is_open ≡ true → Finishes s
from_cancelled s e l o = in_front (unsubscribe s e) (from_unsubscribed _ refl l o)

from_parked :
    (s : Watch)
    → s.closer ≡ parked
    → s.done ≡ true
    → s.is_locked ≡ false
    → s.is_open ≡ true
    → Finishes s
from_parked s e d l o = in_front (wake s e d) (from_cancelled _ refl l o)

-- From a free mutex on.
finish_unlocked :
    (s : Watch) (c : Closer)
    → s.closer ≡ c
    → IsSafe s
    → s.done ≡ true
    → s.is_locked ≡ false
    → Finishes s
finish_unlocked s parked e i d l = from_parked s e d l (ground arith)
finish_unlocked s cancelled e i d l = from_cancelled s e l (ground arith)
finish_unlocked s unsubscribed e i d l = from_unsubscribed s e l (ground arith)
finish_unlocked s locked e i d l = absurd (ground arith)
finish_unlocked s flagged e i d l = absurd (ground arith)
finish_unlocked s closed e i d l = absurd (ground arith)
finish_unlocked s gone e i d l = (s, here s, ground arith, ground arith)
finish_unlocked s absent e i d l = (s, here s, ground arith, ground arith)

-- A callback in the select gives up once the context is cancelled.
from_selecting :
    (s : Watch) (m : Message) → s.callback ≡ selecting m → IsSafe s → s.done ≡ true → Finishes s
from_selecting s m e i d =
    let step = give_up s m e d in
    in_front step (finish_unlocked _ _ refl (Step-IsSafe step i) d refl)

from_holding :
    (s : Watch) (m : Message) → s.callback ≡ holding m → IsSafe s → s.done ≡ true → Finishes s
from_holding s m e i d = elim (Bool-cases s.closed_flag) [
  | inl f ↦
      let step = skip s m e f in
      in_front step (finish_unlocked _ _ refl (Step-IsSafe step i) d refl)
  | inr f ↦
      let step = enter s m e f in in_front step (from_selecting _ m refl (Step-IsSafe step i) d)
]

-- While the goroutine does not hold the mutex, the callback gives it up.
from_callback :
    (s : Watch) (k : Callback)
    → s.callback ≡ k
    → IsSafe s
    → s.done ≡ true
    → closer_holds s.closer ≡ false
    → Finishes s
from_callback s idle e i d n = finish_unlocked s _ refl i d (ground arith)
from_callback s (waiting m) e i d n = finish_unlocked s _ refl i d (ground arith)
from_callback s (holding m) e i d n = from_holding s m e i d
from_callback s (selecting m) e i d n = from_selecting s m e i d

finish : (s : Watch) (c : Closer) → s.closer ≡ c → IsSafe s → s.done ≡ true → Finishes s
finish s locked e i d = from_locked s e (ground arith)
finish s flagged e i d = from_flagged s e (ground arith)
finish s closed e i d = from_closed s e (ground arith)
finish s parked e i d = from_callback s _ refl i d (ground arith)
finish s cancelled e i d = from_callback s _ refl i d (ground arith)
finish s unsubscribed e i d = from_callback s _ refl i d (ground arith)
finish s absent e i d = (s, here s, ground arith, ground arith)
finish s gone e i d = from_callback s _ refl i d (ground arith)

-- Unless the Flush behind the subscription failed, from every state that a watch gets to, once its
-- context is cancelled, it can go on until no goroutine runs and the channel is closed: no state is
-- a deadlock.
pub watch_closes :
    (o : Subscription) (s : Watch)
    → o ≢ flush_failed
    → Reach (new_watch o) s
    → s.done ≡ true
    → Finishes s
watch_closes o s n r d = finish s s.closer refl (Reach-IsSafe r (start-IsSafe o n)) d
