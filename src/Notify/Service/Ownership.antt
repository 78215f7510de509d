-- ===== src/Notify/Service/Ownership.antt =====
-- NewService, NewServiceFromPath and Close of leaf/agent/notify/notify.go, and InitNotifyRepo of
-- store.go: who closes the notify repository. The calls of libfossil are recorded in order.
use edge_sync.Base.{
  Text, is_empty, ℕ, zero, suc, ◌+◌, ◌≡◌, refl, ◌⊎◌, inl, inr, Bool, true, false, ◌&&◌, Option,
  none, some, List, [], ◌∷◌, ◌++◌, arith, if◌then◌else◌,
}

-- `has_repo`, `has_sub` say that the field is not nil.
pub record Handle : Type 0 where
  pub has_repo : Bool
  pub has_sub : Bool
  pub owns_repo : Bool

pub data Call : Type 0 where
  opened created closed unsubscribed : Call

pub data OwnError : Type 0 where
  repo_nil path_required open_or_create_failed : OwnError

-- On a repository of the caller, with or without a NATS connection.
unfoldable pub new_service : Bool → Bool → OwnError ⊎ Handle
new_service has_repo connected =
    if has_repo
    then inr (record { has_repo = true; has_sub = connected; owns_repo = false })
    else inl repo_nil

-- InitNotifyRepo, with whether Create goes through.
unfoldable pub init_notify_repo : Bool → Option Call
init_notify_repo create_ok = if create_ok then some created else none

-- What follows the repository that was opened or created.
unfoldable pub owned : Call → OwnError ⊎ Handle → (OwnError ⊎ Handle) × List Call
owned c (inl e) = (inl e, c ∷ closed ∷ [])
owned c (inr h) = (inr (record h { owns_repo = true }), c ∷ [])

unfoldable pub new_service_from_path : Text → Bool → Bool → Bool → (OwnError ⊎ Handle) × List Call
unfolding init_notify_repo owned new_service
new_service_from_path path open_ok create_ok connected =
    if is_empty path
    then (inl path_required, [])
    else if open_ok
    then owned opened (new_service true connected)
    else elim (init_notify_repo create_ok) [
      | none ↦ (inl open_or_create_failed, [])
      | some c ↦ owned c (new_service true connected)
    ]

-- The handle behind Close, and the calls; the repository's field is cleared also when its Close fails.
unfoldable pub close : Handle → Handle × List Call
close h =
    let left = if h.has_sub then unsubscribed ∷ [] else [] in
    if h.owns_repo && h.has_repo
    then (record h { has_repo = false }, left ++ closed ∷ [])
    else (h, left)

-- Close, called any number of times.
unfoldable pub close_times : ℕ → Handle → List Call
unfolding close
close_times zero h = []
close_times (suc n) h = let (h', calls) = close h in calls ++ close_times n h'

-- How often the repository was closed.
unfoldable pub count_closed : List Call → ℕ
count_closed [] = 0
count_closed (closed ∷ calls) = suc (count_closed calls)
count_closed (_ ∷ calls) = count_closed calls

count_closed-append :
    (xs ys : List Call) → count_closed (xs ++ ys) ≡ count_closed xs + count_closed ys
unfolding count_closed
count_closed-append [] ys = omega arith
count_closed-append (opened ∷ xs) ys = count_closed-append xs ys
count_closed-append (created ∷ xs) ys = count_closed-append xs ys
count_closed-append (unsubscribed ∷ xs) ys = count_closed-append xs ys
count_closed-append (closed ∷ xs) ys = omega (arith, count_closed-append xs ys)

count_closed-close :
    (h : Handle)
    → (count_closed (close h).1 ≡ (if h.owns_repo && h.has_repo then 1 else 0))
      × ((close h).0.owns_repo && (close h).0.has_repo ≡ false)
unfolding count_closed close
count_closed-close h = ground arith

close_times-done :
    (n : ℕ) (h : Handle) → h.owns_repo && h.has_repo ≡ false → count_closed (close_times n h) ≡ 0
unfolding close_times count_closed
close_times-done zero h e = refl
close_times-done (suc n) h e = ground (
  arith,
  count_closed-append (close h).1 (close_times n (close h).0),
  count_closed-close h,
  close_times-done n (close h).0,
)

close_times-closed :
    (n : ℕ) (h : Handle)
    → count_closed (close_times (suc n) h) ≡ (if h.owns_repo && h.has_repo then 1 else 0)
unfolding close_times
close_times-closed n h = ground (
  arith,
  count_closed-append (close h).1 (close_times n (close h).0),
  count_closed-close h,
  close_times-done n (close h).0,
)

from_path_owns :
    (path : Text) (open_ok create_ok connected : Bool) (h : Handle)
    → (new_service_from_path path open_ok create_ok connected).0 ≡ inr h
    → (count_closed (new_service_from_path path open_ok create_ok connected).1 ≡ 0)
      × (h.owns_repo && h.has_repo ≡ true)
unfolding new_service_from_path init_notify_repo owned new_service count_closed
from_path_owns path open_ok create_ok connected h e = ground arith

-- However often Close is called, and at least once, a service that opened or created its repository
-- closes it exactly once; a service on the caller's repository never does.
pub close_times-owner :
    (path : Text) (open_ok create_ok has_repo connected : Bool) (mine lent : Handle) (n : ℕ)
    → (new_service_from_path path open_ok create_ok connected).0 ≡ inr mine
    → new_service has_repo connected ≡ inr lent
    → (count_closed
          ((new_service_from_path path open_ok create_ok connected).1 ++ close_times (suc n) mine)
        ≡ 1)
      × (count_closed (close_times (suc n) lent) ≡ 0)
unfolding new_service
close_times-owner path open_ok create_ok has_repo connected mine lent n e f =
    let calls = (new_service_from_path path open_ok create_ok connected).1 in
    let (none_yet, owns) = from_path_owns path open_ok create_ok connected mine e in
    (
      ground (
        arith,
        count_closed-append calls (close_times (suc n) mine),
        close_times-closed n mine,
        none_yet,
        owns,
      ),
      ground (arith, close_times-closed n lent),
    )
