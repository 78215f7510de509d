-- ===== src/Notify/Dedup.antt =====
-- leaf/agent/notify/pubsub.go: the deduplication of message ids by a `Subscriber`, with the
-- eviction of the oldest half. The map `seen` is a list of its keys, and `subs` has the handles of
-- the subscriptions.
pub mod Window
pub mod Recent
use edge_sync.Base.{
  member, delete, ℕ, ◌+◌, ◌/◌, List, [], ◌∷◌, ◌++◌, Bool, true, false, ite, length, take, drop, ltb,
  not, if◌then◌else◌, Text, text_eq,
}

pub record Subscriber : Type 0 where
  pub dedup : Bool
  pub seen : List Text
  pub seen_order : List Text
  pub subs : List ℕ

abbrev pub max_seen_ids : ℕ
max_seen_ids = 10000

unfoldable pub delete_all : List Text → List Text → List Text
delete_all [] seen = seen
delete_all (a ∷ olds) seen = delete_all olds (delete a seen)

unfoldable pub new_subscriber : Subscriber
new_subscriber = record { dedup = false; seen = []; seen_order = []; subs = [] }

unfoldable pub enable_dedup : Subscriber → Subscriber
enable_dedup s = record s { dedup = true; seen = []; seen_order = [] }

-- The part of `isDuplicate` behind the two early returns.
unfoldable pub remember : ℕ → Text → Subscriber → Subscriber
remember cap id s =
    let order = s.seen_order ++ id ∷ [] in
    let half = length order / 2 in
    if ltb cap (length order)
    then record s {
      seen = delete_all (take half order) (id ∷ s.seen);
      seen_order = drop half order;
    }
    else record s { seen = id ∷ s.seen; seen_order = order }

-- `isDuplicate`, over any cap.
unfoldable pub is_duplicate_at : ℕ → Text → Subscriber → Bool × Subscriber
is_duplicate_at cap id s =
    if not s.dedup
    then (false, s)
    else if member id s.seen
    then (true, s)
    else (false, remember cap id s)

pub is_duplicate : Text → Subscriber → Bool × Subscriber
is_duplicate = is_duplicate_at max_seen_ids

-- The state after the ids of a run of messages.
pub run : ℕ → List Text → Subscriber → Subscriber
run cap [] s = s
run cap (id ∷ ids) s = run cap ids (is_duplicate_at cap id s).1
