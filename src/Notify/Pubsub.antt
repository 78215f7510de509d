-- ===== src/Notify/Pubsub.antt =====
-- leaf/agent/notify/pubsub.go: publishing a message, and the subscriptions of a `Subscriber`, which
-- share its memory of ids. encoding/json and the NATS connection are parameters.
pub mod Delivery
use edge_sync.Base.{
  Text, codes, ℕ, Bool, false, not, Option, none, some, List, [], ◌∷◌, ◌++◌, if◌then◌else◌,
}
use edge_sync.Notify.Message.{
  Action, priority_info, priority_action_required, priority_urgent, Message, MessageOpts, ReplyOpts,
  id_prefix, thread_prefix, new_message, new_reply, short_id, thread_short, nats_subject,
  thread_dir, extension, file_path, has_suffix, matching, priority_rank, highest_from,
  highest_priority,
}
use edge_sync.Notify.Dedup.{
  Subscriber, max_seen_ids, delete_all, new_subscriber, enable_dedup, remember, is_duplicate_at,
  is_duplicate, run,
}

-- What PublishCtx did with the connection.
pub data Call : Type 0 where
  published : Text → Text → Call
  flushed : Call

pub data PublishError : Type 0 where
  marshal_failed publish_failed flush_failed : PublishError

-- `accepts` is the answer of PublishMsg to a subject and its data, `flushes` that of Flush. The
-- header with the trace context is left out.
module _ (marshal : Message → Option Text) (accepts : Text → Text → Bool) (flushes : Bool) where
  unfoldable pub publish_ctx : Message → Option PublishError × List Call
  publish_ctx m = elim (marshal m) [
    | none ↦ (some marshal_failed, [])
    | some text ↦
        let subject = nats_subject m in
        if not (accepts subject text)
        then (some publish_failed, published subject text ∷ [])
        else (if flushes then none else some flush_failed, published subject text ∷ flushed ∷ [])
  ]

-- The subjects of Subscribe and SubscribeThread.
pub project_subject : Text → Text
project_subject project = codes "notify." ++ (project ++ codes ".*")

pub thread_subject : Text → Text → Text
thread_subject project short = codes "notify." ++ (project ++ (codes "." ++ short))

-- Subscribe answers with a handle; a flush that fails leaves the subscription listed.
unfoldable pub subscribe_return :
    (Text → Option ℕ) → Bool → Text → Subscriber → (Option ℕ × Bool) × Subscriber
subscribe_return answer flushes subject s = elim (answer subject) [
  | none ↦ ((none, false), s)
  | some sub ↦ ((some sub, flushes), record s { subs = s.subs ++ sub ∷ [] })
]

-- The subscriber and the handles that are unsubscribed, in order.
unfoldable pub unsubscribe : Subscriber → Subscriber × List ℕ
unsubscribe s = (record s { subs = [] }, s.subs)

module _ (cap : ℕ) (unmarshal : Text → Option Message) where
  -- The message that the callback of the subscription is called with, if any.
  unfoldable pub on_nats_msg : Text → Subscriber → Option Message × Subscriber
  on_nats_msg data_ s = elim (unmarshal data_) [
    | none ↦ (none, s)
    | some m ↦ let (dup, s') = is_duplicate_at cap m.id s in (if dup then none else some m, s')
  ]

  abbrev in_front : Option Message → List Message → List Message
  in_front none ms = ms
  in_front (some m) ms = m ∷ ms

  -- The messages that go to the callbacks over a run of NATS messages, and the state after it.
  unfoldable pub deliver : List Text → Subscriber → List Message × Subscriber
  deliver [] s = ([], s)
  deliver (data_ ∷ datas) s =
      let (called, s') = on_nats_msg data_ s in
      let (rest, last) = deliver datas s' in (in_front called rest, last)
