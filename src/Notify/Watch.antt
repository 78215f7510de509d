-- ===== src/Notify/Watch.antt =====
-- Service.Watch of leaf/agent/notify/notify.go: the callback of the subscription, the goroutine that
-- tears down, the consumer and the context as interleaved steps. NATS runs the callbacks of a
-- subscription one after the other, and may run one that is late after Unsubscribe.
pub mod Closes
use edge_sync.Base.{
  Text, codes, non_empty, ℕ, ◌<◌, ◌≡◌, Bool, true, false, List, [], ◌∷◌, ◌++◌, if◌then◌else◌,
  length,
}
use edge_sync.Notify.Message.{
  Action, priority_info, priority_action_required, priority_urgent, Message, MessageOpts, ReplyOpts,
  id_prefix, thread_prefix, new_message, new_reply, short_id, thread_short, nats_subject,
  thread_dir, extension, file_path, has_suffix, matching, priority_rank, highest_from,
  highest_priority,
}

-- The subject that is watched: one thread, or all of a project.
pub watch_subject : Text → Text → Text
watch_subject project short =
    codes "notify." ++ (project ++ (if non_empty short then codes "." ++ short else codes ".*"))

-- A line of output for a message; `date` is time.Format with RFC3339.
pub format_watch_line : (ℕ → Text) → Message → Text
format_watch_line date m =
    codes "["
    ++ (date m.timestamp
        ++ (codes "] thread:"
            ++ (thread_short m
                ++ (codes " from:"
                    ++ (m.from_name
                        ++ ((if m.action_response then codes " action:" else codes " text:")
                            ++ m.body))))))

-- Where the callback stands: outside, in front of the mutex, behind it, in the select.
pub data Callback : Type 0 where
  idle : Callback
  waiting holding selecting : Message → Callback

-- What Watch finds: no subscriber, an error of Subscribe, an error of the Flush behind it, in which
-- case the subscription is live all the same, or no error.
pub data Subscription : Type 0 where
  no_subscriber subscribe_failed flush_failed subscribed : Subscription

-- Where the goroutine stands: never started, in front of ctx.Done, behind it, behind Unsubscribe, behind the lock,
-- behind `closed = true`, behind `close(ch)`, behind the unlock.
pub data Closer : Type 0 where
  absent parked cancelled unsubscribed locked flagged closed gone : Closer

-- The mutex is held by the callback behind it and by the goroutine from the lock to the unlock.
-- `is_live` says that NATS runs the callback. `taken` are the messages that the consumer has received, `closes` counts the calls of close.
pub record Watch : Type 0 where
  pub callback : Callback
  pub closer : Closer
  pub is_live : Bool
  pub is_locked : Bool
  pub closed_flag : Bool
  pub is_open : Bool
  pub done : Bool
  pub queue : List Message
  pub taken : List Message
  pub panicked : Bool

abbrev pub is_subscribed : Subscription → Bool
is_subscribed subscribed = true
is_subscribed _ = false

abbrev pub delivers : Subscription → Bool
delivers subscribed = true
delivers flush_failed = true
delivers _ = false

abbrev pub capacity : ℕ
capacity = 16

-- The state that Watch returns in; it closes the channel itself on an error.
unfoldable pub new_watch : Subscription → Watch
new_watch o = record {
  callback = idle;
  closer = if is_subscribed o then parked else absent;
  is_live = delivers o;
  is_locked = false;
  closed_flag = false;
  is_open = is_subscribed o;
  done = false;
  queue = [];
  taken = [];
  panicked = false;
}

-- `ch <- m` in the select: it waits on a full channel and panics on a closed one.
pub data Step : Watch → Watch → Type 0 where
  arrive :
      (s : Watch) (m : Message)
      → s.is_live ≡ true
      → s.callback ≡ idle
      → Step s (record s { callback = waiting m })
  lock_callback :
      (s : Watch) (m : Message)
      → s.callback ≡ waiting m
      → s.is_locked ≡ false
      → Step s (record s { callback = holding m; is_locked = true })
  skip :
      (s : Watch) (m : Message)
      → s.callback ≡ holding m
      → s.closed_flag ≡ true
      → Step s (record s { callback = idle; is_locked = false })
  enter :
      (s : Watch) (m : Message)
      → s.callback ≡ holding m
      → s.closed_flag ≡ false
      → Step s (record s { callback = selecting m })
  put :
      (s : Watch) (m : Message)
      → s.callback ≡ selecting m
      → s.is_open ≡ true
      → length s.queue < capacity
      → Step s (record s { callback = idle; is_locked = false; queue = s.queue ++ m ∷ [] })
  put_closed :
      (s : Watch) (m : Message)
      → s.callback ≡ selecting m
      → s.is_open ≡ false
      → Step s (record s { panicked = true })
  give_up :
      (s : Watch) (m : Message)
      → s.callback ≡ selecting m
      → s.done ≡ true
      → Step s (record s { callback = idle; is_locked = false })
  receive :
      (s : Watch) (m : Message) (rest : List Message)
      → s.queue ≡ m ∷ rest
      → Step s (record s { queue = rest; taken = s.taken ++ m ∷ [] })
  cancel : (s : Watch) → Step s (record s { done = true })
  wake : (s : Watch) → s.closer ≡ parked → s.done ≡ true → Step s (record s { closer = cancelled })
  unsubscribe : (s : Watch) → s.closer ≡ cancelled → Step s (record s { closer = unsubscribed })
  lock_closer :
      (s : Watch)
      → s.closer ≡ unsubscribed
      → s.is_locked ≡ false
      → Step s (record s { closer = locked; is_locked = true })
  set_flag :
      (s : Watch) → s.closer ≡ locked → Step s (record s { closer = flagged; closed_flag = true })
  close_channel :
      (s : Watch)
      → s.closer ≡ flagged
      → s.is_open ≡ true
      → Step s (record s { closer = closed; is_open = false })
  close_again :
      (s : Watch) → s.closer ≡ flagged → s.is_open ≡ false → Step s (record s { panicked = true })
  unlock_closer :
      (s : Watch) → s.closer ≡ closed → Step s (record s { closer = gone; is_locked = false })

-- The states that a watch gets to.
pub data Reach : Watch → Watch → Type 0 where
  here : (s : Watch) → Reach s s
  further : (s t u : Watch) → Reach s t → Step t u → Reach s u
