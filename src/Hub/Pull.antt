-- ===== src/Hub/Pull.antt =====
-- The commit notifications of hub/hub.go (the publish hook, the handler of startCommitSubscriber and
-- the handler of the sync subjects) and hub/nats_transport.go. encoding/json, libfossil's HandleSync
-- and NATS are parameters. Times are in nanoseconds.
pub mod Cluster
use edge_sync.Base.{
  text_eq, Text, codes, is_empty, ℕ, min, ite, true, false, Option, none, some, List, [], ◌∷◌, ◌++◌,
  ◌==◌, if◌then◌else◌, keep, Elem, ◌≡◌,
}
use edge_sync.Hub.Lifecycle.{Hub}

pub record CommitNotification : Type 0 where
  pub rid : ℕ
  pub uuid : Text
  pub peer_id : Text

-- encoding/json on notifications.
pub record Json : Type 0 where
  pub marshal : CommitNotification → Option Text
  pub unmarshal : Text → Option CommitNotification

pub record NatsTransport : Type 0 where
  pub subject : Text
  pub timeout : ℕ

abbrev pub default_nats_round_trip_timeout : ℕ
default_nats_round_trip_timeout = 30000000000

unfoldable pub new_nats_transport : Text → ℕ → NatsTransport
new_nats_transport subject timeout = record {
  subject = subject;
  timeout = if timeout == 0 then default_nats_round_trip_timeout else timeout;
}

-- `request` is RequestWithContext on a subject, within a time, `none` for an error; `left` is the time that the
-- caller's context leaves.
unfoldable pub round_trip : (Text → ℕ → Text → Option Text) → ℕ → NatsTransport → Text → Option Text
round_trip request left t payload = elim (request t.subject (min left t.timeout) payload) [
  | none ↦ none
  | some reply ↦ if is_empty reply then none else some reply
]

abbrev pub notification : Hub → ℕ → Text → CommitNotification
notification h rid uuid = record { rid = rid; uuid = uuid; peer_id = h.peer_id }

-- The message that the publish hook sends for a commit: its subject and its payload.
unfoldable pub publish : Json → Hub → ℕ → Text → Option (Text × Text)
publish json h rid uuid = elim (json.marshal (notification h rid uuid)) [
  | none ↦ none
  | some payload ↦ some (h.commit_subject, payload)
]

-- A pull, as Sync is called: its transport, the time of its context and the project code.
pub record PullCall : Type 0 where
  pub transport : NatsTransport
  pub left : ℕ
  pub project_code : Text

abbrev pub pull_at : Text → Text → PullCall
pull_at code subject = record {
  transport = new_nats_transport subject 0;
  left = 60000000000;
  project_code = code;
}

-- What the handler of the commit subject does with a decoded notification; `sync` is the sync
-- subject that it holds.
unfoldable pub on_notification : Hub → Text → Text → CommitNotification → Option PullCall
on_notification h code sync n =
    if is_empty n.peer_id
    then none
    else ite (text_eq n.peer_id h.peer_id) none
        (some (pull_at code (sync ++ (codes "." ++ n.peer_id))))

-- The handler of the commit subject: `none` for a message that it drops.
unfoldable pub on_commit : Json → Hub → Text → Text → Text → Option PullCall
on_commit json h code sync payload = elim (json.unmarshal payload) [
  | none ↦ none
  | some n ↦ on_notification h code sync n
]

-- A hub of a cluster, with HandleSync of its repository.
pub record Member : Type 0 where
  pub hub : Hub
  pub handle_sync : Text → Option Text

-- The handler of both sync subjects: an empty reply for an error.
unfoldable pub handle : Member → Text → Text
handle m payload = elim (m.handle_sync payload) [ none ↦ [] | some resp ↦ resp ]

-- The members that have subscribed to a subject, the broadcast one or that of a peer.
unfoldable pub responders : List Member → Text → List Member
responders members subject =
    keep
      (λ m.
        ite (text_eq m.hub.sync_subject subject) true
          (ite (text_eq m.hub.peer_sync_subject subject) true false))
      members

-- NATS' request and reply in a cluster: on a subject, within a time, with a payload. A reply is what
-- the handler of a subscriber to that subject gives for the payload; there need not be one.
unfoldable pub IsNetwork : List Member → (Text → ℕ → Text → Option Text) → Type 0
IsNetwork members request =
    (subject : Text) (time : ℕ) (payload reply : Text)
    → request subject time payload ≡ some reply
    → (m : Member) × Elem m (responders members subject) × (reply ≡ handle m payload)
