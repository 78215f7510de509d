-- ===== src/Hub/Pull/Cluster.antt =====
-- A commit notification leads the others to the hub that published it, and to no other.
use edge_sync.Base.{
  text_eq, Text, codes, is_empty, ℕ, min, ◌≡◌, refl, sym, ap, subst, ◌∙◌, ◌≢◌, inl, inr, ite,
  if_pos, if_neg, true, false, Option, none, some, List, [], ◌∷◌, ◌++◌, arith, if◌then◌else◌,
  length, drop, keep, keep-true, keep-false, length-append, All, drop-length-append, Elem, Elem-All,
}
use edge_sync.Hub.Lifecycle.{Config, Answers, Hub, made}
use edge_sync.Hub.Lifecycle.Start.{subject}
use edge_sync.Hub.Lifecycle.Build.{new_hub}
use edge_sync.Hub.Lifecycle.Guard.{new_hub-subjects}
use edge_sync.Hub.Pull.{
  CommitNotification, Json, NatsTransport, new_nats_transport, round_trip, notification, publish,
  pull_at, on_notification, on_commit, Member, handle, responders, IsNetwork,
}

-- What NewHub gives a hub with the sync over NATS (`new_hub-subjects`).
abbrev pub IsServing : Text → Hub → Type 0
IsServing sync h =
    (h.sync_subject ≡ sync)
    × (h.peer_sync_subject ≡ sync ++ (codes "." ++ h.peer_id))
    × (is_empty h.peer_id ≡ false)

pub new_hub-IsServing :
    (w : Answers) (c : Config) (h : Hub) (code : Text)
    → (new_hub w c).0 ≡ made h
    → c.disable_fossil_sync_over_nats ≡ false
    → w.code_at_sync ≡ some code
    → w.code_at_commit ≡ some code
    → IsServing (subject c code (codes "sync")) h
new_hub-IsServing w c h code e d p q =
    let s = new_hub-subjects w c h code e d p q in (s.0, cc (s.0, s.1, s.3), s.4)

append_cancel : (xs ys zs : Text) → xs ++ ys ≡ xs ++ zs → ys ≡ zs
append_cancel xs ys zs e =
    subst (λ t. t ≡ zs) (drop-length-append xs ys)
      (subst (λ t. drop (length xs) (xs ++ ys) ≡ t) (drop-length-append xs zs)
        (ap (drop (length xs)) e))

-- Two hubs with one sync subject that listen on one peer's subject have one peer id.
same_peer :
    (sync : Text) (h k : Hub)
    → IsServing sync h
    → IsServing sync k
    → k.peer_sync_subject ≡ h.peer_sync_subject
    → k.peer_id ≡ h.peer_id
same_peer sync h k p q e =
    append_cancel (codes ".") _ _
      (append_cancel sync (codes "." ++ k.peer_id) (codes "." ++ h.peer_id) (cc (e, p.1, q.1)))

-- `sync ++ "." ++ id` is not `sync`.
peer_not_broadcast : (sync id : Text) → ¬ (sync ++ (codes "." ++ id) ≡ sync)
peer_not_broadcast sync id e = omega (arith, length-append sync (codes "." ++ id), ap length e)

-- The subject of a peer is the broadcast subject of no member.
not_broadcast :
    (sync : Text) (h k : Hub)
    → IsServing sync h
    → IsServing sync k
    → ¬ (k.sync_subject ≡ h.peer_sync_subject)
not_broadcast sync h k p q e = peer_not_broadcast sync h.peer_id (cc (e, p.1, q.0))

-- No two members have one peer id.
abbrev pub HasDistinctPeers : List Member → Type 0
HasDistinctPeers [] = Unit {0}
HasDistinctPeers (m ∷ ms) = All (λ k. ¬ (k.hub.peer_id ≡ m.hub.peer_id)) ms × HasDistinctPeers ms

abbrev pub AllServing : Text → List Member → Type 0
AllServing sync = All (λ m. IsServing sync m.hub)

responders-same :
    (subject : Text) (m : Member) (ms : List Member)
    → m.hub.peer_sync_subject ≡ subject
    → responders (m ∷ ms) subject ≡ m ∷ responders ms subject
unfolding responders
responders-same subject m ms e =
    keep-true
      (λ k.
        ite (text_eq k.hub.sync_subject subject) true
          (ite (text_eq k.hub.peer_sync_subject subject) true false))
      m ms (ground (arith, if_pos (text_eq _ subject) e true false))

responders-other :
    (subject : Text) (m : Member) (ms : List Member)
    → ¬ (m.hub.sync_subject ≡ subject)
    → ¬ (m.hub.peer_sync_subject ≡ subject)
    → responders (m ∷ ms) subject ≡ responders ms subject
unfolding responders
responders-other subject m ms d e =
    keep-false
      (λ k.
        ite (text_eq k.hub.sync_subject subject) true
          (ite (text_eq k.hub.peer_sync_subject subject) true false))
      m ms
      (if_neg (text_eq m.hub.sync_subject subject) d true _
        ∙ if_neg (text_eq _ subject) e true false)

-- Members with other peer ids do not listen on the subject of a peer.
responders-none :
    (sync : Text) (h : Hub) (ms : List Member)
    → IsServing sync h
    → AllServing sync ms
    → All (λ k. ¬ (k.hub.peer_id ≡ h.peer_id)) ms
    → responders ms h.peer_sync_subject ≡ []
unfolding responders keep
responders-none sync h [] s all other = refl
responders-none sync h (m ∷ ms) s all other =
    responders-other h.peer_sync_subject m ms (not_broadcast sync h m.hub s all.0)
      (λ e. other.0 (same_peer sync h m.hub s all.0 e))
    ∙ responders-none sync h ms s all.1 other.1

-- A member that stands elsewhere has another peer id than the first.
differs_from_first :
    (m a : Member) (ms : List Member)
    → All (λ k. ¬ (k.hub.peer_id ≡ m.hub.peer_id)) ms
    → Elem a ms
    → ¬ (a.hub.peer_id ≡ m.hub.peer_id)
differs_from_first m a ms d e = Elem-All (λ k. ¬ (k.hub.peer_id ≡ m.hub.peer_id)) a ms d e

pub only_responder :
    (sync : Text) (a : Member) (ms : List Member)
    → AllServing sync ms
    → HasDistinctPeers ms
    → Elem a ms
    → responders ms a.hub.peer_sync_subject ≡ a ∷ []
only_responder sync a [] all d e = absurd e
only_responder sync a (m ∷ ms) all d (inl e) =
    subst (λ k. responders (m ∷ ms) k.hub.peer_sync_subject ≡ k ∷ []) e
      (responders-same m.hub.peer_sync_subject m ms refl
        ∙ ap (◌∷◌ m) (responders-none sync m.hub ms all.0 all.1 d.0))
only_responder sync a (m ∷ ms) all d (inr e) =
    let serves = Elem-All (λ k. IsServing sync k.hub) a ms all.1 e in
    responders-other a.hub.peer_sync_subject m ms (not_broadcast sync a.hub m.hub serves all.0)
      (λ p. differs_from_first m a ms d.0 e (sym (same_peer sync a.hub m.hub serves all.0 p)))
    ∙ only_responder sync a ms all.1 d.1 e

-- What a pull from a member gets: nothing for an error of its HandleSync or an empty answer of it.
abbrev pub reply_of : Member → Text → Option Text
reply_of a payload = elim (a.handle_sync payload) [
  | none ↦ none
  | some resp ↦ if is_empty resp then none else some resp
]

-- A reply on the subject of a member comes from its handler.
request-handle :
    (sync : Text) (a : Member) (ms : List Member) (request : Text → ℕ → Text → Option Text)
    (time : ℕ) (xfer reply : Text)
    → IsNetwork ms request
    → AllServing sync ms
    → HasDistinctPeers ms
    → Elem a ms
    → request a.hub.peer_sync_subject time xfer ≡ some reply
    → reply ≡ handle a xfer
unfolding IsNetwork
request-handle sync a ms request time xfer reply net all d e r =
    let (m, listens, same) = net a.hub.peer_sync_subject time xfer reply r in
    let alone = subst (λ rs. Elem m rs) (only_responder sync a ms all d e) listens in
    elim alone [ inl p ↦ rw p same | inr p ↦ absurd p ]

pub round_trip-reply_of :
    (sync : Text) (a : Member) (ms : List Member) (request : Text → ℕ → Text → Option Text)
    (left : ℕ) (t : NatsTransport) (xfer reply : Text)
    → IsNetwork ms request
    → AllServing sync ms
    → HasDistinctPeers ms
    → Elem a ms
    → t.subject ≡ a.hub.peer_sync_subject
    → request a.hub.peer_sync_subject (min left t.timeout) xfer ≡ some reply
    → round_trip request left t xfer ≡ reply_of a xfer
unfolding round_trip handle
round_trip-reply_of sync a ms request left t xfer reply net all d e p r =
    let own = request-handle sync a ms request (min left t.timeout) xfer reply net all d e r in
    let asked : request t.subject (min left t.timeout) xfer ≡ some reply =
      subst (λ u. request u (min left t.timeout) xfer ≡ some reply) (sym p) r in
    ground (arith, own, asked)

pub on_commit-other :
    (json : Json) (a h : Hub) (code sync payload : Text) (n : CommitNotification)
    → json.unmarshal payload ≡ some n
    → n.peer_id ≡ a.peer_id
    → IsServing sync a
    → h.peer_id ≢ a.peer_id
    → on_commit json h code sync payload ≡ some (pull_at code a.peer_sync_subject)
unfolding on_commit on_notification
on_commit-other json a h code sync payload n u p s d = ground arith

on_commit-own :
    (json : Json) (a : Hub) (code sync payload : Text) (n : CommitNotification)
    → json.unmarshal payload ≡ some n
    → n.peer_id ≡ a.peer_id
    → on_commit json a code sync payload ≡ none
unfolding on_commit on_notification
on_commit-own json a code sync payload n u p = ground arith

-- In a cluster whose hubs have distinct peer ids and serve one sync subject, take a member and a
-- notification that it publishes and that is decoded to what was encoded. The handler of the commit
-- subject makes, in every hub with another peer id, a pull with its project code, on the subject of
-- the publisher, which is not the broadcast one. If NATS has a reply to the request of that pull
-- within 30 seconds, where replies come from subscribers to the subject, the round trip gives the
-- publisher's own answer, and an error where that is empty. The publisher drops the notification.
pub publish-pull :
    (json : Json) (sync code : Text) (members : List Member)
    (request : Text → ℕ → Text → Option Text) (a : Member) (h : Hub) (rid : ℕ)
    (uuid payload xfer reply : Text)
    → IsNetwork members request
    → AllServing sync members
    → HasDistinctPeers members
    → Elem a members
    → publish json a.hub rid uuid ≡ some (a.hub.commit_subject, payload)
    → ((n : CommitNotification) → json.marshal n ≡ some payload → json.unmarshal payload ≡ some n)
    → h.peer_id ≢ a.hub.peer_id
    → request a.hub.peer_sync_subject 30000000000 xfer ≡ some reply
    → let call = pull_at code a.hub.peer_sync_subject in
      (on_commit json h code sync payload ≡ some call)
      × (call.transport.subject ≢ sync)
      × (round_trip request call.left call.transport xfer ≡ reply_of a xfer)
      × (on_commit json a.hub code sync payload ≡ none)
unfolding publish new_nats_transport
publish-pull json sync code members request a h rid uuid payload xfer reply net all d e p j other
      answered =
    let n = notification a.hub rid uuid in
    let decoded = j n (ground arith) in
    let serves = Elem-All (λ k. IsServing sync k.hub) a members all e in
    (
      on_commit-other json a.hub h code sync payload n decoded refl serves other,
      λ q. peer_not_broadcast sync a.hub.peer_id (cc (q, serves.1)),
      round_trip-reply_of sync a members request _ _ xfer reply net all d e refl answered,
      on_commit-own json a.hub code sync payload n decoded refl,
    )
