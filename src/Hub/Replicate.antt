-- ===== src/Hub/Replicate.antt =====
-- A new check-in from one hub to the others: the announcements of hub/repo.go, their messages and the
-- pulls of the hubs that receive them, hub/hub.go.
use edge_sync.Base.{
  member, text_eq, ite, Text, Option, ℕ, ◌<◌, ◌≡◌, refl, ◌≢◌, true, false, none, some, List, [],
  ◌∷◌, map, arith, Elem, Elem-All,
}
use edge_sync.Hub.Lifecycle.{Hub}
use edge_sync.Hub.Repo.{Codec, Reply, Repo, publish_new_commits}
use edge_sync.Hub.Repo.Table.{Event}
use edge_sync.Hub.Repo.Announce.{publish_complete}
use edge_sync.Hub.Pull.{
  CommitNotification, Json, new_nats_transport, round_trip, notification, publish, PullCall,
  pull_at, on_commit, Member, IsNetwork,
}
use edge_sync.Hub.Pull.Cluster.{
  IsServing, HasDistinctPeers, AllServing, reply_of, round_trip-reply_of, on_commit-other,
}

-- The messages that the publish hook sends for announcements, in order: subjects and payloads.
unfoldable pub messages : Json → Hub → List (ℕ × Text) → List (Text × Text)
messages json h [] = []
messages json h ((rid, uuid) ∷ sent) =
    let rest = messages json h sent in
    elim (publish json h rid uuid) [ none ↦ rest | some message ↦ message ∷ rest ]

-- The pulls that a hub makes when NATS hands it what was published, in order; its handler is
-- subscribed to its commit subject only.
unfoldable pub pulls : Json → Hub → Text → Text → List (Text × Text) → List PullCall
pulls json h code sync [] = []
pulls json h code sync ((name, payload) ∷ published) =
    let rest = pulls json h code sync published in
    ite (text_eq name h.commit_subject)
      (elim (on_commit json h code sync payload) [ none ↦ rest | some call ↦ call ∷ rest ]) rest

-- Every notification is encoded, and decoded to what it was.
abbrev pub ReadsBack : Json → Type 0
ReadsBack json =
    (n : CommitNotification) → (t : Text) × (json.marshal n ≡ some t) × (json.unmarshal t ≡ some n)

pulls-messages :
    (json : Json) (a h : Hub) (code sync : Text) (sent : List (ℕ × Text))
    → ReadsBack json
    → IsServing sync a
    → h.peer_id ≢ a.peer_id
    → h.commit_subject ≡ a.commit_subject
    → pulls json h code sync (messages json a sent)
      ≡ map (λ p. pull_at code a.peer_sync_subject) sent
unfolding pulls messages publish
pulls-messages json a h code sync [] back s d c = refl
pulls-messages json a h code sync ((rid, uuid) ∷ sent) back s d c =
    let n = notification a rid uuid in
    let (t, encoded, decoded) = back n in
    ground (
      arith,
      on_commit-other json a h code sync t n decoded refl s d,
      pulls-messages json a h code sync sent back s d c,
    )

-- In a cluster of hubs with distinct peer ids and one sync subject, with a faithful encoding, let one
-- hub, whose hook is wired and whose events can be listed, look for new commits. Then every check-in
-- above its watermark whose uuid can be read is announced. A hub with another peer id and the same
-- commit subject, to which NATS hands what was published on that subject, makes exactly one pull for
-- each announcement, each on the subject of the announcing hub. If NATS has a reply to the request of
-- such a pull within 30 seconds, where replies come from subscribers to the subject, its round trip
-- gives the announcing hub's own answer.
pub publish_new_commits-pulls :
    (c : Codec) (reply : Reply) (r : Repo) (json : Json) (sync code : Text) (members : List Member)
    (request : Text → ℕ → Text → Option Text) (a : Member) (h : Hub) (e : Event)
    (uuid xfer answered : Text)
    → r.publish_wired ≡ true
    → reply.query_fails ≡ false
    → Elem e r.events
    → e.is_checkin ≡ true
    → r.published_rid < e.objid
    → reply.uuid_from_rid e.objid ≡ some uuid
    → ReadsBack json
    → IsNetwork members request
    → AllServing sync members
    → HasDistinctPeers members
    → Elem a members
    → h.peer_id ≢ a.hub.peer_id
    → h.commit_subject ≡ a.hub.commit_subject
    → request a.hub.peer_sync_subject 30000000000 xfer ≡ some answered
    → let sent = (publish_new_commits c reply r).sent in
      let call = pull_at code a.hub.peer_sync_subject in
      Elem (e.objid, uuid) sent
      × (pulls json h code sync (messages json a.hub sent) ≡ map (λ p. call) sent)
      × (round_trip request call.left call.transport xfer ≡ reply_of a xfer)
unfolding new_nats_transport
publish_new_commits-pulls c reply r json sync code members request a h e uuid xfer answered wired
      answers listed ci above named back net all d member other one_subject got =
    let serves = Elem-All (λ k. IsServing sync k.hub) a members all member in
    (
      publish_complete c reply r wired answers e uuid listed ci above named,
      pulls-messages json a.hub h code sync (publish_new_commits c reply r).sent back serves other
          one_subject,
      round_trip-reply_of sync a members request _ _ xfer answered net all d member refl got,
    )
