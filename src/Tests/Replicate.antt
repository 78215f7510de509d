-- ===== src/Tests/Replicate.antt =====
-- A new check-in in a cluster of two hubs.
use edge_sync.Base.{codes, ◌≡◌, refl, inl, inr, [], ◌∷◌, map, arith, Elem}
use edge_sync.Hub.Repo.{publish_new_commits}
use edge_sync.Hub.Pull.{round_trip, pull_at}
use edge_sync.Hub.Pull.Cluster.{reply_of}
use edge_sync.Hub.Replicate.{messages, pulls, publish_new_commits-pulls}
use edge_sync.Tests.Hub.{unary, calm, behind, event}
use edge_sync.Tests.Lifecycle.{
  json, decoded, sync_name, cluster, cluster_request, cluster-IsNetwork, cluster_request_new,
  one_commit_subject, cluster_serves, cluster_distinct, member_a, hub_named, name_b, differ,
}

publish_new_commits-pulls_example :
    let sent = (publish_new_commits unary calm behind).sent in
    let call = pull_at (codes "c1") member_a.hub.peer_sync_subject in
    Elem (7, 7 ∷ []) sent
    × (pulls json (hub_named name_b) (codes "c1") sync_name (messages json member_a.hub sent)
        ≡ map (λ p. call) sent)
    × (round_trip cluster_request call.left call.transport (codes "pull")
        ≡ reply_of member_a (codes "pull"))
publish_new_commits-pulls_example =
    publish_new_commits-pulls unary calm behind json sync_name (codes "c1") cluster cluster_request
      member_a (hub_named name_b) (event 7) (7 ∷ []) (codes "pull") (codes "new") refl refl
      (inl refl) refl (omega arith) refl (λ n. (_, refl, decoded n)) cluster-IsNetwork
      cluster_serves cluster_distinct (inr (inl refl)) differ one_commit_subject cluster_request_new
