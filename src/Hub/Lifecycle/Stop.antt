-- ===== src/Hub/Lifecycle/Stop.antt =====
-- ServeHTTP and Stop of hub/hub.go. The fields that their assertions test are set in every hub that
-- NewHub gives.
use edge_sync.Base.{Bool, true, false, Option, none, some, List, [], ◌∷◌, if◌then◌else◌}
use edge_sync.Hub.Lifecycle.{
  Resource, repo, listener, server, client, sync_sub, peer_sub, commit_sub, catchup, checkpoint,
  Action, released, shut_http, Hub,
}

-- The answers of the Shutdown of the HTTP server, of its Serve, and of Close of the repository.
pub data HttpEnd : Type 0 where
  clean server_closed broken : HttpEnd

pub data ServeOutcome : Type 0 where
  returned serve_failed panicked : ServeOutcome

pub data StopError : Type 0 where
  shutdown_failed close_failed : StopError

pub serve_result : HttpEnd → ServeOutcome
serve_result broken = serve_failed
serve_result _ = returned

-- Closing the channel `ready` a second time panics.
unfoldable pub serve_http : HttpEnd → Hub → Hub × ServeOutcome
unfolding serve_result
serve_http served h =
    if h.ready_closed
    then (h, panicked)
    else (record h { ready_closed = true }, serve_result served)

unfoldable pub first_error : HttpEnd → Bool → Option StopError
first_error broken _ = some shutdown_failed
first_error _ true = none
first_error _ false = some close_failed

unfoldable pub release_if : Bool → Resource → List Action → List Action
release_if b r calls = if b then released r ∷ calls else calls

-- What stopOnce runs, in order.
unfoldable pub stop_calls : Hub → List Action
unfolding release_if
stop_calls h =
    shut_http
    ∷ released listener
    ∷ release_if h.has_commit_sub commit_sub (
        release_if h.has_sync_sub sync_sub (
          release_if h.has_peer_sub peer_sub (
            release_if h.has_client client (
              released server
              ∷ release_if h.has_catchup catchup (released checkpoint ∷ released repo ∷ [])))))

unfoldable pub stop : HttpEnd → Bool → Hub → Hub × Option StopError × List Action
unfolding stop_calls first_error
stop shutdown close_ok h =
    if h.stopped
    then (h, none, [])
    else (record h { stopped = true }, first_error shutdown close_ok, stop_calls h)
