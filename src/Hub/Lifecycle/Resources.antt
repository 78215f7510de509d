-- ===== src/Hub/Lifecycle/Resources.antt =====
-- What the calls of NewHub and Stop leave held. The rules say when a resource may be taken and given
-- back; they do not look at the code.
use edge_sync.Base.{Bool, true, false, not, ◌&&◌, ◌||◌, Option, none, some, if◌then◌else◌}
use edge_sync.Hub.Lifecycle.{
  Resource, repo, listener, server, client, sync_sub, peer_sub, commit_sub, catchup, checkpoint,
  Action, acquired, released,
}

pub record Held : Type 0 where
  pub has_repo : Bool
  pub has_listener : Bool
  pub has_server : Bool
  pub has_client : Bool
  pub has_sync_sub : Bool
  pub has_peer_sub : Bool
  pub has_commit_sub : Bool
  pub has_catchup : Bool
  pub has_checkpoint : Bool

unfoldable pub has : Resource → Held → Bool
has repo s = s.has_repo
has listener s = s.has_listener
has server s = s.has_server
has client s = s.has_client
has sync_sub s = s.has_sync_sub
has peer_sub s = s.has_peer_sub
has commit_sub s = s.has_commit_sub
has catchup s = s.has_catchup
has checkpoint s = s.has_checkpoint

unfoldable pub put : Bool → Resource → Held → Held
put b repo s = record s { has_repo = b }
put b listener s = record s { has_listener = b }
put b server s = record s { has_server = b }
put b client s = record s { has_client = b }
put b sync_sub s = record s { has_sync_sub = b }
put b peer_sub s = record s { has_peer_sub = b }
put b commit_sub s = record s { has_commit_sub = b }
put b catchup s = record s { has_catchup = b }
put b checkpoint s = record s { has_checkpoint = b }

-- What must be held already: the listener serves the repository, the client stands on the server, a subscription on the client, and all
-- that serves or reads commits on the repository.
unfoldable pub is_ready : Resource → Held → Bool
is_ready repo s = true
is_ready listener s = s.has_repo
is_ready server s = true
is_ready client s = s.has_server
is_ready sync_sub s = s.has_client && s.has_repo
is_ready peer_sub s = s.has_client && s.has_repo
is_ready commit_sub s = s.has_client && s.has_repo
is_ready catchup s = s.has_client && s.has_repo
is_ready checkpoint s = s.has_repo

-- What still stands on a resource.
unfoldable pub is_used : Resource → Held → Bool
is_used repo s =
    s.has_listener || s.has_sync_sub || s.has_peer_sub || s.has_commit_sub || s.has_catchup
    || s.has_checkpoint
is_used server s = s.has_client
is_used client s = s.has_sync_sub || s.has_peer_sub || s.has_commit_sub || s.has_catchup
is_used _ s = false

-- `none` for a call that the rules forbid.
unfoldable pub step : Action → Held → Option Held
unfolding has put is_ready is_used
step (acquired r) s = if is_ready r s && not (has r s) then some (put true r s) else none
step (released r) s = if has r s && not (is_used r s) then some (put false r s) else none
step _ s = some s

-- The same but for one rule: the client may be closed while the late publishing runs.
unfoldable pub lenient_step : Action → Held → Option Held
unfolding put
lenient_step (released client) s =
    if s.has_client && not (s.has_sync_sub || s.has_peer_sub || s.has_commit_sub)
    then some (put false client s)
    else none
lenient_step a s = step a s

abbrev pub nothing_held : Held
nothing_held = record {
  has_repo = false;
  has_listener = false;
  has_server = false;
  has_client = false;
  has_sync_sub = false;
  has_peer_sub = false;
  has_commit_sub = false;
  has_catchup = false;
  has_checkpoint = false;
}

-- All that a hub holds: subscriptions, client and catchup only with the sync over NATS.
abbrev pub all_held : Bool → Held
all_held over_nats = record {
  has_repo = true;
  has_listener = true;
  has_server = true;
  has_client = over_nats;
  has_sync_sub = over_nats;
  has_peer_sub = over_nats;
  has_commit_sub = over_nats;
  has_catchup = over_nats;
  has_checkpoint = true;
}
