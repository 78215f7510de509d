-- ===== src/Agent/Peers.antt =====
-- leaf/agent/peer_registry.go and its calls in leaf/agent/agent.go: the table of peers that an agent
-- keeps its own row in. `INSERT OR REPLACE` on the primary key is written out; a call that fails
-- leaves the table as it is.
pub mod OwnRow
use edge_sync.Base.{
  text_eq, Text, codes, non_empty, join_with, ℕ, ite, Bool, true, false, not, Option, none, some,
  List, [], ◌∷◌, ◌++◌, if◌then◌else◌, keep,
}
use edge_sync.Agent.Config.{Config}

pub record PeerRow : Type 0 where
  pub peer_id : Text
  pub last_sync : ℕ
  pub repo_hash : Text
  pub version : Text
  pub platform : Text
  pub capabilities : Text
  pub nats_subject : Text
  pub addr : Text
  pub mtime : ℕ

-- `none` as long as there is no table.
abbrev pub Table : Type 0
Table = Option (List PeerRow)

abbrev pub when : Bool → Text → List Text → List Text
when b cap caps = if b then cap ∷ caps else caps

unfoldable pub capabilities : Config → List Text
capabilities c = when (non_empty c.serve_http_addr) (codes "serve-http") (
    when c.serve_nats_enabled (codes "serve-nats")
      (when c.iroh_enabled (codes "serve-iroh") (codes "push" ∷ codes "pull" ∷ [])))

-- `CREATE TABLE IF NOT EXISTS`.
unfoldable pub ensure_peer_registry : Bool → Table → Table
ensure_peer_registry fails none = if fails then none else some []
ensure_peer_registry fails (some rows) = some rows

unfoldable pub is_row_of : Text → PeerRow → Bool
is_row_of id row = ite (text_eq row.peer_id id) true false

-- A row takes the place of the one with its key.
unfoldable pub replace_row : PeerRow → List PeerRow → List PeerRow
replace_row row rows = keep (λ r. not (is_row_of row.peer_id r)) rows ++ row ∷ []

-- `version` and `platform` are those of the build.
module _ (c : Config) (version platform : Text) where
  unfoldable pub own_row : ℕ → PeerRow
  own_row now = record {
    peer_id = c.peer_id;
    last_sync = now;
    repo_hash = [];
    version = version;
    platform = platform;
    capabilities = join_with (codes ",") (capabilities c);
    nats_subject = c.subject_prefix;
    addr = c.serve_http_addr;
    mtime = now;
  }

  -- The statement fails without a table too.
  unfoldable pub upsert_peer_row : ℕ → Bool → Table → Table
  upsert_peer_row now fails none = none
  upsert_peer_row now fails (some rows) =
      if fails then some rows else some (replace_row (own_row now) rows)

  -- The poll cycles of an agent: when each ends, and whether its update fails.
  unfoldable pub run_cycles : List (ℕ × Bool) → Table → Table
  run_cycles [] t = t
  run_cycles ((now, fails) ∷ cycles) t = run_cycles cycles (upsert_peer_row now fails t)

  -- New, then the cycles; the warnings of New go on.
  unfoldable pub run_registry : Bool → ℕ → Bool → List (ℕ × Bool) → Table → Table
  run_registry ensure_fails now seed_fails cycles t =
      run_cycles cycles (upsert_peer_row now seed_fails (ensure_peer_registry ensure_fails t))
