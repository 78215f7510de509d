-- ===== src/Agent/Mesh/Server.antt =====
-- NATSMesh.Start and Stop of leaf/agent/nats_mesh.go behind the tunnels, and the store directory. The
-- server, the port that Varz gives and the working directory are parameters.
use edge_sync.Base.{
  Text, codes, is_empty, non_empty, ℕ, ◌<◌, ◌≡◌, Bool, true, false, not, ◌&&◌, Option, none, some,
  [], ◌++◌, arith, ltb, if◌then◌else◌,
}
use edge_sync.Agent.Mesh.{Role, leaf, peer, hub, other}

pub record Mesh : Type 0 where
  pub role : Role
  pub has_server : Bool
  pub client_url : Text
  pub leaf_addr : Text

-- A server that is ready has a URL, and a port for leaf nodes if Varz gives one.
pub data ServerStart : Type 0 where
  create_failed not_ready : ServerStart
  ready : Text → Option ℕ → ServerStart

pub data MeshError : Type 0 where
  server_not_created server_not_ready : MeshError

unfoldable pub is_leaf : Role → Bool
is_leaf leaf = true
is_leaf peer = false
is_leaf hub = false
is_leaf other = false

-- `print` is `%d`.
module _ (print : ℕ → Text) where
  abbrev pub loopback : ℕ → Text
  loopback port = codes "127.0.0.1:" ++ print port

  abbrev pub leaf_addr_of : Option ℕ → Text → Text
  leaf_addr_of none addr = addr
  leaf_addr_of (some port) addr = if ltb 0 port then loopback port else addr

  unfoldable pub start_server : ServerStart → Mesh → Option MeshError × Mesh
  start_server create_failed m = (some server_not_created, record m { has_server = false })
  start_server not_ready m = (some server_not_ready, record m { has_server = true })
  start_server (ready url port) m = (
    none,
    record m {
      has_server = true;
      client_url = url;
      leaf_addr =
          if not (is_leaf m.role) && is_empty m.leaf_addr
          then leaf_addr_of port m.leaf_addr
          else m.leaf_addr;
    },
  )

unfoldable pub stop_server : Mesh → Mesh
stop_server m = record m { has_server = false }

-- `cwd` is the answer of os.Getwd, `join` filepath.Join.
unfoldable pub jet_stream_store_dir : Option Text → (Text → Text → Text) → Text → Text
jet_stream_store_dir cwd join configured =
    if non_empty configured
    then configured
    else join (elim cwd [ none ↦ codes "." | some dir ↦ dir ]) (codes ".nats-store")

-- A leaf address that was reserved is kept over Start and Stop; without one, a peer or a hub gets the
-- loopback address of the port that the server reports, and a leaf gets none.
pub start_server-leaf_addr :
    (print : ℕ → Text) (url : Text) (port : ℕ) (m : Mesh)
    → 0 < port
    → (stop_server (start_server print (ready url (some port)) m).1).leaf_addr ≡ (
        if is_empty m.leaf_addr
        then if is_leaf m.role then [] else loopback print port
        else m.leaf_addr)
unfolding start_server stop_server
start_server-leaf_addr print url port m positive = ground arith
