-- ===== src/Agent/Mesh.antt =====
-- leaf/agent/nats_mesh.go: which side of a pair of agents solicits, the tunnels to the iroh peers,
-- and the ports of the embedded NATS server. Endpoint ids compare byte by byte, as Go strings do.
pub mod Solicit
pub mod Ports
pub mod Establish
pub mod Server
use edge_sync.Base.{
  ℕ, List, [], ◌∷◌, ◌++◌, ite, text_eq, Bool, true, false, ◌||◌, ltb, ◌==◌, is_empty, Option, none,
  some, if◌then◌else◌, Text,
}

-- Any other string is `other`.
pub data Role : Type 0 where
  peer hub leaf other : Role

-- `a < b` on strings.
unfoldable pub text_lt : Text → Text → Bool
text_lt [] [] = false
text_lt [] (c ∷ b) = true
text_lt (x ∷ a) [] = false
text_lt (x ∷ a) (y ∷ b) =
    let rest = text_lt a b in if ltb x y then true else if x == y then rest else false

unfoldable pub should_solicit : Role → Text → Text → Bool
should_solicit leaf my_id peer_id = true
should_solicit hub my_id peer_id = false
should_solicit peer my_id peer_id = text_lt my_id peer_id
should_solicit other my_id peer_id = false

-- What the sidecar answers to the request for a tunnel.
pub data Answer : Type 0 where
  unreachable : Answer
  status : ℕ → Answer
  undecodable : Answer
  port : ℕ → Answer

pub data TunnelError : Type 0 where
  request_failed : Text → TunnelError
  http_status : Text → ℕ → TunnelError
  bad_response : Text → TunnelError
  port_zero : Text → TunnelError

-- The map from a peer to its local port, and the errors in order.
pub record Tunnels : Type 0 where
  pub ports : List (Text × ℕ)
  pub errors : List TunnelError

-- The map without a key.
pub without : Text → List (Text × ℕ) → List (Text × ℕ)
without id [] = []
without id ((x, p) ∷ ports) = let rest = without id ports in ite (text_eq x id) rest ((x, p) ∷ rest)

pub add_answer : Text → Answer → Tunnels → Tunnels
add_answer id unreachable t = record t { errors = t.errors ++ request_failed id ∷ [] }
add_answer id (status code) t = record t { errors = t.errors ++ http_status id code ∷ [] }
add_answer id undecodable t = record t { errors = t.errors ++ bad_response id ∷ [] }
add_answer id (port p) t =
    if p == 0
    then record t { errors = t.errors ++ port_zero id ∷ [] }
    else record t { ports = (id, p) ∷ without id t.ports }

-- The loop of `establishTunnels`; a 200 with a decoded body is `port`.
pub establish_each : (Text → Answer) → Role → Text → List Text → Tunnels → Tunnels
establish_each ask role my_id [] t = t
establish_each ask role my_id (id ∷ ids) t =
    establish_each ask role my_id ids
      (if should_solicit role my_id id then add_answer id (ask id) t else t)

pub record SidecarInfo : Type 0 where
  pub endpoint_id : Text
  pub socket_path : Text

pub establish_tunnels : (Text → Answer) → Role → SidecarInfo → List Text → Tunnels
establish_tunnels ask role sc peers =
    if is_empty sc.socket_path || is_empty sc.endpoint_id
    then record { ports = []; errors = [] }
    else establish_each ask role sc.endpoint_id peers (record { ports = []; errors = [] })

-- A port of the server's options: unset, picked at random (-1), or fixed.
pub data Port : Type 0 where
  unset random : Port
  fixed : ℕ → Port

-- A leaf remote: the parsed upstream URL or a tunnel's local port.
pub data Remote : Type 0 where
  upstream : Text → Remote
  tunnel : ℕ → Remote

pub record ServerOpts : Type 0 where
  pub client_port : Port
  pub leaf_port : Port
  pub remotes : List Remote

pub accepts : Role → Bool
accepts peer = true
accepts hub = true
accepts leaf = false
accepts other = false

pub tunnel_remotes : List (Text × ℕ) → List Remote
tunnel_remotes [] = []
tunnel_remotes ((id, p) ∷ ports) = tunnel p ∷ tunnel_remotes ports

-- `url_ok` says that the upstream URL parses; the loopback URLs of tunnels do.
pub upstream_remotes : (Text → Bool) → Text → List Remote
upstream_remotes url_ok [] = []
upstream_remotes url_ok (c ∷ u) = if url_ok (c ∷ u) then upstream (c ∷ u) ∷ [] else []

pub build_server_opts : (Text → Bool) → Role → ℕ → ℕ → Text → List (Text × ℕ) → ServerOpts
unfolding accepts tunnel_remotes upstream_remotes
build_server_opts url_ok role client_port reserved_leaf_port up ports = record {
  client_port = if ltb 0 client_port then fixed client_port else random;
  leaf_port =
      if accepts role
      then if ltb 0 reserved_leaf_port then fixed reserved_leaf_port else random
      else unset;
  remotes = upstream_remotes url_ok up ++ tunnel_remotes ports;
}
