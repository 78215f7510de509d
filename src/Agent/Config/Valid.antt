-- ===== src/Agent/Config/Valid.antt =====
-- The settings that an agent accepts, and that the defaults settle them.
use edge_sync.Base.{
  ℤ, pos, negsuc, ℕ, ◌≤◌, ◌≡◌, refl, inl, inr, ◌⊎◌, [], ◌∷◌, ◌++◌, Bool, true, false, ◌&&◌, ◌||◌,
  not, is_empty, if◌then◌else◌, Option, none, some, default_to, Text, text_eq, codes, arith,
}
use edge_sync.Agent.Config.{
  Config, role_peer, role_hub, role_leaf, default_number, default_peer_id, apply_defaults, is_role,
  port_in_range, validate,
}

default_to_twice : (d t : Text) → default_to d (default_to d t) ≡ default_to d t
default_to_twice [] [] = refl
default_to_twice (c ∷ d) [] = refl
default_to_twice d (c ∷ t) = refl

default_number_twice : (d : ℕ) (n : ℤ) → default_number d (default_number d n) ≡ default_number d n
unfolding default_number
default_number_twice d (pos n) = ground arith
default_number_twice d (negsuc n) = refl

default_peer_id_twice :
    (h : Option Text) (t : Text) → default_peer_id h (default_peer_id h t) ≡ default_peer_id h t
unfolding default_peer_id
default_peer_id_twice none t = default_to_twice (codes "unknown") t
default_peer_id_twice (some h) t = default_to_twice h t

-- What stays open in the fields that depend on a flag.
push_twice :
    (a b : Bool)
    → (let p = if not a && not b then true else a in
        let q = if not a && not b then true else b in (if not p && not q then true else p))
      ≡ (if not a && not b then true else a)
push_twice a b = ground arith

pull_twice :
    (a b : Bool)
    → (let p = if not a && not b then true else a in
        let q = if not a && not b then true else b in (if not p && not q then true else q))
      ≡ (if not a && not b then true else b)
pull_twice a b = ground arith

path_twice :
    (on : Bool) (d t : Text)
    → (let u = if on && is_empty t then d else t in if on && is_empty u then d else u)
      ≡ (if on && is_empty t then d else t)
path_twice on d t = ground arith

-- Applying the defaults again changes nothing.
pub apply_defaults_twice :
    (hostname : Option Text) (notify_path : Text → Text) (c : Config)
    → apply_defaults hostname notify_path (apply_defaults hostname notify_path c)
      ≡ apply_defaults hostname notify_path c
unfolding apply_defaults
apply_defaults_twice hostname notify_path c = λ i. record c {
  nats_role = default_to_twice role_peer c.nats_role i;
  poll_interval = default_number_twice 5000000000 c.poll_interval i;
  push = push_twice c.push c.pull i;
  pull = pull_twice c.push c.pull i;
  peer_id = default_peer_id_twice hostname c.peer_id i;
  subject_prefix = default_to_twice (codes "fossil") c.subject_prefix i;
  has_clock = true;
  iroh_key_path = path_twice c.iroh_enabled (c.repo_path ++ codes ".iroh-key") c.iroh_key_path i;
  content_cache_size = default_number_twice 33554432 c.content_cache_size i;
  notify_repo_path = path_twice c.notify_enabled (notify_path c.repo_path) c.notify_repo_path i;
}

-- The role is one of the three.
abbrev pub IsRole : Text → Type 0
IsRole r = (r ≡ role_peer) ⊎ ((r ≡ role_hub) ⊎ (r ≡ role_leaf))

is_role_sound : (r : Text) → is_role r ≡ true → IsRole r
unfolding is_role
is_role_sound r h = elim (text_eq r role_peer) [
  | yes e ↦ inl e
  | no p ↦ elim (text_eq r role_hub) [
    | yes e ↦ inr (inl e)
    | no q ↦ elim (text_eq r role_leaf) [ yes e ↦ inr (inr e) | no n ↦ absurd (ground arith) ]
  ]
]

port_sound : (n : ℤ) → port_in_range n ≡ true → (p : ℕ) × (n ≡ pos p) × (p ≤ 65535)
unfolding port_in_range
port_sound (pos n) h = (n, refl, ground arith)
port_sound (negsuc n) h = cc

validate_parts :
    (c : Config)
    → validate c ≡ none
    → (is_empty c.repo_path ≡ false)
      × (is_role c.nats_role ≡ true)
      × (port_in_range c.nats_client_port ≡ true)
unfolding validate
validate_parts c h = ground arith

pushes_or_pulls :
    (hostname : Option Text) (notify_path : Text → Text) (c : Config)
    → (apply_defaults hostname notify_path c).push || (apply_defaults hostname notify_path c).pull
      ≡ true
unfolding apply_defaults
pushes_or_pulls hostname notify_path c = ground arith

-- Settings that are accepted after the defaults name a repository and one of the three roles, have
-- a client port from 0 to 65535, and push or pull.
pub validate-apply_defaults :
    (hostname : Option Text) (notify_path : Text → Text) (c : Config)
    → validate (apply_defaults hostname notify_path c) ≡ none
    → (is_empty c.repo_path ≡ false)
      × IsRole (apply_defaults hostname notify_path c).nats_role
      × ((p : ℕ) × (c.nats_client_port ≡ pos p) × (p ≤ 65535))
      × ((apply_defaults hostname notify_path c).push
            || (apply_defaults hostname notify_path c).pull
          ≡ true)
unfolding apply_defaults
validate-apply_defaults hostname notify_path c h =
    let (path, role, port) = validate_parts (apply_defaults hostname notify_path c) h in
    (
      path,
      is_role_sound (apply_defaults hostname notify_path c).nats_role role,
      port_sound c.nats_client_port port,
      pushes_or_pulls hostname notify_path c,
    )

IsRole-is_role : (r : Text) → IsRole r → is_role r ≡ true
unfolding is_role
IsRole-is_role r h = ground arith

default_role : (r : Text) → (r ≡ []) ⊎ IsRole r → is_role (default_to role_peer r) ≡ true
default_role [] h = IsRole-is_role role_peer (inl refl)
default_role (x ∷ r) (inl e) = cc
default_role (x ∷ r) (inr h) = IsRole-is_role (x ∷ r) h

-- Settings with a repository, an unset role or one of the three, and a client port from 0 to 65535
-- are accepted after the defaults.
pub apply_defaults_accepted :
    (hostname : Option Text) (notify_path : Text → Text) (c : Config) (p : ℕ)
    → is_empty c.repo_path ≡ false
    → (c.nats_role ≡ []) ⊎ IsRole c.nats_role
    → c.nats_client_port ≡ pos p
    → p ≤ 65535
    → validate (apply_defaults hostname notify_path c) ≡ none
unfolding validate apply_defaults port_in_range
apply_defaults_accepted hostname notify_path c p path role port le =
    let in_range : port_in_range c.nats_client_port ≡ true = rw port (ground arith) in
    ground (arith, default_role c.nats_role role)
