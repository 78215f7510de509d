-- ===== src/Agent/Mesh/Establish.antt =====
-- What the tunnels of an agent come to: those it wants, and all of them.
use edge_sync.Base.{
  ℕ, ◌≡◌, ◌<◌, refl, sym, ap, ◌∙◌, inl, inr, is_empty, subst, List, [], ◌∷◌, true, false, ◌||◌,
  ◌==◌, Bool-cases, All, Elem, Text, text_eq, arith, if◌then◌else◌,
}
use edge_sync.Agent.Mesh.{
  Role, should_solicit, Answer, unreachable, status, undecodable, port, Tunnels, add_answer,
  establish_each, SidecarInfo, establish_tunnels,
}
use edge_sync.Agent.Mesh.Ports.{All-without, Elem-without}

-- The tunnel is to a listed peer that this side solicits, at the non-zero port that the sidecar gave.
abbrev pub IsWanted : (Text → Answer) → Role → Text → List Text → Text × ℕ → Type 0
IsWanted ask role my_id peers t =
    Elem t.0 peers × (should_solicit role my_id t.0 ≡ true) × (ask t.0 ≡ port t.1) × (0 < t.1)

pair_path : (a b : Text) (m n : ℕ) → a ≡ b → m ≡ n → ◌≡◌ {A = Text × ℕ} (a, m) (b, n)
pair_path a b m n e h = cc

port_injective : (m n : ℕ) → port m ≡ port n → m ≡ n
port_injective m n e = cc

module _ (ask : Text → Answer) (role : Role) (my_id : Text) (peers : List Text) where
  one-IsWanted :
      (id : Text) (t : Tunnels)
      → Elem id peers
      → should_solicit role my_id id ≡ true
      → (answer : Answer) → ask id ≡ answer
      → All (IsWanted ask role my_id peers) t.ports
      → All (IsWanted ask role my_id peers) (add_answer id answer t).ports
  unfolding add_answer
  one-IsWanted id t m s unreachable e h = h
  one-IsWanted id t m s (status code) e h = h
  one-IsWanted id t m s undecodable e h = h
  one-IsWanted id t m s (port p) e h = elim (Bool-cases (p == 0)) [
    | inl zero ↦ rw zero h
    | inr positive ↦
        rw positive
          ((m, s, e, ground arith), All-without (IsWanted ask role my_id peers) id t.ports h)
  ]

  abbrev each : List Text → Tunnels → Tunnels
  each = establish_each ask role my_id

  each_wanted :
      (id : Text) (ids : List Text) (t : Tunnels)
      → should_solicit role my_id id ≡ true
      → each (id ∷ ids) t ≡ each ids (add_answer id (ask id) t)
  unfolding establish_each
  each_wanted id ids t s = ap (λ b. each ids (if b then add_answer id (ask id) t else t)) s

  each_unwanted :
      (id : Text) (ids : List Text) (t : Tunnels)
      → should_solicit role my_id id ≡ false
      → each (id ∷ ids) t ≡ each ids t
  unfolding establish_each
  each_unwanted id ids t s = ap (λ b. each ids (if b then add_answer id (ask id) t else t)) s

  establish_each-IsWanted :
      (ids : List Text) (t : Tunnels)
      → All (λ id. Elem id peers) ids
      → All (IsWanted ask role my_id peers) t.ports
      → All (IsWanted ask role my_id peers) (establish_each ask role my_id ids t).ports
  unfolding establish_each
  establish_each-IsWanted [] t sub h = h
  establish_each-IsWanted (id ∷ ids) t sub h = elim (Bool-cases (should_solicit role my_id id)) [
    | inl s ↦
        subst (λ r. All (IsWanted ask role my_id peers) r.ports) (sym (each_wanted id ids t s))
          (establish_each-IsWanted ids (add_answer id (ask id) t) sub.1
            (one-IsWanted id t sub.0 s (ask id) refl h))
    | inr s ↦
        subst (λ r. All (IsWanted ask role my_id peers) r.ports) (sym (each_unwanted id ids t s))
          (establish_each-IsWanted ids t sub.1 h)
  ]

  add_answer-keeps :
      (p : Text × ℕ) (id : Text) (answer : Answer) (t : Tunnels)
      → ask p.0 ≡ port p.1
      → ask id ≡ answer
      → Elem p t.ports
      → Elem p (add_answer id answer t).ports
  unfolding add_answer
  add_answer-keeps p id unreachable t k e m = m
  add_answer-keeps p id (status code) t k e m = m
  add_answer-keeps p id undecodable t k e m = m
  add_answer-keeps p id (port n) t k e m = elim (Bool-cases (n == 0)) [
    | inl zero ↦ rw zero m
    | inr positive ↦ rw positive (elim (text_eq p.0 id) [
      | yes same ↦
          let again : port p.1 ≡ port n = sym k ∙ (ap ask same ∙ e) in
          inl (sym (pair_path p.0 id p.1 n same (port_injective p.1 n again)))
      | no apart ↦ inr (Elem-without p id t.ports apart m)
    ])
  ]

  establish_each-keeps :
      (p : Text × ℕ) (ids : List Text) (t : Tunnels)
      → ask p.0 ≡ port p.1
      → Elem p t.ports
      → Elem p (establish_each ask role my_id ids t).ports
  unfolding establish_each
  establish_each-keeps p [] t k m = m
  establish_each-keeps p (id ∷ ids) t k m = elim (Bool-cases (should_solicit role my_id id)) [
    | inl s ↦
        subst (λ r. Elem p r.ports) (sym (each_wanted id ids t s))
          (establish_each-keeps p ids (add_answer id (ask id) t) k
            (add_answer-keeps p id (ask id) t k refl m))
    | inr s ↦
        subst (λ r. Elem p r.ports) (sym (each_unwanted id ids t s))
          (establish_each-keeps p ids t k m)
  ]

  add_answer_port :
      (id : Text) (n : ℕ) (t : Tunnels)
      → ask id ≡ port n
      → 0 < n
      → Elem (id, n) (add_answer id (ask id) t).ports
  unfolding add_answer
  add_answer_port id n t e lt = rw (e, add_answer) (rw (nonzero n lt) (inl refl))
    where
      nonzero : (m : ℕ) → 0 < m → (m == 0) ≡ false
      nonzero m h = ground arith

  establish_each_complete :
      (id : Text) (n : ℕ) (ids : List Text) (t : Tunnels)
      → Elem id ids
      → should_solicit role my_id id ≡ true
      → ask id ≡ port n
      → 0 < n
      → Elem (id, n) (establish_each ask role my_id ids t).ports
  unfolding establish_each
  establish_each_complete id n [] t m s e lt = absurd m
  establish_each_complete id n (x ∷ ids) t (inl q) s e lt =
      subst
        (λ y.
          Elem (id, n)
            (establish_each ask role my_id ids
              (if should_solicit role my_id y then add_answer y (ask y) t else t)).ports)
        (sym q)
        (rw s (
          establish_each-keeps (id, n) ids (add_answer id (ask id) t) e
            (add_answer_port id n t e lt)))
  establish_each_complete id n (x ∷ ids) t (inr m) s e lt =
      establish_each_complete id n ids
        (if should_solicit role my_id x then add_answer x (ask x) t else t) m s e lt

self_All : (xs ys : List Text) → ((x : Text) → Elem x xs → Elem x ys) → All (λ x. Elem x ys) xs
self_All [] ys f = tt
self_All (x ∷ xs) ys f = (f x (inl refl), self_All xs ys (λ y m. f y (inr m)))

-- Every tunnel of `establishTunnels` is to a listed peer that this side solicits, at the non-zero
-- port that the sidecar gave for it.
pub establish_tunnels-IsWanted :
    (ask : Text → Answer) (role : Role) (sc : SidecarInfo) (peers : List Text)
    → All (IsWanted ask role sc.endpoint_id peers) (establish_tunnels ask role sc peers).ports
unfolding establish_tunnels
establish_tunnels-IsWanted ask role sc peers =
    elim (Bool-cases (is_empty sc.socket_path || is_empty sc.endpoint_id)) [
      | inl e ↦ rw e tt
      | inr e ↦ rw e (
          establish_each-IsWanted ask role sc.endpoint_id peers peers _
            (self_All peers peers (λ x m. m)) tt)
    ]

-- No failure of another peer loses a tunnel: each listed peer that this side solicits and for which
-- the sidecar gives a non-zero port is in the map with it, when the sidecar's id and socket are
-- known and it gives one answer for a peer.
pub establish_tunnels_complete :
    (ask : Text → Answer) (role : Role) (sc : SidecarInfo) (peers : List Text) (id : Text) (n : ℕ)
    → is_empty sc.socket_path ≡ false
    → is_empty sc.endpoint_id ≡ false
    → Elem id peers
    → should_solicit role sc.endpoint_id id ≡ true
    → ask id ≡ port n
    → 0 < n
    → Elem (id, n) (establish_tunnels ask role sc peers).ports
unfolding establish_tunnels
establish_tunnels_complete ask role sc peers id n socket mine m s e lt =
    let known : (is_empty sc.socket_path || is_empty sc.endpoint_id) ≡ false = ground arith in
    rw known (
      establish_each_complete ask role sc.endpoint_id peers id n peers
        (record { ports = []; errors = [] }) m s e lt)
