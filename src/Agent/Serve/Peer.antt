-- ===== src/Agent/Serve/Peer.antt =====
-- A sync between two agents over NATS.
use edge_sync.Base.{
  Text, codes, default_to, ℕ, ◌≡◌, refl, ap, ◌∙◌, Option, some, [], ◌∷◌, ◌++◌, ◌==◌, if◌then◌else◌,
}
use edge_sync.Agent.Config.{Config, apply_defaults}
use edge_sync.Agent.Serve.{serve_subject, serve_nats}
use edge_sync.Bridge.{new_nats_transport, round_trip, sync_subject}

-- NATS has the handler of a subscription answer the requests on its subject.
abbrev pub Routes : (Text → ℕ → Text → Option Text) → Text → (Text → Text) → Type 0
Routes request subject handler =
    (timeout : ℕ) (payload : Text) → request subject timeout payload ≡ some (handler payload)

pub default_to-twice : (d t : Text) → default_to d (default_to d t) ≡ default_to d t
default_to-twice [] [] = refl
default_to-twice (c ∷ d) [] = refl
default_to-twice d (c ∷ t) = refl

-- An agent that serves over NATS gets the requests of an agent with its project code and prefix
-- (unset in both counts as one), and answers with the reply of its repository, or empty for an
-- error, where NATS routes them to it.
pub round_trip-serve_nats :
    (client server : Config) (host₁ host₂ : Option Text) (path₁ path₂ : Text → Text)
    (request : Text → ℕ → Text → Option Text) (handle_sync : Text → Option Text)
    (project_code : Text) (timeout : ℕ) (payload : Text)
    → client.subject_prefix ≡ server.subject_prefix
    → Routes request
        (serve_subject (apply_defaults host₂ path₂ server) project_code)
        (serve_nats handle_sync)
    → round_trip request
        (new_nats_transport project_code timeout (apply_defaults host₁ path₁ client).subject_prefix)
        payload
      ≡ some (serve_nats handle_sync payload)
unfolding round_trip new_nats_transport sync_subject serve_subject apply_defaults
round_trip-serve_nats client server host₁ host₂ path₁ path₂ request handle_sync project_code timeout
      payload e routes =
    let fossil = codes "fossil" in
    let t = if timeout == 0 then 30000000000 else timeout in
    let same : default_to fossil (default_to fossil client.subject_prefix)
        ≡ default_to fossil server.subject_prefix =
      default_to-twice fossil client.subject_prefix ∙ ap (default_to fossil) e in
    ap (λ p. request (p ++ (codes "." ++ (project_code ++ codes ".sync"))) t payload) same
    ∙ routes t payload
