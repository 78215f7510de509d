-- ===== src/Bridge/Trip.antt =====
-- An agent's request through NATS and the bridge to the Fossil server and back.
use edge_sync.Base.{
  ℕ, ◌≡◌, sym, ap, ◌∙◌, inl, inr, [], Bool, false, ◌&&◌, not, is_empty, Option, none, some,
  Option-cases, if◌then◌else◌, default_to, Text, codes, arith,
}
use mathlib.Core.Option.{some-injective}
use edge_sync.Bridge.{
  Config, apply_defaults, validate, sync_subject, Upstream, given, http, Bridge, connect,
  new_bridge, handle_message, new_nats_transport, round_trip,
}

-- A request on the bridge's subject is answered by the bridge.
abbrev pub Routes : (Text → ℕ → Text → Option Text) → Bridge → (Text → Text) → Type 0
Routes request b handle =
    (n : ℕ) (payload : Text) → request b.subject n payload ≡ some (handle payload)

new_bridge_config :
    (cfg : Config) (b : Bridge)
    → new_bridge cfg ≡ some b
    → (validate (apply_defaults cfg) ≡ none)
      × (b.config ≡ apply_defaults cfg)
      × (b.upstream ≡ (if cfg.has_upstream then given else http cfg.fossil_url))
      × (b.subject ≡ sync_subject (default_to (codes "fossil") cfg.subject_prefix) cfg.project_code)
unfolding new_bridge connect apply_defaults
new_bridge_config cfg b h = elim (Option-cases (validate (apply_defaults cfg))) [
  | inr (e, q) ↦
      let refused : new_bridge cfg ≡ none = ap (connect (apply_defaults cfg)) q in
      absurd (ground arith)
  | inl q ↦
      let started : Bridge = record {
        config = apply_defaults cfg;
        upstream = if cfg.has_upstream then given else http cfg.fossil_url;
        subject = sync_subject (default_to (codes "fossil") cfg.subject_prefix) cfg.project_code;
      } in
      let made : new_bridge cfg ≡ some started = ap (connect (apply_defaults cfg)) q in
      let same : started ≡ b = some-injective _ _ (sym made ∙ h) in
      (
        q,
        ap (λ x. x.config) (sym same),
        ap (λ x. x.upstream) (sym same),
        ap (λ x. x.subject) (sym same),
      )
]

validate_sound :
    (c : Config)
    → validate c ≡ none
    → (is_empty c.project_code ≡ false) × (is_empty c.fossil_url && not c.has_upstream ≡ false)
unfolding validate
validate_sound c h = ground arith

handle_message_reply :
    (fires : Bool) (trip : Upstream → Text → Option Text) (b : Bridge) (payload : Text)
    → b.config.has_buggify && fires ≡ false
    → handle_message fires trip b payload
      ≡ (elim (trip b.upstream payload) [ none ↦ [] | some resp ↦ resp ])
unfolding handle_message
handle_message_reply fires trip b payload quiet = ground arith

-- A bridge that starts has a project code and a server to ask. An agent with the bridge's project
-- code and prefix (unset in both counts as one) gets, when NATS routes the request and no fault is
-- injected, the server's reply, or an empty reply for the server's error.
pub bridge_round_trip :
    (cfg : Config) (b : Bridge) (request : Text → ℕ → Text → Option Text) (fires : Bool)
    (trip : Upstream → Text → Option Text) (timeout : ℕ) (payload : Text)
    → new_bridge cfg ≡ some b
    → Routes request b (handle_message fires trip b)
    → cfg.has_buggify && fires ≡ false
    → (is_empty cfg.project_code ≡ false)
      × (is_empty cfg.fossil_url && not cfg.has_upstream ≡ false)
      × (round_trip request (new_nats_transport cfg.project_code timeout cfg.subject_prefix) payload
          ≡ some (elim (trip (if cfg.has_upstream then given else http cfg.fossil_url) payload) [
            | none ↦ []
            | some resp ↦ resp
          ]))
unfolding round_trip new_nats_transport apply_defaults
bridge_round_trip cfg b request fires trip timeout payload made routes quiet =
    let (accepted, config, upstream, subject) = new_bridge_config cfg b made in
    let (coded, served) = validate_sound (apply_defaults cfg) accepted in
    let calm : b.config.has_buggify && fires ≡ false =
      ap (λ c. c.has_buggify && fires) config ∙ quiet in
    let t = new_nats_transport cfg.project_code timeout cfg.subject_prefix in
    (
      coded,
      served,
      ap (λ s. request s t.timeout payload) (sym subject)
          ∙ routes t.timeout payload
          ∙ ap some (handle_message_reply fires trip b payload calm)
          ∙ ap (λ u. some (elim (trip u payload) [ none ↦ [] | some resp ↦ resp ])) upstream,
    )
