-- ===== src/Hub/Lifecycle/Guard.antt =====
-- What a hub that NewHub gives stands for: the project code asked for, and the subjects.
use edge_sync.Base.{
  Text, codes, is_empty, default_to, ◌≡◌, refl, ◌⊎◌, Bool, true, false, Option, none, some, List,
  ◌++◌, arith, if◌then◌else◌,
}
use edge_sync.Hub.Lifecycle.{Config, Action, Error, Answers, Hub, Outcome, made, failed}
use edge_sync.Hub.Lifecycle.Start.{
  with_defaults, clone_step, seed_from_upstream, seed_step, create_opts, open_or_create_repo,
  start_nats, subject, connect_step, with_sync, sync_connected, start_fossil_sync_subscriber,
  start_commit_subscriber,
}
use edge_sync.Hub.Lifecycle.Build.{
  start_checkpoint_loop, commit_started, sync_started, fresh_hub, start_loops, nats_started,
  listened, listen_step, caps_step, repo_opened, seeded, new_hub,
}

-- The repository was there and has the project code, or it was created with that code.
abbrev pub IsPinned : Answers → Text → Text → Type 0
IsPinned w user code =
    ((w.open_ok ≡ true) × (w.code_at_open ≡ some code))
    ⊎ ((w.open_ok ≡ false) × (w.create_ok (record { user = user; project_code = code }) ≡ true))

-- A conditional that gives a hub where its first branch fails.
if_made :
    (b : Bool) (h : Hub) (x : Error) (calls : List Action) (y : Outcome × List Action)
    → (if b then (failed x, calls) else y).0 ≡ made h
    → y.0 ≡ made h
if_made true h x calls y e = cc
if_made false h x calls y e = e

module _ (w : Answers) (h : Hub) where
  -- The last steps of NewHub gave the hub.
  abbrev pub IsStarted : Config → Type 0
  IsStarted c = (addr : Text) × ((start_loops w c (fresh_hub w c addr)).0 ≡ made h)

  nats_started-IsStarted :
      (c : Config) (addr : Text) (r : Option Error × List Action)
      → (nats_started w c addr r).0 ≡ made h
      → IsStarted c
  unfolding nats_started
  nats_started-IsStarted c addr (some x, calls) e = cc
  nats_started-IsStarted c addr (none, calls) e = (addr, e)

  listened-IsStarted :
      (c : Config) (bound : Option Text) → (listened w c bound).0 ≡ made h → IsStarted c
  unfolding listened
  listened-IsStarted c none e = cc
  listened-IsStarted c (some addr) e = nats_started-IsStarted c addr (start_nats w c) e

  caps_step-IsStarted : (c : Config) → (caps_step w c).0 ≡ made h → IsStarted c
  unfolding caps_step listen_step
  caps_step-IsStarted c e = listened-IsStarted c _ (if_made _ h _ _ _ e)

  repo_opened-IsStarted :
      (c : Config) (r : Option Error × List Action)
      → (repo_opened w c r).0 ≡ made h
      → (r.0 ≡ none) × IsStarted c
  unfolding repo_opened
  repo_opened-IsStarted c (some x, calls) e = cc
  repo_opened-IsStarted c (none, calls) e = (refl, caps_step-IsStarted c e)

  seeded-IsStarted :
      (c : Config) (r : Option Error × List Action)
      → (seeded w c r).0 ≡ made h
      → (r.0 ≡ none) × ((open_or_create_repo w c).0 ≡ none) × IsStarted c
  unfolding seeded
  seeded-IsStarted c (some x, calls) e = cc
  seeded-IsStarted c (none, calls) e =
      let opened = repo_opened-IsStarted c (open_or_create_repo w c) e in (refl, opened.0, opened.1)

  -- Every step of a NewHub that gives a hub went through.
  new_hub-IsStarted :
      (c : Config)
      → (new_hub w c).0 ≡ made h
      → ((seed_step w (with_defaults w c)).0 ≡ none)
        × ((open_or_create_repo w (with_defaults w c)).0 ≡ none)
        × IsStarted (with_defaults w c)
  unfolding new_hub
  new_hub-IsStarted c e = seeded-IsStarted (with_defaults w c) _ (if_made _ h _ _ _ e)

  seed_code :
      (c : Config)
      → (seed_step w c).0 ≡ none
      → is_empty c.project_code ≡ false
      → (is_empty c.seed_from_upstream ≡ true)
        ⊎ (w.path_missing ≡ false)
        ⊎ (w.clone ≡ some c.project_code)
  unfolding seed_step seed_from_upstream clone_step
  seed_code c e p = ground arith

  open_code :
      (c : Config)
      → (open_or_create_repo w c).0 ≡ none
      → is_empty c.project_code ≡ false
      → IsPinned w c.bootstrap_user c.project_code
  unfolding open_or_create_repo create_opts
  open_code c e p = ground arith

  start_loops-subjects :
      (c : Config) (start : Hub) (code : Text)
      → (start_loops w c start).0 ≡ made h
      → c.disable_fossil_sync_over_nats ≡ false
      → w.code_at_sync ≡ some code
      → w.code_at_commit ≡ some code
      → (h.sync_subject ≡ subject c code (codes "sync"))
        × (h.peer_sync_subject ≡ h.sync_subject ++ (codes "." ++ w.peer_name))
        × (h.commit_subject ≡ subject c code (codes "commit"))
        × (h.peer_id ≡ w.peer_name)
        × (is_empty h.peer_id ≡ false)
  unfolding start_loops start_checkpoint_loop sync_started commit_started
      start_fossil_sync_subscriber start_commit_subscriber sync_connected connect_step with_sync
  start_loops-subjects c start code e d p q = ground arith

-- A hub with a pinned project code stands on a repository that was there and holds that code, or on one
-- that libfossil created with that code and the bootstrap user; a clone that seeded it holds the code.
pub new_hub-project_code :
    (w : Answers) (c : Config) (h : Hub)
    → (new_hub w c).0 ≡ made h
    → is_empty c.project_code ≡ false
    → IsPinned w (default_to (codes "hub") c.bootstrap_user) c.project_code
      × ((is_empty c.seed_from_upstream ≡ true)
          ⊎ (w.path_missing ≡ false)
          ⊎ (w.clone ≡ some c.project_code))
unfolding with_defaults
new_hub-project_code w c h e p =
    let started = new_hub-IsStarted w h c e in
    (open_code w h (with_defaults w c) started.1 p, seed_code w h (with_defaults w c) started.0 p)

-- A hub with the sync over NATS, when both reads of the project code give the same, serves its
-- requests on `<prefix>.<code>.sync` and, behind the name of its NATS server, which is not empty, on
-- that subject's child; its notifications go to `<prefix>.<code>.commit`.
pub new_hub-subjects :
    (w : Answers) (c : Config) (h : Hub) (code : Text)
    → (new_hub w c).0 ≡ made h
    → c.disable_fossil_sync_over_nats ≡ false
    → w.code_at_sync ≡ some code
    → w.code_at_commit ≡ some code
    → (h.sync_subject ≡ subject c code (codes "sync"))
      × (h.peer_sync_subject ≡ h.sync_subject ++ (codes "." ++ w.peer_name))
      × (h.commit_subject ≡ subject c code (codes "commit"))
      × (h.peer_id ≡ w.peer_name)
      × (is_empty h.peer_id ≡ false)
unfolding with_defaults subject
new_hub-subjects w c h code e d p q =
    let started = (new_hub-IsStarted w h c e).2 in
    start_loops-subjects w h (with_defaults w c) _ code started.1 d p q
