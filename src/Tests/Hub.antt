-- ===== src/Tests/Hub.antt =====
-- The hub at concrete inputs.
use edge_sync.Base.{
  ℕ, refl, inl, List, [], ◌∷◌, true, false, Option, none, some, ◌==◌, if◌then◌else◌, Text, codes,
  Elem, arith,
}
use edge_sync.Base.Sorting.{IsStrict}
use edge_sync.Hub.Repo.{
  Codec, ReadsBack, Reply, Repo, Op, xfers, catches_up, restarts, publish_new_commits, restart, run,
}
use edge_sync.Hub.Repo.Table.{Event}
use edge_sync.Hub.Repo.Announce.{publish_complete}
use edge_sync.Hub.Repo.History.{IsHealthy, AllHealthy, IsDurable, run-IsStrict}
use edge_sync.Hub.Repo.Skips.{skipped_forever}

abbrev unary_parse : Text → Option ℕ
unary_parse [] = none
unary_parse (n ∷ _) = some n

abbrev pub unary : Codec
unary = record { format_int = λ n. n ∷ []; parse_int = unary_parse }

unary-ReadsBack : ReadsBack unary
unary-ReadsBack n = refl

abbrev pub event : ℕ → Event
event n = record { objid = n; is_checkin = true }

-- Every rid has a uuid, and nothing fails.
abbrev pub calm : Reply
calm = record {
  query_fails = false;
  uuid_from_rid = λ n. some (n ∷ []);
  set_config_fails = λ _. false;
  read_config_fails = false;
  max_query_fails = false;
  lib_commit = λ o. some (12, codes "c");
}

-- The uuid of rid 5 cannot be read.
abbrev gap_at_5 : Reply
gap_at_5 = record calm { uuid_from_rid = λ n. if n == 5 then none else some (n ∷ []) }

calm-IsHealthy : IsHealthy calm
calm-IsHealthy = record { reads = refl; writes = λ _. refl }

gap_at_5-IsHealthy : IsHealthy gap_at_5
gap_at_5-IsHealthy = record { reads = refl; writes = λ _. refl }

abbrev fresh : Repo
fresh = record {
  events = event 3 ∷ event 1 ∷ [];
  watermark_row = none;
  published_rid = 0;
  publish_wired = false;
  sent = [];
}

abbrev pub behind : Repo
behind = record {
  events = event 7 ∷ event 5 ∷ [];
  watermark_row = some (3 ∷ []);
  published_rid = 3;
  publish_wired = true;
  sent = (3, 3 ∷ []) ∷ [];
}

behind-IsDurable : IsDurable unary behind
behind-IsDurable = record {
  table = omega arith;
  ordered = record { strict = omega arith; below = omega arith };
  row = refl;
}

abbrev history : List (Reply × Op)
history = (calm, xfers (event 9 ∷ event 6 ∷ [])) ∷ (calm, restarts) ∷ (calm, catches_up) ∷ []

history-healthy : AllHealthy history
history-healthy = (calm-IsHealthy, (calm-IsHealthy, (calm-IsHealthy, tt)))

run-IsStrict_example : IsStrict (λ p. p.0) (run unary history (restart unary calm fresh)).sent
run-IsStrict_example =
    run-IsStrict unary unary-ReadsBack calm history fresh calm-IsHealthy refl history-healthy
      (omega arith) refl refl

publish_complete_example : Elem (7, 7 ∷ []) (publish_new_commits unary calm behind).sent
publish_complete_example =
    publish_complete unary calm behind refl refl (event 7) (7 ∷ []) (inl refl) refl (omega arith)
      refl

skipped_forever_example :
    ¬ Elem (5, 5 ∷ []) (run unary history (publish_new_commits unary gap_at_5 behind)).sent
skipped_forever_example =
    skipped_forever unary unary-ReadsBack gap_at_5 gap_at_5-IsHealthy behind behind-IsDurable refl
      refl 5 (event 7) (5 ∷ []) (7 ∷ []) history (omega arith) refl (omega arith) (inl refl) refl
      refl history-healthy
