-- ===== src/Tests/Bridge.antt =====
-- The bridge at a concrete input.
use edge_sync.Base.{
  ℕ, ◌≡◌, refl, [], ◌++◌, true, false, Option, none, some, Text, text_eq, codes, if◌then◌else◌,
}
use edge_sync.Bridge.{
  Config, Upstream, given, http, Bridge, new_bridge, connect, validate, apply_defaults,
  sync_subject, handle_message, new_nats_transport, round_trip,
}
use edge_sync.Bridge.Trip.{Routes, bridge_round_trip}

abbrev cfg : Config
cfg = record {
  nats_url = [];
  fossil_url = codes "http://h";
  project_code = codes "p";
  subject_prefix = [];
  has_upstream = false;
  has_buggify = true;
}

abbrev started : Bridge
started = record {
  config = record cfg { nats_url = codes "nats://localhost:4222"; subject_prefix = codes "fossil" };
  upstream = http (codes "http://h");
  subject = codes "fossil.p.sync";
}

starts : new_bridge cfg ≡ some started
unfolding new_bridge connect validate apply_defaults sync_subject
starts = refl

-- A server that answers with the payload behind a mark.
abbrev echo : Upstream → Text → Option Text
echo u payload = some (codes "!" ++ payload)

-- A bus on which the bridge alone listens.
abbrev bus : Text → ℕ → Text → Option Text
bus subject n payload = elim (text_eq subject started.subject) [
  | yes _ ↦ some (handle_message false echo started payload)
  | no _ ↦ none
]

bus-Routes : Routes bus started (handle_message false echo started)
unfolding text_eq
bus-Routes n payload = refl

bridge_round_trip_example :
    (false ≡ false)
    × (false ≡ false)
    × (round_trip bus (new_nats_transport cfg.project_code 0 cfg.subject_prefix) (codes "q")
        ≡ some (elim (echo (if cfg.has_upstream then given else http cfg.fossil_url) (codes "q")) [
          | none ↦ []
          | some resp ↦ resp
        ]))
bridge_round_trip_example =
    bridge_round_trip cfg started bus false echo 0 (codes "q") starts bus-Routes refl
