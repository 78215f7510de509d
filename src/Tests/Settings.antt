-- ===== src/Tests/Settings.antt =====
-- The settings of an agent, messages and the hub's users at concrete inputs.
use edge_sync.Base.{
  ℕ, ◌≡◌, refl, pos, List, [], ◌∷◌, ◌++◌, true, false, Option, none, some, Text, codes, text_eq,
  subst, ite, arith,
}
use mathlib.Core.Option.{some-injective}
use edge_sync.Agent.Autosync.{off}
use edge_sync.Agent.Config.{Config, apply_defaults}
use edge_sync.Notify.Message.{
  Message, MessageOpts, ReplyOpts, new_message, new_reply, thread_short, file_path, matching,
}
use edge_sync.Notify.Message.Paths.{matching-file_path}
use edge_sync.Agent.Identity.{
  ensure_client_id, generate_uuid4, format_uuid, marked, hex_range, hex_digit, byte_at, stored,
}
use edge_sync.Hub.Users.{User, Store, ok, ensure_user, create_missing, has_user}
use edge_sync.Hub.Users.Ensure.{IsTable, ensure_user_twice}

abbrev pub bare : Config
bare = record {
  repo_path = codes "r.fossil";
  clone_from_hub_url = [];
  nats_upstream = [];
  nats_client_port = pos 4222;
  nats_store_dir = [];
  nats_role = [];
  poll_interval = pos 0;
  user = [];
  password = [];
  push = false;
  pull = false;
  uv = false;
  private = false;
  peer_id = [];
  subject_prefix = [];
  has_clock = false;
  has_buggify = false;
  has_observer = false;
  serve_http_addr = [];
  serve_nats_enabled = false;
  nobody_caps = [];
  has_custom_dialer = false;
  has_logger = false;
  has_post_sync_hook = false;
  iroh_enabled = true;
  iroh_peers = [];
  iroh_key_path = [];
  iroh_binary_path = [];
  content_cache_size = pos 0;
  notify_enabled = true;
  notify_repo_path = [];
  autosync = off;
  allow_fork = false;
  override_lock = false;
}

abbrev beside : Text → Text
beside path = path ++ codes ".notify"

abbrev settled : Config
settled = apply_defaults (some (codes "host")) beside bare

abbrev print : ℕ → Text
print n = n ∷ []

abbrev asked : MessageOpts
asked = record {
  project = codes "p";
  from = codes "a";
  from_name = codes "A";
  body = codes "?";
  priority = codes "urgent";
  actions = [];
  media = [];
}

abbrev answered : ReplyOpts
answered = record { from = codes "b"; from_name = codes "B"; body = codes "!"; media = [] }

abbrev first : Message
first = new_message (codes "0123456789") (codes "abcdefghij") 50 asked

matching-file_path_example :
    matching first.project (thread_short first) (codes "x" ∷ file_path print first ∷ codes "y" ∷ [])
    ≡ matching first.project (thread_short first) (codes "x" ∷ [])
      ++ file_path print first ∷ matching first.project (thread_short first) (codes "y" ∷ [])
matching-file_path_example = matching-file_path print first (codes "x" ∷ []) (codes "y" ∷ [])

abbrev thread : List Message
thread = first ∷ new_reply (codes "77") 60 first answered ∷ []

-- A table of users as a list, the newest first.
find : Text → List User → Option User
find login [] = none
find login (u ∷ us) = ite (text_eq u.login login) (some u) (find login us)

abbrev listed : Store
listed = record {
  State = List User;
  get_user = find;
  list_users = λ s. some s;
  create_user = λ u s. some (u ∷ s);
  delete_user = λ login s. some s;
  set_caps = λ login caps s. some (record { login = login; caps = caps } ∷ s);
}

find_first : (u : User) (s : List User) → find u.login (u ∷ s) ≡ some u
unfolding find
find_first u s = ground arith

listed-IsTable : IsTable listed
listed-IsTable = record {
  created =
      λ u s s' e. subst (λ x. find u.login x ≡ some u) (some-injective _ _ e) (find_first u s);
}

abbrev alone : List User → List User
alone s = s

abbrev ann : User
ann = record { login = codes "ann"; caps = codes "v" }

ann_made : ensure_user listed alone (codes "ann") (codes "v") [] ≡ (ok tt, ann ∷ [])
unfolding ensure_user create_missing find
ann_made = refl

ensure_user_twice_example :
    (has_user listed (codes "ann") (ann ∷ []) ≡ true)
    × (ensure_user listed alone (codes "ann") (codes "s") (ann ∷ []) ≡ (ok tt, ann ∷ []))
ensure_user_twice_example =
    ensure_user_twice listed alone (codes "ann") refl (codes "v") (codes "s") [] (ann ∷ [])
      listed-IsTable ann_made

abbrev bytes : List ℕ
bytes = 1 ∷ 2 ∷ 3 ∷ 255 ∷ []

abbrev client_id : Text
client_id = codes "010203ff-0000-4000-8000-000000000000"

id_made : generate_uuid4 (some bytes) ≡ some client_id
unfolding generate_uuid4 format_uuid marked hex_range hex_digit byte_at
id_made = refl

id_stored : ensure_client_id true (some bytes) true none ≡ (some client_id, some client_id)
unfolding ensure_client_id stored generate_uuid4 format_uuid marked hex_range hex_digit byte_at
id_stored = refl

-- Sent half a second behind the first, in its thread.
abbrev half_later : Message
half_later = record first { id = codes "msg-a"; timestamp = 500000050 }
