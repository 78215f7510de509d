-- ===== src/Notify/Message.antt =====
-- leaf/agent/notify/message.go, and the choice of files and priorities in
-- leaf/agent/notify/store.go. Times are nanoseconds since 1970; `uuid` stands for the draws of newUUID and
-- `print` for `%d`.
pub mod Paths
pub mod Folders
pub mod SameSecond
use edge_sync.Base.{
  ℕ, ◌+◌, ◌-◌, ◌/◌, List, [], ◌∷◌, ◌++◌, Bool, true, false, ◌&&◌, ite, ltb, leb, length, take, drop,
  keep, is_empty, has_prefix, if◌then◌else◌, default_to, Text, text_eq, codes,
}

pub record Action : Type 0 where
  pub id : Text
  pub label : Text

abbrev pub priority_info : Text
priority_info = codes "info"

abbrev pub priority_action_required : Text
priority_action_required = codes "action_required"

abbrev pub priority_urgent : Text
priority_urgent = codes "urgent"

pub record Message : Type 0 where
  pub v : ℕ
  pub id : Text
  pub thread : Text
  pub project : Text
  pub from : Text
  pub from_name : Text
  pub timestamp : ℕ
  pub body : Text
  pub priority : Text
  pub actions : List Action
  pub reply_to : Text
  pub media : List Text
  pub action_response : Bool

pub record MessageOpts : Type 0 where
  pub project : Text
  pub from : Text
  pub from_name : Text
  pub body : Text
  pub priority : Text
  pub actions : List Action
  pub media : List Text

pub record ReplyOpts : Type 0 where
  pub from : Text
  pub from_name : Text
  pub body : Text
  pub media : List Text

abbrev pub id_prefix : Text
id_prefix = codes "msg-"

abbrev pub thread_prefix : Text
thread_prefix = codes "thread-"

-- On the two uuids drawn and the time.
unfoldable pub new_message : Text → Text → ℕ → MessageOpts → Message
new_message uuid₁ uuid₂ now o = record {
  v = 1;
  id = id_prefix ++ uuid₁;
  thread = thread_prefix ++ uuid₂;
  project = o.project;
  from = o.from;
  from_name = o.from_name;
  timestamp = now;
  body = o.body;
  priority = if is_empty o.priority then priority_info else o.priority;
  actions = o.actions;
  reply_to = [];
  media = o.media;
  action_response = false;
}

pub new_reply : Text → ℕ → Message → ReplyOpts → Message
new_reply uuid now original o = record {
  v = 1;
  id = id_prefix ++ uuid;
  thread = original.thread;
  project = original.project;
  from = o.from;
  from_name = o.from_name;
  timestamp = now;
  body = o.body;
  priority = [];
  actions = [];
  reply_to = original.id;
  media = o.media;
  action_response = false;
}

-- The prefix is cut off by its length, whether or not the id starts with it.
unfoldable pub short_id : Text → Text → Text
short_id id prefix =
    let s =
      if ltb 0 (length prefix) && ltb (length prefix) (length id)
      then drop (length prefix) id
      else id in
    if ltb 8 (length s) then take 8 s else s

unfoldable pub thread_short : Message → Text
thread_short m = short_id m.thread thread_prefix

pub nats_subject : Message → Text
nats_subject m = codes "notify." ++ (m.project ++ (codes "." ++ thread_short m))

-- `<project>/threads/<thread>/`.
unfoldable pub thread_dir : Text → Text → Text
thread_dir project short = project ++ (codes "/threads/" ++ (short ++ codes "/"))

abbrev pub extension : Text
extension = codes ".json"

unfoldable pub file_path : (ℕ → Text) → Message → Text
file_path print m =
    m.project
    ++ (codes "/threads/"
        ++ (thread_short m
            ++ (codes "/"
                ++ (print (m.timestamp / 1000000000)
                    ++ (codes "-" ++ (short_id m.id id_prefix ++ extension))))))

unfoldable pub has_suffix : Text → Text → Bool
has_suffix suffix t =
    leb (length suffix) (length t)
    && ite (text_eq (drop (length t - length suffix) t) suffix) true false

-- The files that ReadThread reads, before the sort by name.
unfoldable pub matching : Text → Text → List Text → List Text
unfolding thread_dir has_suffix
matching project short files =
    keep (λ f. has_prefix (thread_dir project short) f && has_suffix extension f) files

pub priority_rank : Text → ℕ
priority_rank p = ite (text_eq p priority_urgent) 2 (ite (text_eq p priority_action_required) 1 0)

pub highest_from : Text → List Message → Text
unfolding priority_rank
highest_from best [] = best
highest_from best (m ∷ ms) =
    highest_from (if ltb (priority_rank best) (priority_rank m.priority) then m.priority else best)
      ms

pub highest_priority : List Message → Text
highest_priority ms = highest_from priority_info ms
