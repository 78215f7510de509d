-- ===== src/Notify/Service.antt =====
-- leaf/agent/notify/notify.go without the watch: constructing, sending, resolving a thread and
-- closing. The repository is that of Store; the messages handed to Publish are recorded.
pub mod Sends
pub mod Threads
pub mod Cache
pub mod Ownership
use edge_sync.Base.{
  text_eq, Text, is_empty, has_prefix, ℕ, ite, Bool, ◌&&◌, Option, none, some, List, [], ◌∷◌, ◌++◌,
  if◌then◌else◌,
}
use edge_sync.Base.TextOrder.{
  text_leb, insert_by, sort_by, IsOrdered, All-insert_by, All-sort_by, sort_by-IsOrdered,
  sort_by-IsOrdered_id, keep-sort_by, map-sort_by, map-keep,
}
use edge_sync.Notify.Message.{
  Action, priority_info, priority_action_required, priority_urgent, Message, MessageOpts, ReplyOpts,
  id_prefix, thread_prefix, new_message, new_reply, short_id, thread_short, nats_subject,
  thread_dir, extension, file_path, has_suffix, matching, priority_rank, highest_from,
  highest_priority,
}
use edge_sync.Notify.Store.{
  Library, StoreError, marshal_failed, commit_failed, query_failed, read_failed, zlib_init,
  zlib_read, unmarshal_failed, thread_not_found, Result, ok, err, big_endian, decompress_blob,
  read_file_content, all_file_names, parse_message, read_message, commit_message, read_each,
  read_matching, read_thread,
}

pub record SendOpts : Type 0 where
  pub project : Text
  pub body : Text
  pub priority : Text
  pub actions : List Action
  pub media : List Text
  pub thread_short : Text

-- What a message draws: its two uuids and the time.
pub record Draws : Type 0 where
  pub message_uuid : Text
  pub thread_uuid : Text
  pub now : ℕ

abbrev pub lookup : Text → List (Text × Text) → Option Text
lookup k [] = none
lookup k ((key, v) ∷ cache) = let rest = lookup k cache in ite (text_eq key k) (some v) rest

module _ (E : Library) where
  -- `connected` says that the NATS connection is not nil; `thread_map` has its latest entries first.
  pub record Service : Type 0 where
    pub state : E.State
    pub connected : Bool
    pub from : Text
    pub from_name : Text
    pub thread_map : List (Text × Text)
    pub published : List Message

  -- The loop over the files: a file that is not of the thread, or cannot be read, is passed over.
  unfoldable pub find_thread : Text → Text → List Text → E.State → Option Text
  find_thread project short [] s = none
  find_thread project short (f ∷ files) s =
      let rest = find_thread project short files s in
      if has_prefix (thread_dir project short) f && has_suffix extension f
      then elim (read_message E f s) [ err e ↦ rest | ok m ↦ some m.thread ]
      else rest

  unfoldable pub cache_thread : Text → Text → Service → Service
  cache_thread short full sv = record sv { thread_map = (short, full) ∷ sv.thread_map }

  unfoldable pub scan_thread : Text → Text → Service → Result Text × Service
  scan_thread project short sv = elim (all_file_names E sv.state) [
    | err e ↦ (err e, sv)
    | ok files ↦ elim (find_thread project short files sv.state) [
      | none ↦ (err thread_not_found, sv)
      | some full ↦ (ok full, cache_thread short full sv)
    ]
  ]

  -- The cache first, whatever the project.
  unfoldable pub resolve_thread : Text → Text → Service → Result Text × Service
  resolve_thread project short sv = elim (lookup short sv.thread_map) [
    | some full ↦ (ok full, sv)
    | none ↦ scan_thread project short sv
  ]

  unfoldable pub drafted : Draws → SendOpts → Service → Message
  drafted d o sv = new_message d.message_uuid d.thread_uuid d.now (record {
    project = o.project;
    from = sv.from;
    from_name = sv.from_name;
    body = o.body;
    priority = o.priority;
    actions = o.actions;
    media = o.media;
  })

  -- Whatever comes of the publishing, the message is sent.
  unfoldable pub publish_step : Message → Service → Service
  publish_step m sv = if sv.connected then record sv { published = sv.published ++ m ∷ [] } else sv

  unfoldable pub committed : Message → Service → Result E.State → Result Message × Service
  committed m sv (err e) = (err e, sv)
  committed m sv (ok s') =
      (ok m, publish_step m (cache_thread (thread_short m) m.thread (record sv { state = s' })))

  unfoldable pub commit_step : Message → Service → Result Message × Service
  commit_step m sv = committed m sv (commit_message E m sv.state)

  unfoldable pub in_resolved : Message → Result Text × Service → Result Message × Service
  in_resolved m (err e, sv) = (err e, sv)
  in_resolved m (ok full, sv) = commit_step (record m { thread = full }) sv

  unfoldable pub send : Draws → SendOpts → Service → Result Message × Service
  send d o sv =
      let m = drafted d o sv in
      if is_empty o.thread_short
      then commit_step m sv
      else in_resolved m (resolve_thread o.project o.thread_short sv)
