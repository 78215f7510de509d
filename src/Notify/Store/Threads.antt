-- ===== src/Notify/Store/Threads.antt =====
-- ListThreads of leaf/agent/notify/store.go. The order in which Go visits a map, and sort.Slice by
-- time and by last activity, are the parameter `Runtime`.
pub mod Grouping
pub mod Names
pub mod Summaries
pub mod Agree
use edge_sync.Base.{
  text_eq, Text, codes, has_prefix, ℕ, ite, Option, none, some, List, [], ◌∷◌, ◌++◌, ℕ_discrete,
  if◌then◌else◌, length, drop,
}
use edge_sync.Notify.Message.{
  Action, priority_info, priority_action_required, priority_urgent, Message, MessageOpts, ReplyOpts,
  id_prefix, thread_prefix, new_message, new_reply, short_id, thread_short, nats_subject,
  thread_dir, extension, file_path, has_suffix, matching, priority_rank, highest_from,
  highest_priority,
}
use edge_sync.Notify.Store.{
  Library, StoreError, marshal_failed, commit_failed, query_failed, read_failed, zlib_init,
  zlib_read, unmarshal_failed, thread_not_found, Result, ok, err, big_endian, decompress_blob,
  read_file_content, all_file_names, parse_message, read_message, commit_message, read_each,
  read_matching, read_thread,
}

pub record ThreadSummary : Type 0 where
  pub short : Text
  pub project : Text
  pub last_activity : ℕ
  pub message_count : ℕ
  pub last_message : Message
  pub priority : Text

-- A map from a thread to its files.
abbrev pub Groups : Type 0
Groups = List (Text × List Text)

pub record Runtime : Type 0 where
  pub visit : Groups → Groups
  pub by_time : List Message → List Message
  pub by_activity : List ThreadSummary → List ThreadSummary

-- What stands in front of the first slash, if there is one.
unfoldable pub in_front_of_slash : Text → Option Text
in_front_of_slash [] = none
in_front_of_slash (c ∷ t) = elim (ℕ_discrete c 47) [
  | yes e ↦ some []
  | no e ↦ elim (in_front_of_slash t) [ none ↦ none | some s ↦ some (c ∷ s) ]
]

abbrev pub threads_dir : Text → Text
threads_dir project = project ++ codes "/threads/"

-- The thread that a file is put to, if it is one of the project.
unfoldable pub thread_name : Text → Text → Option Text
thread_name project f =
    if has_prefix (threads_dir project) f
    then in_front_of_slash (drop (length (threads_dir project)) f)
    else none

unfoldable pub add_file : Text → Text → Groups → Groups
add_file t f [] = (t, f ∷ []) ∷ []
add_file t f ((u, paths) ∷ groups) =
    let rest = add_file t f groups in
    ite (text_eq u t) ((u, paths ++ f ∷ []) ∷ groups) ((u, paths) ∷ rest)

unfoldable pub group : Text → Groups → List Text → Groups
group project groups [] = groups
group project groups (f ∷ fs) =
    group project (elim (thread_name project f) [ none ↦ groups | some t ↦ add_file t f groups ]) fs

-- The last one of a list that starts with the first.
abbrev pub last_of : Message → List Message → Message
last_of m [] = m
last_of m (k ∷ ms) = last_of k ms

-- The summary of the messages by time, which start with the first one.
unfoldable pub summary_of : Text → Text → Message → List Message → ThreadSummary
summary_of project short m ms =
    let last = last_of m ms in
    record {
      short = short;
      project = project;
      last_activity = last.timestamp;
      message_count = length (m ∷ ms);
      last_message = last;
      priority = highest_priority (m ∷ ms);
    }

-- A thread without messages has no summary.
unfoldable pub summarise : Text → Text → List Message → Option ThreadSummary
summarise project short [] = none
summarise project short (m ∷ ms) = some (summary_of project short m ms)

abbrev pub with_summary :
    Option ThreadSummary → Result (List ThreadSummary) → Result (List ThreadSummary)
with_summary none rest = rest
with_summary (some x) (err e) = err e
with_summary (some x) (ok xs) = ok (x ∷ xs)

module _ (E : Library) (R : Runtime) where
  -- The loop over the groups, which stops at the first error.
  unfoldable pub summaries : Text → Groups → E.State → Result (List ThreadSummary)
  summaries project [] s = ok []
  summaries project ((short, paths) ∷ groups) s = elim (read_each E paths s) [
    | err e ↦ err e
    | ok ms ↦ with_summary (summarise project short (R.by_time ms)) (summaries project groups s)
  ]

  unfoldable pub list_threads : Text → E.State → Result (List ThreadSummary)
  list_threads project s = elim (all_file_names E s) [
    | err e ↦ err e
    | ok files ↦ elim (summaries project (R.visit (group project [] files)) s) [
      | err e ↦ err e
      | ok xs ↦ ok (R.by_activity xs)
    ]
  ]

  -- `MessageCount` of the service.
  unfoldable pub message_count : Text → Text → E.State → Result ℕ
  message_count project short s = elim (read_thread E project short s) [
    | err e ↦ err e
    | ok ms ↦ ok (length ms)
  ]
