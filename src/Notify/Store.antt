-- ===== src/Notify/Store.antt =====
-- leaf/agent/notify/store.go: messages committed to and read from the notify repository. The
-- repository (libfossil and its SQL tables), zlib and encoding/json are the parameter `Library`.
pub mod Blob
pub mod Mailbox
pub mod Refines
pub mod Threads
use edge_sync.Base.{
  Text, ℕ, ◌+◌, ◌*◌, Option, none, some, List, [], ◌∷◌, ltb, if◌then◌else◌, length, take, drop,
}
use edge_sync.Base.TextOrder.{
  text_leb, insert_by, sort_by, IsOrdered, All-insert_by, All-sort_by, sort_by-IsOrdered,
  sort_by-IsOrdered_id, keep-sort_by, map-sort_by, map-keep,
}
use edge_sync.Notify.Message.{
  Action, priority_info, priority_action_required, priority_urgent, Message, MessageOpts, ReplyOpts,
  id_prefix, thread_prefix, new_message, new_reply, short_id, thread_short, nats_subject,
  thread_dir, extension, file_path, has_suffix, matching, priority_rank, highest_from,
  highest_priority,
}

-- `commit` writes one file, with `none` for an error; `names` are the distinct file names in order;
-- `blob` is the raw content of the latest version of a file; `inflate` what zlib reads, with `none`
-- for a bad header; `print` is `%d`.
pub record Library : Type 1 where
  pub State : Type 0
  pub commit : Text → Text → State → Option State
  pub names : State → Option (List Text)
  pub blob : Text → State → Option Text
  pub inflate : Text → Option Text
  pub marshal : Message → Option Text
  pub unmarshal : Text → Option Message
  pub print : ℕ → Text

pub data StoreError : Type 0 where
  marshal_failed commit_failed query_failed read_failed zlib_init zlib_read : StoreError
  unmarshal_failed thread_not_found : StoreError

-- A result or an error.
pub data Result {ℓ} (A : Type ℓ) : Type ℓ where
  ok : A → Result A
  err : StoreError → Result A

-- The big-endian number of the first four bytes.
abbrev pub big_endian : Text → ℕ
big_endian (a ∷ b ∷ c ∷ d ∷ t) = a * 16777216 + b * 65536 + c * 256 + d
big_endian _ = 0

module _ (E : Library) where
  unfoldable pub decompress_blob : Text → Result Text
  decompress_blob data_ =
      if ltb (length data_) 4 then ok data_ else elim (E.inflate (drop 4 data_)) [
        | none ↦ err zlib_init
        | some out ↦
            if ltb (length out) (big_endian data_)
            then err zlib_read
            else ok (take (big_endian data_) out)
      ]

  unfoldable pub read_file_content : Text → E.State → Result Text
  read_file_content name s = elim (E.blob name s) [
    | none ↦ err read_failed
    | some content ↦ decompress_blob content
  ]

  unfoldable pub all_file_names : E.State → Result (List Text)
  all_file_names s = elim (E.names s) [ none ↦ err query_failed | some ns ↦ ok ns ]

  unfoldable pub parse_message : Result Text → Result Message
  parse_message (err e) = err e
  parse_message (ok text) = elim (E.unmarshal text) [ none ↦ err unmarshal_failed | some m ↦ ok m ]

  unfoldable pub read_message : Text → E.State → Result Message
  read_message path s = parse_message (read_file_content path s)

  -- The repository after the commit, which stays as it is on an error.
  unfoldable pub commit_message : Message → E.State → Result E.State
  commit_message m s = elim (E.marshal m) [
    | none ↦ err marshal_failed
    | some text ↦ elim (E.commit (file_path E.print m) text s) [
      | none ↦ err commit_failed
      | some s' ↦ ok s'
    ]
  ]

  -- A message in front of the messages of a result.
  abbrev in_front : Result Message → Result (List Message) → Result (List Message)
  in_front (err e) rest = err e
  in_front (ok m) (err e) = err e
  in_front (ok m) (ok ms) = ok (m ∷ ms)

  -- The loop of ReadThread, which stops at the first error.
  unfoldable pub read_each : List Text → E.State → Result (List Message)
  read_each [] s = ok []
  read_each (path ∷ paths) s = in_front (read_message path s) (read_each paths s)

  unfoldable pub read_matching : Text → Text → E.State → Result (List Text) → Result (List Message)
  read_matching project short s (err e) = err e
  read_matching project short s (ok files) =
      read_each (sort_by (λ t. t) (matching project short files)) s

  unfoldable pub read_thread : Text → Text → E.State → Result (List Message)
  read_thread project short s = read_matching project short s (all_file_names s)
