-- ===== src/Notify/Store/Refines.antt =====
-- The store implements the mailbox, over a repository that keeps what is committed.
use edge_sync.Base.{
  Text, has_prefix, ◌<◌, ◌≡◌, refl, sym, ap, ◌∙◌, ◌≢◌, inl, inr, Bool, ◌&&◌, some, List, [], ◌∷◌,
  ◌++◌, map, arith, Option-cases, length, keep, All, All-imp, All-and, All-keep,
}
use edge_sync.Base.TextOrder.{
  insert_by, sort_by, All-sort_by, sort_by-IsOrdered, sort_by-IsOrdered_id, keep-sort_by,
  map-sort_by, map-keep,
}
use edge_sync.Notify.Message.{Message, thread_dir, extension, file_path, has_suffix, matching}
use edge_sync.Notify.Message.Folders.{HasNoSlash, IsPlain, belongs, file_path-belongs}
use edge_sync.Notify.Store.{
  Library, ok, read_file_content, all_file_names, parse_message, read_message, commit_message,
  read_each, read_matching, read_thread,
}
use edge_sync.Notify.Store.Blob.{size_prefix, decompress_blob-size_prefix}
use edge_sync.Notify.Store.Mailbox.{Mailbox, thread_of}

-- What the store relies on: zlib undoes its compression; encoding/json undoes its encoding on the
-- messages that are `IsClean` (valid UTF-8), in under 4 GiB; a commit makes the content of its file
-- the latest, leaves the others, and adds a new name to the names in order.
pub record IsFossil (E : Library) : Type 1 where
  pub IsClean : Message → Type 0
  pub deflate : Text → Text
  pub inflate_deflate : (t : Text) → E.inflate (deflate t) ≡ some t
  pub marshal_back :
      (m : Message) (t : Text) → IsClean m → E.marshal m ≡ some t → E.unmarshal t ≡ some m
  pub marshal_small : (m : Message) (t : Text) → E.marshal m ≡ some t → length t < 4294967296
  pub commit_blob :
      (name t : Text) (s s' : E.State)
      → E.commit name t s ≡ some s'
      → E.blob name s' ≡ some (size_prefix (length t) ++ deflate t)
  pub commit_other :
      (name n t : Text) (s s' : E.State)
      → E.commit name t s ≡ some s'
      → n ≢ name
      → E.blob n s' ≡ E.blob n s
  pub commit_names :
      (name t : Text) (s s' : E.State) (ns : List Text)
      → E.commit name t s ≡ some s'
      → E.names s ≡ some ns
      → All (λ n. n ≢ name) ns
      → E.names s' ≡ some (insert_by (λ n. n) name ns)

module _ (E : Library) where
  -- The repository holds exactly the messages of the mailbox, each under its path.
  abbrev pub Represents : E.State → Mailbox → Type 0
  Represents s box =
      (E.names s ≡ some (sort_by (λ n. n) (map (file_path E.print) box)))
      × All (λ m. read_message E (file_path E.print m) s ≡ ok m) box
      × All IsPlain box

  -- No message of the mailbox has the path of this one.
  abbrev pub IsFresh : Message → Mailbox → Type 0
  IsFresh m box = All (λ k. file_path E.print k ≢ file_path E.print m) box

  All-map_path :
      (m : Message) (box : Mailbox)
      → IsFresh m box
      → All (λ n. n ≢ file_path E.print m) (map (file_path E.print) box)
  All-map_path m [] h = tt
  All-map_path m (k ∷ box) h = (h.0, All-map_path m box h.1)

  read_message-other :
      (n : Text) (s s' : E.State)
      → E.blob n s' ≡ E.blob n s
      → read_message E n s' ≡ read_message E n s
  unfolding read_message read_file_content
  read_message-other n s s' e = ground arith

  module _ (laws : IsFossil E) where
    read_message-own :
        (m : Message) (text : Text) (s s' : E.State)
        → laws.IsClean m
        → E.marshal m ≡ some text
        → E.commit (file_path E.print m) text s ≡ some s'
        → read_message E (file_path E.print m) s' ≡ ok m
    unfolding read_message read_file_content parse_message
    read_message-own m text s s' clean e c =
        let content = laws.commit_blob (file_path E.print m) text s s' c in
        let small = laws.marshal_small m text e in
        let whole =
          decompress_blob-size_prefix E text (laws.deflate text) (laws.inflate_deflate text)
            small in
        ground (arith, content, whole, laws.marshal_back m text clean e)

    committed :
        (m : Message) (s s' : E.State)
        → commit_message E m s ≡ ok s'
        → (text : Text) × (E.marshal m ≡ some text)
          × (E.commit (file_path E.print m) text s ≡ some s')
    unfolding commit_message
    committed m s s' e = elim (Option-cases (E.marshal m)) [
      | inl n ↦ ground arith
      | inr (text, p) ↦ (text, p, ground arith)
    ]

    -- A commit that goes through puts its message into the mailbox, if its path is new.
    pub commit_message-Represents :
        (m : Message) (s s' : E.State) (box : Mailbox)
        → Represents s box
        → IsPlain m
        → laws.IsClean m
        → IsFresh m box
        → commit_message E m s ≡ ok s'
        → Represents s' (m ∷ box)
    unfolding sort_by
    commit_message-Represents m s s' box (names, reads, plain) p clean fresh e =
        let (text, j, c) = committed m s s' e in
        let path = file_path E.print m in
        let new = All-sort_by (λ n. n) (λ n. n ≢ path) _ (All-map_path m box fresh) in
        (
          laws.commit_names path text s s' _ c names new,
          (
            read_message-own m text s s' clean j c,
            All-imp box
                (λ k (r, d).
                  read_message-other _ s s'
                    (laws.commit_other path (file_path E.print k) text s s' c d)
                  ∙ r)
                (All-and _ _ box reads fresh),
          ),
          (p, plain),
        )

  pub read_each-All :
      (ms : List Message) (s : E.State)
      → All (λ m. read_message E (file_path E.print m) s ≡ ok m) ms
      → read_each E (map (file_path E.print) ms) s ≡ ok ms
  unfolding read_each
  read_each-All [] s h = refl
  read_each-All (m ∷ ms) s h = ground (arith, h.0, read_each-All ms s h.1)

  module _ (project short : Text) where
    is_read : Text → Bool
    is_read f = has_prefix (thread_dir project short) f && has_suffix extension f

    module _ (h : HasNoSlash project) (k : HasNoSlash short) where
      keep-belongs :
          (box : Mailbox)
          → All IsPlain box
          → keep (λ m. is_read (file_path E.print m)) box ≡ keep (belongs project short) box
      unfolding keep is_read
      keep-belongs [] p = refl
      keep-belongs (m ∷ box) p =
          ground (arith, file_path-belongs E.print project short m h k p.0, keep-belongs box p.1)

      -- The files that ReadThread picks are those of the thread's messages, in order.
      sorted_files :
          (box : Mailbox)
          → All IsPlain box
          → sort_by
              (λ n. n)
              (matching project short (sort_by (λ n. n) (map (file_path E.print) box)))
            ≡ map (file_path E.print) (thread_of E.print project short box)
      unfolding matching thread_of is_read
      sorted_files box p =
          ap (sort_by (λ n. n)) (keep-sort_by (λ n. n) is_read (map (file_path E.print) box))
          ∙ sort_by-IsOrdered_id (λ n. n) _ (sort_by-IsOrdered (λ n. n) _)
          ∙ ap (sort_by (λ n. n)) (map-keep (file_path E.print) is_read box)
          ∙ ap (λ l. sort_by (λ n. n) (map (file_path E.print) l)) (keep-belongs box p)
          ∙ sym (map-sort_by (file_path E.print) (keep (belongs project short) box))

      -- In a repository that holds a mailbox, ReadThread gives the thread of the mailbox, for a
      -- project and a thread without a slash.
      pub read_thread-Represents :
          (s : E.State) (box : Mailbox)
          → Represents s box
          → read_thread E project short s ≡ ok (thread_of E.print project short box)
      unfolding read_thread read_matching all_file_names thread_of
      read_thread-Represents s box (names, reads, plain) =
          let ms = thread_of E.print project short box in
          let P : Message → Type 0 = λ m. read_message E (file_path E.print m) s ≡ ok m in
          let each : All P ms =
            All-sort_by (file_path E.print) P _ (All-keep P (belongs project short) box reads) in
          ground (arith, names, sorted_files box plain, read_each-All ms s each)
