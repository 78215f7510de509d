-- ===== src/Notify/Service/Threads.antt =====
-- Into which thread Send puts a message.
use edge_sync.Base.{
  text_eq, Text, is_empty, ◌≡◌, refl, sym, ◌∙◌, ◌⊎◌, inl, inr, if_pos, if_neg, some, List, [], ◌∷◌,
  map, arith, if_both, Option-cases, All,
}
use edge_sync.Base.TextOrder.{sort_by, All-sort_by}
use edge_sync.Notify.Message.{Message, thread_prefix, short_id, file_path}
use edge_sync.Notify.Message.Folders.{
  HasNoSlash, IsPlain, file_path-belongs, belongs-true, thread_short_lem,
}
use edge_sync.Notify.Store.{Library, Result, ok, err, all_file_names, read_message}
use edge_sync.Notify.Store.Mailbox.{Mailbox}
use edge_sync.Notify.Store.Refines.{Represents}
use edge_sync.Notify.Service.{
  SendOpts, Draws, lookup, Service, find_thread, cache_thread, scan_thread, resolve_thread, drafted,
  publish_step, committed, commit_step, in_resolved, send,
}

-- A cached thread has the short id that it is cached under.
abbrev pub IsCache : List (Text × Text) → Type 0
IsCache cache = All (λ (short, full). short_id full thread_prefix ≡ short) cache

lookup-IsCache :
    (short full : Text) (cache : List (Text × Text))
    → IsCache cache
    → lookup short cache ≡ some full
    → short_id full thread_prefix ≡ short
lookup-IsCache short full [] c e = cc
lookup-IsCache short full ((key, v) ∷ cache) c e = elim (text_eq key short) [
  | yes p ↦
      let q : some v ≡ some full = sym (if_pos (text_eq key short) p _ _) ∙ e in cc (q, c.0, p)
  | no p ↦ lookup-IsCache short full cache c.1 (sym (if_neg (text_eq key short) p _ _) ∙ e)
]

module _ (E : Library) (project short : Text) (h : HasNoSlash project) (k : HasNoSlash short) where
  -- The thread that the scan finds has the short id looked for.
  find_thread-short :
      (files : List Text) (s : E.State) (full : Text)
      → All
          (λ f. (m : Message) × (f ≡ file_path E.print m) × (read_message E f s ≡ ok m) × IsPlain m)
          files
      → find_thread E project short files s ≡ some full
      → short_id full thread_prefix ≡ short
  unfolding find_thread
  find_thread-short [] s full r e = cc
  find_thread-short (f ∷ files) s full r e =
      let (m, path, reads, plain) = r.0 in
      let test = file_path-belongs E.print project short m h k plain in
      ground (arith, test, belongs-true project short m, find_thread-short files s full r.1)

  Readable : E.State → Text → Type 0
  Readable s f = (m : Message) × (f ≡ file_path E.print m) × (read_message E f s ≡ ok m) × IsPlain m

  map-Readable :
      (box : Mailbox) (s : E.State)
      → All (λ m. read_message E (file_path E.print m) s ≡ ok m) box
      → All IsPlain box
      → All (Readable s) (map (file_path E.print) box)
  unfolding Readable
  map-Readable [] s r p = tt
  map-Readable (m ∷ box) s r p = ((m, refl, r.0, p.0), map-Readable box s r.1 p.1)

  scan_thread-short :
      (sv : Service E) (box : Mailbox) (full : Text)
      → Represents E sv.state box
      → (scan_thread E project short sv).0 ≡ ok full
      → short_id full thread_prefix ≡ short
  unfolding scan_thread all_file_names Readable
  scan_thread-short sv box full (names, reads, plain) e =
      let paths = sort_by (λ n. n) (map (file_path E.print) box) in
      let each : All (Readable sv.state) paths =
        All-sort_by (λ n. n) (Readable sv.state) _ (map-Readable box sv.state reads plain) in
      ground (arith, names, find_thread-short paths sv.state full each)

  resolve_thread-short :
      (sv : Service E) (box : Mailbox) (full : Text)
      → Represents E sv.state box
      → IsCache sv.thread_map
      → (resolve_thread E project short sv).0 ≡ ok full
      → short_id full thread_prefix ≡ short
  unfolding resolve_thread
  resolve_thread-short sv box full rep c e =
      ground (arith, lookup-IsCache short full sv.thread_map c, scan_thread-short sv box full rep)

  -- The cache stays, or the thread that the scan found is put in front.
  resolve_thread-map :
      (sv : Service E) (files : List Text)
      → E.names sv.state ≡ some files
      → let (r, sv') = resolve_thread E project short sv in
        (sv'.thread_map ≡ sv.thread_map)
        ⊎ ((full : Text) × (r ≡ ok full) × (sv'.thread_map ≡ (short, full) ∷ sv.thread_map))
  unfolding resolve_thread scan_thread cache_thread all_file_names
  resolve_thread-map sv files names = elim (Option-cases (lookup short sv.thread_map)) [
    | inr (full, e) ↦ inl (ground arith)
    | inl e ↦ elim (Option-cases (find_thread E project short files sv.state)) [
      | inl f ↦ inl (ground arith)
      | inr (full, f) ↦ inr (full, ground arith, ground arith)
    ]
  ]

  resolve_thread-IsCache :
      (sv : Service E) (box : Mailbox)
      → Represents E sv.state box
      → IsCache sv.thread_map
      → IsCache (resolve_thread E project short sv).1.thread_map
  resolve_thread-IsCache sv box rep c = elim (resolve_thread-map sv _ rep.0) [
    | inl e ↦ rw e c
    | inr (full, r, e) ↦ rw e (resolve_thread-short sv box full rep c r, c)
  ]

module _ (E : Library) where
  published_map : (m : Message) (sv : Service E) → (publish_step E m sv).thread_map ≡ sv.thread_map
  unfolding publish_step
  published_map m sv = ground arith

  committed-IsCache :
      (m : Message) (sv : Service E) (r : Result E.State)
      → IsCache sv.thread_map
      → IsCache (committed E m sv r).1.thread_map
  unfolding committed cache_thread
  committed-IsCache m sv (err e) c = c
  committed-IsCache m sv (ok s') c = rw (published_map m _) (thread_short_lem m, c)

  commit_step-IsCache :
      (m : Message) (sv : Service E)
      → IsCache sv.thread_map
      → IsCache (commit_step E m sv).1.thread_map
  unfolding commit_step
  commit_step-IsCache m sv c = committed-IsCache m sv _ c

  in_resolved-IsCache :
      (m : Message) (r : Result Text) (sv : Service E)
      → IsCache sv.thread_map
      → IsCache (in_resolved E m (r, sv)).1.thread_map
  unfolding in_resolved
  in_resolved-IsCache m (err e) sv c = c
  in_resolved-IsCache m (ok full) sv c = commit_step-IsCache (record m { thread = full }) sv c

  -- Send leaves a sound cache.
  pub send-IsCache :
      (d : Draws) (o : SendOpts) (sv : Service E) (box : Mailbox)
      → HasNoSlash o.project
      → HasNoSlash o.thread_short
      → Represents E sv.state box
      → IsCache sv.thread_map
      → IsCache (send E d o sv).1.thread_map
  unfolding send
  send-IsCache d o sv box h k rep c =
      let (r, sv') = resolve_thread E o.project o.thread_short sv in
      if_both (λ (r : Result Message × Service E). IsCache r.1.thread_map) (is_empty o.thread_short)
        (commit_step-IsCache (drafted E d o sv) sv c)
        (in_resolved-IsCache (drafted E d o sv) r sv'
          (resolve_thread-IsCache E o.project o.thread_short h k sv box rep c))
