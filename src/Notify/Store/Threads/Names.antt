-- ===== src/Notify/Store/Threads/Names.antt =====
-- The thread that the file of a message is put to.
use edge_sync.Base.{
  text_eq, Text, codes, has_prefix-append, ℕ, ◌/◌, ◌≡◌, refl, sym, ap, ◌∙◌, ◌≢◌, inl, inr, ite,
  if_pos, true, false, none, some, [], ◌∷◌, ◌++◌, append_assoc, arith, ℕ_discrete, Option-cases,
  length, drop, drop-length-append,
}
use edge_sync.Notify.Message.{Message, id_prefix, short_id, thread_short, extension, file_path}
use edge_sync.Notify.Message.Folders.{HasNoSlash, IsPlain, belongs, has_prefix-other}
use edge_sync.Notify.Store.Threads.{in_front_of_slash, threads_dir, thread_name}
use edge_sync.Notify.Store.Threads.Grouping.{is_of}

in_front_of_slash-append :
    (t rest : Text) → HasNoSlash t → in_front_of_slash (t ++ 47 ∷ rest) ≡ some t
unfolding in_front_of_slash ℕ_discrete
in_front_of_slash-append [] rest h = refl
in_front_of_slash-append (c ∷ t) rest h = elim (ℕ_discrete c 47) [
  | yes e ↦ absurd (h.0 e)
  | no e ↦ ground (arith, in_front_of_slash-append t rest h.1)
]

in_front_of_slash-HasNoSlash : (t s : Text) → in_front_of_slash t ≡ some s → HasNoSlash s
unfolding in_front_of_slash
in_front_of_slash-HasNoSlash [] s e = cc
in_front_of_slash-HasNoSlash (c ∷ t) [] e = tt
in_front_of_slash-HasNoSlash (c ∷ t) (d ∷ s) e = elim (ℕ_discrete c 47) [
  | yes p ↦ absurd (ground arith)
  | no p ↦ elim (Option-cases (in_front_of_slash t)) [
    | inl q ↦ absurd (ground arith)
    | inr (u, q) ↦ (ground arith, in_front_of_slash-HasNoSlash t s (ground arith))
  ]
]

-- A thread that files are put to has no slash.
pub thread_name-HasNoSlash : (project f t : Text) → thread_name project f ≡ some t → HasNoSlash t
unfolding thread_name
thread_name-HasNoSlash project f t e =
    in_front_of_slash-HasNoSlash (drop (length (threads_dir project)) f) t (ground arith)

module _ (print : ℕ → Text) (project : Text) (h : HasNoSlash project) (m : Message)
    (plain : IsPlain m) where
  abbrev behind : Text
  behind = print (m.timestamp / 1000000000) ++ (codes "-" ++ (short_id m.id id_prefix ++ extension))

  thread_name-own :
      m.project ≡ project → thread_name project (file_path print m) ≡ some (thread_short m)
  unfolding thread_name file_path
  thread_name-own e =
      let whole : file_path print m ≡ threads_dir project ++ (thread_short m ++ 47 ∷ behind) =
        ap (λ q. q ++ (codes "/threads/" ++ (thread_short m ++ 47 ∷ behind))) e
        ∙ sym (append_assoc project (codes "/threads/") (thread_short m ++ 47 ∷ behind)) in
      ap (thread_name project) whole
      ∙ ground (
        arith,
        has_prefix-append (threads_dir project) (thread_short m ++ 47 ∷ behind),
        drop-length-append (threads_dir project) (thread_short m ++ 47 ∷ behind),
        in_front_of_slash-append (thread_short m) behind plain.1,
      )

  thread_name-foreign : m.project ≢ project → thread_name project (file_path print m) ≡ none
  unfolding thread_name file_path
  thread_name-foreign d = ground (
    arith,
    has_prefix-other project m.project (codes "threads/")
        (codes "threads/" ++ (thread_short m ++ 47 ∷ behind)) h plain.0 d,
  )

  -- A message is in the group of a thread exactly if it is one of the thread.
  pub is_of-file_path :
      (short : Text) → is_of project short (file_path print m) ≡ belongs project short m
  unfolding is_of belongs
  is_of-file_path short = elim (text_eq m.project project) [
    | yes e ↦ ground (
      arith,
      thread_name-own e,
      if_pos (text_eq m.project project) e (ite (text_eq (thread_short m) short) true false) false,
    )
    | no e ↦ ground (arith, thread_name-foreign e)
  ]
