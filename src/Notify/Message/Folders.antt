-- ===== src/Notify/Message/Folders.antt =====
-- Which files of the repository are those of a thread.
use edge_sync.Base.{
  ◌/◌, text_eq, Text, codes, has_prefix, cons_path, ℕ, ◌≡◌, refl, sym, ap, ◌∙◌, ◌≢◌, ite, if_pos,
  if_neg, Bool, true, false, ◌&&◌, [], ◌∷◌, ◌++◌, arith, ℕ_discrete, All,
}
use edge_sync.Notify.Message.{
  Message, id_prefix, thread_prefix, short_id, thread_short, thread_dir, extension, file_path,
  has_suffix,
}
use edge_sync.Notify.Message.Paths.{has_suffix-file_path}

-- A text without a slash.
abbrev pub HasNoSlash : Text → Type 0
HasNoSlash t = All (λ c. c ≢ 47) t

-- A message whose folder names are single path segments.
abbrev pub IsPlain : Message → Type 0
IsPlain m = HasNoSlash m.project × HasNoSlash (thread_short m)

-- The message is one of the thread.
unfoldable pub belongs : Text → Text → Message → Bool
belongs project short m =
    ite (text_eq m.project project) (ite (text_eq (thread_short m) short) true false) false

has_prefix-same : (p q t : Text) → has_prefix (p ++ q) (p ++ t) ≡ has_prefix q t
has_prefix-same [] q t = refl
has_prefix-same (c ∷ p) q t = ground (arith, has_prefix-same p q t)

-- Behind another segment there is no such prefix.
pub has_prefix-other :
    (a b p t : Text)
    → HasNoSlash a
    → HasNoSlash b
    → ¬ (b ≡ a)
    → has_prefix (a ++ 47 ∷ p) (b ++ 47 ∷ t) ≡ false
has_prefix-other [] [] p t h k d = absurd (d refl)
has_prefix-other [] (c ∷ b) p t h k d = ground (arith, k.0)
has_prefix-other (c ∷ a) [] p t h k d = ground (arith, h.0)
has_prefix-other (c ∷ a) (d ∷ b) p t h k n = elim (ℕ_discrete c d) [
  | yes e ↦
      if_pos (ℕ_discrete c d) e _ _
      ∙ has_prefix-other a b p t h.1 k.1 (λ q. n (cons_path (sym e) q))
  | no e ↦ if_neg (ℕ_discrete c d) e _ _
]

-- A last segment.
has_prefix-last :
    (a b t : Text)
    → HasNoSlash a
    → HasNoSlash b
    → has_prefix (a ++ codes "/") (b ++ 47 ∷ t) ≡ ite (text_eq b a) true false
unfolding ℕ_discrete
has_prefix-last a b t h k = elim (text_eq b a) [
  | yes e ↦
      ap (λ c. has_prefix (a ++ codes "/") (c ++ 47 ∷ t)) e
      ∙ has_prefix-same a (codes "/") (47 ∷ t)
      ∙ sym (if_pos (text_eq b a) e true false)
  | no e ↦ has_prefix-other a b [] t h k e ∙ sym (if_neg (text_eq b a) e true false)
]

module _ (print : ℕ → Text) (project short : Text) (m : Message) where
  abbrev file_tail : Text
  file_tail =
      print (m.timestamp / 1000000000) ++ (codes "-" ++ (short_id m.id id_prefix ++ extension))

  module _ (h : HasNoSlash project) (k : HasNoSlash short) (plain : IsPlain m) where
    in_thread : has_prefix (thread_dir project short) (file_path print m) ≡ belongs project short m
    unfolding thread_dir file_path belongs
    in_thread = elim (text_eq m.project project) [
      | yes e ↦
          ap
            (λ q.
              has_prefix (project ++ (codes "/threads/" ++ (short ++ codes "/")))
                (q ++ (codes "/threads/" ++ (thread_short m ++ (codes "/" ++ file_tail)))))
            e
          ∙ has_prefix-same project _ _
          ∙ has_prefix-same (codes "/threads/") _ _
          ∙ has_prefix-last short (thread_short m) _ k plain.1
          ∙ sym (if_pos (text_eq m.project project) e _ _)
      | no e ↦
          has_prefix-other project m.project _ _ h plain.0 e
          ∙ sym (if_neg (text_eq m.project project) e _ _)
    ]

    -- A file is read for a thread exactly if its message is one of the thread.
    pub file_path-belongs :
        has_prefix (thread_dir project short) (file_path print m)
          && has_suffix extension (file_path print m)
        ≡ belongs project short m
    file_path-belongs = ground (arith, in_thread, has_suffix-file_path print m)

pub belongs-true :
    (project short : Text) (m : Message)
    → belongs project short m ≡ true
    → (m.project ≡ project) × (short_id m.thread thread_prefix ≡ short)
unfolding belongs thread_short
belongs-true project short m e = ground arith

-- A message whose thread has that short id belongs to it.
pub belongs-own :
    (m : Message) (project short : Text)
    → m.project ≡ project
    → short_id m.thread thread_prefix ≡ short
    → belongs project short m ≡ true
unfolding belongs thread_short
belongs-own m project short p q = ground arith

pub thread_short_lem : (m : Message) → short_id m.thread thread_prefix ≡ thread_short m
unfolding thread_short
thread_short_lem m = refl
