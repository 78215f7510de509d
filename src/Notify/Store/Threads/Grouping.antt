-- ===== src/Notify/Store/Threads/Grouping.antt =====
-- Each group has exactly the files of its thread.
use edge_sync.Base.{
  text_eq, Text, ◌≡◌, refl, sym, ap, subst, ◌∙◌, ◌≢◌, ◌⊎◌, inl, inr, ite, if_pos, if_neg, Bool,
  true, false, none, some, List, [], ◌∷◌, ◌++◌, append-nil, append_assoc, Option-cases, keep,
  keep-nil, keep-true, keep-false, All, All-imp, keep-append, Elem,
}
use edge_sync.Notify.Store.Threads.{Groups, thread_name, add_file, group}

-- The file is put to the thread.
unfoldable pub is_of : Text → Text → Text → Bool
is_of project t f = elim (thread_name project f) [
  | none ↦ false
  | some u ↦ ite (text_eq u t) true false
]

abbrev pub Other : Text → (Text × List Text) → Type 0
Other t e = e.0 ≢ t

abbrev IsDistinct : Groups → Type 0
IsDistinct [] = Unit {0}
IsDistinct (e ∷ groups) = All (Other e.0) groups × IsDistinct groups

pub find_group :
    (t : Text) (groups : Groups)
    → ((paths : List Text) × Elem (t, paths) groups) ⊎ All (Other t) groups
find_group t [] = inr tt
find_group t ((u, paths) ∷ groups) = elim (text_eq u t) [
  | yes e ↦ inl (paths, inl (λ i. (e i, paths)))
  | no e ↦ elim (find_group t groups) [ inl (ps, m) ↦ inl (ps, inr m) | inr h ↦ inr (e, h) ]
]

pub All-add_file :
    (P : Text → Type 0) (t f : Text) (groups : Groups)
    → P t
    → All (λ e. P e.0) groups
    → All (λ e. P e.0) (add_file t f groups)
unfolding add_file
All-add_file P t f [] p h = (p, tt)
All-add_file P t f ((u, paths) ∷ groups) p h = elim (text_eq u t) [
  | yes e ↦ rw (if_pos (text_eq u t) e) h
  | no e ↦ rw (if_neg (text_eq u t) e) (h.0, All-add_file P t f groups p h.1)
]

add_file-IsDistinct :
    (t f : Text) (groups : Groups) → IsDistinct groups → IsDistinct (add_file t f groups)
unfolding add_file
add_file-IsDistinct t f [] d = (tt, tt)
add_file-IsDistinct t f ((u, paths) ∷ groups) d = elim (text_eq u t) [
  | yes e ↦ rw (if_pos (text_eq u t) e) d
  | no e ↦ rw (if_neg (text_eq u t) e) (
    All-add_file (λ v. v ≢ u) t f groups (λ p. e (sym p)) d.0,
    add_file-IsDistinct t f groups d.1,
  )
]

module _ (project : Text) where
  -- The group has the files of its thread, in order.
  abbrev pub Has : List Text → (Text × List Text) → Type 0
  Has files e = e.1 ≡ keep (is_of project e.0) files

  pub record IsGrouped (files : List Text) (groups : Groups) : Type 0 where
    pub exact : All (Has files) groups
    pub absent : (t : Text) → All (Other t) groups → keep (is_of project t) files ≡ []
    pub distinct : IsDistinct groups

  -- A file that is put to no thread, or to another one, changes nothing.
  is_of_unnamed : (t f : Text) → thread_name project f ≡ none → is_of project t f ≡ false
  unfolding is_of
  is_of_unnamed t f e = rw (e, is_of) refl

  is_of_same : (t f : Text) → thread_name project f ≡ some t → is_of project t f ≡ true
  unfolding is_of
  is_of_same t f e = rw (e, is_of) (if_pos (text_eq t t) refl true false)

  is_of_other : (t u f : Text) → thread_name project f ≡ some t → t ≢ u → is_of project u f ≡ false
  unfolding is_of
  is_of_other t u f e d = rw (e, is_of) (if_neg (text_eq t u) d true false)

  keep_more :
      (t f : Text) (files : List Text)
      → is_of project t f ≡ true
      → keep (is_of project t) (files ++ f ∷ []) ≡ keep (is_of project t) files ++ f ∷ []
  keep_more t f files e =
      keep-append (is_of project t) files (f ∷ [])
      ∙ ap (◌++◌ (keep (is_of project t) files))
          (keep-true (is_of project t) f [] e ∙ ap (◌∷◌ f) (keep-nil _))

  keep_same :
      (t f : Text) (files : List Text)
      → is_of project t f ≡ false
      → keep (is_of project t) (files ++ f ∷ []) ≡ keep (is_of project t) files
  keep_same t f files e =
      keep-append (is_of project t) files (f ∷ [])
      ∙ ap (◌++◌ (keep (is_of project t) files)) (keep-false (is_of project t) f [] e ∙ keep-nil _)
      ∙ append-nil _

  module _ (files : List Text) (f : Text) where
    none-IsGrouped :
        (groups : Groups)
        → thread_name project f ≡ none
        → IsGrouped files groups
        → IsGrouped (files ++ f ∷ []) groups
    none-IsGrouped groups e g = record {
      exact =
          All-imp groups (λ x h. h ∙ sym (keep_same x.0 f files (is_of_unnamed x.0 f e))) g.exact;
      absent = λ t h. keep_same t f files (is_of_unnamed t f e) ∙ g.absent t h;
      distinct = g.distinct;
    }

    module _ (t : Text) (named : thread_name project f ≡ some t) where
      exact_others :
          (groups : Groups)
          → All (Other t) groups
          → All (Has files) groups
          → All (Has (files ++ f ∷ [])) groups
      exact_others [] d h = tt
      exact_others ((u, paths) ∷ groups) d h = (
        h.0 ∙ sym (keep_same u f files (is_of_other t u f named (λ p. d.0 (sym p)))),
        exact_others groups d.1 h.1,
      )

      exact_added :
          (groups : Groups)
          → IsDistinct groups
          → (All (Other t) groups → keep (is_of project t) files ≡ [])
          → All (Has files) groups
          → All (Has (files ++ f ∷ [])) (add_file t f groups)
      unfolding add_file
      exact_added [] d a h =
          (sym (keep_more t f files (is_of_same t f named) ∙ ap (λ l. l ++ f ∷ []) (a tt)), tt)
      exact_added ((u, paths) ∷ groups) d a h = elim (text_eq u t) [
        | yes e ↦ rw (if_pos (text_eq u t) e) (
          ap (λ l. l ++ f ∷ []) h.0
              ∙ sym (keep_more u f files (is_of_same u f (named ∙ ap some (sym e)))),
          exact_others groups (subst (λ v. All (Other v) groups) e d.0) h.1,
        )
        | no e ↦ rw (if_neg (text_eq u t) e) (
          h.0 ∙ sym (keep_same u f files (is_of_other t u f named (λ p. e (sym p)))),
          exact_added groups d.1 (λ k. a (e, k)) h.1,
        )
      ]

      -- No group has another thread's name only if it is not that of the file.
      absent_added :
          (u : Text) (groups : Groups)
          → All (Other u) (add_file t f groups)
          → All (Other u) groups × (t ≢ u)
      unfolding add_file
      absent_added u [] h = (tt, h.0)
      absent_added u ((v, paths) ∷ groups) h = elim (text_eq v t) [
        | yes e ↦ let k = rw (if_pos (text_eq v t) e) at h in (k, λ p. k.0 (e ∙ p))
        | no e ↦
            let k = rw (if_neg (text_eq v t) e) at h in
            let (rest, d) = absent_added u groups k.1 in ((k.0, rest), d)
      ]

      add_file-IsGrouped :
          (groups : Groups)
          → IsGrouped files groups
          → IsGrouped (files ++ f ∷ []) (add_file t f groups)
      add_file-IsGrouped groups g = record {
        exact = exact_added groups g.distinct (g.absent t) g.exact;
        absent = λ u h.
            let (rest, d) = absent_added u groups h in
            keep_same u f files (is_of_other t u f named d) ∙ g.absent u rest;
        distinct = add_file-IsDistinct t f groups g.distinct;
      }

  group-IsGrouped_from :
      (fs files : List Text) (groups : Groups)
      → IsGrouped files groups
      → IsGrouped (files ++ fs) (group project groups fs)
  unfolding group
  group-IsGrouped_from [] files groups g = rw (append-nil files) g
  group-IsGrouped_from (f ∷ fs) files groups g =
      subst (λ l. IsGrouped l (group project groups (f ∷ fs))) (append_assoc files (f ∷ []) fs)
        (elim (Option-cases (thread_name project f)) [
          | inl e ↦
              rw e (
                group-IsGrouped_from fs (files ++ f ∷ []) groups
                  (none-IsGrouped files f groups e g))
          | inr (t, e) ↦ rw e (
              group-IsGrouped_from fs (files ++ f ∷ []) (add_file t f groups)
                (add_file-IsGrouped files f t e groups g))
        ])

  pub group-IsGrouped : (files : List Text) → IsGrouped files (group project [] files)
  group-IsGrouped files =
      group-IsGrouped_from files [] []
        (record { exact = tt; absent = λ t h. keep-nil _; distinct = tt })
