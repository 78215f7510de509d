-- ===== src/Notify/Message/Paths.antt =====
-- Where a message is published and stored, and what a thread's summary says of its urgency.
use edge_sync.Base.{
  ℕ, ◌-◌, ◌/◌, ◌≤◌, ◌≡◌, refl, sym, ap, ◌∙◌, inl, inr, ◌⊎◌, List, [], ◌∷◌, ◌++◌, append_assoc, Bool,
  true, false, ◌&&◌, ltb, length, length-append, take, drop, drop-length-append, take_whole, map,
  ◌<◌, keep, keep-true, keep-append, has_prefix, has_prefix-append, if◌then◌else◌, Bool-cases, All,
  Elem, Text, codes, arith, subst,
}
use edge_sync.Notify.Message.{
  Message, MessageOpts, ReplyOpts, new_message, new_reply, short_id, thread_short, nats_subject,
  thread_dir, extension, file_path, has_suffix, matching, priority_rank, highest_from,
  highest_priority, id_prefix, thread_prefix, priority_info,
}

has_suffix-append : (suffix xs : Text) → has_suffix suffix (xs ++ suffix) ≡ true
unfolding has_suffix
has_suffix-append suffix xs =
    let len : length (xs ++ suffix) - length suffix ≡ length xs =
      omega (arith, length-append xs suffix) in
    let tail : drop (length (xs ++ suffix) - length suffix) (xs ++ suffix) ≡ suffix =
      ap (λ n. drop n (xs ++ suffix)) len ∙ drop-length-append xs suffix in
    ground (arith, length-append xs suffix)

module _ (print : ℕ → Text) (m : Message) where
  abbrev file_name : Text
  file_name = print (m.timestamp / 1000000000) ++ (codes "-" ++ short_id m.id id_prefix)

  file_path-split :
      file_path print m ≡ thread_dir m.project (thread_short m) ++ (file_name ++ extension)
  unfolding file_path thread_dir
  file_path-split = simp append_assoc

  pub has_suffix-file_path : has_suffix extension (file_path print m) ≡ true
  has_suffix-file_path =
      let dir = thread_dir m.project (thread_short m) in
      ap (has_suffix extension) (file_path-split ∙ sym (append_assoc dir file_name extension))
      ∙ has_suffix-append extension (dir ++ file_name)

  file_path-listed :
      has_prefix (thread_dir m.project (thread_short m)) (file_path print m)
        && has_suffix extension (file_path print m)
      ≡ true
  file_path-listed =
      let dir = thread_dir m.project (thread_short m) in
      let front : has_prefix dir (file_path print m) ≡ true =
        ap (has_prefix dir) file_path-split ∙ has_prefix-append dir (file_name ++ extension) in
      ground (arith, has_suffix-file_path)

  -- ReadThread finds the file of a message: among any files of the repository it reads the message's
  -- own exactly where it stands.
  pub matching-file_path :
      (before after : List Text)
      → matching m.project (thread_short m) (before ++ file_path print m ∷ after)
        ≡ matching m.project (thread_short m) before
          ++ file_path print m ∷ matching m.project (thread_short m) after
  unfolding matching
  matching-file_path before after =
      let reads : Text → Bool =
        λ f. has_prefix (thread_dir m.project (thread_short m)) f && has_suffix extension f in
      keep-append reads before (file_path print m ∷ after)
      ∙ ap (◌++◌ (keep reads before)) (keep-true reads (file_path print m) after file_path-listed)

-- A reply, to a reply too, goes to the subject and into the thread's files of the original.
pub new_reply-matching :
    (print : ℕ → Text) (uuid : Text) (now : ℕ) (original : Message) (o : ReplyOpts)
    → (nats_subject (new_reply uuid now original o) ≡ nats_subject original)
      × (matching original.project
            (thread_short original)
            (file_path print (new_reply uuid now original o) ∷ [])
          ≡ file_path print (new_reply uuid now original o) ∷ [])
unfolding nats_subject new_reply thread_short matching keep
new_reply-matching print uuid now original o =
    (refl, matching-file_path print (new_reply uuid now original o) [] [])

-- The short form of a new thread's id is the first eight characters of its uuid, or the whole of a
-- shorter one.
pub thread_short-new_message :
    (uuid₁ uuid₂ : Text) (now : ℕ) (o : MessageOpts)
    → 0 < length uuid₂
    → thread_short (new_message uuid₁ uuid₂ now o) ≡ take 8 uuid₂
unfolding thread_short new_message short_id
thread_short-new_message uuid₁ uuid₂ now o positive = ground (
  arith,
  length-append thread_prefix uuid₂,
  drop-length-append thread_prefix uuid₂,
  take_whole uuid₂ 8,
)

module _ (best : Text) (m : Message) (ms : List Message) where
  highest_from_higher :
      ltb (priority_rank best) (priority_rank m.priority) ≡ true
      → highest_from m.priority ms ≡ highest_from best (m ∷ ms)
  unfolding highest_from
  highest_from_higher h = ap (λ b. highest_from (if b then m.priority else best) ms) (sym h)

  highest_from_other :
      ltb (priority_rank best) (priority_rank m.priority) ≡ false
      → highest_from best ms ≡ highest_from best (m ∷ ms)
  unfolding highest_from
  highest_from_other h = ap (λ b. highest_from (if b then m.priority else best) ms) (sym h)

-- The text ranks at least as high as the first one and as each of the messages.
abbrev IsTop : Text → List Message → Text → Type 0
IsTop best ms top =
    (priority_rank best ≤ priority_rank top)
    × All (λ m. priority_rank m.priority ≤ priority_rank top) ms

highest_from-IsTop : (best : Text) (ms : List Message) → IsTop best ms (highest_from best ms)
highest_from-IsTop best [] = unfold highest_from in (omega arith, tt)
highest_from-IsTop best (m ∷ ms) =
    elim (Bool-cases (ltb (priority_rank best) (priority_rank m.priority))) [
      | inl more ↦
          let (top, rest) = highest_from-IsTop m.priority ms in
          subst (IsTop best (m ∷ ms)) (highest_from_higher best m ms more)
            (ground arith, (top, rest))
      | inr less ↦
          let (top, rest) = highest_from-IsTop best ms in
          subst (IsTop best (m ∷ ms)) (highest_from_other best m ms less)
            (top, (ground arith, rest))
    ]

abbrev pub priorities : List Message → List Text
priorities = map (λ m. m.priority)

highest_from-Elem :
    (best : Text) (ms : List Message)
    → (highest_from best ms ≡ best) ⊎ Elem (highest_from best ms) (priorities ms)
highest_from-Elem best [] = inl (unfold highest_from in refl)
highest_from-Elem best (m ∷ ms) =
    let P : Text → Type 0 = λ t. (t ≡ best) ⊎ Elem t (priorities (m ∷ ms)) in
    elim (Bool-cases (ltb (priority_rank best) (priority_rank m.priority))) [
      | inl more ↦
          subst P (highest_from_higher best m ms more) (elim (highest_from-Elem m.priority ms) [
            | inl e ↦ inr (inl (sym e))
            | inr h ↦ inr (inr h)
          ])
      | inr less ↦
          subst P (highest_from_other best m ms less)
            (elim (highest_from-Elem best ms) [ inl e ↦ inl e | inr h ↦ inr (inr h) ])
    ]

-- The priority of a thread ranks at least as high as that of each of its messages, and it is the
-- priority of one of them or "info".
pub highest_priority_lem :
    (ms : List Message)
    → All (λ m. priority_rank m.priority ≤ priority_rank (highest_priority ms)) ms
      × ((highest_priority ms ≡ priority_info) ⊎ Elem (highest_priority ms) (priorities ms))
unfolding highest_priority
highest_priority_lem ms =
    ((highest_from-IsTop priority_info ms).1, highest_from-Elem priority_info ms)
