-- ===== src/Notify/Dedup/Window.antt =====
-- The memory of ids after any messages: bounded, without repeats, its map and its order list in
-- step.
use edge_sync.Base.{
  member, delete, ℕ, ◌/◌, ◌≤◌, ◌≡◌, refl, sym, subst, ◌∙◌, inl, inr, List, [], ◌∷◌, ◌++◌, true,
  false, ite, length, length-append, length-drop, take, drop, take-append-drop, ltb, ltb→lt, not,
  Text, text_eq, arith, Bool-cases, ◌||◌, ◌&&◌,
}
use edge_sync.Notify.Dedup.{Subscriber, delete_all, remember, is_duplicate_at, run, enable_dedup}

-- No id stands twice in the list.
abbrev pub NoRepeats : List Text → Type 0
NoRepeats [] = Unit {0}
NoRepeats (x ∷ xs) = (member x xs ≡ false) × NoRepeats xs

-- The map holds the ids of the order list, which has no repeats and stays within the cap.
pub record IsWindow (cap : ℕ) (s : Subscriber) : Type 0 where
  pub agrees : (x : Text) → member x s.seen ≡ member x s.seen_order
  pub no_repeats : NoRepeats s.seen_order
  pub bounded : length s.seen_order ≤ cap

member-delete :
    (x a : Text) (xs : List Text) → member x (delete a xs) ≡ ite (text_eq a x) false (member x xs)
unfolding member delete
member-delete x a [] = ground arith
member-delete x a (y ∷ ys) = ground (arith, member-delete x a ys)

pub member-append :
    (x : Text) (xs ys : List Text) → member x (xs ++ ys) ≡ member x xs || member x ys
unfolding member
member-append x [] ys = refl
member-append x (y ∷ xs) ys = ground (arith, member-append x xs ys)

member-delete_all :
    (x : Text) (olds xs : List Text)
    → member x (delete_all olds xs) ≡ not (member x olds) && member x xs
unfolding member delete_all
member-delete_all x [] xs = refl
member-delete_all x (a ∷ olds) xs =
    ground (arith, member-delete_all x olds (delete a xs), member-delete x a xs)

NoRepeats-snoc :
    (a : Text) (xs : List Text) → NoRepeats xs → member a xs ≡ false → NoRepeats (xs ++ a ∷ [])
unfolding member
NoRepeats-snoc a [] h n = (refl, tt)
NoRepeats-snoc a (x ∷ xs) h n =
    (ground (arith, member-append x xs (a ∷ [])), NoRepeats-snoc a xs h.1 (ground arith))

NoRepeats-right : (xs ys : List Text) → NoRepeats (xs ++ ys) → NoRepeats ys
NoRepeats-right [] ys h = h
NoRepeats-right (x ∷ xs) ys h = NoRepeats-right xs ys h.1

apart :
    (x : Text) (xs ys : List Text) → NoRepeats (xs ++ ys) → member x xs ≡ true → member x ys ≡ false
unfolding member
apart x [] ys h m = cc
apart x (y ∷ xs) ys h m = ground (arith, member-append y xs ys, apart x xs ys h.1)

module _ (cap : ℕ) (positive : 1 ≤ cap) (id : Text) (s : Subscriber) (w : IsWindow cap s) where
  abbrev order : List Text
  order = s.seen_order ++ id ∷ []

  abbrev half : ℕ
  half = length order / 2

  module _ (new : member id s.seen ≡ false) where
    order-NoRepeats : NoRepeats order
    order-NoRepeats = NoRepeats-snoc id s.seen_order w.no_repeats (sym (w.agrees id) ∙ new)

    member-order : (x : Text) → member x (id ∷ s.seen) ≡ member x order
    unfolding member
    member-order x = ground (arith, member-append x s.seen_order (id ∷ []), w.agrees x)

    split_order :
        (x : Text) → member x order ≡ member x (take half order) || member x (drop half order)
    split_order x =
        subst (λ l. member x l ≡ member x (take half order) || member x (drop half order))
          (take-append-drop half order) (member-append x (take half order) (drop half order))

    halves-NoRepeats : NoRepeats (take half order ++ drop half order)
    halves-NoRepeats = subst NoRepeats (sym (take-append-drop half order)) order-NoRepeats

    evicted-agrees :
        (x : Text)
        → member x (delete_all (take half order) (id ∷ s.seen)) ≡ member x (drop half order)
    evicted-agrees x = ground (
      arith,
      member-delete_all x (take half order) (id ∷ s.seen),
      member-order x,
      split_order x,
      apart x (take half order) (drop half order) halves-NoRepeats,
    )

    remember-IsWindow : IsWindow cap (remember cap id s)
    unfolding remember
    remember-IsWindow = elim (Bool-cases (ltb cap (length order))) [
      | inl full ↦
          rw (full, remember)
            (record {
              agrees = evicted-agrees;
              no_repeats = NoRepeats-right (take half order) (drop half order) halves-NoRepeats;
              bounded = omega (
                arith,
                length-drop half order,
                length-append s.seen_order (id ∷ []),
                w.bounded,
                ltb→lt cap (length order) full,
              );
            })
      | inr room ↦
          rw (room, remember)
            (record { agrees = member-order; no_repeats = order-NoRepeats; bounded = ground arith })
    ]

  is_duplicate_at_off : s.dedup ≡ false → is_duplicate_at cap id s ≡ (false, s)
  unfolding is_duplicate_at
  is_duplicate_at_off off = ground arith

  pub is_duplicate_at_old :
      s.dedup ≡ true → member id s.seen ≡ true → is_duplicate_at cap id s ≡ (true, s)
  unfolding is_duplicate_at
  is_duplicate_at_old on old = ground arith

  pub is_duplicate_at_new :
      s.dedup ≡ true
      → member id s.seen ≡ false
      → is_duplicate_at cap id s ≡ (false, remember cap id s)
  unfolding is_duplicate_at
  is_duplicate_at_new on new = ground arith

  -- Every call keeps the map and the order list in step, free of repeats and within the cap.
  pub is_duplicate_at-IsWindow : IsWindow cap (is_duplicate_at cap id s).1
  is_duplicate_at-IsWindow = elim (Bool-cases s.dedup) [
    | inr off ↦ rw (is_duplicate_at_off off) w
    | inl on ↦ elim (Bool-cases (member id s.seen)) [
      | inl old ↦ rw (is_duplicate_at_old on old) w
      | inr new ↦ rw (is_duplicate_at_new on new) (remember-IsWindow new)
    ]
  ]

pub enable_dedup-IsWindow : (cap : ℕ) (s : Subscriber) → IsWindow cap (enable_dedup s)
unfolding enable_dedup
enable_dedup-IsWindow cap s = record { agrees = λ x. refl; no_repeats = tt; bounded = omega arith }

-- With a positive cap, from a state that is well-formed in this sense (as `EnableDedup` leaves it)
-- any messages keep the memory within the cap, its map and its order list with the same ids, and no
-- id held twice.
pub run-IsWindow :
    (cap : ℕ) (ids : List Text) (s : Subscriber)
    → 1 ≤ cap
    → IsWindow cap s
    → IsWindow cap (run cap ids s)
unfolding run
run-IsWindow cap [] s positive w = w
run-IsWindow cap (id ∷ ids) s positive w =
    run-IsWindow cap ids (is_duplicate_at cap id s).1 positive
      (is_duplicate_at-IsWindow cap positive id s w)
