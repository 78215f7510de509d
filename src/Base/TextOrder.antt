-- ===== src/Base/TextOrder.antt =====
-- Texts in the order of their bytes, and insertion sort by a key that is a text (sort.Strings, and
-- SQLite's ORDER BY on a text).
use mathlib.Core.Path.{◌≡◌, refl, sym, ap, ◌∙◌}
use mathlib.Core.Logic.{inl, inr}
use mathlib.Core.Bool.{Bool, true, false}
use mathlib.Core.List.{List, [], ◌∷◌, map}
use native.Mathlib.Omega.{arith}
use edge_sync.Base.Tests.{ltb, ◌==◌, if◌then◌else◌, Bool-cases}
use edge_sync.Base.Texts.{Text}
use edge_sync.Base.Lists.{All, All-imp, All-keep, keep, keep-true, keep-false}

unfoldable pub text_leb : Text → Text → Bool
text_leb [] ys = true
text_leb (x ∷ xs) [] = false
text_leb (x ∷ xs) (y ∷ ys) =
    let rest = text_leb xs ys in if ltb x y then true else if x == y then rest else false

text_leb_trans :
    (xs ys zs : Text) → text_leb xs ys ≡ true → text_leb ys zs ≡ true → text_leb xs zs ≡ true
unfolding text_leb
text_leb_trans [] ys zs p q = refl
text_leb_trans (x ∷ xs) [] zs p q = cc
text_leb_trans (x ∷ xs) (y ∷ ys) [] p q = cc
text_leb_trans (x ∷ xs) (y ∷ ys) (z ∷ zs) p q = ground (arith, text_leb_trans xs ys zs)

text_leb_total : (xs ys : Text) → text_leb xs ys ≡ false → text_leb ys xs ≡ true
unfolding text_leb
text_leb_total [] ys p = cc
text_leb_total (x ∷ xs) [] p = refl
text_leb_total (x ∷ xs) (y ∷ ys) p = ground (arith, text_leb_total xs ys)

module _ {A : Type 0} (key : A → Text) where
  unfoldable pub insert_by : A → List A → List A
  insert_by x [] = x ∷ []
  insert_by x (y ∷ ys) =
      let rest = insert_by x ys in if text_leb (key x) (key y) then x ∷ y ∷ ys else y ∷ rest

  unfoldable pub sort_by : List A → List A
  unfolding insert_by
  sort_by [] = []
  sort_by (x ∷ xs) = insert_by x (sort_by xs)

  abbrev pub IsOrdered : List A → Type 0
  IsOrdered [] = Unit {0}
  IsOrdered (x ∷ xs) = All (λ y. text_leb (key x) (key y) ≡ true) xs × IsOrdered xs

  pub All-insert_by {κ} :
      (P : A → Type κ) (x : A) (ys : List A) → P x → All P ys → All P (insert_by x ys)
  unfolding insert_by
  All-insert_by P x [] px h = (px, tt)
  All-insert_by P x (y ∷ ys) px h = elim (Bool-cases (text_leb (key x) (key y))) [
    | inl e ↦ rw e (px, h)
    | inr e ↦ rw e (h.0, All-insert_by P x ys px h.1)
  ]

  pub All-sort_by {κ} : (P : A → Type κ) (xs : List A) → All P xs → All P (sort_by xs)
  unfolding sort_by
  All-sort_by P [] h = tt
  All-sort_by P (x ∷ xs) h = All-insert_by P x (sort_by xs) h.0 (All-sort_by P xs h.1)

  -- What comes first in order stands in front of all.
  All-behind :
      (x y : A) (ys : List A)
      → text_leb (key x) (key y) ≡ true
      → All (λ z. text_leb (key y) (key z) ≡ true) ys
      → All (λ z. text_leb (key x) (key z) ≡ true) ys
  All-behind x y ys p h = All-imp ys (λ z q. text_leb_trans (key x) (key y) (key z) p q) h

  insert_by-IsOrdered : (x : A) (ys : List A) → IsOrdered ys → IsOrdered (insert_by x ys)
  unfolding insert_by
  insert_by-IsOrdered x [] s = (tt, tt)
  insert_by-IsOrdered x (y ∷ ys) s = elim (Bool-cases (text_leb (key x) (key y))) [
    | inl e ↦ rw e ((e, All-behind x y ys e s.0), s)
    | inr e ↦ rw e (
      All-insert_by (λ z. text_leb (key y) (key z) ≡ true) x ys (text_leb_total (key x) (key y) e)
          s.0,
      insert_by-IsOrdered x ys s.1,
    )
  ]

  pub sort_by-IsOrdered : (xs : List A) → IsOrdered (sort_by xs)
  unfolding sort_by
  sort_by-IsOrdered [] = tt
  sort_by-IsOrdered (x ∷ xs) = insert_by-IsOrdered x (sort_by xs) (sort_by-IsOrdered xs)

  -- In front of all that comes later.
  insert_by-first :
      (x : A) (ys : List A)
      → All (λ z. text_leb (key x) (key z) ≡ true) ys
      → insert_by x ys ≡ x ∷ ys
  unfolding insert_by
  insert_by-first x [] h = refl
  insert_by-first x (y ∷ ys) h = rw h.0 refl

  -- Sorting what is in order changes nothing.
  pub sort_by-IsOrdered_id : (xs : List A) → IsOrdered xs → sort_by xs ≡ xs
  unfolding sort_by
  sort_by-IsOrdered_id [] s = refl
  sort_by-IsOrdered_id (x ∷ xs) s =
      ap (insert_by x) (sort_by-IsOrdered_id xs s.1) ∙ insert_by-first x xs s.0

  insert_by-ne-nil : (x : A) (ys : List A) → ¬ (insert_by x ys ≡ [])
  unfolding insert_by
  insert_by-ne-nil x [] e = cc
  insert_by-ne-nil x (y ∷ ys) e = ground arith

  pub sort_by-eq-nil : (xs : List A) → sort_by xs ≡ [] → xs ≡ []
  unfolding sort_by
  sort_by-eq-nil [] e = refl
  sort_by-eq-nil (x ∷ xs) e = absurd (insert_by-ne-nil x (sort_by xs) e)

  -- Keeping some of what is in order, and an insertion.
  module _ (p : A → Bool) where
    keep-insert_by-true :
        (x : A) (ys : List A)
        → p x ≡ true
        → IsOrdered ys
        → keep p (insert_by x ys) ≡ insert_by x (keep p ys)
    unfolding insert_by keep
    keep-insert_by-true x [] e s = ground arith
    keep-insert_by-true x (y ∷ ys) e s = elim (Bool-cases (text_leb (key x) (key y))) [
      | inl f ↦
          let behind = All-behind x y ys f s.0 in
          let first = insert_by-first x (keep p (y ∷ ys)) (All-keep _ p (y ∷ ys) (f, behind)) in
          ground (arith, first)
      | inr f ↦ ground (arith, keep-insert_by-true x ys e s.1)
    ]

    keep-insert_by-false : (x : A) (ys : List A) → p x ≡ false → keep p (insert_by x ys) ≡ keep p ys
    unfolding insert_by keep
    keep-insert_by-false x [] e = ground arith
    keep-insert_by-false x (y ∷ ys) e = ground (arith, keep-insert_by-false x ys e)

    -- Sorting and keeping commute.
    pub keep-sort_by : (xs : List A) → keep p (sort_by xs) ≡ sort_by (keep p xs)
    unfolding sort_by keep
    keep-sort_by [] = refl
    keep-sort_by (x ∷ xs) = elim (Bool-cases (p x)) [
      | inl e ↦
          keep-insert_by-true x (sort_by xs) e (sort_by-IsOrdered xs)
          ∙ ap (insert_by x) (keep-sort_by xs)
          ∙ ap sort_by (sym (keep-true p x xs e))
      | inr e ↦
          keep-insert_by-false x (sort_by xs) e
          ∙ keep-sort_by xs
          ∙ ap sort_by (sym (keep-false p x xs e))
    ]

-- A list sorted by a key has the sorted list of its keys.
module _ {A : Type 0} (key : A → Text) where
  map-insert_by :
      (x : A) (ys : List A) → map key (insert_by key x ys) ≡ insert_by (λ t. t) (key x) (map key ys)
  unfolding insert_by
  map-insert_by x [] = refl
  map-insert_by x (y ∷ ys) = ground (arith, map-insert_by x ys)

  pub map-sort_by : (xs : List A) → map key (sort_by key xs) ≡ sort_by (λ t. t) (map key xs)
  unfolding sort_by
  map-sort_by [] = refl
  map-sort_by (x ∷ xs) =
      map-insert_by x (sort_by key xs) ∙ ap (insert_by (λ t. t) (key x)) (map-sort_by xs)

  pub map-keep :
      (p : Text → Bool) (xs : List A) → keep p (map key xs) ≡ map key (keep (λ x. p (key x)) xs)
  unfolding keep
  map-keep p [] = refl
  map-keep p (x ∷ xs) = ground (arith, map-keep p xs)
