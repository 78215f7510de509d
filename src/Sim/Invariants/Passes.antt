-- ===== src/Sim/Invariants/Passes.antt =====
-- When the checks pass.
use edge_sync.Base.{
  text_eq, member, Text, ◌≡◌, refl, sym, ap, subst, ◌∙◌, inl, inr, if_pos, if_neg, true, List, [],
  ◌∷◌, ◌++◌, arith, Bool-cases, All, All-imp,
}
use edge_sync.Sim.Invariants.{to_set, lacks}

pub append-eq-nil : {A : Type 0} (xs ys : List A) → xs ++ ys ≡ [] → (xs ≡ []) × (ys ≡ [])
append-eq-nil [] ys e = (refl, e)
append-eq-nil (x ∷ xs) ys e = cc

-- A test that holds throughout holds of each member.
pub member-All :
    (P : Text → Type 0) (u : Text) (xs : List Text) → All P xs → member u xs ≡ true → P u
unfolding member
member-All P u [] h m = cc
member-All P u (x ∷ xs) h m = elim (text_eq x u) [
  | yes e ↦ subst P e h.0
  | no e ↦ member-All P u xs h.1 (sym (if_neg (text_eq x u) e true (member u xs)) ∙ m)
]

pub All-member : (xs : List Text) → All (λ u. member u xs ≡ true) xs
unfolding member
All-member [] = tt
All-member (x ∷ xs) =
    (if_pos (text_eq x x) refl true _, All-imp xs (λ u h. grown u h) (All-member xs))
  where
    grown : (u : Text) → member u xs ≡ true → member u (x ∷ xs) ≡ true
    grown u h = ground arith

pub member-to_set : (u : Text) (xs : List Text) → member u (to_set xs) ≡ member u xs
unfolding member to_set
member-to_set u [] = refl
member-to_set u (x ∷ xs) = elim (Bool-cases (member x (to_set xs))) [
  | inr new ↦ ground (arith, member-to_set u xs)
  | inl old ↦ elim (text_eq x u) [
    | yes e ↦ rw old (
        sym (ap (λ t. member t (to_set xs)) e)
        ∙ old
        ∙ sym (if_pos (text_eq x u) e true (member u xs)))
    | no e ↦ rw old (member-to_set u xs ∙ sym (if_neg (text_eq x u) e true (member u xs)))
  ]
]

pub lacks-eq-nil :
    (label word : Text) (set us : List Text)
    → lacks label word set us ≡ []
    → All (λ u. member u set ≡ true) us
unfolding lacks
lacks-eq-nil label word set [] e = tt
lacks-eq-nil label word set (u ∷ us) e =
    (ground arith, lacks-eq-nil label word set us (ground arith))

pub lacks-nil_of :
    (label word : Text) (set us : List Text)
    → All (λ u. member u set ≡ true) us
    → lacks label word set us ≡ []
unfolding lacks
lacks-nil_of label word set [] h = refl
lacks-nil_of label word set (u ∷ us) h = ground (arith, lacks-nil_of label word set us h.1)

-- The texts of both lists are the same.
abbrev pub SameTexts : List Text → List Text → Type 0
SameTexts xs ys = (u : Text) → member u xs ≡ member u ys

pub SameTexts-of :
    (xs ys : List Text)
    → All (λ u. member u xs ≡ true) ys
    → All (λ u. member u ys ≡ true) xs
    → SameTexts xs ys
SameTexts-of xs ys h k u = elim (Bool-cases (member u xs)) [
  | inl e ↦ e ∙ sym (member-All (λ u. member u ys ≡ true) u xs k e)
  | inr e ↦ elim (Bool-cases (member u ys)) [
    | inl f ↦ cc (member-All (λ u. member u xs ≡ true) u ys h f)
    | inr f ↦ e ∙ sym f
  ]
]
