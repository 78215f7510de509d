-- ===== src/Base/Lists.antt =====
-- Lists measured by native numbers, and predicates over lists by recursion.
use Prim.Native.Nat.{ℕ, zero, suc, ◌+◌, ◌-◌, ◌≤◌}
use native.Mathlib.Nat.{zero-add, suc-add}
use mathlib.Core.Path.{◌≡◌, refl, ap, subst}
use mathlib.Core.Logic.{◌⊎◌, inl, inr}
use mathlib.Core.Bool.{Bool, true, false}
use mathlib.Core.List.{List, [], ◌∷◌, ◌++◌, map}
use native.Mathlib.Omega.{arith}
use edge_sync.Base.Tests.{Bool-cases}

module _ {ℓ} {A : Type ℓ} where
  abbrev pub length : List A → ℕ
  length [] = 0
  length (x ∷ xs) = suc (length xs)

  abbrev pub take : ℕ → List A → List A
  take zero xs = []
  take (suc n) [] = []
  take (suc n) (x ∷ xs) = x ∷ take n xs

  abbrev pub drop : ℕ → List A → List A
  drop zero xs = xs
  drop (suc n) [] = []
  drop (suc n) (x ∷ xs) = drop n xs

  -- The elements that pass a Boolean test.
  unfoldable pub keep : (A → Bool) → List A → List A
  keep p [] = []
  keep p (x ∷ xs) = let rest = keep p xs in elim (p x) [ true ↦ x ∷ rest | false ↦ rest ]

  pub keep-nil : (p : A → Bool) → keep p [] ≡ []
  unfolding keep
  keep-nil p = refl

  pub keep-true :
      (p : A → Bool) (x : A) (xs : List A) → p x ≡ true → keep p (x ∷ xs) ≡ x ∷ keep p xs
  unfolding keep
  keep-true p x xs h = ground arith

  pub keep-false : (p : A → Bool) (x : A) (xs : List A) → p x ≡ false → keep p (x ∷ xs) ≡ keep p xs
  unfolding keep
  keep-false p x xs h = ground arith

  pub length-eq-zero : (xs : List A) → length xs ≡ 0 → xs ≡ []
  length-eq-zero [] e = refl
  length-eq-zero (x ∷ xs) e = absurd (omega arith)

  pub length-append : (xs ys : List A) → length (xs ++ ys) ≡ length xs + length ys
  length-append [] ys = omega arith
  length-append (x ∷ xs) ys = omega (arith, length-append xs ys)

  pub length-drop : (n : ℕ) (xs : List A) → length (drop n xs) ≡ length xs - n
  length-drop zero xs = omega arith
  length-drop (suc n) [] = omega arith
  length-drop (suc n) (x ∷ xs) = omega (arith, length-drop n xs)

  pub take-append-drop : (n : ℕ) (xs : List A) → take n xs ++ drop n xs ≡ xs
  take-append-drop zero xs = refl
  take-append-drop (suc n) [] = refl
  take-append-drop (suc n) (x ∷ xs) = ap (◌∷◌ x) (take-append-drop n xs)

  -- Every element satisfies the predicate.
  abbrev pub All {κ} : (A → Type κ) → List A → Type κ
  All P [] = Unit
  All P (x ∷ xs) = P x × All P xs

  pub All-append {κ} : (P : A → Type κ) (xs ys : List A) → All P xs → All P ys → All P (xs ++ ys)
  All-append P [] ys hx hy = hy
  All-append P (x ∷ xs) ys hx hy = (hx.0, All-append P xs ys hx.1 hy)

  pub All-imp {κ μ} :
      {P : A → Type κ} {Q : A → Type μ} (xs : List A) → ((x : A) → P x → Q x) → All P xs → All Q xs
  All-imp [] f h = tt
  All-imp (x ∷ xs) f h = (f x h.0, All-imp xs f h.1)

  pub All-and {κ μ} :
      (P : A → Type κ) (Q : A → Type μ) (xs : List A)
      → All P xs
      → All Q xs
      → All (λ x. P x × Q x) xs
  All-and P Q [] h k = tt
  All-and P Q (x ∷ xs) h k = ((h.0, k.0), All-and P Q xs h.1 k.1)

  pub drop-length-append : (xs ys : List A) → drop (length xs) (xs ++ ys) ≡ ys
  drop-length-append [] ys = refl
  drop-length-append (x ∷ xs) ys = drop-length-append xs ys

  pub All-take {κ} : (P : A → Type κ) (n : ℕ) (xs : List A) → All P xs → All P (take n xs)
  All-take P zero xs h = tt
  All-take P (suc n) [] h = tt
  All-take P (suc n) (x ∷ xs) h = (h.0, All-take P n xs h.1)

  pub All-drop {κ} : (P : A → Type κ) (n : ℕ) (xs : List A) → All P xs → All P (drop n xs)
  All-drop P zero xs h = h
  All-drop P (suc n) [] h = tt
  All-drop P (suc n) (x ∷ xs) h = All-drop P n xs h.1

  -- The part of a list that a test keeps is empty exactly if the test fails throughout.
  pub keep-eq-nil : (p : A → Bool) (xs : List A) → keep p xs ≡ [] → All (λ x. p x ≡ false) xs
  unfolding keep
  keep-eq-nil p [] e = tt
  keep-eq-nil p (x ∷ xs) e = (ground arith, keep-eq-nil p xs (ground arith))

  pub keep-nil_of : (p : A → Bool) (xs : List A) → All (λ x. p x ≡ false) xs → keep p xs ≡ []
  unfolding keep
  keep-nil_of p [] h = refl
  keep-nil_of p (x ∷ xs) h = ground (arith, keep-nil_of p xs h.1)

  -- Tests that agree throughout keep the same.
  pub keep-same_tests :
      (p q : A → Bool) (xs : List A) → All (λ x. p x ≡ q x) xs → keep p xs ≡ keep q xs
  unfolding keep
  keep-same_tests p q [] h = refl
  keep-same_tests p q (x ∷ xs) h = ground (arith, keep-same_tests p q xs h.1)

  pub keep-append : (p : A → Bool) (xs ys : List A) → keep p (xs ++ ys) ≡ keep p xs ++ keep p ys
  unfolding keep
  keep-append p [] ys = refl
  keep-append p (x ∷ xs) ys = ground (arith, keep-append p xs ys)

  pub keep-All : (p : A → Bool) (xs : List A) → All (λ x. p x ≡ true) xs → keep p xs ≡ xs
  unfolding keep
  keep-All p [] h = refl
  keep-All p (x ∷ xs) h = ground (arith, keep-All p xs h.1)

  -- Taking as much as there is, or more, takes the whole list.
  pub take_whole : (xs : List A) (n : ℕ) → length xs ≤ n → take n xs ≡ xs
  take_whole [] zero fits = refl
  take_whole [] (suc n) fits = refl
  take_whole (x ∷ xs) zero fits = absurd (omega arith)
  take_whole (x ∷ xs) (suc n) fits = ap (◌∷◌ x) (take_whole xs n (omega arith))

  drop-nil : (m : ℕ) → drop m [] ≡ []
  drop-nil zero = refl
  drop-nil (suc m) = refl

  pub drop-drop : (m n : ℕ) (xs : List A) → drop m (drop n xs) ≡ drop (n + m) xs
  drop-drop m zero xs = rw zero-add
  drop-drop m (suc n) [] = rw (suc-add, drop-nil) refl
  drop-drop m (suc n) (x ∷ xs) = rw suc-add (drop-drop m n xs)

  pub All-keep {κ} : (P : A → Type κ) (p : A → Bool) (xs : List A) → All P xs → All P (keep p xs)
  All-keep P p [] h = rw keep-nil tt
  All-keep P p (x ∷ xs) h = elim (Bool-cases (p x)) [
    | inl e ↦ rw (keep-true p x xs e) (h.0, All-keep P p xs h.1)
    | inr e ↦ rw (keep-false p x xs e) (All-keep P p xs h.1)
  ]

module _ {A : Type 0} where
  -- The element occurs in the list.
  abbrev pub Elem : A → List A → Type 0
  Elem a [] = ⊥
  Elem a (x ∷ xs) = (x ≡ a) ⊎ Elem a xs

  pub Elem-append-left : (a : A) (xs ys : List A) → Elem a xs → Elem a (xs ++ ys)
  Elem-append-left a [] ys e = absurd e
  Elem-append-left a (x ∷ xs) ys (inl e) = inl e
  Elem-append-left a (x ∷ xs) ys (inr e) = inr (Elem-append-left a xs ys e)

  pub Elem-append-right : (a : A) (xs ys : List A) → Elem a ys → Elem a (xs ++ ys)
  Elem-append-right a [] ys e = e
  Elem-append-right a (x ∷ xs) ys e = inr (Elem-append-right a xs ys e)

  pub Elem-All {κ} : (P : A → Type κ) (a : A) (xs : List A) → All P xs → Elem a xs → P a
  Elem-All P a [] h e = absurd e
  Elem-All P a (x ∷ xs) h (inl e) = subst P e h.0
  Elem-All P a (x ∷ xs) h (inr e) = Elem-All P a xs h.1 e

  pub All-of_Elem {κ} : (P : A → Type κ) (xs : List A) → ((a : A) → Elem a xs → P a) → All P xs
  All-of_Elem P [] h = tt
  All-of_Elem P (x ∷ xs) h = (h x (inl (λ i. x)), All-of_Elem P xs (λ a m. h a (inr m)))

module _ {A B : Type 0} (f : A → B) where
  pub Elem-map : (a : A) (xs : List A) → Elem a xs → Elem (f a) (map f xs)
  Elem-map a [] m = absurd m
  Elem-map a (x ∷ xs) (inl e) = inl (ap f e)
  Elem-map a (x ∷ xs) (inr m) = inr (Elem-map a xs m)

  pub Elem-map_back : (b : B) (xs : List A) → Elem b (map f xs) → (a : A) × Elem a xs × (f a ≡ b)
  Elem-map_back b [] m = absurd m
  Elem-map_back b (x ∷ xs) (inl e) = (x, inl (λ i. x), e)
  Elem-map_back b (x ∷ xs) (inr m) = let (a, found, e) = Elem-map_back b xs m in (a, inr found, e)

  pub map-eq-nil : (xs : List A) → map f xs ≡ [] → xs ≡ []
  map-eq-nil [] e = refl
  map-eq-nil (x ∷ xs) e = cc
