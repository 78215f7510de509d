-- ===== src/Base/Sorting.antt =====
-- Insertion sort by a numeric key: the order that `ORDER BY` promises.
use Prim.Native.Nat.{ℕ, suc, ◌≤◌, ◌<◌}
use mathlib.Core.Logic.{◌≢◌, inl, inr}
use mathlib.Core.List.{List, [], ◌∷◌, ◌++◌}
use mathlib.Core.Path.{◌≡◌, refl}
use native.Mathlib.Omega.{arith}
use edge_sync.Base.Tests.{leb, leb→le, if◌then◌else◌, Bool-cases}
use edge_sync.Base.Lists.{All, All-imp, All-append, Elem, length}

module _ {A : Type 0} (key : A → ℕ) where
  unfoldable pub insert : A → List A → List A
  insert x [] = x ∷ []
  insert x (y ∷ ys) = if leb (key x) (key y) then x ∷ y ∷ ys else y ∷ insert x ys

  unfoldable pub sort : List A → List A
  unfolding insert
  sort [] = []
  sort (x ∷ xs) = insert x (sort xs)

  abbrev pub IsSorted : List A → Type 0
  IsSorted [] = Unit {0}
  IsSorted (x ∷ xs) = All (λ y. key x ≤ key y) xs × IsSorted xs

  abbrev pub IsStrict : List A → Type 0
  IsStrict [] = Unit {0}
  IsStrict (x ∷ xs) = All (λ y. key x < key y) xs × IsStrict xs

  abbrev pub IsDistinct : List A → Type 0
  IsDistinct [] = Unit {0}
  IsDistinct (x ∷ xs) = All (λ y. key y ≢ key x) xs × IsDistinct xs

  pub All-insert {κ} : (P : A → Type κ) (x : A) (ys : List A) → P x → All P ys → All P (insert x ys)
  unfolding insert
  All-insert P x [] px h = (px, tt)
  All-insert P x (y ∷ ys) px h = elim (Bool-cases (leb (key x) (key y))) [
    | inl e ↦ rw e (px, h)
    | inr e ↦ rw e (h.0, All-insert P x ys px h.1)
  ]

  pub All-sort {κ} : (P : A → Type κ) (xs : List A) → All P xs → All P (sort xs)
  unfolding sort
  All-sort P [] h = tt
  All-sort P (x ∷ xs) h = All-insert P x (sort xs) h.0 (All-sort P xs h.1)

  insert-IsStrict :
      (x : A) (ys : List A) → All (λ y. key y ≢ key x) ys → IsStrict ys → IsStrict (insert x ys)
  unfolding insert
  insert-IsStrict x [] d s = (tt, tt)
  insert-IsStrict x (y ∷ ys) d s = elim (Bool-cases (leb (key x) (key y))) [
    | inl e ↦
        let first : key x < key y = omega (arith, leb→le (key x) (key y) e, d.0) in
        rw e ((first, All-imp ys (λ z h. omega arith) s.0), s)
    | inr e ↦
        rw e (All-insert (λ z. key y < key z) x ys (ground arith) s.0, insert-IsStrict x ys d.1 s.1)
  ]

  -- Distinct keys are sorted into strictly rising ones.
  pub sort-IsStrict : (xs : List A) → IsDistinct xs → IsStrict (sort xs)
  unfolding sort
  sort-IsStrict [] d = tt
  sort-IsStrict (x ∷ xs) d =
      insert-IsStrict x (sort xs) (All-sort (λ y. key y ≢ key x) xs d.0) (sort-IsStrict xs d.1)

  insert-IsSorted : (x : A) (ys : List A) → IsSorted ys → IsSorted (insert x ys)
  unfolding insert
  insert-IsSorted x [] s = (tt, tt)
  insert-IsSorted x (y ∷ ys) s = elim (Bool-cases (leb (key x) (key y))) [
    | inl e ↦
        let first : key x ≤ key y = leb→le (key x) (key y) e in
        rw e ((first, All-imp ys (λ z h. omega arith) s.0), s)
    | inr e ↦
        rw e (All-insert (λ z. key y ≤ key z) x ys (ground arith) s.0, insert-IsSorted x ys s.1)
  ]

  pub sort-IsSorted : (xs : List A) → IsSorted (sort xs)
  unfolding sort
  sort-IsSorted [] = tt
  sort-IsSorted (x ∷ xs) = insert-IsSorted x (sort xs) (sort-IsSorted xs)

  Elem-insert_self : (x : A) (ys : List A) → Elem x (insert x ys)
  unfolding insert
  Elem-insert_self x [] = inl (λ i. x)
  Elem-insert_self x (y ∷ ys) = elim (Bool-cases (leb (key x) (key y))) [
    | inl e ↦ rw e (inl (λ i. x))
    | inr e ↦ rw e (inr (Elem-insert_self x ys))
  ]

  Elem-insert : (a : A) (x : A) (ys : List A) → Elem a ys → Elem a (insert x ys)
  unfolding insert
  Elem-insert a x [] m = absurd m
  Elem-insert a x (y ∷ ys) m = elim (Bool-cases (leb (key x) (key y))) [
    | inl e ↦ rw e (inr m)
    | inr e ↦ rw e (elim m [ inl h ↦ inl h | inr h ↦ inr (Elem-insert a x ys h) ])
  ]

  -- Nothing is lost by sorting.
  pub Elem-sort : (a : A) (xs : List A) → Elem a xs → Elem a (sort xs)
  unfolding sort
  Elem-sort a [] m = m
  Elem-sort a (x ∷ xs) (inl e) = rw (← e) (Elem-insert_self x (sort xs))
  Elem-sort a (x ∷ xs) (inr m) = Elem-insert a x (sort xs) (Elem-sort a xs m)

  length-insert : (x : A) (ys : List A) → length (insert x ys) ≡ suc (length ys)
  unfolding insert
  length-insert x [] = refl
  length-insert x (y ∷ ys) = ground (arith, length-insert x ys)

  pub length-sort : (xs : List A) → length (sort xs) ≡ length xs
  unfolding sort
  length-sort [] = refl
  length-sort (x ∷ xs) = omega (arith, length-insert x (sort xs), length-sort xs)

  -- A greater key goes to the end.
  pub IsStrict-snoc :
      (x : A) (xs : List A) → IsStrict xs → All (λ y. key y < key x) xs → IsStrict (xs ++ x ∷ [])
  IsStrict-snoc x [] s h = (tt, tt)
  IsStrict-snoc x (y ∷ ys) s h =
      (All-append (λ z. key y < key z) ys (x ∷ []) s.0 (h.0, tt), IsStrict-snoc x ys s.1 h.1)
