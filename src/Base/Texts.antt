-- ===== src/Base/Texts.antt =====
-- Texts as lists of bytes, which is what the program slices and compares.
use Prim.Native.Nat.{ℕ}
use Prim.Native.Char.{code}
use Prim.Native.String.{String}
use mathlib.Core.Bool.{Bool, true, false, not}
use mathlib.Core.List.{List, [], ◌∷◌, ◌++◌}
use mathlib.Core.Logic.{ite}
use mathlib.Core.Path.{◌≡◌, refl}
use native.Mathlib.Decide.{ℕ_discrete}
use native.Mathlib.Omega.{arith}
use edge_sync.Base.Lists.{drop, length}

abbrev pub Text : Type 0
Text = List ℕ

pub cons_path : {x y : ℕ} {xs ys : Text} → x ≡ y → xs ≡ ys → ◌≡◌ {A = Text} (x ∷ xs) (y ∷ ys)
cons_path p q = cc

pub tails_differ : {x y : ℕ} {xs ys : Text} → ¬ (xs ≡ ys) → ¬ (◌≡◌ {A = Text} (x ∷ xs) (y ∷ ys))
tails_differ q e = q (cc)

pub heads_differ : {x y : ℕ} {xs ys : Text} → ¬ (x ≡ y) → ¬ (◌≡◌ {A = Text} (x ∷ xs) (y ∷ ys))
heads_differ p e = p (cc)

-- The bytes of a literal.
abbrev pub codes : String → Text
codes String.[] = []
codes (String.◌∷◌ c s) = code c ∷ codes s

heads_tails :
    {x y : ℕ} {xs ys : Text} → Dec (x ≡ y) → Dec (xs ≡ ys) → Dec (◌≡◌ {A = Text} (x ∷ xs) (y ∷ ys))
heads_tails (yes p) (yes q) = yes (cons_path p q)
heads_tails (yes p) (no q) = no (tails_differ q)
heads_tails (no p) d = no (heads_differ p)

unfoldable pub text_eq : Discrete Text
unfolding ℕ_discrete heads_tails
text_eq [] [] = yes refl
text_eq [] (y ∷ ys) = no (λ e. cc)
text_eq (x ∷ xs) [] = no (λ e. cc)
text_eq (x ∷ xs) (y ∷ ys) = heads_tails (ℕ_discrete x y) (text_eq xs ys)

abbrev pub is_empty {ℓ} : {A : Type ℓ} → List A → Bool
is_empty [] = true
is_empty (x ∷ xs) = false

abbrev pub non_empty {ℓ} : {A : Type ℓ} → List A → Bool
non_empty xs = not (is_empty xs)

-- `strings.HasPrefix(t, p)`, as `has_prefix p t`.
abbrev pub has_prefix : Text → Text → Bool
has_prefix [] t = true
has_prefix (p ∷ ps) [] = false
has_prefix (p ∷ ps) (c ∷ t) = ite (ℕ_discrete p c) (has_prefix ps t) false

-- `if t == "" { t = d }`.
abbrev pub default_to : Text → Text → Text
default_to d [] = d
default_to d (c ∷ t) = c ∷ t

eq_test : ite (text_eq (codes "ab") (codes "ab")) true false ≡ true
unfolding text_eq
eq_test = refl

pub has_prefix-append : (p t : Text) → has_prefix p (p ++ t) ≡ true
has_prefix-append [] t = refl
has_prefix-append (c ∷ p) t = ground (arith, has_prefix-append p t)

-- A text with the prefix goes on behind it.
pub has_prefix-split : (p t : Text) → has_prefix p t ≡ true → t ≡ p ++ drop (length p) t
has_prefix-split [] t h = refl
has_prefix-split (c ∷ p) [] h = cc
has_prefix-split (c ∷ p) (d ∷ t) h = ground (arith, has_prefix-split p t)

-- `strings.Join(ts, sep)`.
pub join_with : Text → List Text → Text
join_with sep [] = []
join_with sep (t ∷ []) = t
join_with sep (t ∷ u ∷ ts) = t ++ (sep ++ join_with sep (u ∷ ts))
