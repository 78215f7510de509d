-- ===== src/Base/Keys.antt =====
-- A map from texts of which only the keys count, as the list of its keys.
use mathlib.Core.Bool.{Bool, true, false}
use mathlib.Core.Logic.{ite}
use mathlib.Core.List.{List, [], ◌∷◌}
use edge_sync.Base.Texts.{Text, text_eq}

unfoldable pub member : Text → List Text → Bool
member a [] = false
member a (x ∷ xs) = ite (text_eq x a) true (member a xs)

-- `delete(m, a)`.
unfoldable pub delete : Text → List Text → List Text
delete a [] = []
delete a (x ∷ xs) = let rest = delete a xs in ite (text_eq x a) rest (x ∷ rest)
