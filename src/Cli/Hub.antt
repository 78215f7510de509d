-- ===== src/Cli/Hub.antt =====
-- cli/hub_serve.go: the name of the hub and the check of its project code.
pub mod Codes
use edge_sync.Base.{
  Text, codes, is_empty, non_empty, ℕ, Bool, true, false, ◌&&◌, ◌||◌, Option, none, some, [], ◌∷◌,
  ◌++◌, leb, ◌==◌, if◌then◌else◌, length,
}

unfoldable pub short_host : Text → Text
short_host [] = []
short_host (c ∷ t) = let rest = short_host t in if c == b'.' then [] else c ∷ rest

-- The name given, or that of the machine, for which `none` is an error.
unfoldable pub hub_name : Text → Option Text → Option Text
hub_name name host =
    if non_empty name
    then some name
    else elim host [ none ↦ none | some h ↦ some (short_host h ++ codes "-hub") ]

unfoldable pub is_hex : ℕ → Bool
is_hex r = leb b'0' r && leb r b'9' || leb b'a' r && leb r b'f'

abbrev pub all_hex : Text → Bool
all_hex [] = true
all_hex (r ∷ s) = is_hex r && all_hex s

unfoldable pub valid_project_code : Text → Bool
valid_project_code s = if length s == 40 then all_hex s else false

-- The check in front of NewHub.
unfoldable pub accepts_project_code : Text → Bool
accepts_project_code code = is_empty code || valid_project_code code
