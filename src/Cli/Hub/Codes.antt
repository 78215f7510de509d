-- ===== src/Cli/Hub/Codes.antt =====
-- Which project codes and names a hub is started with.
use edge_sync.Base.{Text, ℕ, ◌≤◌, ◌≡◌, refl, ◌↔◌, ◌⊎◌, inl, inr, true, [], ◌∷◌, arith, length, All}
use edge_sync.Cli.Hub.{is_hex, all_hex, valid_project_code, accepts_project_code}

-- A digit or a letter from a to f.
abbrev pub IsHex : ℕ → Type 0
IsHex r = ((b'0' ≤ r) × (r ≤ b'9')) ⊎ ((b'a' ≤ r) × (r ≤ b'f'))

is_hex-IsHex : (r : ℕ) → is_hex r ≡ true → IsHex r
unfolding is_hex
is_hex-IsHex r e = ground arith

IsHex-is_hex : (r : ℕ) → IsHex r → is_hex r ≡ true
unfolding is_hex
IsHex-is_hex r (inl h) = ground arith
IsHex-is_hex r (inr h) = ground arith

all_hex-IsHex : (s : Text) → all_hex s ≡ true → All IsHex s
all_hex-IsHex [] e = tt
all_hex-IsHex (r ∷ s) e = (is_hex-IsHex r (ground arith), all_hex-IsHex s (ground arith))

IsHex-all_hex : (s : Text) → All IsHex s → all_hex s ≡ true
IsHex-all_hex [] h = refl
IsHex-all_hex (r ∷ s) h = ground (arith, IsHex-is_hex r h.0, IsHex-all_hex s h.1)

-- A project code is passed on to the hub exactly if it is empty or has 40 bytes, each a digit or a
-- letter from a to f.
pub accepts_project_code_lem :
    (code : Text)
    → (accepts_project_code code ≡ true) ↔ ((code ≡ []) ⊎ ((length code ≡ 40) × All IsHex code))
unfolding accepts_project_code valid_project_code
accepts_project_code_lem [] = (λ e. inl refl, λ h. refl)
accepts_project_code_lem (r ∷ s) = (accepted, λ h. required h)
  where
    accepted :
        accepts_project_code (r ∷ s) ≡ true
        → ((r ∷ s) ≡ []) ⊎ ((length (r ∷ s) ≡ 40) × All IsHex (r ∷ s))
    accepted e = inr (ground arith, all_hex-IsHex (r ∷ s) (ground arith))

    required :
        ((r ∷ s) ≡ []) ⊎ ((length (r ∷ s) ≡ 40) × All IsHex (r ∷ s))
        → accepts_project_code (r ∷ s) ≡ true
    required (inl e) = cc
    required (inr h) = ground (arith, IsHex-all_hex (r ∷ s) h.1)
