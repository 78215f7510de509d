-- ===== src/Agent/Peers/OwnRow.antt =====
-- The registry has one row of the agent's own, as of its last update that went through.
use edge_sync.Base.{
  text_eq, Text, ℕ, ◌≡◌, refl, ap, ◌∙◌, inl, inr, if_pos, Bool, true, false, not, none, some, List,
  [], ◌∷◌, ◌++◌, append-nil, arith, if◌then◌else◌, Bool-cases, keep, keep-nil, keep-true,
  keep-false, keep-append,
}
use edge_sync.Agent.Config.{Config}
use edge_sync.Agent.Peers.{
  PeerRow, Table, ensure_peer_registry, is_row_of, replace_row, own_row, upsert_peer_row,
  run_cycles, run_registry,
}

-- The time of the last update that went through, from an earlier one on.
unfoldable pub last_update : ℕ → List (ℕ × Bool) → ℕ
last_update now [] = now
last_update now ((next, fails) ∷ cycles) = last_update (if fails then now else next) cycles

-- The rows of a table, or none where there is no table.
abbrev pub rows_of : Table → List PeerRow
rows_of none = []
rows_of (some rows) = rows

keep_twice : {A : Type 0} (p : A → Bool) (xs : List A) → keep p (keep p xs) ≡ keep p xs
unfolding keep
keep_twice p [] = refl
keep_twice p (x ∷ xs) = elim (Bool-cases (p x)) [
  | inl e ↦ ground (arith, keep_twice p xs)
  | inr e ↦ ground (arith, keep_twice p xs)
]

keep-not : {A : Type 0} (p : A → Bool) (xs : List A) → keep p (keep (λ x. not (p x)) xs) ≡ []
unfolding keep
keep-not p [] = refl
keep-not p (x ∷ xs) = elim (Bool-cases (p x)) [
  | inl e ↦ ground (arith, keep-not p xs)
  | inr e ↦ ground (arith, keep-not p xs)
]

module _ (c : Config) (version platform : Text) where
  abbrev is_own : PeerRow → Bool
  is_own = is_row_of c.peer_id

  abbrev is_other : PeerRow → Bool
  is_other r = not (is_row_of c.peer_id r)

  own_row-is_own : (now : ℕ) → is_own (own_row c version platform now) ≡ true
  unfolding is_row_of own_row
  own_row-is_own now = if_pos (text_eq c.peer_id c.peer_id) refl true false

  -- Exactly one row is the agent's own, and the others are the given ones.
  abbrev pub Registered : ℕ → List PeerRow → List PeerRow → Type 0
  Registered now others rows =
      (keep (is_row_of c.peer_id) rows ≡ own_row c version platform now ∷ [])
      × (keep (λ r. not (is_row_of c.peer_id r)) rows ≡ others)

  replace_row-Registered :
      (now : ℕ) (rows : List PeerRow)
      → Registered now (keep is_other rows) (replace_row (own_row c version platform now) rows)
  unfolding replace_row own_row
  replace_row-Registered now rows =
      let row = own_row c version platform now in
      (
        keep-append is_own (keep is_other rows) (row ∷ [])
            ∙ ap (λ l. l ++ keep is_own (row ∷ [])) (keep-not is_own rows)
            ∙ keep-true is_own row [] (own_row-is_own now)
            ∙ ap (◌∷◌ row) (keep-nil is_own),
        keep-append is_other (keep is_other rows) (row ∷ [])
            ∙ ap (◌++◌ (keep is_other (keep is_other rows)))
                (keep-false is_other row [] (ap not (own_row-is_own now)) ∙ keep-nil is_other)
            ∙ append-nil _
            ∙ keep_twice is_other rows,
      )

  run_cycles-Registered :
      (cycles : List (ℕ × Bool)) (now : ℕ) (others rows : List PeerRow)
      → Registered now others rows
      → (rows' : List PeerRow) × (run_cycles c version platform cycles (some rows) ≡ some rows')
        × Registered (last_update now cycles) others rows'
  unfolding run_cycles upsert_peer_row last_update
  run_cycles-Registered [] now others rows h = (rows, refl, h)
  run_cycles-Registered ((next, true) ∷ cycles) now others rows h =
      run_cycles-Registered cycles now others rows h
  run_cycles-Registered ((next, false) ∷ cycles) now others rows h =
      let (own, rest) = replace_row-Registered next rows in
      run_cycles-Registered cycles next others (replace_row (own_row c version platform next) rows)
        (own, rest ∙ h.1)

  -- Where New could make or find the table and write its row, then after any poll cycles, some of
  -- whose updates may fail, the registry has exactly one row with the agent's id: its own, as of
  -- the last update that went through; the rows of other peers are as they were.
  pub run_registry-Registered :
      (now : ℕ) (cycles : List (ℕ × Bool)) (t : Table)
      → (rows : List PeerRow) × (run_registry c version platform false now false cycles t
          ≡ some rows)
        × Registered
            (last_update now cycles)
            (keep (λ r. not (is_row_of c.peer_id r)) (rows_of t))
            rows
  unfolding run_registry upsert_peer_row ensure_peer_registry
  run_registry-Registered now cycles none =
      run_cycles-Registered cycles now (keep is_other [])
        (replace_row (own_row c version platform now) []) (replace_row-Registered now [])
  run_registry-Registered now cycles (some rows) =
      run_cycles-Registered cycles now (keep is_other rows)
        (replace_row (own_row c version platform now) rows) (replace_row-Registered now rows)
