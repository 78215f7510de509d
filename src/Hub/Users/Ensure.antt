-- ===== src/Hub/Users/Ensure.antt =====
-- EnsureUser: a user is registered once, and its capabilities are kept.
use edge_sync.Base.{
  ◌≡◌, sym, ap, ◌∙◌, inl, inr, true, false, is_empty, none, some, Option-cases, Text, arith,
}
use edge_sync.Hub.Users.{User, ok, Store, create_missing, ensure_user, has_user}

-- The documented behaviour of the table: a user that was created can be read back.
pub record IsTable (t : Store) : Type 0 where
  pub created :
      (u : User) (s s' : t.State) → t.create_user u s ≡ some s' → t.get_user u.login s' ≡ some u

module _ (t : Store) (outside : t.State → t.State) (login : Text)
    (named : is_empty login ≡ false) where
  ensure_known :
      (caps : Text) (s : t.State) (u : User)
      → t.get_user login s ≡ some u
      → ensure_user t outside login caps s ≡ (ok tt, s)
  unfolding ensure_user
  ensure_known caps s u e = ground arith

  ensure_missing :
      (caps : Text) (s : t.State)
      → t.get_user login s ≡ none
      → ensure_user t outside login caps s ≡ create_missing t outside login caps s
  unfolding ensure_user
  ensure_missing caps s e = ground arith

  -- A write that goes through, or another process' write, makes the user readable.
  create_missing_found :
      (caps : Text) (s s' : t.State)
      → IsTable t
      → create_missing t outside login caps s ≡ (ok tt, s')
      → (u : User) × (t.get_user login s' ≡ some u)
  unfolding create_missing
  create_missing_found caps s s' table h =
      let u : User = record { login = login; caps = caps } in
      elim (Option-cases (t.create_user u (outside s))) [
        | inr (made, c) ↦
            let same : made ≡ s' = ground arith in
            (u, ap (t.get_user login) (sym same) ∙ table.created u (outside s) made c)
        | inl c ↦ elim (Option-cases (t.get_user login (outside s))) [
          | inl e ↦ absurd (ground arith)
          | inr (v, e) ↦
              let same : outside s ≡ s' = ground arith in (v, ap (t.get_user login) (sym same) ∙ e)
        ]
      ]

  found_after :
      (caps : Text) (s s' : t.State)
      → IsTable t
      → ensure_user t outside login caps s ≡ (ok tt, s')
      → (u : User) × (t.get_user login s' ≡ some u)
  found_after caps s s' table h = elim (Option-cases (t.get_user login s)) [
    | inl e ↦ create_missing_found caps s s' table (sym (ensure_missing caps s e) ∙ h)
    | inr (u, e) ↦
        let same : s ≡ s' = ap (λ r. r.1) (sym (ensure_known caps s u e) ∙ h) in
        (u, ap (t.get_user login) (sym same) ∙ e)
  ]

  has_user_found :
      (s : t.State) (u : User) → t.get_user login s ≡ some u → has_user t login s ≡ true
  unfolding has_user
  has_user_found s u e = ground arith

  -- Over a table in which a created user can be read back: a first call with a login that is not
  -- empty, if it goes through, makes the user readable, also
  -- when another process interferes; any later call with that login, whatever its capabilities,
  -- goes through and leaves the table as it is.
  pub ensure_user_twice :
      (caps other_caps : Text) (s s' : t.State)
      → IsTable t
      → ensure_user t outside login caps s ≡ (ok tt, s')
      → (has_user t login s' ≡ true) × (ensure_user t outside login other_caps s' ≡ (ok tt, s'))
  ensure_user_twice caps other_caps s s' table h =
      let (u, found) = found_after caps s s' table h in
      (has_user_found s' u found, ensure_known other_caps s' u found)
