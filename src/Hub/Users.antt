-- ===== src/Hub/Users.antt =====
-- The users of a hub, hub/users.go and the user methods of hub/repo.go. The user table belongs to
-- libfossil: `Store` is the interface that the methods call.
pub mod Ensure
use edge_sync.Base.{
  List, [], ◌∷◌, map, Bool, true, false, is_empty, Option, none, some, if◌then◌else◌, Text,
}

pub record User : Type 0 where
  pub login : Text
  pub caps : Text

pub data UserError : Type 0 where
  login_required add_failed get_failed list_failed remove_failed set_caps_failed ensure_failed :
      UserError

pub data Result {ℓ} (A : Type ℓ) : Type ℓ where
  ok : A → Result A
  err : UserError → Result A

-- The calls of the table on its state: what is read, and the state after a write that goes through.
pub record Store : Type 1 where
  pub State : Type 0
  pub get_user : Text → State → Option User
  pub list_users : State → Option (List User)
  pub create_user : User → State → Option State
  pub delete_user : Text → State → Option State
  pub set_caps : Text → Text → State → Option State

module _ (t : Store) where
  -- The state after a write, and the error if it failed.
  pub written : UserError → t.State → Option t.State → Result (Unit {0}) × t.State
  written e s none = (err e, s)
  written e s (some s') = (ok tt, s')

  pub add_user : User → t.State → Result (Unit {0}) × t.State
  unfolding written
  add_user u s =
      if is_empty u.login then (err login_required, s) else written add_failed s (t.create_user u s)

  pub get_user : Text → t.State → Result User
  get_user login s = elim (t.get_user login s) [
    | none ↦ err get_failed
    | some u ↦ ok (record { login = u.login; caps = u.caps })
  ]

  pub has_user : Text → t.State → Bool
  has_user login s = elim (t.get_user login s) [ none ↦ false | some u ↦ true ]

  pub list_users : t.State → Result (List User)
  list_users s = elim (t.list_users s) [
    | none ↦ err list_failed
    | some users ↦ ok (map (λ u. record { login = u.login; caps = u.caps }) users)
  ]

  pub remove_user : Text → t.State → Result (Unit {0}) × t.State
  unfolding written
  remove_user login s = written remove_failed s (t.delete_user login s)

  pub set_user_caps : Text → Text → t.State → Result (Unit {0}) × t.State
  unfolding written
  set_user_caps login caps s =
      if is_empty login
      then (err login_required, s)
      else written set_caps_failed s (t.set_caps login caps s)

  -- EnsureUser; `outside` is what other processes do to the table between its first look and its
  -- write.
  module _ (outside : t.State → t.State) where
    unfoldable pub create_missing : Text → Text → t.State → Result (Unit {0}) × t.State
    create_missing login caps s =
        let s₁ = outside s in
        elim (t.create_user (record { login = login; caps = caps }) s₁) [
          | some s' ↦ (ok tt, s')
          | none ↦ elim (t.get_user login s₁) [
            | some u ↦ (ok tt, s₁)
            | none ↦ (err ensure_failed, s₁)
          ]
        ]

    unfoldable pub ensure_user : Text → Text → t.State → Result (Unit {0}) × t.State
    ensure_user login caps s =
        if is_empty login
        then (err login_required, s)
        else elim (t.get_user login s) [ some u ↦ (ok tt, s) | none ↦ create_missing login caps s ]
