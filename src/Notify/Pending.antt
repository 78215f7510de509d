-- ===== src/Notify/Pending.antt =====
-- leaf/agent/notify/token_store.go: hashed pairing tokens that wait for validation. A token holds
-- the time at which it expires; `hash` is HashToken.
pub mod SingleUse
use edge_sync.Base.{
  ℕ, ◌+◌, List, [], ◌∷◌, ◌++◌, Bool, true, false, ite, ltb, keep, Option, none, some, if◌then◌else◌,
  Text, text_eq,
}
use edge_sync.Notify.JsonFile.{
  Io, Json, Result, ok, err, ◌>>=◌, token_expired, token_unknown, read_list, commit_list,
}
use edge_sync.Notify.Token.{Codec, hash_token, generate_token}

pub record PendingToken : Type 0 where
  pub token_hash : Text
  pub created_at : ℕ
  pub expires_at : ℕ
  pub device_name : Text

-- Those with `now.Before(ExpiresAt)`.
pub prune_expired : List PendingToken → ℕ → List PendingToken
prune_expired tokens now = keep (λ pt. ltb now pt.expires_at) tokens

-- The first token with the hash, and the tokens without it.
unfoldable pub take_hash : Text → List PendingToken → Option (PendingToken × List PendingToken)
take_hash hash [] = none
take_hash hash (pt ∷ tokens) = elim (text_eq pt.token_hash hash) [
  | yes _ ↦ some (pt, tokens)
  | no _ ↦ elim (take_hash hash tokens) [
    | none ↦ none
    | some (found, rest) ↦ some (found, pt ∷ rest)
  ]
]

-- The file after a commit whose error is dropped.
unfoldable pub commit_or_keep : Result Text → Option Text → Option Text
commit_or_keep (ok text) file = some text
commit_or_keep (err e) file = file

module _ (c : Codec) (j : Json PendingToken) (io : Io) where
  pub store_pending_token : ℕ → PendingToken → Option Text → Result Text
  store_pending_token now pt file = do
    tokens ← read_list j io file
    commit_list j io (prune_expired tokens now ++ pt ∷ [])

  -- The branch of `ValidateToken` on a found token.
  unfoldable pub consume :
      ℕ → PendingToken → List PendingToken → Option Text → Result PendingToken × Option Text
  consume now pt rest file =
      if ltb pt.expires_at now
      then (err token_expired, commit_or_keep (commit_list j io rest) file)
      else elim (commit_list j io rest) [ err e ↦ (err e, file) | ok text ↦ (ok pt, some text) ]

  -- The result, and the file afterwards.
  unfoldable pub validate_hash : ℕ → Text → Option Text → Result PendingToken × Option Text
  validate_hash now hash file = elim (read_list j io file) [
    | err e ↦ (err e, file)
    | ok tokens ↦ elim (take_hash hash tokens) [
      | none ↦ (err token_unknown, file)
      | some (pt, rest) ↦ consume now pt rest file
    ]
  ]

  unfoldable pub validate_token : ℕ → Text → Option Text → Result PendingToken × Option Text
  validate_token now formatted file = validate_hash now (hash_token c formatted) file

  -- Ten minutes, on a clock of seconds.
  abbrev token_lifetime : ℕ
  token_lifetime = 600

  -- `CreatePairingToken` on a stream of random bytes; `none` when the stream fails.
  pub create_pairing_token : ℕ → List ℕ → Text → Option Text → Option (Text × Result Text)
  create_pairing_token now bytes name file = elim (generate_token bytes) [
    | none ↦ none
    | some tok ↦ some (
      tok,
      store_pending_token now
          (record {
            token_hash = hash_token c tok;
            created_at = now;
            expires_at = now + token_lifetime;
            device_name = name;
          })
          file,
    )
  ]
