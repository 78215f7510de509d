-- ===== src/Notify/Pending/SingleUse.antt =====
-- A pairing token is good once, within its lifetime, in its displayed form and without the dashes.
use edge_sync.Base.{
  ℕ, ◌+◌, ◌≡◌, ◌≢◌, refl, ap, inl, inr, List, [], ◌∷◌, ◌++◌, ltb, Option, none, some, Option-cases,
  All, All-keep, Text, text_eq, arith, subst, if◌then◌else◌,
}
use edge_sync.Notify.JsonFile.{
  Json, ok, err, ReadsBack, Holds, token_expired, token_unknown, commit_list, commit_list-Holds,
  quiet,
}
use edge_sync.Notify.Token.{Codec, hash_token, generate_token, raw_token}
use edge_sync.Notify.Token.Sampling.{hash_token-raw_token}
use edge_sync.Notify.Pending.{
  PendingToken, prune_expired, take_hash, store_pending_token, consume, validate_hash,
  validate_token, create_pairing_token,
}

-- No token has the hash.
abbrev pub IsAbsent : Text → List PendingToken → Type 0
IsAbsent hash = All (λ pt. pt.token_hash ≢ hash)

-- No two tokens share a hash.
abbrev pub IsDistinct : List PendingToken → Type 0
IsDistinct [] = Unit {0}
IsDistinct (pt ∷ tokens) = IsAbsent pt.token_hash tokens × IsDistinct tokens

take_hash_absent :
    (hash : Text) (tokens : List PendingToken) → IsAbsent hash tokens → take_hash hash tokens ≡ none
unfolding take_hash
take_hash_absent hash [] h = refl
take_hash_absent hash (pt ∷ tokens) h = ground (arith, take_hash_absent hash tokens h.1)

take_hash-snoc :
    (pt : PendingToken) (tokens : List PendingToken)
    → IsAbsent pt.token_hash tokens
    → take_hash pt.token_hash (tokens ++ pt ∷ []) ≡ some (pt, tokens)
unfolding take_hash
take_hash-snoc pt [] h = ground arith
take_hash-snoc pt (x ∷ tokens) h = ground (arith, take_hash-snoc pt tokens h.1)

take_hash_rest :
    (hash : Text) (tokens rest : List PendingToken) (pt : PendingToken)
    → IsDistinct tokens
    → take_hash hash tokens ≡ some (pt, rest)
    → IsAbsent hash rest
unfolding take_hash
take_hash_rest hash [] rest pt d h = cc
take_hash_rest hash (x ∷ tokens) rest pt d h = elim (text_eq x.token_hash hash) [
  | yes p ↦ subst (IsAbsent hash) (ground arith) (subst (λ a. IsAbsent a tokens) p d.0)
  | no p ↦ elim (Option-cases (take_hash hash tokens)) [
    | inl e ↦ absurd (ground arith)
    | inr ((found, r), e) ↦
        let sub : IsAbsent hash r = take_hash_rest hash tokens r found d.1 e in
        let same : x ∷ r ≡ rest = ground arith in subst (IsAbsent hash) same (p, sub)
  ]
]

prune_expired-IsAbsent :
    (hash : Text) (tokens : List PendingToken) (now : ℕ)
    → IsAbsent hash tokens
    → IsAbsent hash (prune_expired tokens now)
unfolding prune_expired
prune_expired-IsAbsent hash tokens now h =
    All-keep (λ pt. pt.token_hash ≢ hash) (λ pt. ltb now pt.expires_at) tokens h

module _ (c : Codec) (j : Json PendingToken) (back : ReadsBack j) where
  -- If the stored tokens have distinct hashes, what is encoded is decoded again and no read or commit
  -- fails: after a token was accepted, a second validation of it at any time is refused as unknown,
  -- and leaves the file as it is.
  pub validate_token_twice :
      (now later : ℕ) (formatted : Text) (file file' : Option Text) (tokens : List PendingToken)
      (pt : PendingToken)
      → Holds j file tokens
      → IsDistinct tokens
      → validate_token c j quiet now formatted file ≡ (ok pt, file')
      → validate_token c j quiet later formatted file' ≡ (err token_unknown, file')
  unfolding validate_token validate_hash consume
  validate_token_twice now later formatted file file' tokens pt held d h =
      elim (Option-cases (take_hash (hash_token c formatted) tokens)) [
        | inl e ↦ absurd (ground arith)
        | inr ((found, rest), e) ↦
            let gone =
              take_hash_absent (hash_token c formatted) rest
                (take_hash_rest (hash_token c formatted) tokens rest found d e) in
            let (t, w, r) = commit_list-Holds j back quiet rest refl in
            let file_now : file' ≡ some t = ground arith in ground arith
      ]

  store_lem :
      (now : ℕ) (pt : PendingToken) (file : Option Text) (tokens : List PendingToken) (text : Text)
      → Holds j file tokens
      → commit_list j quiet (prune_expired tokens now ++ pt ∷ []) ≡ ok text
      → store_pending_token c j quiet now pt file ≡ ok text
  unfolding store_pending_token
  store_lem now pt file tokens text held e = ground arith

  validate_last :
      (later : ℕ) (pt : PendingToken) (tokens : List PendingToken) (text : Text)
      → Holds j (some text) (tokens ++ pt ∷ [])
      → IsAbsent pt.token_hash tokens
      → (validate_hash c j quiet later pt.token_hash (some text)).0
        ≡ (if ltb pt.expires_at later then err token_expired else ok pt)
  unfolding validate_hash consume
  validate_last later pt tokens text held absent =
      let (t, e, _) = commit_list-Holds j back quiet tokens refl in
      ground (arith, take_hash-snoc pt tokens absent)

  -- A token created at `now`, while no pending token has its hash and nothing fails, is accepted
  -- up to and including its expiry ten minutes later, and refused as expired after it; in the
  -- displayed form and in the form without dashes.
  pub create_pairing_token_lem :
      (now later : ℕ) (bytes : List ℕ) (name tok : Text) (file : Option Text)
      (tokens : List PendingToken)
      → Holds j file tokens
      → generate_token bytes ≡ some tok
      → IsAbsent (hash_token c tok) tokens
      → (pt : PendingToken) × (text : Text) × (create_pairing_token c j quiet now bytes name file
          ≡ some (tok, ok text))
        × (pt.device_name ≡ name)
        × ((validate_token c j quiet later tok (some text)).0
            ≡ (if ltb (now + 600) later then err token_expired else ok pt))
        × ((validate_token c j quiet later (raw_token tok) (some text)).0
            ≡ (validate_token c j quiet later tok (some text)).0)
  unfolding create_pairing_token validate_token
  create_pairing_token_lem now later bytes name tok file tokens held drawn fresh =
      let pt : PendingToken = record {
        token_hash = hash_token c tok;
        created_at = now;
        expires_at = now + 600;
        device_name = name;
      } in
      let live = prune_expired tokens now in
      let (text, e, h) = commit_list-Holds j back quiet (live ++ pt ∷ []) refl in
      let absent = prune_expired-IsAbsent (hash_token c tok) tokens now fresh in
      (
        pt,
        text,
        ground (arith, store_lem now pt file tokens text held e),
        refl,
        validate_last later pt live text h absent,
        ap (λ hash. (validate_hash c j quiet later hash (some text)).0)
            (hash_token-raw_token c bytes tok drawn),
      )
