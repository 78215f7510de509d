-- ===== src/Notify/Token.antt =====
-- leaf/agent/notify/token.go: pairing tokens by rejection sampling, their raw form and hash, and
-- pairing URLs. Random bytes are a list that ends where `rand.Read` fails; SHA-256 in hex and the
-- URL path escapes are parameters.
pub mod Sampling
pub mod PairUrl
use edge_sync.Base.{
  ℕ, zero, suc, ◌%◌, ◌≡◌, List, [], ◌∷◌, ◌++◌, Bool, true, false, not, ◌==◌, leb, take, drop, keep,
  Option, none, some, has_prefix, length, if◌then◌else◌, Text, codes,
}
use mathlib.Core.Option

abbrev pub token_alphabet : Text
token_alphabet = codes "23456789ABCDEFGHJKMNPQRSTVWXYZ"

abbrev pub token_reject_threshold : ℕ
token_reject_threshold = 240

-- `tokenAlphabet[i]`; the index is below 30.
unfoldable pub char_at : ℕ → Text → ℕ
char_at i [] = 0
char_at zero (c ∷ t) = c
char_at (suc i) (c ∷ t) = char_at i t

-- One byte: rejected at or above the threshold, else a character of the alphabet.
unfoldable pub draw : ℕ → Option ℕ
draw b = if leb token_reject_threshold b then none else some (char_at (b % 30) token_alphabet)

-- The loop of `GenerateToken` with `k` characters left to draw.
unfoldable pub sample : ℕ → List ℕ → Option Text
sample zero bytes = some []
sample (suc k) [] = none
sample (suc k) (b ∷ bytes) = elim (draw b) [
  | none ↦ sample (suc k) bytes
  | some c ↦ Option.map (◌∷◌ c) (sample k bytes)
]

-- `%s-%s-%s` over the three groups of four.
unfoldable pub group_chars : Text → Text
group_chars chars =
    take 4 chars ++ (b'-' ∷ (take 4 (drop 4 chars) ++ (b'-' ∷ take 4 (drop 8 chars))))

unfoldable pub generate_token : List ℕ → Option Text
generate_token bytes = Option.map group_chars (sample 12 bytes)

-- `strings.ReplaceAll(formatted, "-", "")`.
unfoldable pub raw_token : Text → Text
raw_token formatted = keep (λ c. not (c == b'-')) formatted

pub record PairInfo : Type 0 where
  pub endpoint_id : Text
  pub nats_addr : Text
  pub token : Text

-- SHA-256 in hex, `url.PathEscape` and `url.PathUnescape`.
pub record Codec : Type 0 where
  pub sha256_hex : Text → Text
  pub path_escape : Text → Text
  pub path_unescape : Text → Option Text

pub data PairError : Type 0 where
  missing_prefix : PairError
  wrong_segments : ℕ → PairError
  bad_escape : PairError

pub data Result {ℓ} (A : Type ℓ) : Type ℓ where
  ok : A → Result A
  err : PairError → Result A

abbrev pub pair_prefix : Text
pair_prefix = codes "edgesync-pair://v1/"

-- The text before the first '/', and the text behind it if there is one.
unfoldable pub cut : Text → Text × Option Text
cut [] = ([], none)
cut (c ∷ t) = let rest = cut t in if c == b'/' then ([], some t) else (c ∷ rest.0, rest.1)

-- `strings.SplitN(t, "/", suc n)`.
unfoldable pub split_n : ℕ → Text → List Text
unfolding cut
split_n zero t = t ∷ []
split_n (suc n) t =
    let (part, more) = cut t in elim more [ none ↦ part ∷ [] | some rest ↦ part ∷ split_n n rest ]

module _ (c : Codec) where
  unfoldable pub hash_token : Text → Text
  hash_token formatted = c.sha256_hex (raw_token formatted)

  pub format_pair_url : Text → Text → Text → Text
  format_pair_url endpoint_id nats_addr token =
      pair_prefix ++ (endpoint_id ++ (b'/' ∷ (c.path_escape nats_addr ++ (b'/' ∷ raw_token token))))

  -- The three segments of the URL, if there are three.
  unfoldable pub read_segments : List Text → Result PairInfo
  read_segments (endpoint ∷ encoded ∷ token ∷ []) = elim (c.path_unescape encoded) [
    | none ↦ err bad_escape
    | some nats_addr ↦ ok (record { endpoint_id = endpoint; nats_addr = nats_addr; token = token })
  ]
  read_segments parts = err (wrong_segments (length parts))

  -- The body of `ParsePairURL` over any prefix.
  unfoldable pub parse_behind : Text → Text → Result PairInfo
  parse_behind prefix raw =
      if has_prefix prefix raw
      then read_segments (split_n 2 (drop (length prefix) raw))
      else err missing_prefix

  unfoldable pub parse_pair_url : Text → Result PairInfo
  parse_pair_url raw = parse_behind pair_prefix raw
