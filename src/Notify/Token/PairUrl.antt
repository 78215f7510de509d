-- ===== src/Notify/Token/PairUrl.antt =====
-- Pairing URLs: what `FormatPairURL` prints `ParsePairURL` reads, and it reads nothing else.
use edge_sync.Base.{
  ◌≡◌, refl, ap, ◌∙◌, inl, inr, List, [], ◌∷◌, ◌++◌, false, ◌==◌, drop, drop-length-append, some,
  Option-cases, Bool-cases, All, length, has_prefix, has_prefix-append, has_prefix-split, Text,
  arith,
}
use edge_sync.Notify.Token.{
  Codec, PairInfo, ok, pair_prefix, cut, split_n, raw_token, format_pair_url, read_segments,
  parse_behind, parse_pair_url,
}

-- No byte of the text is a slash.
abbrev pub NoSlash : Text → Type 0
NoSlash = All (λ c. (c == b'/') ≡ false)

cut-append : (xs ys : Text) → NoSlash xs → cut (xs ++ b'/' ∷ ys) ≡ (xs, some ys)
unfolding cut
cut-append [] ys h = refl
cut-append (x ∷ xs) ys h = ground (arith, cut-append xs ys h.1)

cut_sound : (t r : Text) → (cut t).1 ≡ some r → t ≡ (cut t).0 ++ b'/' ∷ r
unfolding cut
cut_sound [] r h = cc
cut_sound (c ∷ t) r h = ground (arith, cut_sound t r)

-- The documented behaviour of `url.PathEscape` and `url.PathUnescape`.
pub record IsEscape (c : Codec) : Type 0 where
  pub unescapes : (t : Text) → c.path_unescape (c.path_escape t) ≡ some t
  pub escapes_slash : (t : Text) → NoSlash (c.path_escape t)

split_n_three :
    (a b t : Text)
    → NoSlash a
    → NoSlash b
    → split_n 2 (a ++ (b'/' ∷ (b ++ (b'/' ∷ t)))) ≡ a ∷ b ∷ t ∷ []
unfolding split_n
split_n_three a b t ha hb = ground (arith, cut-append a (b ++ (b'/' ∷ t)) ha, cut-append b t hb)

parse_behind-append :
    (c : Codec) (p rest : Text) → parse_behind c p (p ++ rest) ≡ read_segments c (split_n 2 rest)
unfolding parse_behind
parse_behind-append c p rest = rw (has_prefix-append p rest, drop-length-append p rest)

-- With an escape that can be undone and that leaves no slash, a printed pairing URL is read back:
-- the endpoint, if it has no slash, the address and the raw token.
pub parse_pair_url-format_pair_url :
    (c : Codec) (endpoint_id nats_addr token : Text)
    → IsEscape c
    → NoSlash endpoint_id
    → parse_pair_url c (format_pair_url c endpoint_id nats_addr token)
      ≡ ok (record { endpoint_id = endpoint_id; nats_addr = nats_addr; token = raw_token token })
unfolding parse_pair_url format_pair_url read_segments
parse_pair_url-format_pair_url c endpoint_id nats_addr token esc plain =
    let escaped = c.path_escape nats_addr in
    let rest = endpoint_id ++ (b'/' ∷ (escaped ++ (b'/' ∷ raw_token token))) in
    let parts =
      split_n_three endpoint_id escaped (raw_token token) plain (esc.escapes_slash nats_addr) in
    parse_behind-append c pair_prefix rest
    ∙ ap (read_segments c) parts
    ∙ ground (arith, esc.unescapes nats_addr)

read_segments_sound :
    (c : Codec) (parts : List Text) (info : PairInfo)
    → read_segments c parts ≡ ok info
    → (encoded : Text) × (parts ≡ info.endpoint_id ∷ encoded ∷ info.token ∷ [])
      × (c.path_unescape encoded ≡ some info.nats_addr)
unfolding read_segments
read_segments_sound c [] info h = absurd (ground arith)
read_segments_sound c (a ∷ []) info h = absurd (ground arith)
read_segments_sound c (a ∷ b ∷ []) info h = absurd (ground arith)
read_segments_sound c (a ∷ b ∷ t ∷ []) info h = (b, ground arith, ground arith)
read_segments_sound c (a ∷ b ∷ t ∷ x ∷ r) info h = absurd (ground arith)

split_n_sound :
    (t a b r : Text) → split_n 2 t ≡ a ∷ b ∷ r ∷ [] → t ≡ a ++ (b'/' ∷ (b ++ (b'/' ∷ r)))
unfolding split_n
split_n_sound t a b r h = elim (Option-cases (cut t).1) [
  | inl e ↦ absurd (ground arith)
  | inr (u, e) ↦ elim (Option-cases (cut u).1) [
    | inl q ↦ absurd (ground arith)
    | inr (v, q) ↦ ground (arith, cut_sound t u e, cut_sound u v q)
  ]
]

parse_behind_sound :
    (c : Codec) (p raw : Text) (info : PairInfo)
    → parse_behind c p raw ≡ ok info
    → (encoded : Text) × (raw
        ≡ p ++ (info.endpoint_id ++ (b'/' ∷ (encoded ++ (b'/' ∷ info.token)))))
      × (c.path_unescape encoded ≡ some info.nats_addr)
unfolding parse_behind
parse_behind_sound c p raw info h = elim (Bool-cases (has_prefix p raw)) [
  | inr e ↦ absurd (ground arith)
  | inl e ↦
      let rest = drop (length p) raw in
      let (encoded, parts, addr) = read_segments_sound c (split_n 2 rest) info (ground arith) in
      (
        encoded,
        has_prefix-split p raw e
            ∙ ap (◌++◌ p) (split_n_sound rest info.endpoint_id encoded info.token parts),
        addr,
      )
]

-- An accepted URL has the prefix and three segments, of which the second unescapes to the address.
pub parse_pair_url_sound :
    (c : Codec) (raw : Text) (info : PairInfo)
    → parse_pair_url c raw ≡ ok info
    → (encoded : Text) × (raw
        ≡ pair_prefix ++ (info.endpoint_id ++ (b'/' ∷ (encoded ++ (b'/' ∷ info.token)))))
      × (c.path_unescape encoded ≡ some info.nats_addr)
unfolding parse_pair_url
parse_pair_url_sound c raw info h = parse_behind_sound c pair_prefix raw info h
