-- ===== src/Leaf/Headers.antt =====
-- The headers that `parse_headers` reads.
use edge_sync.Base.{
  text_eq, Text, is_empty, ℕ, ◌≡◌, refl, ap, ◌∙◌, ◌≢◌, ite, false, Option, none, some, List, [],
  ◌∷◌, ◌++◌, map, arith, ◌==◌, All,
}
use edge_sync.Cli.Notify.{split_commas}
use edge_sync.Leaf.{cut_equals, Headers, put, lookup, put_pairs, parse_headers}

abbrev pub NoByte : ℕ → Text → Type 0
NoByte b = All (λ c. (c == b) ≡ false)

cut_equals-append : (k v : Text) → NoByte b'=' k → cut_equals (k ++ b'=' ∷ v) ≡ some (k, v)
unfolding cut_equals
cut_equals-append [] v h = refl
cut_equals-append (c ∷ k) v h = ground (arith, cut_equals-append k v h.1)

-- `strings.Join(parts, ",")` of at least one text.
unfoldable pub join_commas : Text → List Text → Text
join_commas p [] = p
join_commas p (q ∷ parts) = p ++ b',' ∷ join_commas q parts

split_commas_whole : (p : Text) → NoByte b',' p → split_commas p ≡ p ∷ []
unfolding split_commas
split_commas_whole [] h = refl
split_commas_whole (c ∷ p) h = ground (arith, split_commas_whole p h.1)

split_commas_some : (t : Text) → split_commas t ≢ []
unfolding split_commas
split_commas_some [] = λ e. cc
split_commas_some (c ∷ t) = λ e. ground (arith, split_commas_some t)

split_commas-append :
    (p t : Text) → NoByte b',' p → split_commas (p ++ b',' ∷ t) ≡ p ∷ split_commas t
unfolding split_commas
split_commas-append [] t h = ground (arith, split_commas_some t)
split_commas-append (c ∷ p) t h = ground (arith, split_commas-append p t h.1)

split_commas-join_commas :
    (p : Text) (parts : List Text)
    → NoByte b',' p
    → All (NoByte b',') parts
    → split_commas (join_commas p parts) ≡ p ∷ parts
unfolding join_commas
split_commas-join_commas p [] h hs = split_commas_whole p h
split_commas-join_commas p (q ∷ parts) h hs =
    split_commas-append p (join_commas q parts) h
    ∙ ap (λ ps. p ∷ ps) (split_commas-join_commas q parts hs.0 hs.1)

-- `k=v`.
abbrev pub print_pair : Text × Text → Text
print_pair (k, v) = k ++ b'=' ∷ v

-- No trimming changes the key or the value, which have no comma, and the key has no '='.
pub record IsPlain (trim : Text → Text) (header : Text × Text) : Type 0 where
  pub trimmed_key : trim header.0 ≡ header.0
  pub trimmed_value : trim header.1 ≡ header.1
  pub no_equals : NoByte b'=' header.0
  pub no_comma : NoByte b',' (print_pair header)

-- The value of the last header with this key.
unfoldable pub latest : Text → Headers → Option Text → Option Text
latest key [] found = found
latest key ((k, v) ∷ headers) found = latest key headers (ite (text_eq k key) (some v) found)

lookup-put :
    (key k v : Text) (headers : Headers)
    → lookup key (put k v headers) ≡ ite (text_eq k key) (some v) (lookup key headers)
unfolding lookup put
lookup-put key k v [] = refl
lookup-put key k v ((a, b) ∷ headers) = grind (arith, lookup-put key k v headers)

put_pairs-cons :
    (trim : Text → Text) (pair k v : Text) (pairs : List Text) (headers : Headers)
    → cut_equals pair ≡ some (k, v)
    → put_pairs trim (pair ∷ pairs) headers ≡ put_pairs trim pairs (put (trim k) (trim v) headers)
unfolding put_pairs
put_pairs-cons trim pair k v pairs headers e = rw (e, put_pairs)

lookup-put_pairs :
    (trim : Text → Text) (key : Text) (given headers : Headers)
    → All (IsPlain trim) given
    → lookup key (put_pairs trim (map print_pair given) headers)
      ≡ latest key given (lookup key headers)
unfolding put_pairs latest
lookup-put_pairs trim key [] headers h = refl
lookup-put_pairs trim key ((k, v) ∷ given) headers h =
    ap (lookup key) (
      put_pairs-cons trim (print_pair (k, v)) k v (map print_pair given) headers
        (cut_equals-append k v h.0.no_equals))
    ∙ rw (h.0.trimmed_key, h.0.trimmed_value)
        (lookup-put_pairs trim key given (put k v headers) h.1)
    ∙ ap (latest key given) (lookup-put key k v headers)

is_empty-join_commas :
    (h : Text × Text) (parts : List Text) → is_empty (join_commas (print_pair h) parts) ≡ false
unfolding join_commas
is_empty-join_commas ([], v) [] = refl
is_empty-join_commas ([], v) (p ∷ parts) = refl
is_empty-join_commas (c ∷ k, v) [] = refl
is_empty-join_commas (c ∷ k, v) (p ∷ parts) = refl

plain-no_comma :
    (trim : Text → Text) (headers : Headers)
    → All (IsPlain trim) headers
    → All (NoByte b',') (map print_pair headers)
plain-no_comma trim [] h = _
plain-no_comma trim (header ∷ headers) h = (h.0.no_comma, plain-no_comma trim headers h.1)

-- Headers without commas, without an equals sign in a key and without what TrimSpace removes are
-- read back from `k=v,...`: of several values of one key the last, and no other key.
pub parse_headers_lem :
    (trim : Text → Text) (key : Text) (h : Text × Text) (headers : Headers)
    → All (IsPlain trim) (h ∷ headers)
    → lookup key (parse_headers trim (join_commas (print_pair h) (map print_pair headers)))
      ≡ latest key (h ∷ headers) none
unfolding parse_headers lookup
parse_headers_lem trim key h headers plain =
    let commas = plain-no_comma trim (h ∷ headers) plain in
    rw
      (
        is_empty-join_commas h (map print_pair headers),
        split_commas-join_commas (print_pair h) (map print_pair headers) commas.0 commas.1,
      )
      (lookup-put_pairs trim key (h ∷ headers) [] plain)
