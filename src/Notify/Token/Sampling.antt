-- ===== src/Notify/Token/Sampling.antt =====
-- The tokens that `GenerateToken` makes: their characters, their form and their distribution.
use edge_sync.Base.{
  ℕ, zero, suc, ◌+◌, ◌%◌, ◌≤◌, ◌<◌, ◌≡◌, refl, sym, ap, ◌∙◌, inl, inr, List, [], ◌∷◌, ◌++◌, Bool,
  true, false, not, ◌==◌, ltb, subst, take, drop, keep, keep-append, keep-All, keep-false, All-take,
  All-drop, take-append-drop, take_whole, drop-drop, length-append, length-drop, none, some,
  Option-cases, All, All-imp, length, if◌then◌else◌, Text, arith,
}
use mathlib.Core.Option
use mathlib.Core.Option.{some-injective}
use edge_sync.Notify.Token.{
  token_alphabet, token_reject_threshold, char_at, draw, sample, group_chars, generate_token,
  raw_token, Codec, hash_token,
}

-- Every character of the text passes the test.
every_char : (ℕ → Bool) → Text → Bool
every_char test [] = true
every_char test (c ∷ t) = let rest = every_char test t in if test c then rest else false

char_at-passes :
    (test : ℕ → Bool) (t : Text) (i : ℕ)
    → every_char test t ≡ true
    → i < length t
    → test (char_at i t) ≡ true
unfolding every_char char_at
char_at-passes test [] i h lt = absurd (omega arith)
char_at-passes test (c ∷ t) zero h lt = ground arith
char_at-passes test (c ∷ t) (suc i) h lt = char_at-passes test t i (ground arith) (omega arith)

-- The bytes below `n` that draw the character `c`.
pub count_draws : ℕ → ℕ → ℕ
count_draws zero c = 0
count_draws (suc n) c =
    count_draws n c + (elim (draw n) [ none ↦ 0 | some d ↦ if d == c then 1 else 0 ])

uniform_table : every_char (λ c. count_draws 256 c == 8) token_alphabet ≡ true
unfolding every_char count_draws draw char_at
uniform_table = refl

-- No modulo bias: each of the 30 characters is drawn by exactly 8 of the 256 byte values.
pub count_draws_uniform : (i : ℕ) → i < 30 → count_draws 256 (char_at i token_alphabet) ≡ 8
count_draws_uniform i lt =
    let same = char_at-passes (λ c. count_draws 256 c == 8) token_alphabet i uniform_table lt in
    ground arith

-- A character of the alphabet.
abbrev pub IsTokenChar : ℕ → Type 0
IsTokenChar c = (i : ℕ) × (i < 30) × (c ≡ char_at i token_alphabet)

abbrev not_dash : ℕ → Bool
not_dash c = not (c == b'-')

no_dash_table : every_char not_dash token_alphabet ≡ true
unfolding every_char
no_dash_table = refl

IsTokenChar-not_dash : (c : ℕ) → IsTokenChar c → not_dash c ≡ true
IsTokenChar-not_dash c (i, lt, e) = rw e (char_at-passes not_dash token_alphabet i no_dash_table lt)

draw-IsTokenChar : (b c : ℕ) → draw b ≡ some c → IsTokenChar c
unfolding draw
draw-IsTokenChar b c h = (b % 30, omega arith, ground arith)

draw_rejects : (b : ℕ) → draw b ≡ none → ltb b token_reject_threshold ≡ false
unfolding draw
draw_rejects b h = ground arith

draw_accepts : (b c : ℕ) → draw b ≡ some c → ltb b token_reject_threshold ≡ true
unfolding draw
draw_accepts b c h = ground arith

abbrev IsDrawn : ℕ → Text → Type 0
IsDrawn k t = (length t ≡ k) × All IsTokenChar t

sample-none :
    (k b : ℕ) (bytes : List ℕ) → draw b ≡ none → sample (suc k) (b ∷ bytes) ≡ sample (suc k) bytes
unfolding sample
sample-none k b bytes e = ground arith

sample-some :
    (k b c : ℕ) (bytes : List ℕ)
    → draw b ≡ some c
    → sample (suc k) (b ∷ bytes) ≡ Option.map (◌∷◌ c) (sample k bytes)
unfolding sample
sample-some k b c bytes e = ground arith

sample-IsDrawn : (k : ℕ) (bytes : List ℕ) (t : Text) → sample k bytes ≡ some t → IsDrawn k t
unfolding sample
sample-IsDrawn zero bytes t h = subst (IsDrawn 0) (some-injective _ _ h) (refl, tt)
sample-IsDrawn (suc k) [] t h = cc
sample-IsDrawn (suc k) (b ∷ bytes) t h = elim (Option-cases (draw b)) [
  | inl e ↦ sample-IsDrawn (suc k) bytes t (sym (sample-none k b bytes e) ∙ h)
  | inr (c, e) ↦ elim (Option-cases (sample k bytes)) [
    | inl q ↦ absurd (failed c e q)
    | inr (u, q) ↦
        let (len, chars) = sample-IsDrawn k bytes u q in
        subst (IsDrawn (suc k)) (made c e u q) (ap suc len, (draw-IsTokenChar b c e, chars))
  ]
]
  where
    failed : (c : ℕ) → draw b ≡ some c → sample k bytes ≡ none → ⊥
    failed c e q = ground (arith, sample-some k b c bytes e)

    made : (c : ℕ) → draw b ≡ some c → (u : Text) → sample k bytes ≡ some u → c ∷ u ≡ t
    made c e u q = ground (arith, sample-some k b c bytes e)

regroup :
    (chars : Text)
    → length chars ≡ 12
    → take 4 chars ++ (take 4 (drop 4 chars) ++ take 4 (drop 8 chars)) ≡ chars
regroup chars len =
    let last : take 4 (drop 8 chars) ≡ drop 4 (drop 4 chars) =
      take_whole (drop 8 chars) 4 (omega (arith, length-drop 8 chars))
      ∙ sym (drop-drop 4 4 chars) in
    ap (λ l. take 4 chars ++ (take 4 (drop 4 chars) ++ l)) last
    ∙ ap (◌++◌ (take 4 chars)) (take-append-drop 4 (drop 4 chars))
    ∙ take-append-drop 4 chars

keep-dash : (xs : Text) → keep not_dash (b'-' ∷ xs) ≡ keep not_dash xs
keep-dash xs = keep-false not_dash b'-' xs refl

-- Taking the dashes out gives the drawn characters back.
raw_token-group_chars : (chars : Text) → IsDrawn 12 chars → raw_token (group_chars chars) ≡ chars
unfolding raw_token group_chars
raw_token-group_chars chars (len, letters) =
    let clean : All (λ c. not_dash c ≡ true) chars = All-imp chars IsTokenChar-not_dash letters in
    let P : ℕ → Type 0 = λ c. not_dash c ≡ true in
    let a = keep-All not_dash (take 4 chars) (All-take P 4 chars clean) in
    let b = keep-All not_dash (take 4 (drop 4 chars)) (All-take P 4 _ (All-drop P 4 chars clean)) in
    let c = keep-All not_dash (take 4 (drop 8 chars)) (All-take P 4 _ (All-drop P 8 chars clean)) in
    rw
      (
        keep-append not_dash (take 4 chars),
        keep-dash,
        keep-append not_dash (take 4 (drop 4 chars)),
        keep-dash,
        a,
        b,
        c,
      )
      (regroup chars len)

length-group_chars : (chars : Text) → length chars ≡ 12 → length (group_chars chars) ≡ 14
unfolding group_chars
length-group_chars chars len =
    let whole = ap length (regroup chars len) in
    omega (
      arith,
      length-append (take 4 chars) (take 4 (drop 4 chars) ++ take 4 (drop 8 chars)),
      length-append (take 4 (drop 4 chars)) (take 4 (drop 8 chars)),
      length-append (take 4 chars)
          (b'-' ∷ (take 4 (drop 4 chars) ++ (b'-' ∷ take 4 (drop 8 chars)))),
      length-append (take 4 (drop 4 chars)) (b'-' ∷ take 4 (drop 8 chars)),
    )

-- Every generated token has 14 bytes, and its raw form is the 12 drawn characters, all of the
-- alphabet.
pub generate_token_form :
    (bytes : List ℕ) (token : Text)
    → generate_token bytes ≡ some token
    → (length token ≡ 14) × (length (raw_token token) ≡ 12) × All IsTokenChar (raw_token token)
unfolding generate_token
generate_token_form bytes token h = elim (Option-cases (sample 12 bytes)) [
  | inl q ↦ absurd (ground arith)
  | inr (chars, q) ↦
      let drawn = sample-IsDrawn 12 bytes chars q in
      let raw = raw_token-group_chars chars drawn in
      let same : group_chars chars ≡ token = ground arith in
      (
        rw (← same) (length-group_chars chars drawn.0),
        rw (← same, raw) drawn.0,
        subst (All IsTokenChar) (sym raw ∙ ap raw_token same) drawn.1,
      )
]

-- The bytes of the stream that are not rejected.
unfoldable pub count_accepted : List ℕ → ℕ
count_accepted [] = 0
count_accepted (b ∷ bytes) = count_accepted bytes + (if ltb b token_reject_threshold then 1 else 0)

-- The loop ends with its characters when the stream holds as many bytes below the threshold.
pub sample_total :
    (k : ℕ) (bytes : List ℕ) → k ≤ count_accepted bytes → (t : Text) × (sample k bytes ≡ some t)
unfolding sample count_accepted
sample_total zero bytes h = ([], refl)
sample_total (suc k) [] h = absurd (omega arith)
sample_total (suc k) (b ∷ bytes) h = elim (Option-cases (draw b)) [
  | inl e ↦
      let (t, q) = sample_total (suc k) bytes (ground (arith, draw_rejects b e)) in
      (t, sample-none k b bytes e ∙ q)
  | inr (c, e) ↦
      let (t, q) = sample_total k bytes (ground (arith, draw_accepts b c e)) in
      (c ∷ t, sample-some k b c bytes e ∙ rw q)
]

raw_token_clean : (t : Text) → All (λ c. not_dash c ≡ true) t → raw_token t ≡ t
unfolding raw_token
raw_token_clean t h = keep-All not_dash t h

-- The hash does not depend on the dashes of the displayed form.
pub hash_token-raw_token :
    (c : Codec) (bytes : List ℕ) (token : Text)
    → generate_token bytes ≡ some token
    → hash_token c (raw_token token) ≡ hash_token c token
unfolding hash_token
hash_token-raw_token c bytes token h =
    let (_, _, letters) = generate_token_form bytes token h in
    ap c.sha256_hex
      (raw_token_clean (raw_token token) (All-imp (raw_token token) IsTokenChar-not_dash letters))
