-- ===== src/Agent/Identity/Stable.antt =====
-- The form of a generated client id, and that it is kept.
use edge_sync.Base.{
  ℕ, ◌+◌, ◌/◌, ◌%◌, ◌<◌, ◌≤◌, ◌≡◌, refl, ap, ◌∙◌, inl, inr, List, [], ◌∷◌, Bool, true, length,
  subst, non_empty, Option, none, some, Option-cases, Text, arith,
}
use mathlib.Core.Option.{some-injective}
use edge_sync.Agent.Identity.{
  byte_at, marked, hex_digit, hex_range, format_uuid, generate_uuid4, stored, ensure_client_id,
}

-- The text has 36 characters, with dashes at 8, 13, 18 and 23, the digit 4 at 14, and one of the
-- digits 8, 9, a and b at 19.
pub record IsUuid4 (id : Text) : Type 0 where
  pub size : length id ≡ 36
  pub dashes :
      (byte_at 8 id ≡ b'-')
      × (byte_at 13 id ≡ b'-')
      × (byte_at 18 id ≡ b'-')
      × (byte_at 23 id ≡ b'-')
  pub version : byte_at 14 id ≡ b'4'
  pub variant : (n : ℕ) × (8 ≤ n) × (n < 12) × (byte_at 19 id ≡ hex_digit n)

version_digit : (x : ℕ) → (x % 16 + 64) / 16 ≡ 4
version_digit x = omega arith

variant_low : (x : ℕ) → 8 ≤ (x % 64 + 128) / 16
variant_low x = omega arith

variant_high : (x : ℕ) → (x % 64 + 128) / 16 < 12
variant_high x = omega arith

format_uuid-IsUuid4 : (bs : List ℕ) → IsUuid4 (format_uuid (marked bs))
unfolding format_uuid marked hex_range byte_at
format_uuid-IsUuid4 bs = record {
  size = refl;
  dashes = (refl, refl, refl, refl);
  version = ap hex_digit (version_digit (byte_at 6 bs)) ∙ four;
  variant = (
    (byte_at 8 bs % 64 + 128) / 16,
    variant_low (byte_at 8 bs),
    variant_high (byte_at 8 bs),
    refl,
  );
}
  where
    four : hex_digit 4 ≡ b'4'
    four = unfold hex_digit in refl

-- Every id that is generated has the form of a version 4 UUID.
pub generate_uuid4_form :
    (bs : List ℕ) (id : Text) → generate_uuid4 (some bs) ≡ some id → IsUuid4 id
unfolding generate_uuid4
generate_uuid4_form bs id h = subst IsUuid4 (some-injective _ _ h) (format_uuid-IsUuid4 bs)

generated_non_empty :
    (rng : Option (List ℕ)) (id : Text) → generate_uuid4 rng ≡ some id → non_empty id ≡ true
unfolding generate_uuid4
generated_non_empty none id h = cc
generated_non_empty (some bs) id h = longer id (generate_uuid4_form bs id h).size
  where
    longer : (id : Text) → length id ≡ 36 → non_empty id ≡ true
    longer [] e = absurd (omega arith)
    longer (x ∷ t) e = refl

ensure_stored :
    (query_ok : Bool) (rng : Option (List ℕ)) (store_ok : Bool) (row : Option Text) (id : Text)
    → stored query_ok row ≡ some id
    → ensure_client_id query_ok rng store_ok row ≡ (some id, row)
unfolding ensure_client_id
ensure_stored query_ok rng store_ok row id e = ground arith

stored_sound :
    (query_ok : Bool) (row : Option Text) (id : Text)
    → stored query_ok row ≡ some id
    → (row ≡ some id) × (non_empty id ≡ true)
unfolding stored
stored_sound query_ok none id h = cc
stored_sound query_ok (some t) id h = ground arith

stored_again :
    (row : Option Text) (id : Text)
    → row ≡ some id
    → non_empty id ≡ true
    → stored true row ≡ some id
unfolding stored
stored_again none id e n = cc
stored_again (some t) id e n = ground arith

-- The row after a call that returned an id holds that id, which is not empty.
ensure_kept :
    (query_ok : Bool) (rng : Option (List ℕ)) (store_ok : Bool) (row row' : Option Text) (id : Text)
    → ensure_client_id query_ok rng store_ok row ≡ (some id, row')
    → (row' ≡ some id) × (non_empty id ≡ true)
unfolding ensure_client_id
ensure_kept query_ok rng store_ok row row' id h = elim (Option-cases (stored query_ok row)) [
  | inr (t, e) ↦ let (held, full) = stored_sound query_ok row t e in ground arith
  | inl e ↦ elim (Option-cases (generate_uuid4 rng)) [
    | inl g ↦ absurd (ground arith)
    | inr (t, g) ↦ let full = generated_non_empty rng t g in ground arith
  ]
]

-- An id that was returned once is returned by every later call whose query goes through, whatever
-- the random reader and the store then do, and the row stays.
pub ensure_client_id_twice :
    (query_ok : Bool) (rng later_rng : Option (List ℕ)) (store_ok later_store_ok : Bool)
    (row row' : Option Text) (id : Text)
    → ensure_client_id query_ok rng store_ok row ≡ (some id, row')
    → ensure_client_id true later_rng later_store_ok row' ≡ (some id, row')
ensure_client_id_twice query_ok rng later_rng store_ok later_store_ok row row' id h =
    let (held, full) = ensure_kept query_ok rng store_ok row row' id h in
    ensure_stored true later_rng later_store_ok row' id (stored_again row' id held full)
