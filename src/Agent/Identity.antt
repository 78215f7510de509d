-- ===== src/Agent/Identity.antt =====
-- leaf/agent/clientid.go: the UUID that identifies the agent's repository. The config row holds
-- the id once it is stored; the random reader gives some bytes or fails.
pub mod Stable
use edge_sync.Base.{
  ℕ, zero, suc, ◌+◌, ◌/◌, ◌%◌, List, [], ◌∷◌, ◌++◌, Bool, true, false, ◌&&◌, ◌==◌, ltb, non_empty,
  Option, none, some, if◌then◌else◌, Text, codes,
}

-- `b[i]` of the zeroed array into which the reader wrote.
unfoldable pub byte_at : ℕ → List ℕ → ℕ
byte_at i [] = 0
byte_at zero (b ∷ bs) = b
byte_at (suc i) (b ∷ bs) = byte_at i bs

-- The array with the version and the variant set: `& 0x0f | 0x40` and `& 0x3f | 0x80`.
unfoldable pub marked : List ℕ → ℕ → ℕ
unfolding byte_at
marked bs i =
    if i == 6
    then byte_at i bs % 16 + 64
    else if i == 8
    then byte_at i bs % 64 + 128
    else byte_at i bs

unfoldable pub hex_digit : ℕ → ℕ
hex_digit n = if ltb n 10 then b'0' + n else b'W' + n

unfoldable pub hex_range : (ℕ → ℕ) → ℕ → ℕ → Text
unfolding hex_digit
hex_range b i zero = []
hex_range b i (suc n) = hex_digit (b i / 16) ∷ hex_digit (b i % 16) ∷ hex_range b (suc i) n

unfoldable pub format_uuid : (ℕ → ℕ) → Text
unfolding hex_range
format_uuid b =
    hex_range b 0 4
    ++ (b'-'
        ∷ (hex_range b 4 2
            ++ (b'-'
                ∷ (hex_range b 6 2 ++ (b'-' ∷ (hex_range b 8 2 ++ (b'-' ∷ hex_range b 10 6)))))))

unfoldable pub generate_uuid4 : Option (List ℕ) → Option Text
unfolding format_uuid marked
generate_uuid4 none = none
generate_uuid4 (some bs) = some (format_uuid (marked bs))

-- The id stored, if the query goes through and finds one that is not empty.
unfoldable pub stored : Bool → Option Text → Option Text
stored query_ok none = none
stored query_ok (some id) = if query_ok && non_empty id then some id else none

-- The id, or `none` for an error, and the config row afterwards.
unfoldable pub ensure_client_id :
    Bool → Option (List ℕ) → Bool → Option Text → Option Text × Option Text
unfolding stored generate_uuid4
ensure_client_id query_ok rng store_ok row = elim (stored query_ok row) [
  | some id ↦ (some id, row)
  | none ↦ elim (generate_uuid4 rng) [
    | none ↦ (none, row)
    | some id ↦ if store_ok then (some id, some id) else (none, row)
  ]
]
