-- ===== src/Hub/Repo/Table.antt =====
-- The rows of the repository's `event` table, and the two queries that hub/repo.go makes of them.
use edge_sync.Base.{
  ℕ, ◌≡◌, ◌≤◌, ◌<◌, ◌≢◌, refl, ap, inl, inr, List, [], ◌∷◌, map, Bool, true, ◌&&◌, ltb, keep,
  keep-nil, keep-true, keep-false, All, All-imp, Elem, Elem-All, max, ◌==◌, if◌then◌else◌, arith,
  Bool-cases,
}
use edge_sync.Base.Sorting.{sort, IsStrict, IsDistinct, sort-IsStrict, All-sort, Elem-sort}

-- `is_checkin` says that the row's type is 'ci'.
pub record Event : Type 0 where
  pub objid : ℕ
  pub is_checkin : Bool

-- A write of a row replaces the row with the same objid.
pub put_event : Event → List Event → List Event
put_event e [] = e ∷ []
put_event e (x ∷ xs) = if x.objid == e.objid then e ∷ xs else x ∷ put_event e xs

pub put_events : List Event → List Event → List Event
unfolding put_event
put_events [] table = table
put_events (e ∷ es) table = put_events es (put_event e table)

-- type='ci' AND objid > ?
abbrev pub wanted : ℕ → Event → Bool
wanted w e = e.is_checkin && ltb w e.objid

-- SELECT objid FROM event WHERE type='ci' AND objid > ? ORDER BY objid
unfoldable pub checkins_above : ℕ → List Event → List ℕ
checkins_above w table = sort (λ n. n) (map (λ e. e.objid) (keep (wanted w) table))

-- SELECT COALESCE(MAX(objid), 0) FROM event WHERE type='ci'
unfoldable pub max_checkin : List Event → ℕ
max_checkin [] = 0
max_checkin (e ∷ es) = if e.is_checkin then max e.objid (max_checkin es) else max_checkin es

-- No two rows share an objid.
abbrev pub IsTable : List Event → Type 0
IsTable = IsDistinct (λ e. e.objid)

put_event-All :
    {k : ℕ} (e : Event) (table : List Event)
    → e.objid ≢ k
    → All (λ x. x.objid ≢ k) table
    → All (λ x. x.objid ≢ k) (put_event e table)
unfolding put_event
put_event-All e [] n h = (n, tt)
put_event-All e (x ∷ xs) n h = elim (Bool-cases (x.objid == e.objid)) [
  | inl q ↦ rw q (n, h.1)
  | inr q ↦ rw q (h.0, put_event-All e xs n h.1)
]

put_event-IsTable : (e : Event) (table : List Event) → IsTable table → IsTable (put_event e table)
unfolding put_event
put_event-IsTable e [] h = (tt, tt)
put_event-IsTable e (x ∷ xs) h = elim (Bool-cases (x.objid == e.objid)) [
  | inl q ↦
      let same : x.objid ≡ e.objid = ground arith in
      rw q (All-imp xs (λ y n. ground arith) h.0, h.1)
  | inr q ↦ rw q (put_event-All e xs (ground arith) h.0, put_event-IsTable e xs h.1)
]

-- Writing rows keeps the key.
pub put_events-IsTable : (es table : List Event) → IsTable table → IsTable (put_events es table)
unfolding put_events
put_events-IsTable [] table h = h
put_events-IsTable (e ∷ es) table h =
    put_events-IsTable es (put_event e table) (put_event-IsTable e table h)

-- The rows that the first query selects, as objids.
abbrev selected : ℕ → List Event → List ℕ
selected w table = map (λ e. e.objid) (keep (wanted w) table)

-- The check-in `n` stands in the table.
abbrev pub Listed : List Event → ℕ → Type 0
Listed table n = (e : Event) × Elem e table × (e.is_checkin ≡ true) × (e.objid ≡ n)

selected-All :
    (P : ℕ → Type 0) (w : ℕ) (table : List Event)
    → ((e : Event) → Elem e table → wanted w e ≡ true → P e.objid)
    → All P (selected w table)
selected-All P w [] f = rw keep-nil tt
selected-All P w (x ∷ xs) f =
    let rest = selected-All P w xs (λ e m q. f e (inr m) q) in
    elim (Bool-cases (wanted w x)) [
      | inl q ↦ rw (keep-true (wanted w) x xs q) (f x (inl refl) q, rest)
      | inr q ↦ rw (keep-false (wanted w) x xs q) rest
    ]

selected-ne :
    (k w : ℕ) (table : List Event)
    → All (λ x. x.objid ≢ k) table
    → All (λ n. n ≢ k) (selected w table)
selected-ne k w table h =
    selected-All (λ n. n ≢ k) w table (λ e m _. Elem-All (λ x. x.objid ≢ k) e table h m)

selected-IsDistinct :
    (w : ℕ) (table : List Event) → IsTable table → IsDistinct (λ n. n) (selected w table)
selected-IsDistinct w [] h = rw keep-nil tt
selected-IsDistinct w (x ∷ xs) h = elim (Bool-cases (wanted w x)) [
  | inl q ↦
      rw (keep-true (wanted w) x xs q) (selected-ne x.objid w xs h.0, selected-IsDistinct w xs h.1)
  | inr q ↦ rw (keep-false (wanted w) x xs q) (selected-IsDistinct w xs h.1)
]

Elem-selected :
    (w : ℕ) (e : Event) (table : List Event)
    → wanted w e ≡ true
    → Elem e table
    → Elem e.objid (selected w table)
Elem-selected w e [] q m = absurd m
Elem-selected w e (x ∷ xs) q (inl h) =
    rw (keep-true (wanted w) x xs (ground arith)) (inl (ap (λ y. y.objid) h))
Elem-selected w e (x ∷ xs) q (inr m) = elim (Bool-cases (wanted w x)) [
  | inl p ↦ rw (keep-true (wanted w) x xs p) (inr (Elem-selected w e xs q m))
  | inr p ↦ rw (keep-false (wanted w) x xs p) (Elem-selected w e xs q m)
]

-- The new rids rise strictly, lie above the watermark and are check-ins of the table.
pub checkins_above-IsStrict :
    (w : ℕ) (table : List Event) → IsTable table → IsStrict (λ n. n) (checkins_above w table)
unfolding checkins_above
checkins_above-IsStrict w table h =
    sort-IsStrict (λ n. n) (selected w table) (selected-IsDistinct w table h)

pub checkins_above-bound : (w : ℕ) (table : List Event) → All (λ n. w < n) (checkins_above w table)
unfolding checkins_above
checkins_above-bound w table =
    All-sort (λ n. n) (λ n. w < n) (selected w table)
      (selected-All (λ n. w < n) w table (λ e _ q. ground arith))

pub checkins_above-Listed :
    (w : ℕ) (table : List Event) → All (Listed table) (checkins_above w table)
unfolding checkins_above
checkins_above-Listed w table =
    All-sort (λ n. n) (Listed table) (selected w table)
      (selected-All (Listed table) w table (λ e m q. (e, m, ground arith, refl)))

-- Every check-in above the watermark is selected.
pub Elem-checkins_above :
    (w : ℕ) (e : Event) (table : List Event)
    → Elem e table
    → e.is_checkin ≡ true
    → w < e.objid
    → Elem e.objid (checkins_above w table)
unfolding checkins_above
Elem-checkins_above w e table m ci lt =
    Elem-sort (λ n. n) e.objid (selected w table) (Elem-selected w e table (ground arith) m)

-- The snapshot is the greatest check-in.
pub max_checkin-bound :
    (e : Event) (table : List Event)
    → Elem e table
    → e.is_checkin ≡ true
    → e.objid ≤ max_checkin table
unfolding max_checkin
max_checkin-bound e [] m ci = absurd m
max_checkin-bound e (x ∷ xs) (inl h) ci = ground arith
max_checkin-bound e (x ∷ xs) (inr m) ci = ground (arith, max_checkin-bound e xs m ci)
