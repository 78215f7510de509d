-- ===== src/Notify/Dedup/Recent.antt =====
-- How long an accepted id is remembered: at least through the next half of the cap.
use edge_sync.Base.{
  member, ℕ, zero, suc, ◌+◌, ◌/◌, ◌≤◌, ◌≡◌, refl, ap, ◌∙◌, inl, inr, List, [], ◌∷◌, ◌++◌, true,
  false, length, length-append, drop, ltb, ltb→lt, Text, arith, Bool-cases, append_assoc,
}
use edge_sync.Notify.Dedup.{Subscriber, remember, is_duplicate_at, run}
use edge_sync.Notify.Dedup.Window.{
  IsWindow, member-append, is_duplicate_at_old, is_duplicate_at_new, is_duplicate_at-IsWindow,
  run-IsWindow,
}

-- At most `k` ids were accepted after `id`.
abbrev pub IsRecent : Text → ℕ → Subscriber → Type 0
IsRecent id k s =
    (older : List Text) × (newer : List Text) × (s.seen_order ≡ older ++ id ∷ newer)
    × (length newer ≤ k)

drop-append : (n : ℕ) (xs ys : List Text) → n ≤ length xs → drop n (xs ++ ys) ≡ drop n xs ++ ys
drop-append zero xs ys h = refl
drop-append (suc n) [] ys h = absurd (omega arith)
drop-append (suc n) (x ∷ xs) ys h = drop-append n xs ys (omega arith)

member-middle : (id : Text) (xs ys : List Text) → member id (xs ++ id ∷ ys) ≡ true
unfolding member
member-middle id xs ys = ground (arith, member-append id xs (id ∷ ys))

module _ (cap : ℕ) (id : Text) where
  remember-IsRecent :
      (k : ℕ) (x : Text) (s : Subscriber)
      → length s.seen_order ≤ cap
      → suc k + (cap + 1) / 2 ≤ cap
      → IsRecent id k s
      → IsRecent id (suc k) (remember cap x s)
  unfolding remember
  remember-IsRecent k x s bounded room (older, newer, e, short) =
      let q : s.seen_order ++ x ∷ [] ≡ older ++ (id ∷ (newer ++ x ∷ [])) =
        ap (λ l. l ++ x ∷ []) e ∙ append_assoc older (id ∷ newer) (x ∷ []) in
      let len : length (s.seen_order ++ x ∷ []) ≡ length s.seen_order + 1 =
        length-append s.seen_order (x ∷ []) in
      let parts : length s.seen_order ≡ length older + suc (length newer) =
        ap length e ∙ length-append older (id ∷ newer) in
      let last : length (newer ++ x ∷ []) ≤ suc k = omega (arith, length-append newer (x ∷ [])) in
      elim (Bool-cases (ltb cap (length (s.seen_order ++ x ∷ [])))) [
        | inl full ↦
            let half = length (s.seen_order ++ x ∷ []) / 2 in
            let fits : half ≤ length older = omega (arith, ltb→lt cap _ full) in
            (
              drop half older,
              newer ++ x ∷ [],
              rw (full, remember) (ap (drop half) q ∙ drop-append half older _ fits),
              last,
            )
        | inr room' ↦ (older, newer ++ x ∷ [], rw (room', remember) q, last)
      ]

  remember_self-IsRecent :
      (s : Subscriber) → length s.seen_order ≤ cap → 1 ≤ cap → IsRecent id 0 (remember cap id s)
  unfolding remember
  remember_self-IsRecent s bounded positive =
      let len : length (s.seen_order ++ id ∷ []) ≡ length s.seen_order + 1 =
        length-append s.seen_order (id ∷ []) in
      elim (Bool-cases (ltb cap (length (s.seen_order ++ id ∷ [])))) [
        | inl full ↦
            let half = length (s.seen_order ++ id ∷ []) / 2 in
            let fits : half ≤ length s.seen_order = omega (arith, ltb→lt cap _ full) in
            (
              drop half s.seen_order,
              [],
              rw (full, remember) (drop-append half s.seen_order (id ∷ []) fits),
              omega arith,
            )
        | inr room ↦ (s.seen_order, [], rw (room, remember), omega arith)
      ]

  IsRecent-mono : (j k : ℕ) (s : Subscriber) → j ≤ k → IsRecent id j s → IsRecent id k s
  IsRecent-mono j k s le (older, newer, e, short) = (older, newer, e, omega arith)

  call-IsRecent :
      (k : ℕ) (x : Text) (s : Subscriber)
      → 1 ≤ cap
      → IsWindow cap s
      → s.dedup ≡ true
      → suc k + (cap + 1) / 2 ≤ cap
      → IsRecent id k s
      → IsRecent id (suc k) (is_duplicate_at cap x s).1
  call-IsRecent k x s positive w on room h = elim (Bool-cases (member x s.seen)) [
    | inl old ↦
        rw (is_duplicate_at_old cap positive x s w on old)
          (IsRecent-mono k (suc k) s (omega arith) h)
    | inr new ↦
        rw (is_duplicate_at_new cap positive x s w on new)
          (remember-IsRecent k x s w.bounded room h)
  ]

  call_dedup :
      (x : Text) (s : Subscriber) → s.dedup ≡ true → (is_duplicate_at cap x s).1.dedup ≡ true
  unfolding is_duplicate_at remember
  call_dedup x s on = ground arith

  run-IsRecent :
      (ids : List Text) (k : ℕ) (s : Subscriber)
      → 1 ≤ cap
      → IsWindow cap s
      → s.dedup ≡ true
      → k + length ids + (cap + 1) / 2 ≤ cap
      → IsRecent id k s
      → (run cap ids s).dedup ≡ true × IsRecent id (k + length ids) (run cap ids s)
  unfolding run
  run-IsRecent [] k s positive w on room h = (on, IsRecent-mono k (k + 0) s (omega arith) h)
  run-IsRecent (x ∷ ids) k s positive w on room h =
      let (on', recent) =
        run-IsRecent ids (suc k) (is_duplicate_at cap x s).1 positive
          (is_duplicate_at-IsWindow cap positive x s w) (call_dedup x s on) (omega arith)
          (call-IsRecent k x s positive w on (omega arith) h) in
      (
        on',
        IsRecent-mono (suc k + length ids) (k + suc (length ids))
            (run cap ids (is_duplicate_at cap x s).1) (omega arith) recent,
      )

  accepted_new :
      (s : Subscriber)
      → s.dedup ≡ true
      → (is_duplicate_at cap id s).0 ≡ false
      → member id s.seen ≡ false
  unfolding is_duplicate_at
  accepted_new s on h = ground arith

  -- With a positive cap, in a well-formed state with deduplication on, an id that is accepted as new
  -- is reported as a duplicate again after any further messages, as long as these are no more than
  -- half of the cap (rounded down).
  pub is_duplicate_at_recent :
      (ids : List Text) (s : Subscriber)
      → 1 ≤ cap
      → IsWindow cap s
      → s.dedup ≡ true
      → (is_duplicate_at cap id s).0 ≡ false
      → length ids ≤ cap / 2
      → (is_duplicate_at cap id (run cap ids (is_duplicate_at cap id s).1)).0 ≡ true
  is_duplicate_at_recent ids s positive w on accepted few =
      let s₁ = (is_duplicate_at cap id s).1 in
      let s₂ = run cap ids s₁ in
      let new : member id s.seen ≡ false = accepted_new s on accepted in
      let first : IsRecent id 0 s₁ =
        rw (is_duplicate_at_new cap positive id s w on new)
          (remember_self-IsRecent s w.bounded positive) in
      let w₁ = is_duplicate_at-IsWindow cap positive id s w in
      let (on₂, (older, newer, e, _)) =
        run-IsRecent ids 0 s₁ positive w₁ (call_dedup id s on) (omega arith) first in
      let w₂ = run-IsWindow cap ids s₁ positive w₁ in
      let found : member id s₂.seen ≡ true =
        w₂.agrees id ∙ (ap (member id) e ∙ member-middle id older newer) in
      ap (λ r. r.0) (is_duplicate_at_old cap positive id s₂ w₂ on₂ found)
