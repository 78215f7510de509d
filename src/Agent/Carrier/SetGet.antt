-- ===== src/Agent/Carrier/SetGet.antt =====
-- What was set is read back.
use edge_sync.Base.{
  text_eq, Text, ◌≡◌, refl, ap, ◌∙◌, ◌⊎◌, inl, inr, if_pos, if_neg, true, false, not, List, [], ◌∷◌,
  arith, length, keep, keep-nil, keep-true, keep-false, All, All-append, Elem, Elem-append-right,
  Elem-All, All-of_Elem,
}
use edge_sync.Agent.Carrier.{Entry, Header, get_visited, get, is_key, set}

-- Every entry is visited, and nothing else.
pub record IsVisit (visit : Header → List Entry) : Type 0 where
  pub forth : (e : Entry) (c : Header) → Elem e c → Elem e (visit c)
  pub back : (e : Entry) (c : Header) → Elem e (visit c) → Elem e c

module _ (fold canonical : Text → Text) (key value : Text) where
  abbrev written : Entry
  written = (canonical key, value ∷ [])

  -- An entry that the other key finds is the written one.
  abbrev IsWritten : Text → Entry → Type 0
  IsWritten other e = fold e.0 ≡ fold other → e ≡ written

  get_visited-IsWritten :
      (other : Text) (entries : List Entry)
      → fold (canonical key) ≡ fold other
      → All (IsWritten other) entries
      → Elem written entries
      → get_visited fold canonical entries other ≡ value
  unfolding get_visited
  get_visited-IsWritten other [] f h m = absurd m
  get_visited-IsWritten other ((k, []) ∷ entries) f h (inl e) =
      absurd (omega (arith, ap (λ p. length p.1) e))
  get_visited-IsWritten other ((k, []) ∷ entries) f h (inr m) =
      get_visited-IsWritten other entries f h.1 m
  get_visited-IsWritten other ((k, v ∷ vs) ∷ entries) f h m = elim (text_eq (fold k) (fold other)) [
    | yes e ↦ if_pos (text_eq (fold k) (fold other)) e _ _ ∙ head_value (h.0 e)
    | no e ↦
        if_neg (text_eq (fold k) (fold other)) e _ _
        ∙ get_visited-IsWritten other entries f h.1 (behind e m)
  ]
    where
      head_value : (k, v ∷ vs) ≡ written → v ≡ value
      head_value e = cc

      behind :
          ¬ (fold k ≡ fold other)
          → ((k, v ∷ vs) ≡ written) ⊎ Elem written entries
          → Elem written entries
      behind d (inl e) = absurd (d (ap (λ p. fold p.0) e ∙ f))
      behind d (inr m) = m

  set-All :
      (other : Text) (c : Header)
      → All (λ e. fold e.0 ≡ fold other → e.0 ≡ canonical key) c
      → All (IsWritten other) (keep (λ e. not (is_key (canonical key) e)) c)
  unfolding is_key
  set-All other [] h = rw keep-nil tt
  set-All other (e ∷ c) h = elim (text_eq e.0 (canonical key)) [
    | yes p ↦
        rw (keep-false _ e c (ap not (if_pos (text_eq e.0 (canonical key)) p true false)))
          (set-All other c h.1)
    | no p ↦
        rw (keep-true _ e c (ap not (if_neg (text_eq e.0 (canonical key)) p true false)))
          (λ q. absurd (p (h.0 q)), set-All other c h.1)
  ]

  -- In whatever order the header is visited, a value that was set is read back under every key that
  -- differs from the canonical one in case only, if the header had no other key of that kind.
  pub get-set :
      (visit : Header → List Entry) (other : Text) (c : Header)
      → IsVisit visit
      → fold (canonical key) ≡ fold other
      → All (λ e. fold e.0 ≡ fold other → e.0 ≡ canonical key) c
      → get fold canonical visit (set fold canonical key value c) other ≡ value
  unfolding get set
  get-set visit other c v f h =
      let now = set fold canonical key value c in
      let kept = keep (λ e. not (is_key (canonical key) e)) c in
      let all : All (IsWritten other) now =
        All-append (IsWritten other) kept (written ∷ []) (set-All other c h) (λ q. refl, tt) in
      get_visited-IsWritten other (visit now) f
        (All-of_Elem (IsWritten other) (visit now)
          (λ e m. Elem-All (IsWritten other) e now all (v.back e now m)))
        (v.forth written now (Elem-append-right written kept (written ∷ []) (inl refl)))
