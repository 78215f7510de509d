-- ===== src/Sim/Schedule/Heals.antt =====
-- The proxy at the end of a schedule: whatever was drawn, nothing is left broken.
use edge_sync.Base.{
  ℕ, zero, suc, ◌+◌, ◌≤◌, ◌<◌, ◌≡◌, refl, sym, ap, subst, ◌∙◌, inl, inr, List, [], ◌∷◌, Bool, true,
  false, delete, Text, arith, All, All-append, All-imp, Elem, Elem-All, Elem-append-right,
  Bool-cases,
}
use edge_sync.Base.Sorting.{IsSorted}
use edge_sync.Sim.Proxy
use edge_sync.Sim.Proxy.{
  FaultProxy, IsClean, IsClean-new, new_fault_proxy, is_partitioned, is_partitioned_clean,
  set_latency, drop_connections,
}
use edge_sync.Sim.Schedule.{
  FaultType, partition, heal_partition, latency, heal_latency, drop_conns, bridge_restart,
  leaf_restart, heal_all, Level, normal, adversarial, hostile, unnamed, FaultEvent, pick_kind,
  kind_count, fault_events, one_fault, faults, num_faults, unsorted, generate_schedule, inject,
  play,
}

-- The faults that last until they are healed.
pub lasts : FaultType → Bool
lasts partition = true
lasts latency = true
lasts _ = false

inject-IsClean :
    (k : FaultType) (target : Text) (param : ℕ) (p : FaultProxy)
    → lasts k ≡ false
    → IsClean p
    → IsClean (inject k target param p)
unfolding inject lasts Proxy.heal Proxy.heal_all set_latency drop_connections delete
inject-IsClean partition target param p h c = cc
inject-IsClean latency target param p h c = cc
inject-IsClean heal_partition target param p h c = (ap (delete target) c.0, c.1)
inject-IsClean heal_latency target param p h c = (c.0, refl)
inject-IsClean drop_conns target param p h c = c
inject-IsClean bridge_restart target param p h c = c
inject-IsClean leaf_restart target param p h c = c
inject-IsClean heal_all target param p h c = (refl, refl)

inject-heal_all :
    (target : Text) (param : ℕ) (p : FaultProxy) → IsClean (inject heal_all target param p)
unfolding inject Proxy.heal_all set_latency
inject-heal_all target param p = (refl, refl)

play-IsClean :
    (es : List FaultEvent) (p : FaultProxy)
    → All (λ e. lasts e.kind ≡ false) es
    → IsClean p
    → IsClean (play es p)
unfolding play
play-IsClean [] p h c = c
play-IsClean (e ∷ es) p h c =
    play-IsClean es (inject e.kind e.target e.param p) h.1
      (inject-IsClean e.kind e.target e.param p h.0 c)

-- A fault that lasts comes before the end.
abbrev pub IsTame : ℕ → FaultEvent → Type 0
IsTame d e = lasts e.kind ≡ true → e.time < d

late_harmless : (d : ℕ) (e : FaultEvent) → IsTame d e → d ≤ e.time → lasts e.kind ≡ false
late_harmless d e tame le = elim (Bool-cases (lasts e.kind)) [
  | inl h ↦ let early = tame h in absurd (omega arith)
  | inr h ↦ h
]

both :
    (d : ℕ) (es : List FaultEvent)
    → All (IsTame d) es
    → All (λ e. d ≤ e.time) es
    → All (λ e. lasts e.kind ≡ false) es
both d [] t l = tt
both d (e ∷ es) t l = (late_harmless d e t.0 l.0, both d es t.1 l.1)

-- A sorted schedule of tame faults with a last heal-all leaves the proxy clean.
play_healed :
    (last : FaultEvent) (es : List FaultEvent) (p : FaultProxy)
    → last.kind ≡ heal_all
    → IsSorted (λ e. e.time) es
    → All (IsTame last.time) es
    → Elem last es
    → IsClean (play es p)
unfolding play
play_healed last [] p k s t m = absurd m
play_healed last (e ∷ es) p k s t (inl same) =
    let kind : e.kind ≡ heal_all = ap (λ x. x.kind) same ∙ k in
    let times : last.time ≡ e.time = sym (ap (λ x. x.time) same) in
    play-IsClean es (inject e.kind e.target e.param p)
      (both last.time es t.1 (All-imp es (λ y le. omega arith) s.0))
      (subst (λ f. IsClean (inject f e.target e.param p)) (sym kind)
        (inject-heal_all e.target e.param p))
play_healed last (e ∷ es) p k s t (inr m) =
    play_healed last es (inject e.kind e.target e.param p) k s.1 t.1 m

-- The documented behaviour of math/rand and of sort.Slice.
pub record IsRandom (intn : ℕ → ℕ → ℕ) : Type 0 where
  pub below : (k n : ℕ) → 0 < n → intn k n < n

pub record IsSort (sort_slice : List FaultEvent → List FaultEvent) : Type 0 where
  pub sorted : (es : List FaultEvent) → IsSorted (λ e. e.time) (sort_slice es)
  pub keeps : (e : FaultEvent) (es : List FaultEvent) → Elem e es → Elem e (sort_slice es)
  pub adds_none : (es : List FaultEvent) → All (λ e. Elem e es) (sort_slice es)

module _ (intn : ℕ → ℕ → ℕ) (random : IsRandom intn) (leaf_label : ℕ → Text) (d : ℕ)
    (some_time : 0 < d) where
  fault_events-IsTame :
      (f : FaultType) (offset : ℕ) (target : Text) (k : ℕ)
      → offset < d
      → All (IsTame d) (fault_events intn leaf_label d f offset target k).0
  unfolding fault_events lasts
  fault_events-IsTame partition offset target k lt = ((λ h. lt), ((λ h. cc), tt))
  fault_events-IsTame latency offset target k lt = ((λ h. lt), ((λ h. cc), tt))
  fault_events-IsTame heal_partition offset target k lt = ((λ h. lt), tt)
  fault_events-IsTame heal_latency offset target k lt = ((λ h. lt), tt)
  fault_events-IsTame drop_conns offset target k lt = ((λ h. lt), tt)
  fault_events-IsTame bridge_restart offset target k lt = ((λ h. lt), tt)
  fault_events-IsTame leaf_restart offset target k lt = ((λ h. lt), tt)
  fault_events-IsTame heal_all offset target k lt = ((λ h. lt), tt)

  faults-IsTame :
      (n : ℕ) (severity : Level) (num_leaves k : ℕ)
      → All (IsTame d) (faults intn leaf_label d n severity num_leaves k)
  unfolding faults one_fault
  faults-IsTame zero severity num_leaves k = tt
  faults-IsTame (suc n) severity num_leaves k =
      All-append (IsTame d) _ _
        (fault_events-IsTame (pick_kind severity (intn (k + 1) (kind_count severity))) (intn k d)
          (leaf_label (intn (k + 2) num_leaves)) (k + 3) (random.below k d some_time))
        (faults-IsTame n severity num_leaves _)

  abbrev last : FaultEvent
  last = record { time = d; kind = heal_all; target = []; param = 0 }

  unsorted-IsTame :
      (severity : Level) (num_leaves : ℕ)
      → All (IsTame d) (unsorted intn leaf_label d severity num_leaves)
  unfolding unsorted lasts
  unsorted-IsTame severity num_leaves =
      All-append (IsTame d) _ (last ∷ [])
        (faults-IsTame (num_faults intn leaf_label d severity).0 severity num_leaves
          (num_faults intn leaf_label d severity).1)
        ((λ h. cc), tt)

  unsorted-last :
      (severity : Level) (num_leaves : ℕ)
      → Elem last (unsorted intn leaf_label d severity num_leaves)
  unfolding unsorted
  unsorted-last severity num_leaves = Elem-append-right last _ (last ∷ []) (inl refl)

  play_sorted :
      (sort_slice : List FaultEvent → List FaultEvent) (severity : Level) (num_leaves : ℕ)
      (p : FaultProxy)
      → IsSort sort_slice
      → IsClean (play (sort_slice (unsorted intn leaf_label d severity num_leaves)) p)
  play_sorted sort_slice severity num_leaves p s =
      let es = unsorted intn leaf_label d severity num_leaves in
      play_healed last (sort_slice es) p refl (s.sorted es)
        (All-imp (sort_slice es)
          (λ e m. Elem-All (IsTame d) e es (unsorted-IsTame severity num_leaves) m)
          (s.adds_none es))
        (s.keeps last es (unsorted-last severity num_leaves))

  generated-IsClean :
      (sort_slice : List FaultEvent → List FaultEvent) (severity : Level) (num_leaves : ℕ)
      → IsSort sort_slice
      → IsClean (
          play (generate_schedule intn leaf_label d sort_slice severity num_leaves) new_fault_proxy)
  unfolding generate_schedule play
  generated-IsClean sort_slice normal num_leaves s = IsClean-new
  generated-IsClean sort_slice adversarial num_leaves s =
      play_sorted sort_slice adversarial num_leaves new_fault_proxy s
  generated-IsClean sort_slice hostile num_leaves s =
      play_sorted sort_slice hostile num_leaves new_fault_proxy s
  generated-IsClean sort_slice unnamed num_leaves s =
      play_sorted sort_slice unnamed num_leaves new_fault_proxy s

  -- After a whole generated schedule of a positive duration, whatever was drawn and however events
  -- of one time are ordered, a new proxy turns no connection away and adds no latency.
  pub generate_schedule_heals :
      (sort_slice : List FaultEvent → List FaultEvent) (severity : Level) (num_leaves : ℕ)
      (addr : Text)
      → IsSort sort_slice
      → (is_partitioned addr (
            play
              (generate_schedule intn leaf_label d sort_slice severity num_leaves)
              new_fault_proxy)
          ≡ false)
        × ((play
              (generate_schedule intn leaf_label d sort_slice severity num_leaves)
              new_fault_proxy).latency
            ≡ 0)
  generate_schedule_heals sort_slice severity num_leaves addr s =
      let clean = generated-IsClean sort_slice severity num_leaves s in
      (is_partitioned_clean addr _ clean, clean.1)
