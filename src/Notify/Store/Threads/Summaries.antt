-- ===== src/Notify/Store/Threads/Summaries.antt =====
-- The summary of a thread agrees with what ReadThread gives for it.
use edge_sync.Base.{
  Text, ◌≤◌, ◌≡◌, refl, sym, ap, subst, ◌∙◌, ◌⊎◌, inl, inr, List, [], ◌∷◌, arith, length, All, Elem,
  Elem-All, All-of_Elem, Elem-map, Elem-map_back,
}
use edge_sync.Base.Sorting.{IsSorted}
use edge_sync.Notify.Message.{priority_info, Message, priority_rank, highest_priority}
use edge_sync.Notify.Message.Paths.{priorities, highest_priority_lem}
use edge_sync.Notify.Store.Threads.{ThreadSummary, Runtime, last_of, summary_of}

-- The list has the elements of the other one.
pub record IsRearranged {A : Type 0} (f : List A → List A) : Type 0 where
  pub forth : (a : A) (xs : List A) → Elem a xs → Elem a (f xs)
  pub back : (a : A) (xs : List A) → Elem a (f xs) → Elem a xs

-- What ListThreads relies on: Go visits each entry of a map, and sort.Slice sorts.
pub record IsRuntime (R : Runtime) : Type 0 where
  pub visits : IsRearranged R.visit
  pub by_time_elements : IsRearranged R.by_time
  pub by_time_length : (ms : List Message) → length (R.by_time ms) ≡ length ms
  pub by_time_sorted : (ms : List Message) → IsSorted (λ m. m.timestamp) (R.by_time ms)
  pub by_activity_elements : IsRearranged R.by_activity

-- The summary of the messages.
pub record IsSummary (x : ThreadSummary) (ms : List Message) : Type 0 where
  pub count : x.message_count ≡ length ms
  pub last : Elem x.last_message ms
  pub activity : x.last_activity ≡ x.last_message.timestamp
  pub latest : All (λ m. m.timestamp ≤ x.last_activity) ms
  pub urgent : All (λ m. priority_rank m.priority ≤ priority_rank x.priority) ms
  pub level : (x.priority ≡ priority_info) ⊎ Elem x.priority (priorities ms)

Elem-last_of : (m : Message) (ms : List Message) → Elem (last_of m ms) (m ∷ ms)
Elem-last_of m [] = inl refl
Elem-last_of m (k ∷ ms) = inr (Elem-last_of k ms)

latest_last_of :
    (m : Message) (ms : List Message)
    → IsSorted (λ k. k.timestamp) (m ∷ ms)
    → All (λ k. k.timestamp ≤ (last_of m ms).timestamp) (m ∷ ms)
latest_last_of m [] s = (omega arith, tt)
latest_last_of m (k ∷ ms) s =
    let rest = latest_last_of k ms s.1 in (omega (arith, s.0.0, rest.0), rest)

module _ (R : Runtime) (runs : IsRuntime R) (project short : Text) where
  module _ (ms : List Message) where
    All-by_time : (P : Message → Type 0) → All P (R.by_time ms) → All P ms
    All-by_time P h =
        All-of_Elem P ms (λ a m. Elem-All P a (R.by_time ms) h (runs.by_time_elements.forth a ms m))

    Elem-priorities : (p : Text) → Elem p (priorities (R.by_time ms)) → Elem p (priorities ms)
    Elem-priorities p h =
        let (a, found, e) = Elem-map_back (λ m. m.priority) p (R.by_time ms) h in
        subst (λ q. Elem q (priorities ms)) e
          (Elem-map (λ m. m.priority) a ms (runs.by_time_elements.back a ms found))

  -- The summary of a thread's messages, brought into the order of time.
  pub summary_of-IsSummary :
      (ms : List Message) (m : Message) (sorted : List Message)
      → R.by_time ms ≡ m ∷ sorted
      → IsSummary (summary_of project short m sorted) ms
  unfolding summary_of
  summary_of-IsSummary ms m sorted e =
      let late =
        latest_last_of m sorted (subst (IsSorted (λ k. k.timestamp)) e (runs.by_time_sorted ms)) in
      let (high, which) = highest_priority_lem (m ∷ sorted) in
      let last = last_of m sorted in
      let top = highest_priority (m ∷ sorted) in
      record {
        count = sym (ap length e) ∙ runs.by_time_length ms;
        last =
            runs.by_time_elements.back last ms (subst (Elem last) (sym e) (Elem-last_of m sorted));
        activity = refl;
        latest =
            All-by_time ms (λ k. k.timestamp ≤ last.timestamp)
              (subst (All (λ k. k.timestamp ≤ last.timestamp)) (sym e) late);
        urgent =
            All-by_time ms (λ k. priority_rank k.priority ≤ priority_rank top)
              (subst (All (λ k. priority_rank k.priority ≤ priority_rank top)) (sym e) high);
        level = elim which [
          | inl q ↦ inl q
          | inr h ↦ inr (Elem-priorities ms top (subst (λ l. Elem top (priorities l)) (sym e) h))
        ];
      }
