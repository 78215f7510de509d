-- ===== src/Tests/Threads.antt =====
-- The list of threads and the deliveries of a subscriber at concrete inputs.
use edge_sync.Base.{
  text_eq, member, Text, ℕ, ◌-◌, ◌≡◌, refl, sym, subst, List, [], ◌∷◌, arith, ℕ_discrete, All, Elem,
  Elem-All, All-of_Elem,
}
use edge_sync.Base.Sorting.{sort, All-sort, sort-IsSorted, Elem-sort, length-sort}
use edge_sync.Notify.Message.{Message, thread_short}
use edge_sync.Notify.Dedup.{new_subscriber, enable_dedup, remember, is_duplicate_at}
use edge_sync.Notify.Pubsub.{on_nats_msg, deliver}
use edge_sync.Notify.Pubsub.Delivery.{decoded, firsts, deliver-firsts}
use edge_sync.Notify.Service.{Service, send}
use edge_sync.Notify.Service.Sends
use edge_sync.Notify.Store.{ok}
use edge_sync.Notify.Store.Refines.{Represents}
use edge_sync.Notify.Store.Threads.{ThreadSummary, Runtime, list_threads}
use edge_sync.Notify.Store.Threads.Summaries.{IsRearranged, IsRuntime}
use edge_sync.Notify.Store.Threads.Agree.{Agrees, list_threads-read_thread}
use edge_sync.Tests.Store.{
  decode, encode, fossil, fossil_laws, answering, draws, thread_open, first_sent, second_sent,
  sent_second, slashless_7, Represents-first, second-IsAccepted,
}

-- The store with both messages.
abbrev answered : Service fossil
answered = (send fossil (draws 2) answering thread_open).1

Represents-answered : Represents fossil answered.state (second_sent ∷ first_sent ∷ [])
unfolding Sends.deliver
Represents-answered =
    subst (λ r. Represents fossil answered.state (Sends.deliver r (first_sent ∷ []))) sent_second
      (Sends.send-Represents fossil fossil_laws (draws 2) answering thread_open (first_sent ∷ [])
        Represents-first
        (subst (Sends.IsAccepted fossil fossil_laws (first_sent ∷ [])) (sym sent_second)
          second-IsAccepted))

module _ {A : Type 0} (key : A → ℕ) where
  sort-IsRearranged : IsRearranged (sort key)
  sort-IsRearranged = record {
    forth = Elem-sort key;
    back = λ a xs m.
        Elem-All (λ x. Elem x xs) a (sort key xs)
          (All-sort key (λ x. Elem x xs) xs (All-of_Elem (λ x. Elem x xs) xs (λ b k. k))) m;
  }

-- Sorts by time, and by last activity as long as no time is above 100.
abbrev sorting : Runtime
sorting = record {
  visit = λ groups. groups;
  by_time = sort (λ m. m.timestamp);
  by_activity = sort (λ x. 100 - x.last_activity);
}

sorting-IsRuntime : IsRuntime sorting
sorting-IsRuntime = record {
  visits = record { forth = λ a xs m. m; back = λ a xs m. m };
  by_time_elements = sort-IsRearranged (λ m. m.timestamp);
  by_time_length = length-sort (λ m. m.timestamp);
  by_time_sorted = sort-IsSorted (λ m. m.timestamp);
  by_activity_elements = sort-IsRearranged (λ x. 100 - x.last_activity);
}

list_threads-read_thread_example :
    (xs : List ThreadSummary) × (list_threads fossil sorting (7 ∷ []) answered.state ≡ ok xs)
    × All
        (Agrees fossil sorting sorting-IsRuntime
          (7 ∷ [])
          slashless_7
          answered.state
          (second_sent ∷ first_sent ∷ [])
          Represents-answered)
        xs
    × ((m : Message)
        → Elem m (second_sent ∷ first_sent ∷ [])
        → m.project ≡ 7 ∷ []
        → (x : ThreadSummary) × Elem x xs × (x.short ≡ thread_short m))
list_threads-read_thread_example =
    list_threads-read_thread fossil sorting sorting-IsRuntime (7 ∷ []) slashless_7 answered.state
      (second_sent ∷ first_sent ∷ []) Represents-answered

-- The second payload cannot be decoded, the third repeats the first.
abbrev payloads : List Text
payloads = encode first_sent ∷ [] ∷ encode first_sent ∷ encode second_sent ∷ []

delivered_twice :
    (deliver 4 decode payloads (enable_dedup new_subscriber)).0 ≡ first_sent ∷ second_sent ∷ []
unfolding deliver on_nats_msg is_duplicate_at remember enable_dedup new_subscriber member text_eq
    ℕ_discrete
delivered_twice = refl

deliver-firsts_example :
    (deliver 4 decode payloads (enable_dedup new_subscriber)).0
    ≡ firsts [] (decoded decode payloads)
deliver-firsts_example = deliver-firsts 4 decode payloads new_subscriber (omega arith)
