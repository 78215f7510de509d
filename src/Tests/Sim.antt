-- ===== src/Tests/Sim.antt =====
-- The simulator at concrete inputs.
use edge_sync.Base.{
  ℕ, ◌*◌, ◌≡◌, refl, List, false, Text, arith, All, All-imp, Elem, inl, inr, [], ◌∷◌,
}
use edge_sync.Base.Sorting.{sort, sort-IsSorted, Elem-sort, All-sort}
use edge_sync.Sim.Proxy.{FaultProxy, new_fault_proxy, is_partitioned}
use edge_sync.Sim.Schedule.{FaultEvent, hostile, second, generate_schedule, play}
use edge_sync.Sim.Schedule.Heals.{IsRandom, IsSort, generate_schedule_heals}

-- Every draw is zero, the least of its range.
abbrev zeros : ℕ → ℕ → ℕ
zeros k n = 0

zeros-IsRandom : IsRandom zeros
zeros-IsRandom = record { below = λ k n h. h }

abbrev label : ℕ → Text
label n = n ∷ []

abbrev by_time : List FaultEvent → List FaultEvent
by_time = sort (λ e. e.time)

own : (es : List FaultEvent) → All (λ e. Elem e es) es
own [] = tt
own (e ∷ es) = (inl refl, All-imp es (λ x m. inr m) (own es))

by_time-IsSort : IsSort by_time
by_time-IsSort = record {
  sorted = sort-IsSorted (λ e. e.time);
  keeps = Elem-sort (λ e. e.time);
  adds_none = λ es. All-sort (λ e. e.time) (λ e. Elem e es) es (own es);
}

abbrev after : FaultProxy
after = play (generate_schedule zeros label (10 * second) by_time hostile 3) new_fault_proxy

generate_schedule_heals_example : (is_partitioned (label 4) after ≡ false) × (after.latency ≡ 0)
generate_schedule_heals_example =
    generate_schedule_heals zeros zeros-IsRandom label (10 * second) (omega arith) by_time hostile 3
      (label 4) by_time-IsSort
