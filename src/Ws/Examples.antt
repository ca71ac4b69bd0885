-- ===== src/Ws/Examples.antt =====
-- The theorem on the aggregators of ws/, with numbers for `float64`, at two ticks and a late report.
use mr_and_raft.Common.{ℕ, ◌+◌, ◌/◌, ◌≡◌, List, [], ◌∷◌}
use mr_and_raft.Ws.Aggregators.{
  Float, Event, begin, channel_aggregator, mutex_aggregator, aggregators_lem,
}

abbrev numbers : Float ℕ
numbers = record { zero_value = 0; add = λ x y. x + y; divide = λ x y. x / y; of_int = λ n. n }

abbrev reading : ℕ → ℕ → Event ℕ
reading value batch = Event.report (record { value = value; id = 1; batch = batch })

abbrev events : List (Event ℕ)
events = reading 10 0 ∷ reading 20 0 ∷ Event.tick ∷ reading 90 0 ∷ reading 30 1 ∷ Event.tick ∷ []

aggregators_lem_example :
    (channel_aggregator numbers (begin numbers) events
      ≡ record { value = 15; id = 0; batch = 0 } ∷ record { value = 30; id = 0; batch = 1 } ∷ [])
    × (mutex_aggregator numbers (begin numbers) events
        ≡ record { value = 15; id = 0; batch = 0 } ∷ record { value = 30; id = 0; batch = 1 } ∷ [])
aggregators_lem_example = aggregators_lem numbers events
