-- ===== src/Ws/Aggregators.antt =====
-- ws/channel_aggregator.go and ws/mutex_aggregator.go. The numbers of `float64` are a parameter with
-- their sum, their quotient and the conversion from `int`. What wakes an aggregator, in the order in
-- which it comes, is a list of events; the reports that goroutines ask of the stations come at any
-- time, or never. The end of either loop by `quit` is the end of the list.
use mr_and_raft.Common.{
  ℕ, ◌+◌, ◌≡◌, refl, inl, inr, ◌∙◌, ap, List, [], ◌∷◌, if◌then◌else◌, ◌==◌, Bool-cases, length, suc,
  arith,
}
use mathlib.Core.List.{foldl}

module _ {ℓ} (F : Type ℓ) where
  pub record WeatherReport : Type ℓ where
    pub value : F
    pub id : ℕ
    pub batch : ℕ

  pub data Event : Type ℓ where
    tick : Event
    report : WeatherReport → Event

  pub record Aggregator : Type ℓ where
    pub total : F
    pub count : ℕ
    pub batch : ℕ

  -- The number type, with 0, `+`, `/` and `float64(n)`.
  pub record Float : Type ℓ where
    pub zero_value : F
    pub add : F → F → F
    pub divide : F → F → F
    pub of_int : ℕ → F

module _ {ℓ} {F : Type ℓ} (float : Float F) where
  abbrev pub begin : Aggregator F
  begin = record { total = float.zero_value; count = 0; batch = 0 }

  -- The `select` of `channelAggregator`: what it sends to `out`, and its next state.
  unfoldable pub channel_aggregator : Aggregator F → List (Event F) → List (WeatherReport F)
  channel_aggregator agg [] = []
  channel_aggregator agg (Event.tick ∷ events) =
      record { value = float.divide agg.total (float.of_int agg.count); id = 0; batch = agg.batch }
      ∷ channel_aggregator (record { total = float.zero_value; count = 0; batch = agg.batch + 1 })
          events
  channel_aggregator agg (Event.report r ∷ events) =
      channel_aggregator
        (if r.batch == agg.batch
          then record agg { total = float.add agg.total r.value; count = agg.count + 1 }
          else agg)
        events

  -- A goroutine of `mutexAggregator`, once its report has come, under the lock
  pub deliver : WeatherReport F → Aggregator F → Aggregator F
  deliver r agg =
      if r.batch == agg.batch
      then record agg { total = float.add agg.total r.value; count = agg.count + 1 }
      else agg

  -- A tick of `mutexAggregator`, under the lock
  pub flush : Aggregator F → Aggregator F × WeatherReport F
  flush agg = (
    record { total = float.zero_value; count = 0; batch = agg.batch + 1 },
    record { value = float.divide agg.total (float.of_int agg.count); id = 0; batch = agg.batch },
  )

  unfoldable pub mutex_aggregator : Aggregator F → List (Event F) → List (WeatherReport F)
  unfolding deliver flush
  mutex_aggregator agg [] = []
  mutex_aggregator agg (Event.tick ∷ events) =
      let (next, out) = flush agg in out ∷ mutex_aggregator next events
  mutex_aggregator agg (Event.report r ∷ events) = mutex_aggregator (deliver r agg) events

  -- The values of a batch that come before the next tick.
  abbrev pub values_before_tick : ℕ → List (Event F) → List F
  values_before_tick batch [] = []
  values_before_tick batch (Event.tick ∷ events) = []
  values_before_tick batch (Event.report r ∷ events) =
      if r.batch == batch
      then r.value ∷ values_before_tick batch events
      else values_before_tick batch events

  abbrev pub average : List F → F
  average values =
      float.divide (foldl float.add float.zero_value values) (float.of_int (length values))

  -- For each tick, in order, the average of the values of its batch that came since the tick before.
  abbrev pub averages : ℕ → List (Event F) → List (Event F) → List (WeatherReport F)
  averages batch period [] = []
  averages batch period (Event.tick ∷ events) =
      record { value = average (values_before_tick batch period); id = 0; batch = batch }
      ∷ averages (batch + 1) events events
  averages batch period (Event.report r ∷ events) = averages batch period events

  mutex-channel :
      (events : List (Event F)) (agg : Aggregator F)
      → mutex_aggregator agg events ≡ channel_aggregator agg events
  unfolding mutex_aggregator channel_aggregator
  mutex-channel [] agg = refl
  mutex-channel (Event.tick ∷ events) agg =
      ap (λ outs. (flush agg).1 ∷ outs) (mutex-channel events (flush agg).0)
  mutex-channel (Event.report r ∷ events) agg = mutex-channel events (deliver r agg)

  -- What is in the aggregator, and what is still to come, make up the period.
  channel_averages :
      (events period : List (Event F)) (agg : Aggregator F)
      → float.divide
          (foldl float.add agg.total (values_before_tick agg.batch events))
          (float.of_int (agg.count + length (values_before_tick agg.batch events)))
        ≡ average (values_before_tick agg.batch period)
      → channel_aggregator agg events ≡ averages agg.batch period events
  unfolding channel_aggregator
  channel_averages [] period agg h = refl
  channel_averages (Event.tick ∷ events) period agg h =
      let next : Aggregator F = record {
        total = float.zero_value;
        count = 0;
        batch = agg.batch + 1;
      } in
      let none_more : agg.count ≡ agg.count + 0 = omega arith in
      let all_in : float.divide agg.total (float.of_int agg.count)
          ≡ average (values_before_tick agg.batch period) =
        ap (λ n. float.divide agg.total (float.of_int n)) none_more ∙ h in
      ap (λ v. record { value = v; id = 0; batch = agg.batch } ∷ channel_aggregator next events)
        all_in
      ∙ ap
          (λ outs.
            record {
              value = average (values_before_tick agg.batch period);
              id = 0;
              batch = agg.batch;
            }
            ∷ outs)
          (channel_averages events events next (
            ap
              (λ n.
                float.divide
                  (foldl float.add float.zero_value (values_before_tick (agg.batch + 1) events))
                  (float.of_int n))
              (omega arith)))
  channel_averages (Event.report r ∷ events) period agg h =
      elim (Bool-cases (r.batch == agg.batch)) [
        | inl same ↦
            let vs = values_before_tick agg.batch events in
            let one_more : (agg.count + 1) + length vs ≡ agg.count + suc (length vs) =
              omega arith in
            let total : Aggregator F = record agg {
              total = float.add agg.total r.value;
              count = agg.count + 1;
            } in
            rw same (
              channel_averages events period total (
                ap
                  (λ n.
                    float.divide (foldl float.add (float.add agg.total r.value) vs)
                      (float.of_int n))
                  one_more
                ∙ rw same at h))
        | inr late ↦ rw late (channel_averages events period agg (rw late at h))
      ]

  -- Both aggregators send for each tick, in order, the average of exactly those reports of its batch
  -- that came since the tick before; a report of an earlier batch that comes late counts nowhere.
  pub aggregators_lem :
      (events : List (Event F))
      → (channel_aggregator begin events ≡ averages 0 events events)
        × (mutex_aggregator begin events ≡ averages 0 events events)
  aggregators_lem events =
      let channel = channel_averages events events begin (
        ap
          (λ n.
            float.divide (foldl float.add float.zero_value (values_before_tick 0 events))
              (float.of_int n))
          (omega arith)) in
      (channel, mutex-channel events begin ∙ channel)
