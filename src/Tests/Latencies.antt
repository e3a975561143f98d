-- ===== src/Tests/Latencies.antt =====
-- Runs of `LatencyTracker` of include/pipeline.h.
use simd_nanoring.Common.{ℕ, ◌+◌, ◌≤◌, ◌≡◌, [], ◌∷◌, leb, ◌==◌, if◌then◌else◌, arith, refl}
use simd_nanoring.Pipelines.Latency.{
  LatencyTracker, new_tracker, record_all, sort_samples, percentile, first, max_samples,
}
use simd_nanoring.Pipelines.Latency.Sorting.{passing}
use simd_nanoring.Pipelines.Latency.Percentiles.{take, record_all-take, percentile-ranks}

abbrev three : LatencyTracker
three = record { samples = λ i. if i == 0 then 30 else if i == 1 then 10 else 20; count = 3 }

record_all-take_example :
    (first
        (record_all (30 ∷ 10 ∷ []) new_tracker).samples
        (record_all (30 ∷ 10 ∷ []) new_tracker).count
      ≡ take max_samples (30 ∷ 10 ∷ []))
    × ((record_all (30 ∷ 10 ∷ []) new_tracker).count ≤ max_samples)
    × ((k : ℕ)
        → max_samples ≤ k
        → (record_all (30 ∷ 10 ∷ []) new_tracker).samples k ≡ new_tracker.samples k)
record_all-take_example = record_all-take (30 ∷ 10 ∷ [])

median : percentile 1 (sort_samples three) ≡ 20
unfolding percentile sort_samples
median = refl

percentile-ranks_example :
    (1 ≤ passing (λ y. y == percentile 1 (sort_samples three)) (30 ∷ 10 ∷ 20 ∷ []))
    × (2 ≤ passing (λ y. leb y (percentile 1 (sort_samples three))) (30 ∷ 10 ∷ 20 ∷ []))
    × (3 ≤ 1 + passing (λ y. leb (percentile 1 (sort_samples three)) y) (30 ∷ 10 ∷ 20 ∷ []))
percentile-ranks_example = percentile-ranks 1 three (omega arith)
