-- ===== src/Pipelines/Latency.antt =====
-- include/pipeline.h, `LatencyTracker`, and the latencies of src/experiments.cpp. The index
-- `static_cast<size_t>(p * count)`, a product of floating-point numbers, is an argument.
pub mod Sorting
pub mod Percentiles
use simd_nanoring.Common.{ℕ, zero, suc, ◌+◌, ◌-◌, List, [], ◌∷◌, ltb, leb, ◌==◌, if◌then◌else◌, set}
use simd_nanoring.Decoder.Batch.{entry}
use simd_nanoring.Decoder.Wire.Words.{length}

-- `std::sort` on numbers: the elements in ascending order.
unfoldable pub insert_sorted : ℕ → List ℕ → List ℕ
insert_sorted x [] = x ∷ []
insert_sorted x (y ∷ ys) = let rest = insert_sorted x ys in if leb x y then x ∷ y ∷ ys else y ∷ rest

unfoldable pub sort : List ℕ → List ℕ
unfolding insert_sorted
sort [] = []
sort (x ∷ xs) = insert_sorted x (sort xs)

-- The first `n` elements of an array.
abbrev pub first : (ℕ → ℕ) → ℕ → List ℕ
first a zero = []
first a (suc n) = a 0 ∷ first (λ i. a (suc i)) n

abbrev pub max_samples : ℕ
max_samples = 1000000

pub record LatencyTracker : Type 0 where
  pub samples : ℕ → ℕ
  pub count : ℕ

abbrev pub new_tracker : LatencyTracker
new_tracker = record { samples = λ i. 0; count = 0 }

-- `LatencyTracker::record`
unfoldable pub record_sample : ℕ → LatencyTracker → LatencyTracker
record_sample ns t =
    if ltb t.count max_samples
    then record { samples = set t.samples t.count ns; count = t.count + 1 }
    else t

unfoldable pub record_all : List ℕ → LatencyTracker → LatencyTracker
unfolding record_sample
record_all [] t = t
record_all (ns ∷ rest) t = record_all rest (record_sample ns t)

unfoldable pub sort_samples : LatencyTracker → LatencyTracker
unfolding sort
sort_samples t = record t {
  samples = λ i. if ltb i t.count then entry (sort (first t.samples t.count)) i else t.samples i;
}

-- The index after `if (idx >= count) idx = count - 1;`
abbrev pub clipped : ℕ → ℕ → ℕ
clipped idx count = if leb count idx then count - 1 else idx

-- `percentile` where `p * count` is truncated to `idx`.
unfoldable pub percentile : ℕ → LatencyTracker → ℕ
percentile idx t = if t.count == 0 then 0 else t.samples (clipped idx t.count)

-- The latencies of `experiment_latency`, from message `i` on.
unfoldable pub latencies_from : (ℕ → ℕ) → (ℕ → ℕ) → ℕ → ℕ → List ℕ
latencies_from consume_times publish_times zero i = []
latencies_from consume_times publish_times (suc rounds) i =
    let rest = latencies_from consume_times publish_times rounds (i + 1) in
    if ltb (publish_times i) (consume_times i)
    then (consume_times i - publish_times i) ∷ rest
    else rest

-- `pct` on the sorted latencies.
unfoldable pub pct : ℕ → List ℕ → ℕ
pct idx latencies = entry latencies (clipped idx (length latencies))
