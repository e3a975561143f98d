-- ===== src/Pipelines/Latency/Percentiles.antt =====
-- The samples that `LatencyTracker` of include/pipeline.h keeps, and its percentiles.
use simd_nanoring.Common.{
  ℕ, zero, suc, ◌-◌, ◌+◌, ◌≤◌, ◌<◌, ◌≡◌, ◌∙◌, inl, inr, List, [], ◌∷◌, ◌++◌, ltb, leb, ◌==◌,
  Bool-cases, lt→ltb, ltb→lt, ltb→le, ne→==, set, set_other, arith, ap, ap₂, sym, refl,
}
use mathlib.Core.List.{append_assoc, append-nil}
use simd_nanoring.Decoder.Batch.{entry}
use simd_nanoring.Decoder.Wire.Words.{length}
use simd_nanoring.Pipelines.Latency.{
  LatencyTracker, new_tracker, record_sample, record_all, sort_samples, percentile, clipped, first,
  sort, max_samples, latencies_from, pct,
}
use simd_nanoring.Pipelines.Latency.Sorting.{
  passing, passing-sort, passing_low, passing_high, passing_self, length-sort, sort-IsSorted,
  entry_mono, AllGe, AllGe-entry, AllGe-sort,
}

-- The first `n` elements of a list.
abbrev pub take : ℕ → List ℕ → List ℕ
take zero xs = []
take (suc n) [] = []
take (suc n) (x ∷ xs) = x ∷ take n xs

take-nil : (n : ℕ) → take n [] ≡ []
take-nil zero = refl
take-nil (suc n) = refl

take_push_room :
    (n : ℕ) (xs : List ℕ) (v : ℕ)
    → length (take n xs) < n
    → take n (xs ++ (v ∷ [])) ≡ take n xs ++ (v ∷ [])
take_push_room zero xs v h = absurd (omega arith)
take_push_room (suc n) [] v h = ap (λ ys. v ∷ ys) (take-nil n)
take_push_room (suc n) (x ∷ xs) v h = ap (λ ys. x ∷ ys) (take_push_room n xs v (omega arith))

take_push_full :
    (n : ℕ) (xs : List ℕ) (v : ℕ) → n ≤ length (take n xs) → take n (xs ++ (v ∷ [])) ≡ take n xs
take_push_full zero xs v h = refl
take_push_full (suc n) [] v h = absurd (omega arith)
take_push_full (suc n) (x ∷ xs) v h = ap (λ ys. x ∷ ys) (take_push_full n xs v (omega arith))

first_cong : (a b : ℕ → ℕ) (n : ℕ) → ((k : ℕ) → a k ≡ b k) → first a n ≡ first b n
first_cong a b zero same = refl
first_cong a b (suc n) same =
    ap₂ (λ x xs. x ∷ xs) (same 0)
      (first_cong (λ i. a (suc i)) (λ i. b (suc i)) n (λ k. same (suc k)))

first_push : (a : ℕ → ℕ) (n v : ℕ) → first (set a n v) (suc n) ≡ first a n ++ (v ∷ [])
first_push a zero v = refl
first_push a (suc n) v =
    ap₂ (λ x xs. x ∷ xs) (set_other a (suc n) 0 v (λ e. omega arith))
      (first_cong (λ i. set a (suc n) v (suc i)) (set (λ i. a (suc i)) n v) (suc n)
          (λ k. ground arith)
        ∙ first_push (λ i. a (suc i)) n v)

length-first : (a : ℕ → ℕ) (n : ℕ) → length (first a n) ≡ n
length-first a zero = refl
length-first a (suc n) = ap suc (length-first (λ i. a (suc i)) n)

record_sample-kept :
    (seen : List ℕ) (ns : ℕ) (t : LatencyTracker)
    → first t.samples t.count ≡ take max_samples seen
    → first (record_sample ns t).samples (record_sample ns t).count
      ≡ take max_samples (seen ++ (ns ∷ []))
unfolding record_sample
record_sample-kept seen ns t kept =
    let size : length (take max_samples seen) ≡ t.count =
      ap length (sym kept) ∙ length-first t.samples t.count in
    elim (Bool-cases (ltb t.count max_samples)) [
      | inl room ↦ rw room (
          ap (first (set t.samples t.count ns)) {x = t.count + 1} {y = suc t.count} (omega arith)
          ∙ first_push t.samples t.count ns
          ∙ ap (λ xs. xs ++ (ns ∷ [])) kept
          ∙ sym (
              take_push_room max_samples seen ns
                (omega (arith, size, ltb→lt t.count max_samples room))))
      | inr full ↦ rw full (
          kept
          ∙ sym (
              take_push_full max_samples seen ns
                (omega (arith, size, ltb→le t.count max_samples full))))
    ]

record_all_kept :
    (rest seen : List ℕ) (t : LatencyTracker)
    → first t.samples t.count ≡ take max_samples seen
    → first (record_all rest t).samples (record_all rest t).count ≡ take max_samples (seen ++ rest)
unfolding record_all
record_all_kept [] seen t kept = kept ∙ ap (take max_samples) (sym (append-nil seen))
record_all_kept (ns ∷ rest) seen t kept =
    record_all_kept rest (seen ++ (ns ∷ [])) (record_sample ns t)
      (record_sample-kept seen ns t kept)
    ∙ ap (take max_samples) (append_assoc seen (ns ∷ []) rest)

-- The places of `samples` beyond the vector's size are never written, and `count` stays within it.
record_sample-inside :
    (ns : ℕ) (t : LatencyTracker)
    → t.count ≤ max_samples
    → ((record_sample ns t).count ≤ max_samples)
      × ((k : ℕ) → max_samples ≤ k → (record_sample ns t).samples k ≡ t.samples k)
unfolding record_sample
record_sample-inside ns t within = elim (Bool-cases (ltb t.count max_samples)) [
  | inr full ↦ rw full (within, λ k beyond. refl)
  | inl room ↦
      let below : t.count < max_samples = ltb→lt t.count max_samples room in
      rw room (omega arith, λ k beyond. set_other t.samples t.count k ns (λ e. omega arith))
]

record_all-inside :
    (rest : List ℕ) (t : LatencyTracker)
    → t.count ≤ max_samples
    → ((record_all rest t).count ≤ max_samples)
      × ((k : ℕ) → max_samples ≤ k → (record_all rest t).samples k ≡ t.samples k)
unfolding record_all
record_all-inside [] t within = (within, λ k beyond. refl)
record_all-inside (ns ∷ rest) t within =
    let (within1, same1) = record_sample-inside ns t within in
    let (within2, same2) = record_all-inside rest (record_sample ns t) within1 in
    (within2, λ k beyond. same2 k beyond ∙ same1 k beyond)

-- Whatever is recorded in a new tracker, it keeps the first 1,000,000 of them, in their order, and
-- `count` is their number, at most 1,000,000; what lies beyond the 1,000,000 places of `samples` is
-- as it was.
pub record_all-take :
    (recorded : List ℕ)
    → (first (record_all recorded new_tracker).samples (record_all recorded new_tracker).count
        ≡ take max_samples recorded)
      × ((record_all recorded new_tracker).count ≤ max_samples)
      × ((k : ℕ)
          → max_samples ≤ k
          → (record_all recorded new_tracker).samples k ≡ new_tracker.samples k)
record_all-take recorded = (
  record_all_kept recorded [] new_tracker refl,
  (record_all-inside recorded new_tracker (omega arith)).0,
  (record_all-inside recorded new_tracker (omega arith)).1,
)

clipped_below : (idx n : ℕ) → 0 < n → clipped idx n < n
clipped_below idx n pos = ground arith

-- A percentile of the sorted tracker is an element of the sorted list.
percentile-entry :
    (idx : ℕ) (t : LatencyTracker)
    → 0 < t.count
    → percentile idx (sort_samples t) ≡ entry (sort (first t.samples t.count)) (clipped idx t.count)
unfolding percentile sort_samples
percentile-entry idx t pos =
    rw (ne→== t.count 0 (λ e. omega arith), lt→ltb _ _ (clipped_below idx t.count pos)) refl

sorted_length : (t : LatencyTracker) → length (sort (first t.samples t.count)) ≡ t.count
sorted_length t = length-sort (first t.samples t.count) ∙ length-first t.samples t.count

-- A percentile that `percentile` reads at the index `idx` of a tracker that is not empty, after
-- `sort_samples`: it is one of the samples, more than `idx` of them, or all, are at most it, and all
-- but `idx` of them, or one, are at least it.
pub percentile-ranks :
    (idx : ℕ) (t : LatencyTracker)
    → 0 < t.count
    → (1 ≤ passing (λ y. y == percentile idx (sort_samples t)) (first t.samples t.count))
      × (clipped idx t.count + 1
          ≤ passing (λ y. leb y (percentile idx (sort_samples t))) (first t.samples t.count))
      × (t.count
          ≤ clipped idx t.count
            + passing (λ y. leb (percentile idx (sort_samples t)) y) (first t.samples t.count))
percentile-ranks idx t pos =
    let xs = first t.samples t.count in
    let k = clipped idx t.count in
    let inside : k < length (sort xs) =
      omega (arith, sorted_length t, clipped_below idx t.count pos) in
    let v = entry (sort xs) k in
    rw (percentile-entry idx t pos) (
      omega (arith, passing_self (sort xs) k inside, passing-sort (λ y. y == v) xs),
      omega (
        arith,
        passing_low (sort xs) k (sort-IsSorted xs) inside,
        passing-sort (λ y. leb y v) xs,
      ),
      omega (
        arith,
        passing_high (sort xs) k (sort-IsSorted xs) inside,
        passing-sort (λ y. leb v y) xs,
        sorted_length t,
      ),
    )

-- A larger index gives no smaller percentile of the sorted samples, so the percentiles that `main`
-- prints are in order.
pub percentile_mono :
    (idx idx' : ℕ) (t : LatencyTracker)
    → 0 < t.count
    → idx ≤ idx'
    → percentile idx (sort_samples t) ≤ percentile idx' (sort_samples t)
percentile_mono idx idx' t pos le =
    rw (percentile-entry idx t pos, percentile-entry idx' t pos)
      (entry_mono (sort (first t.samples t.count)) (clipped idx t.count) (clipped idx' t.count)
        (sort-IsSorted (first t.samples t.count)) (ground arith)
        (omega (arith, sorted_length t, clipped_below idx' t.count pos)))

AllGe-latencies_from :
    (consume_times publish_times : ℕ → ℕ) (rounds i : ℕ)
    → AllGe 1 (latencies_from consume_times publish_times rounds i)
unfolding latencies_from
AllGe-latencies_from consume_times publish_times zero i = tt
AllGe-latencies_from consume_times publish_times (suc rounds) i =
    elim (Bool-cases (ltb (publish_times i) (consume_times i))) [
      | inl later ↦
          let pos : 1 ≤ consume_times i - publish_times i = ground arith in
          rw later (pos, AllGe-latencies_from consume_times publish_times rounds (i + 1))
      | inr early ↦ rw early (AllGe-latencies_from consume_times publish_times rounds (i + 1))
    ]

-- Every percentile that `experiment_latency` prints is above 0, if it has a sample at all: no
-- difference of times wraps.
pub pct-pos :
    (consume_times publish_times : ℕ → ℕ) (n idx : ℕ)
    → 0 < length (latencies_from consume_times publish_times n 0)
    → 0 < pct idx (sort (latencies_from consume_times publish_times n 0))
unfolding pct
pct-pos consume_times publish_times n idx some_left =
    let latencies = latencies_from consume_times publish_times n 0 in
    let size = length-sort latencies in
    AllGe-entry 1 (sort latencies) (clipped idx (length (sort latencies)))
      (AllGe-sort 1 latencies (AllGe-latencies_from consume_times publish_times n 0))
      (clipped_below idx (length (sort latencies)) (omega (arith, size)))
