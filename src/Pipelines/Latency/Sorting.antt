-- ===== src/Pipelines/Latency/Sorting.antt =====
-- The sorted samples of include/pipeline.h: their order, and how many pass a test.
use simd_nanoring.Common.{
  ℕ, zero, suc, ◌+◌, ◌≤◌, ◌<◌, ◌≡◌, ◌∙◌, inl, inr, Bool, true, List, [], ◌∷◌, leb, ◌==◌,
  if◌then◌else◌, Bool-cases, arith, ap, sym, refl,
}
use simd_nanoring.Decoder.Batch.{entry}
use simd_nanoring.Decoder.Wire.Words.{length}
use simd_nanoring.Pipelines.Latency.{insert_sorted, sort}

-- How many elements pass a test.
abbrev pub passing : (ℕ → Bool) → List ℕ → ℕ
passing test [] = 0
passing test (x ∷ xs) = (if test x then 1 else 0) + passing test xs

-- The elements are at least `b`, and each is at most those after it.
abbrev pub AllGe : ℕ → List ℕ → Type 0
AllGe b [] = Unit
AllGe b (x ∷ xs) = (b ≤ x) × AllGe b xs

abbrev pub IsSorted : List ℕ → Type 0
IsSorted [] = Unit
IsSorted (x ∷ xs) = AllGe x xs × IsSorted xs

pub passing-insert_sorted :
    (test : ℕ → Bool) (x : ℕ) (xs : List ℕ)
    → passing test (insert_sorted x xs) ≡ passing test (x ∷ xs)
unfolding insert_sorted
passing-insert_sorted test x [] = refl
passing-insert_sorted test x (y ∷ ys) = elim (Bool-cases (leb x y)) [
  | inl low ↦ rw low refl
  | inr high ↦ rw high (omega (arith, passing-insert_sorted test x ys))
]

pub passing-sort : (test : ℕ → Bool) (xs : List ℕ) → passing test (sort xs) ≡ passing test xs
unfolding sort
passing-sort test [] = refl
passing-sort test (x ∷ xs) =
    passing-insert_sorted test x (sort xs)
    ∙ ap (λ (n : ℕ). (if test x then 1 else 0) + n) (passing-sort test xs)

length-passing : (xs : List ℕ) → passing (λ x. true) xs ≡ length xs
length-passing [] = refl
length-passing (x ∷ xs) = omega (arith, length-passing xs)

pub length-sort : (xs : List ℕ) → length (sort xs) ≡ length xs
length-sort xs = sym (length-passing (sort xs)) ∙ passing-sort (λ x. true) xs ∙ length-passing xs

AllGe-weaken : (b c : ℕ) (xs : List ℕ) → b ≤ c → AllGe c xs → AllGe b xs
AllGe-weaken b c [] le all = tt
AllGe-weaken b c (x ∷ xs) le (h, all) = (omega arith, AllGe-weaken b c xs le all)

AllGe-insert_sorted : (b x : ℕ) (xs : List ℕ) → b ≤ x → AllGe b xs → AllGe b (insert_sorted x xs)
unfolding insert_sorted
AllGe-insert_sorted b x [] le all = (le, tt)
AllGe-insert_sorted b x (y ∷ ys) le (h, all) = elim (Bool-cases (leb x y)) [
  | inl low ↦ rw low (le, (h, all))
  | inr high ↦ rw high (h, AllGe-insert_sorted b x ys le all)
]

pub AllGe-sort : (b : ℕ) (xs : List ℕ) → AllGe b xs → AllGe b (sort xs)
unfolding sort
AllGe-sort b [] all = tt
AllGe-sort b (x ∷ xs) (le, all) = AllGe-insert_sorted b x (sort xs) le (AllGe-sort b xs all)

insert_sorted-IsSorted : (x : ℕ) (xs : List ℕ) → IsSorted xs → IsSorted (insert_sorted x xs)
unfolding insert_sorted
insert_sorted-IsSorted x [] sorted = (tt, tt)
insert_sorted-IsSorted x (y ∷ ys) (all, sorted) = elim (Bool-cases (leb x y)) [
  | inl low ↦
      let le : x ≤ y = ground arith in rw low ((le, AllGe-weaken x y ys le all), (all, sorted))
  | inr high ↦
      rw high (AllGe-insert_sorted y x ys (ground arith) all, insert_sorted-IsSorted x ys sorted)
]

pub sort-IsSorted : (xs : List ℕ) → IsSorted (sort xs)
unfolding sort
sort-IsSorted [] = tt
sort-IsSorted (x ∷ xs) = insert_sorted-IsSorted x (sort xs) (sort-IsSorted xs)

pub AllGe-entry : (b : ℕ) (xs : List ℕ) (k : ℕ) → AllGe b xs → k < length xs → b ≤ entry xs k
AllGe-entry b [] k all h = absurd (omega arith)
AllGe-entry b (x ∷ xs) zero (le, all) h = le
AllGe-entry b (x ∷ xs) (suc k) (le, all) h = AllGe-entry b xs k all (omega arith)

passing-AllGe : (b : ℕ) (xs : List ℕ) → AllGe b xs → length xs ≤ passing (λ y. leb b y) xs
passing-AllGe b [] all = omega arith
passing-AllGe b (x ∷ xs) (le, all) = ground (arith, passing-AllGe b xs all)

-- The `k`-th element of a sorted list: the elements at most it, those at least it, and itself.
pub passing_low :
    (xs : List ℕ) (k : ℕ)
    → IsSorted xs
    → k < length xs
    → k + 1 ≤ passing (λ y. leb y (entry xs k)) xs
passing_low [] k sorted h = absurd (omega arith)
passing_low (x ∷ xs) zero sorted h = ground arith
passing_low (x ∷ xs) (suc k) (all, sorted) h =
    ground (arith, AllGe-entry x xs k all (omega arith), passing_low xs k sorted (omega arith))

pub passing_high :
    (xs : List ℕ) (k : ℕ)
    → IsSorted xs
    → k < length xs
    → length xs ≤ k + passing (λ y. leb (entry xs k) y) xs
passing_high [] k sorted h = absurd (omega arith)
passing_high (x ∷ xs) zero (all, sorted) h = ground (arith, passing-AllGe x xs all)
passing_high (x ∷ xs) (suc k) (all, sorted) h =
    ground (arith, passing_high xs k sorted (omega arith))

pub passing_self : (xs : List ℕ) (k : ℕ) → k < length xs → 1 ≤ passing (λ y. y == entry xs k) xs
passing_self [] k h = absurd (omega arith)
passing_self (x ∷ xs) zero h = ground arith
passing_self (x ∷ xs) (suc k) h = ground (arith, passing_self xs k (omega arith))

pub entry_mono :
    (xs : List ℕ) (i j : ℕ) → IsSorted xs → i ≤ j → j < length xs → entry xs i ≤ entry xs j
entry_mono [] i j sorted le h = absurd (omega arith)
entry_mono (x ∷ xs) zero zero sorted le h = omega arith
entry_mono (x ∷ xs) zero (suc j) (all, sorted) le h = AllGe-entry x xs j all (omega arith)
entry_mono (x ∷ xs) (suc i) zero sorted le h = absurd (omega arith)
entry_mono (x ∷ xs) (suc i) (suc j) (all, sorted) le h =
    entry_mono xs i j sorted (omega arith) (omega arith)
