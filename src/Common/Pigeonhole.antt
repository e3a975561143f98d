-- ===== src/Common/Pigeonhole.antt =====
-- A table whose slots hold different numbers below a bound has no more slots than that bound.
use Prim.Native.Nat.{ℕ, zero, suc, ◌≤◌, ◌<◌}
use mathlib.Core.Path.{◌≡◌, sym, ap, ◌∙◌}
use mathlib.Core.Logic.{◌≢◌, ◌⊎◌, inl, inr}
use native.Mathlib.Omega.{arith}
use simd_nanoring.Common.Tests.{eq_cases}
use simd_nanoring.Common.Arrays.{set, set_self, set_other}

-- Whether one of the first `n` elements is `v`.
seek : (f : ℕ → ℕ) (v n : ℕ) → ((i : ℕ) × (i < n) × (f i ≡ v)) ⊎ ((i : ℕ) → i < n → f i ≢ v)
seek f v zero = inr (λ i below e. absurd (omega arith))
seek f v (suc n) = elim (eq_cases (f n) v) [
  | inl here ↦ inl (n, omega arith, here)
  | inr other ↦ elim (seek f v n) [
    | inl (i, below, e) ↦ inl (i, omega arith, e)
    | inr none_below ↦ inr (λ i below. elim (eq_cases i n) [
      | inl last ↦ λ e. other (ap f (sym last) ∙ e)
      | inr before ↦ none_below i (omega arith)
    ])
  ]
]

abbrev Apart : (ℕ → ℕ) → ℕ → Type 0
Apart f n = (i j : ℕ) → i < n → j < n → f i ≡ f j → i ≡ j

-- The last element takes the place of another one.
module _ (f : ℕ → ℕ) (n i : ℕ) where
  abbrev moved : ℕ → ℕ
  moved = set f i (f n)

  moved_at : (j : ℕ) → j ≡ i → moved j ≡ f n
  moved_at j e = ap moved e ∙ set_self f i (f n)

  moved-Apart : i < suc n → Apart f (suc n) → Apart moved n
  moved-Apart below apart j k hj hk e = elim (eq_cases j i) [
    | inl ji ↦ elim (eq_cases k i) [
      | inl ki ↦ ji ∙ sym ki
      | inr kn ↦
          let same =
            apart n k (omega arith) (omega arith)
              (sym (moved_at j ji) ∙ e ∙ set_other f i k (f n) kn) in
          absurd (omega arith)
    ]
    | inr jn ↦ elim (eq_cases k i) [
      | inl ki ↦
          let same =
            apart j n (omega arith) (omega arith)
              (sym (set_other f i j (f n) jn) ∙ e ∙ moved_at k ki) in
          absurd (omega arith)
      | inr kn ↦
          apart j k (omega arith) (omega arith)
            (sym (set_other f i j (f n) jn) ∙ e ∙ set_other f i k (f n) kn)
    ]
  ]

  moved_below :
      (m : ℕ)
      → i < suc n
      → Apart f (suc n)
      → f i ≡ m
      → ((j : ℕ) → j < suc n → f j < suc m)
      → (j : ℕ) → j < n
      → moved j < m
  moved_below m below apart e bound j hj = elim (eq_cases j i) [
    | inl ji ↦ elim (eq_cases (f n) m) [
      | inl top ↦ let same = apart i n below (omega arith) (e ∙ sym top) in absurd (omega arith)
      | inr low ↦ omega (arith, moved_at j ji, bound n (omega arith))
    ]
    | inr jn ↦ elim (eq_cases (f j) m) [
      | inl top ↦ let same = apart i j below (omega arith) (e ∙ sym top) in absurd (omega arith)
      | inr low ↦ omega (arith, set_other f i j (f n) jn, bound j (omega arith))
    ]
  ]

pub pigeonhole :
    (m n : ℕ) (f : ℕ → ℕ)
    → ((i : ℕ) → i < n → f i < m)
    → ((i j : ℕ) → i < n → j < n → f i ≡ f j → i ≡ j)
    → n ≤ m
pigeonhole m zero f bound apart = omega arith
pigeonhole zero (suc n) f bound apart = absurd (omega (arith, bound 0 (omega arith)))
pigeonhole (suc m) (suc n) f bound apart = elim (seek f m (suc n)) [
  | inl (i, below, e) ↦
      let rest =
        pigeonhole m n (moved f n i) (moved_below f n i m below apart e bound)
          (moved-Apart f n i below apart) in
      omega arith
  | inr none_top ↦
      let rest =
        pigeonhole m (suc n) f
          (λ i below. elim (eq_cases (f i) m) [
            | inl top ↦ absurd (none_top i below top)
            | inr low ↦ omega (arith, bound i below)
          ])
          apart in
      omega arith
]
