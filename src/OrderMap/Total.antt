-- ===== src/OrderMap/Total.antt =====
-- Sums over the slots of a table.
use native.Mathlib.Numerals.{add-one}
use simd_nanoring.Common.{
  ℕ, zero, suc, ◌+◌, ◌≤◌, ◌<◌, ◌≡◌, inl, inr, false, arith, refl, sym, set, set_self, set_other,
  eq_cases,
}
use simd_nanoring.OrderMap.{LiveOrder, blank}

-- The sum of what the first `n` slots count.
unfoldable pub total : (LiveOrder → ℕ) → (ℕ → LiveOrder) → ℕ → ℕ
total f slots zero = 0
total f slots (suc n) = f (slots n) + total f slots n

-- Slots that are not occupied count nothing.
abbrev pub Vanishes : (LiveOrder → ℕ) → Type 0
Vanishes f = (l : LiveOrder) → l.occupied ≡ false → f l ≡ 0

module _ (f : LiveOrder → ℕ) where
  pub total_next :
      (slots : ℕ → LiveOrder) (n : ℕ) → total f slots (n + 1) ≡ f (slots n) + total f slots n
  unfolding total
  total_next slots n = rw add-one

  total-set_above :
      (slots : ℕ → LiveOrder) (n i : ℕ) (v : LiveOrder)
      → n ≤ i
      → total f (set slots i v) n ≡ total f slots n
  unfolding total
  total-set_above slots zero i v h = refl
  total-set_above slots (suc n) i v h =
      rw (set_other slots i n v (omega arith), total-set_above slots n i v (omega arith))

  pub total-set :
      (slots : ℕ → LiveOrder) (n i : ℕ) (v : LiveOrder)
      → i < n
      → total f (set slots i v) n + f (slots i) ≡ total f slots n + f v
  unfolding total
  total-set slots zero i v h = absurd (omega arith)
  total-set slots (suc n) i v h = elim (eq_cases i n) [
    | inl same ↦ ground (arith, set_self slots i v, total-set_above slots n i v)
    | inr below ↦
        rw (set_other slots i n v (λ e. below (sym e)))
          (omega (arith, total-set slots n i v (omega arith)))
  ]

  pub total-ge : (slots : ℕ → LiveOrder) (n i : ℕ) → i < n → f (slots i) ≤ total f slots n
  unfolding total
  total-ge slots zero i h = absurd (omega arith)
  total-ge slots (suc n) i h = elim (eq_cases i n) [
    | inl same ↦ ground (arith, same)
    | inr below ↦ omega (arith, total-ge slots n i (omega arith))
  ]

  pub total-blank : (n : ℕ) → Vanishes f → total f (λ i. blank) n ≡ 0
  unfolding total
  total-blank zero h = refl
  total-blank (suc n) h = omega (arith, h blank refl, total-blank n h)
