-- ===== src/Levels/Order.antt =====
-- The order of the levels of a side, and what an array of levels says of a price.
use simd_nanoring.Common.{
  ℕ, ◌≤◌, ◌<◌, ◌≡◌, ◌≢◌, inl, inr, sym, lt_cases, ap₂, ◌∙◌, Bool, true, false, arith,
}
use simd_nanoring.Levels.{PriceLevel, Levels, max_levels, before}

abbrev pub price_at : (ℕ → PriceLevel) → ℕ → ℕ
price_at cells i = (cells i).price

-- Bids descend and asks ascend, strictly.
abbrev pub IsSorted : Bool → (ℕ → PriceLevel) → ℕ → Type 0
IsSorted descending cells count =
    (i j : ℕ) → i < j → j < count → before descending (price_at cells i) (price_at cells j) ≡ true

pub record IsValid (descending : Bool) (levels : Levels) : Type 0 where
  pub within : levels.count ≤ max_levels
  pub sorted : IsSorted descending levels.cells levels.count

pub before_trans :
    (d : Bool) (a b c : ℕ) → before d a b ≡ true → before d b c ≡ true → before d a c ≡ true
before_trans true a b c h k = ground arith
before_trans false a b c h k = ground arith

pub before→ne : (d : Bool) (a b : ℕ) → before d a b ≡ true → a ≢ b
before→ne true a b h = ground arith
before→ne false a b h = ground arith

pub before_total : (d : Bool) (a b : ℕ) → a ≢ b → before d a b ≡ false → before d b a ≡ true
before_total true a b h k = ground arith
before_total false a b h k = ground arith

-- Two levels of a sorted array have two prices.
pub IsSorted-ne :
    (d : Bool) (cells : ℕ → PriceLevel) (count i j : ℕ)
    → IsSorted d cells count
    → i < count
    → j < count
    → i ≢ j
    → price_at cells i ≢ price_at cells j
IsSorted-ne d cells count i j sorted hi hj ne e = elim (lt_cases i j) [
  | inl h ↦ before→ne d _ _ (sorted i j h hj) e
  | inr (inl h) ↦ ne h
  | inr (inr h) ↦ before→ne d _ _ (sorted j i h hi) (sym e)
]

pub before_cong :
    (d : Bool) (x y x' y' : PriceLevel)
    → x ≡ x'
    → y ≡ y'
    → before d x'.price y'.price ≡ true
    → before d x.price y.price ≡ true
before_cong d x y x' y' p q h = ap₂ (λ (a b : PriceLevel). before d a.price b.price) p q ∙ h
