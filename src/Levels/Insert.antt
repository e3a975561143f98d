-- ===== src/Levels/Insert.antt =====
-- One level put into a sorted side, and one level changed in place.
use simd_nanoring.Common.{
  ℕ, ◌+◌, ◌-◌, ◌≤◌, ◌<◌, ◌≡◌, ◌≢◌, ◌∙◌, inl, inr, Bool, Option, none, some, arith, ap, ap₂, ◌==◌,
  if◌then◌else◌, ltb, set, le_cases, lt_cases, sym,
}
use simd_nanoring.Levels.{PriceLevel, negsuc, before}
use simd_nanoring.Levels.Order.{price_at, IsSorted, before_cong}
use simd_nanoring.Levels.Search.{Locates}
use simd_nanoring.Levels.View.{Shows}

-- A level put in where `binary_find` says leaves the side sorted.
module _ (d : Bool) (cells new : ℕ → PriceLevel) (count p : ℕ) (v : PriceLevel)
    (sorted : IsSorted d cells count) (located : Locates d cells count v.price (negsuc p))
    (shape : (j : ℕ)
      → j ≤ count
      → new j ≡ (if ltb j p then cells j else if j == p then v else cells (j - 1))) where
  new_below : (j : ℕ) → j < p → new j ≡ cells j
  new_below j h = ground (arith, shape j, located.0)

  new_here : new p ≡ v
  new_here = ground (arith, shape p, located.0)

  new_above : (j : ℕ) → p < j → j ≤ count → new j ≡ cells (j - 1)
  new_above j h k = ground (arith, shape j)

  pub inserted-IsSorted : IsSorted d new (count + 1)
  inserted-IsSorted i j hij hj = elim (lt_cases j p) [
    | inl jb ↦
        before_cong d _ _ _ _ (new_below i (omega arith)) (new_below j jb)
          (sorted i j hij (omega (arith, located.0)))
    | inr (inl e) ↦
        before_cong d _ _ _ _ (new_below i (omega arith)) (ap new e ∙ new_here)
          (located.1 i (omega arith))
    | inr (inr ja) ↦ elim (lt_cases i p) [
      | inl ib ↦
          before_cong d _ _ _ _ (new_below i ib) (new_above j ja (omega arith))
            (sorted i (j - 1) (omega arith) (omega arith))
      | inr (inl e) ↦
          before_cong d _ _ _ _ (ap new e ∙ new_here) (new_above j ja (omega arith))
            (located.2 (j - 1) (omega arith) (omega arith))
      | inr (inr ia) ↦
          before_cong d _ _ _ _ (new_above i ia (omega arith)) (new_above j ja (omega arith))
            (sorted (i - 1) (j - 1) (omega arith) (omega arith))
    ]
  ]

  pub inserted-Shows :
      (q : ℕ) (o : Option PriceLevel)
      → q ≢ v.price
      → Shows cells count q o
      → Shows new (count + 1) q o
  inserted-Shows q none ne h = λ j hj e. elim (lt_cases j p) [
    | inl jb ↦ h j (omega (arith, located.0)) (sym (ap PriceLevel.price (new_below j jb)) ∙ e)
    | inr (inl same) ↦ ne (sym e ∙ (ap (price_at new) same ∙ ap PriceLevel.price new_here))
    | inr (inr ja) ↦
        h (j - 1) (omega arith) (sym (ap PriceLevel.price (new_above j ja (omega arith))) ∙ e)
  ]
  inserted-Shows q (some l) ne (i, hi, hp, e) = elim (le_cases i p) [
    | inl ib ↦ (i, omega arith, ap PriceLevel.price (new_below i ib) ∙ hp, new_below i ib ∙ e)
    | inr ia ↦ (i + 1, omega arith, ap PriceLevel.price (up ia) ∙ hp, up ia ∙ e)
  ]
    where
      up : p ≤ i → new (i + 1) ≡ cells i
      up ia = ground (arith, new_above (i + 1))

-- A level whose price stays leaves the side sorted, and changes what it says of that price alone.
module _ (d : Bool) (cells : ℕ → PriceLevel) (count i : ℕ) (v : PriceLevel)
    (sorted : IsSorted d cells count) (same : v.price ≡ price_at cells i) where
  pub price_at-set : (j : ℕ) → price_at (set cells i v) j ≡ price_at cells j
  price_at-set j = ground arith

  pub changed-IsSorted : IsSorted d (set cells i v) count
  changed-IsSorted j k hjk hk = ap₂ (before d) (price_at-set j) (price_at-set k) ∙ sorted j k hjk hk

  pub changed-Shows :
      (q : ℕ) (o : Option PriceLevel)
      → q ≢ v.price
      → Shows cells count q o
      → Shows (set cells i v) count q o
  changed-Shows q none ne h = λ j hj e. h j hj (sym (price_at-set j) ∙ e)
  changed-Shows q (some l) ne (j, hj, hp, e) = (j, hj, price_at-set j ∙ hp, kept ∙ e)
    where
      kept : set cells i v j ≡ cells j
      kept = ground (arith, price_at-set j)
