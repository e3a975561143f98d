-- ===== src/Levels/View.antt =====
-- What a side says of a price: a finite map from prices to levels, which is the specification of
-- the array.
use simd_nanoring.Common.{
  ℕ, zero, suc, ◌<◌, ◌≡◌, ◌≢◌, ◌∙◌, inl, inr, Option, none, some, arith, ap, leb, ◌==◌,
  if◌then◌else◌, Bool-cases, ==_iff, ==→ne, eq_cases, le_cases, Bool, sym, refl,
}
use simd_nanoring.Common.Word.{add32, sub32}
use simd_nanoring.Levels.{PriceLevel, Levels, pos, negsuc}
use simd_nanoring.Levels.Order.{price_at, IsSorted, IsSorted-ne, before→ne}
use simd_nanoring.Levels.Search.{Locates}

level_from : (ℕ → PriceLevel) → ℕ → ℕ → Option PriceLevel
level_from cells zero price = none
level_from cells (suc n) price =
    if price_at cells n == price then some (cells n) else level_from cells n price

-- The level of a price, by a plain scan of the array.
pub level_at : Levels → ℕ → Option PriceLevel
unfolding level_from
level_at levels price = level_from levels.cells levels.count price

-- An array with no levels shows none.
pub level_at-empty :
    (cells : ℕ → PriceLevel) (price : ℕ)
    → level_at (record { cells = cells; count = 0 }) price ≡ none
unfolding level_at level_from
level_at-empty cells price = refl

-- What an order of `shares` makes of the level of its price.
abbrev pub joined : ℕ → ℕ → Option PriceLevel → PriceLevel
joined price shares none = record { price = price; total_shares = shares; order_count = 1 }
joined price shares (some l) = record l {
  total_shares = add32 l.total_shares shares;
  order_count = add32 l.order_count 1;
}

-- What is left of a level when `shares` are taken from it.
abbrev pub drained : ℕ → Option PriceLevel → Option PriceLevel
drained shares none = none
drained shares (some l) =
    if leb l.total_shares shares
    then none
    else some (record l {
      total_shares = sub32 l.total_shares shares;
      order_count = sub32 l.order_count 1;
    })

-- The array holds this level for the price, or none.
abbrev pub Shows : (ℕ → PriceLevel) → ℕ → ℕ → Option PriceLevel → Type 0
Shows cells n price none = (j : ℕ) → j < n → price_at cells j ≢ price
Shows cells n price (some l) = (i : ℕ) × (i < n) × (price_at cells i ≡ price) × (cells i ≡ l)

level_from-Shows :
    (cells : ℕ → PriceLevel) (n price : ℕ) → Shows cells n price (level_from cells n price)
unfolding level_from
level_from-Shows cells zero price = λ j h. absurd (omega arith)
level_from-Shows cells (suc n) price = elim (Bool-cases (price_at cells n == price)) [
  | inl hit ↦ rw (hit, Shows) (n, omega arith, (==_iff _ _).0 hit, refl)
  | inr miss ↦
      rw (miss, Shows)
        (widen (==→ne _ _ miss) (level_from cells n price) (level_from-Shows cells n price))
]
  where
    widen :
        price_at cells n ≢ price
        → (o : Option PriceLevel) → Shows cells n price o
        → Shows cells (suc n) price o
    widen ne none h = λ j hj e. elim (eq_cases j n) [
      | inl same ↦ ne (ap (price_at cells) (sym same) ∙ e)
      | inr other ↦ h j (omega arith) e
    ]
    widen ne (some l) (i, hi, hp, e) = (i, omega arith, hp, e)

Shows-unique :
    (d : Bool) (cells : ℕ → PriceLevel) (n price : ℕ) (o o' : Option PriceLevel)
    → IsSorted d cells n
    → Shows cells n price o
    → Shows cells n price o'
    → o ≡ o'
Shows-unique d cells n price none none sorted h h' = refl
Shows-unique d cells n price none (some l) sorted h (i, hi, hp, e) = absurd (h i hi hp)
Shows-unique d cells n price (some l) none sorted (i, hi, hp, e) h = absurd (h i hi hp)
Shows-unique d cells n price (some l) (some l') sorted (i, hi, hp, e) (j, hj, hq, e') =
    elim (eq_cases i j) [
      | inl same ↦ ap some (sym e ∙ (ap cells same ∙ e'))
      | inr ne ↦ absurd (IsSorted-ne d cells n i j sorted hi hj ne (hp ∙ sym hq))
    ]

pub level_at-Shows :
    (levels : Levels) (price : ℕ) → Shows levels.cells levels.count price (level_at levels price)
unfolding level_at
level_at-Shows levels price = level_from-Shows levels.cells levels.count price

-- On a sorted side the view of a price is the one thing that the array shows for it.
pub Shows→level_at :
    (d : Bool) (levels : Levels) (price : ℕ) (o : Option PriceLevel)
    → IsSorted d levels.cells levels.count
    → Shows levels.cells levels.count price o
    → level_at levels price ≡ o
Shows→level_at d levels price o sorted h =
    Shows-unique d levels.cells levels.count price (level_at levels price) o sorted
      (level_at-Shows levels price) h

-- What `binary_find` finds, in terms of the view.
module _ (d : Bool) (levels : Levels) (price : ℕ)
    (sorted : IsSorted d levels.cells levels.count) where
  pub level_at_found :
      (i : ℕ)
      → Locates d levels.cells levels.count price (pos i)
      → level_at levels price ≡ some (levels.cells i)
  level_at_found i located =
      Shows→level_at d levels price (some (levels.cells i)) sorted (i, located.0, located.1, refl)

  pub level_at_missing :
      (p : ℕ) → Locates d levels.cells levels.count price (negsuc p) → level_at levels price ≡ none
  level_at_missing p located = Shows→level_at d levels price none sorted absent
    where
      absent : (j : ℕ) → j < levels.count → price_at levels.cells j ≢ price
      absent j hj e = elim (le_cases j p) [
        | inl below ↦ before→ne d _ _ (located.1 j below) e
        | inr above ↦ before→ne d _ _ (located.2 j above hj) (sym e)
      ]
