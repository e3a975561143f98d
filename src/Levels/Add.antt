-- ===== src/Levels/Add.antt =====
-- `add_to_levels` keeps the side sorted, and is the update of its map of levels.
use simd_nanoring.Common.{
  ℕ, ◌+◌, ◌-◌, ◌≤◌, ◌<◌, ◌≡◌, ◌≢◌, ◌⊎◌, ◌∙◌, inl, inr, Bool, true, false, none, some, arith, ◌==◌,
  ==_iff, ==→ne, if◌then◌else◌, ltb, leb, set, Bool-cases, refl,
}
use simd_nanoring.Levels.{
  PriceLevel, Levels, ℤ, pos, negsuc, max_levels, add_at, add_to_levels, binary_find, shift_right,
}
use simd_nanoring.Levels.Order.{IsSorted, IsValid}
use simd_nanoring.Levels.Search.{Locates, binary_find-Locates}
use simd_nanoring.Levels.Insert.{
  inserted-IsSorted, inserted-Shows, price_at-set, changed-IsSorted, changed-Shows,
}
use simd_nanoring.Levels.Shift.{inserted_lem}
use simd_nanoring.Levels.View.{
  level_at, joined, Shows→level_at, level_at-Shows, level_at_found, level_at_missing,
}

-- There is a level of the price already, or place for one more.
abbrev pub HasRoom : Levels → ℕ → Type 0
HasRoom levels price = (levels.count < max_levels) ⊎ (level_at levels price ≢ none)

module _ (d : Bool) (levels : Levels) (price shares : ℕ) (valid : IsValid d levels) where
  abbrev fresh : PriceLevel
  fresh = record { price = price; total_shares = shares; order_count = 1 }

  module _ (p : ℕ) (located : Locates d levels.cells levels.count price (negsuc p)) where
    abbrev grown : ℕ → PriceLevel
    grown = set (shift_right levels.cells p (levels.count - p)) p fresh

    grown_lem :
        (j : ℕ)
        → j ≤ levels.count
        → grown j
          ≡ (if ltb j p then levels.cells j else if j == p then fresh else levels.cells (j - 1))
    grown_lem j h = inserted_lem levels.cells fresh p levels.count j located.0 h

    grown-IsSorted : IsSorted d grown (levels.count + 1)
    grown-IsSorted =
        inserted-IsSorted d levels.cells grown levels.count p fresh valid.sorted located grown_lem

    abbrev grown_levels : Levels
    grown_levels = record { cells = grown; count = levels.count + 1 }

    grown-level_at_self : level_at grown_levels price ≡ some fresh
    grown-level_at_self =
        Shows→level_at d grown_levels price (some fresh) grown-IsSorted
          (p, omega (arith, located.0), ground arith, ground arith)

    grown-level_at_other : (q : ℕ) → q ≢ price → level_at grown_levels q ≡ level_at levels q
    grown-level_at_other q ne = Shows→level_at d grown_levels q _ grown-IsSorted (
        inserted-Shows d levels.cells grown levels.count p fresh valid.sorted located grown_lem q _
          ne (level_at-Shows levels q))

  add_at-IsValid :
      (found : ℤ)
      → Locates d levels.cells levels.count price found
      → IsValid d (add_at levels price shares found)
  unfolding add_at
  add_at-IsValid (pos i) located = record {
    within = valid.within;
    sorted = changed-IsSorted d levels.cells levels.count i _ valid.sorted refl;
  }
  add_at-IsValid (negsuc p) located = elim (Bool-cases (leb max_levels levels.count)) [
    | inl full ↦ rw full valid
    | inr room ↦ rw room (record { within = ground arith; sorted = grown-IsSorted p located })
  ]

  -- `add_to_levels` keeps a valid side valid: its levels stay sorted strictly and at most 256.
  pub add_to_levels-IsValid : IsValid d (add_to_levels levels price shares d)
  unfolding add_to_levels
  add_to_levels-IsValid = add_at-IsValid _ (binary_find-Locates d levels price valid.sorted)

  add_at-level_at_self :
      (found : ℤ)
      → Locates d levels.cells levels.count price found
      → HasRoom levels price
      → level_at (add_at levels price shares found) price
        ≡ some (joined price shares (level_at levels price))
  unfolding add_at
  add_at-level_at_self (pos i) located room =
      rw (level_at_found d levels price valid.sorted i located) (
        Shows→level_at d _ price (some _)
          (changed-IsSorted d levels.cells levels.count i _ valid.sorted refl)
          (
            i,
            located.0,
            price_at-set d levels.cells levels.count i _ valid.sorted refl i ∙ located.1,
            ground arith,
          ))
  add_at-level_at_self (negsuc p) located room =
      let missing = level_at_missing d levels price valid.sorted p located in
      let space : levels.count < max_levels = (elim room [
        | inl h ↦ h
        | inr h ↦ absurd (h missing)
      ]) in
      let fits : leb max_levels levels.count ≡ false = ground arith in
      rw (missing, fits) (grown-level_at_self p located)

  add_at-level_at_other :
      (found : ℤ) (q : ℕ)
      → Locates d levels.cells levels.count price found
      → q ≢ price
      → level_at (add_at levels price shares found) q ≡ level_at levels q
  unfolding add_at
  add_at-level_at_other (pos i) q located ne =
      Shows→level_at d _ q _ (changed-IsSorted d levels.cells levels.count i _ valid.sorted refl) (
        changed-Shows d levels.cells levels.count i _ valid.sorted refl q _
          (λ e. ne (e ∙ located.1)) (level_at-Shows levels q))
  add_at-level_at_other (negsuc p) q located ne = elim (Bool-cases (leb max_levels levels.count)) [
    | inl full ↦ rw full
    | inr room ↦ rw room (grown-level_at_other p located q ne)
  ]

  -- On a valid side `add_to_levels`, when the price has a level or the side has fewer than 256, is
  -- the update of the side's map at that price: the level there gets the shares (modulo 2 ^ 32)
  -- and one order more, or is new with these shares and one order; every other price keeps its
  -- level.
  pub level_at-add_to_levels :
      HasRoom levels price
      → (q : ℕ)
      → level_at (add_to_levels levels price shares d) q ≡ (
          if q == price
          then some (joined price shares (level_at levels price))
          else level_at levels q)
  unfolding add_to_levels
  level_at-add_to_levels room q = elim (Bool-cases (q == price)) [
    | inl same ↦ rw (same, (==_iff q price).0 same) (add_at-level_at_self _ located room)
    | inr other ↦ rw other (add_at-level_at_other _ q located (==→ne q price other))
  ]
    where
      located : Locates d levels.cells levels.count price (binary_find levels price d)
      located = binary_find-Locates d levels price valid.sorted

  add_at_full :
      (found : ℤ)
      → Locates d levels.cells levels.count price found
      → level_at levels price ≡ none
      → levels.count ≡ max_levels
      → add_at levels price shares found ≡ levels
  unfolding add_at
  add_at_full (pos i) located absent full =
      cc (level_at_found d levels price valid.sorted i located)
  add_at_full (negsuc p) located absent full =
      let stop : leb max_levels levels.count ≡ true = ground arith in rw stop

  -- On a full side a new price is dropped: `add_to_levels` changes nothing.
  pub add_to_levels_full :
      level_at levels price ≡ none
      → levels.count ≡ max_levels
      → add_to_levels levels price shares d ≡ levels
  unfolding add_to_levels
  add_to_levels_full = add_at_full _ (binary_find-Locates d levels price valid.sorted)
