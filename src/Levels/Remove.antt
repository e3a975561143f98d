-- ===== src/Levels/Remove.antt =====
-- `remove_from_levels` keeps the side sorted, and is the update of its map of levels.
use simd_nanoring.Common.{
  ℕ, ◌+◌, ◌-◌, ◌<◌, ◌≡◌, ◌≢◌, ◌∙◌, inl, inr, Bool, Option, none, some, arith, ap, ◌==◌,
  if◌then◌else◌, ltb, leb, set, lt_cases, sym, refl, subst, Bool-cases, ==_iff, ==→ne,
}
use simd_nanoring.Levels.{
  PriceLevel, Levels, ℤ, pos, negsuc, remove_at, remove_from_levels, binary_find, shift_left,
}
use simd_nanoring.Levels.Order.{price_at, IsSorted, IsValid, before_cong, IsSorted-ne}
use simd_nanoring.Levels.Search.{Locates, binary_find-Locates}
use simd_nanoring.Levels.Insert.{price_at-set, changed-IsSorted, changed-Shows}
use simd_nanoring.Levels.Shift.{removed_lem}
use simd_nanoring.Levels.View.{
  level_at, drained, Shows, Shows→level_at, level_at-Shows, level_at_found, level_at_missing,
}

-- One level taken out of a sorted side.
module _ (d : Bool) (cells : ℕ → PriceLevel) (count i : ℕ) (sorted : IsSorted d cells count)
    (inside : i < count) where
  abbrev shrunk : ℕ → PriceLevel
  shrunk = shift_left cells i (count - 1 - i)

  -- where each cell came from
  abbrev origin : ℕ → ℕ
  origin j = if ltb j i then j else j + 1

  shrunk_lem : (j : ℕ) → j < count - 1 → shrunk j ≡ cells (origin j)
  shrunk_lem j h = ground (arith, removed_lem cells i count j inside h)

  shrunk-IsSorted : IsSorted d shrunk (count - 1)
  shrunk-IsSorted j k hjk hk =
      before_cong d _ _ _ _ (shrunk_lem j (omega arith)) (shrunk_lem k hk)
        (sorted (origin j) (origin k) (ground arith) (ground arith))

  shrunk-Shows_self : Shows shrunk (count - 1) (price_at cells i) none
  shrunk-Shows_self = λ j hj e.
      IsSorted-ne d cells count (origin j) i sorted (ground arith) inside (ground arith)
        (sym (ap PriceLevel.price (shrunk_lem j hj)) ∙ e)

  shrunk-Shows_other :
      (q : ℕ) (o : Option PriceLevel)
      → q ≢ price_at cells i
      → Shows cells count q o
      → Shows shrunk (count - 1) q o
  shrunk-Shows_other q none ne h =
      λ j hj e. h (origin j) (ground arith) (sym (ap PriceLevel.price (shrunk_lem j hj)) ∙ e)
  shrunk-Shows_other q (some l) ne (k, hk, hp, e) = elim (lt_cases k i) [
    | inl below ↦ (k, omega arith, ap PriceLevel.price (down below) ∙ hp, down below ∙ e)
    | inr (inl same) ↦ absurd (ne (sym hp ∙ ap (price_at cells) same))
    | inr (inr above) ↦ (k - 1, omega arith, ap PriceLevel.price (up above) ∙ hp, up above ∙ e)
  ]
    where
      down : k < i → shrunk k ≡ cells k
      down h = ground (arith, shrunk_lem k)

      up : i < k → shrunk (k - 1) ≡ cells k
      up h = ground (arith, shrunk_lem (k - 1))

module _ (d : Bool) (levels : Levels) (price shares : ℕ) (valid : IsValid d levels) where
  remove_at-IsValid :
      (found : ℤ)
      → Locates d levels.cells levels.count price found
      → IsValid d (remove_at levels shares found)
  unfolding remove_at
  remove_at-IsValid (negsuc p) located = valid
  remove_at-IsValid (pos i) located = elim (Bool-cases (leb (levels.cells i).total_shares shares)) [
    | inl gone ↦ rw gone (record {
      within = omega (arith, valid.within);
      sorted = shrunk-IsSorted d levels.cells levels.count i valid.sorted located.0;
    })
    | inr left ↦ rw left (record {
      within = valid.within;
      sorted = changed-IsSorted d levels.cells levels.count i _ valid.sorted refl;
    })
  ]

  -- `remove_from_levels` keeps a valid side valid: its levels stay sorted strictly and at most
  -- 256.
  pub remove_from_levels-IsValid : IsValid d (remove_from_levels levels price shares d)
  unfolding remove_from_levels
  remove_from_levels-IsValid = remove_at-IsValid _ (binary_find-Locates d levels price valid.sorted)

  module _ (i : ℕ) (located : Locates d levels.cells levels.count price (pos i)) where
    vanished :
        level_at
          (record {
            cells = shift_left levels.cells i (levels.count - 1 - i);
            count = levels.count - 1;
          })
          price
        ≡ none
    vanished =
        Shows→level_at d _ price none
          (shrunk-IsSorted d levels.cells levels.count i valid.sorted located.0)
          (subst
            (λ p.
              Shows (shrunk d levels.cells levels.count i valid.sorted located.0) (levels.count - 1)
                p none)
            located.1 (shrunk-Shows_self d levels.cells levels.count i valid.sorted located.0))

    lowered :
        (l : PriceLevel)
        → l.price ≡ price_at levels.cells i
        → level_at (record levels { cells = set levels.cells i l }) price ≡ some l
    lowered l e =
        Shows→level_at d _ price (some l)
          (changed-IsSorted d levels.cells levels.count i l valid.sorted e)
          (
            i,
            located.0,
            price_at-set d levels.cells levels.count i l valid.sorted e i ∙ located.1,
            ground arith,
          )

  remove_at-level_at_self :
      (found : ℤ)
      → Locates d levels.cells levels.count price found
      → level_at (remove_at levels shares found) price ≡ drained shares (level_at levels price)
  unfolding remove_at
  remove_at-level_at_self (negsuc p) located =
      let missing = level_at_missing d levels price valid.sorted p located in rw (missing, drained)
  remove_at-level_at_self (pos i) located =
      rw (level_at_found d levels price valid.sorted i located)
        (elim (Bool-cases (leb (levels.cells i).total_shares shares)) [
          | inl gone ↦ rw gone (vanished i located)
          | inr left ↦ rw left (lowered i located _ refl)
        ])

  remove_at-level_at_other :
      (found : ℤ) (q : ℕ)
      → Locates d levels.cells levels.count price found
      → q ≢ price
      → level_at (remove_at levels shares found) q ≡ level_at levels q
  unfolding remove_at
  remove_at-level_at_other (negsuc p) q located ne = refl
  remove_at-level_at_other (pos i) q located ne =
      elim (Bool-cases (leb (levels.cells i).total_shares shares)) [
        | inl gone ↦ rw gone (
            Shows→level_at d _ q _
              (shrunk-IsSorted d levels.cells levels.count i valid.sorted located.0)
              (shrunk-Shows_other d levels.cells levels.count i valid.sorted located.0 q _
                (λ e. ne (e ∙ located.1)) (level_at-Shows levels q)))
        | inr left ↦ rw left (
            Shows→level_at d _ q _
              (changed-IsSorted d levels.cells levels.count i _ valid.sorted refl)
              (changed-Shows d levels.cells levels.count i _ valid.sorted refl q _
                (λ e. ne (e ∙ located.1)) (level_at-Shows levels q)))
      ]

  -- On a valid side `remove_from_levels` is the update of the side's map at the price: the level
  -- there loses the shares and one order, or goes when no more shares than these are in it;
  -- without a level nothing changes, and every other price keeps its level.
  pub level_at-remove_from_levels :
      (q : ℕ)
      → level_at (remove_from_levels levels price shares d) q
        ≡ (if q == price then drained shares (level_at levels price) else level_at levels q)
  unfolding remove_from_levels
  level_at-remove_from_levels q = elim (Bool-cases (q == price)) [
    | inl same ↦ rw (same, (==_iff q price).0 same) (remove_at-level_at_self _ located)
    | inr other ↦ rw other (remove_at-level_at_other _ q located (==→ne q price other))
  ]
    where
      located : Locates d levels.cells levels.count price (binary_find levels price d)
      located = binary_find-Locates d levels price valid.sorted
