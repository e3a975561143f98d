-- ===== src/OrderBook/Leave.antt =====
-- The best prices when an order leaves a side, wholly or in part.
use simd_nanoring.Common.{
  ℕ, ◌<◌, ◌≡◌, ◌≢◌, ◌∙◌, ◌⊎◌, inl, inr, Bool, Option, none, some, arith, ap, sym, subst, ◌==◌, ◌&&◌,
  if◌then◌else◌, Bool-cases, ==→ne, ne→==, ==_iff, eq_cases, refl,
}
use simd_nanoring.Levels.{Levels, PriceLevel, remove_from_levels}
use simd_nanoring.Levels.Order
use simd_nanoring.Levels.Remove.{level_at-remove_from_levels}
use simd_nanoring.Levels.View.{level_at, drained}
use simd_nanoring.OrderBook.{OrderBook, is_bid, recalculate_bbo, top}
use simd_nanoring.OrderBook.Best.{IsBest, HasLevel, IsBest-keep, top-IsBest}
use simd_nanoring.OrderBook.Sides.{sides, same_side, same_side-cases, shares_at, level_shares}
use simd_nanoring.OrderBook.Core.{IsSide}
use simd_nanoring.OrderBook.Valid.{best_of, sides-recalculate_bbo, best_of-recalculate_bbo}

drained-none : (s : ℕ) (o : Option PriceLevel) → o ≡ none → drained s o ≡ none
drained-none s none e = refl
drained-none s (some l) e = cc

drained_partly : (s : ℕ) (o : Option PriceLevel) → s < level_shares o → drained s o ≢ none
drained_partly s none h = absurd (omega arith)
drained_partly s (some l) h = λ e. ground arith

module _ (d : Bool) (levels : Levels) (price s : ℕ) (valid : Order.IsValid d levels) where
  abbrev rest : Levels
  rest = remove_from_levels levels price s d

  law :
      (q : ℕ)
      → level_at rest q
        ≡ (if q == price then drained s (level_at levels price) else level_at levels q)
  law = level_at-remove_from_levels d levels price s valid

  rest_back : (q : ℕ) → HasLevel rest q → HasLevel levels q
  rest_back q has e = elim (eq_cases q price) [
    | inl same ↦ has (
        law q
        ∙ rw ((==_iff q price).1 same)
            (drained-none s (level_at levels price) (sym (ap (level_at levels) same) ∙ e)))
    | inr ne ↦ has (law q ∙ rw (ne→== q price ne) e)
  ]

  rest_other : (q : ℕ) → q ≢ price → HasLevel levels q → HasLevel rest q
  rest_other q ne has e = has (ground (arith, law q))

  rest_partly : s < shares_at levels price → HasLevel rest price
  rest_partly h e = drained_partly s (level_at levels price) h (ground (arith, law price))

  -- The best price stays if the removal is at another price, or takes a part of the level only.
  pub IsBest-rest :
      (x : ℕ) → (price ≢ x) ⊎ (s < shares_at levels price) → IsBest d levels x → IsBest d rest x
  IsBest-rest x why best = IsBest-keep d levels rest x rest_back kept best
    where
      kept : HasLevel levels x → HasLevel rest x
      kept has = elim why [
        | inl ne ↦ rest_other x (λ e. ne (sym e)) has
        | inr partly ↦ elim (eq_cases x price) [
          | inl same ↦ subst (HasLevel rest) (sym same) (rest_partly partly)
          | inr other ↦ rest_other x other has
        ]
      ]

-- `recalculate_bbo` after a removal restores the best prices.
module _ (b c : OrderBook) (side price s : ℕ) (is_side : IsSide side)
    (valid : (d : Bool) → Order.IsValid d (sides b d))
    (best : (d : Bool) → IsBest d (sides b d) (best_of b d))
    (valid' : (d : Bool) → Order.IsValid d (sides c d))
    (taken : (d : Bool)
      → sides c d ≡ (
          if same_side d (is_bid side)
          then remove_from_levels (sides b d) price s d
          else sides b d))
    (kept : (d : Bool) → best_of c d ≡ best_of b d) where
  IsBest-restored :
      (d : Bool)
      → IsBest d (sides c d) (
          if same_side d (is_bid side) && price == best_of c d
          then top (sides c d)
          else best_of c d)
  IsBest-restored d = elim (same_side-cases d (is_bid side)) [
    | inr no' ↦
        let same : sides c d ≡ sides b d = taken d ∙ rw no' in
        rw no' (
          subst (λ L. IsBest d L (best_of c d)) (sym same)
            (subst (IsBest d (sides b d)) (sym (kept d)) (best d)))
    | inl (_, yes') ↦ elim (Bool-cases (price == best_of c d)) [
      | inl here ↦ rw (yes', here) (top-IsBest d (sides c d) (valid' d).sorted)
      | inr other ↦
          let less : sides c d ≡ remove_from_levels (sides b d) price s d = taken d ∙ rw yes' in
          rw (yes', other)
            (subst (λ L. IsBest d L (best_of c d)) (sym less)
              (subst (IsBest d (rest d (sides b d) price s (valid d))) (sym (kept d)) (
                IsBest-rest d (sides b d) price s (valid d) (best_of b d)
                  (inl (λ e. ==→ne price (best_of c d) other (e ∙ sym (kept d)))) (best d))))
    ]
  ]

  pub recalculate_bbo-IsBest :
      (d : Bool)
      → IsBest d (sides (recalculate_bbo side price c) d) (best_of (recalculate_bbo side price c) d)
  recalculate_bbo-IsBest d =
      subst (λ L. IsBest d L (best_of (recalculate_bbo side price c) d))
        (sym (sides-recalculate_bbo side price c d))
        (subst (IsBest d (sides c d)) (sym (best_of-recalculate_bbo side price c d is_side))
          (IsBest-restored d))
