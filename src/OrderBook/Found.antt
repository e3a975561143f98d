-- ===== src/OrderBook/Found.antt =====
-- What the handlers know of the order that `find` returned, and of the map when it is gone.
use simd_nanoring.Common.{
  ℕ, ◌<◌, ◌≤◌, ◌≡◌, ◌∙◌, inl, inr, Bool, true, false, some, arith, sym, ◌==◌, Bool-cases,
}
use simd_nanoring.Common.Word.{u32}
use simd_nanoring.Levels.{Levels}
use simd_nanoring.OrderMap.{FlatOrderMap, LiveOrder, find, lookup, erase}
use simd_nanoring.OrderMap.Total.{total-ge}
use simd_nanoring.OrderMap.Table.{Holds, find→Holds, found_held}
use simd_nanoring.OrderMap.Valid
use simd_nanoring.OrderMap.Erase.{lookup-erase}
use simd_nanoring.OrderBook.{is_bid}
use simd_nanoring.OrderBook.Sides.{same_side, shares_at, same_side-cases}
use simd_nanoring.OrderBook.Core.{Core, IsSide, weight, live_shares}

module _ (S : Bool → Levels) (m : FlatOrderMap) (core : Core S m) (r idx : ℕ)
    (hit : find m r ≡ some idx) where
  abbrev lo : LiveOrder
  lo = m.slots idx

  pub held : Holds m.slots m.capacity r idx
  unfolding find
  held = find→Holds m.mask m.capacity core.orders.sized m.slots r idx hit

  pub looks : lookup m r ≡ some lo
  unfolding lookup
  looks = found_held m.mask m.capacity core.orders.sized m.slots r idx core.orders.table held

  pub side_is : IsSide lo.side
  side_is = core.sided r lo looks

  pub live : (d : Bool) (p : ℕ) → weight d p lo ≤ live_shares m d p
  live d p = total-ge (weight d p) m.slots m.capacity idx held.0

  -- The level of a live order has at least its shares.
  pub level_has :
      (d : Bool)
      → same_side d (is_bid lo.side) ≡ true
      → lo.remaining_shares ≤ shares_at (S d) lo.price
  level_has d yes' = ground (arith, live d lo.price, core.backed d lo.price, held.1)

  pub remaining-lt : lo.remaining_shares < u32
  remaining-lt = elim (same_side-cases (is_bid lo.side) (is_bid lo.side)) [
    | inl (_, yes') ↦
        omega (arith, level_has (is_bid lo.side) yes', core.words (is_bid lo.side) lo.price)
    | inr no' ↦ absurd (not_other (is_bid lo.side) no')
  ]
    where
      not_other : (e : Bool) → same_side e e ≡ false → ⊥
      not_other true h = cc
      not_other false h = cc

-- The map without the order.
module _ (m : FlatOrderMap) (valid : Valid.IsValid m) (r idx : ℕ) (hit : find m r ≡ some idx)
    (sided : (q : ℕ) (l : LiveOrder) → lookup m q ≡ some l → IsSide l.side) where
  pub erased-sided : (q : ℕ) (l : LiveOrder) → lookup (erase m r) q ≡ some l → IsSide l.side
  erased-sided q l h = elim (Bool-cases (q == r)) [
    | inl same ↦ cc (lookup-erase m r valid q, h, same)
    | inr other ↦ sided q l (sym (lookup-erase m r valid q ∙ rw other) ∙ h)
  ]
