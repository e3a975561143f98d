-- ===== src/OrderBook/Execute.antt =====
-- `handle_execute` keeps the invariant of the book, whatever the order says.
use simd_nanoring.Common.{
  ℕ, ◌+◌, ◌<◌, ◌≤◌, ◌≡◌, ◌∙◌, inl, inr, Bool, some, arith, ap, sym, subst, ltb, ◌==◌, ◌&&◌,
  if◌then◌else◌, Bool-cases, Option-cases, ==_iff, some_eq, set_self,
}
use simd_nanoring.Common.Word.{sub32}
use simd_nanoring.Itch.{DecodedOrder}
use simd_nanoring.Levels.{remove_from_levels}
use simd_nanoring.OrderMap.{FlatOrderMap, LiveOrder, find, lookup, erase}
use simd_nanoring.OrderMap.Erase.{erase-IsValid, total-erase}
use simd_nanoring.OrderMap.Write.{write, write-IsValid, lookup-write, total-write}
use simd_nanoring.OrderMap.Valid
use simd_nanoring.OrderMap.Table.{Holds, Holds→find}
use simd_nanoring.OrderBook.{OrderBook, is_bid, forget, remove_side, execute_found, handle_execute}
use simd_nanoring.OrderBook.Sides.{sides, same_side, shares_at, sides-remove_side, same_side-cases}
use simd_nanoring.OrderBook.Core.{
  Core, IsSide, weight, weight-Vanishes, live_shares, removed-Core, Core-cong,
}
use simd_nanoring.OrderBook.Best.{IsBest}
use simd_nanoring.OrderBook.Valid.{
  IsValid, best_of, sides-recalculate_bbo, live_orders-recalculate_bbo, best_of-remove_side,
}
use simd_nanoring.OrderBook.Leave.{recalculate_bbo-IsBest, IsBest-rest}
use simd_nanoring.OrderBook.Found.{held, side_is, live, erased-sided, level_has, remaining-lt}
use simd_nanoring.OrderBook.Delete.{counted-IsValid}

module _ (order : DecodedOrder) (idx : ℕ) (b : OrderBook) (valid : IsValid b)
    (hit : find b.live_orders order.order_ref ≡ some idx) where
  abbrev r : ℕ
  r = order.order_ref

  abbrev m : FlatOrderMap
  m = b.live_orders

  abbrev lo : LiveOrder
  lo = m.slots idx

  abbrev exec_shares : ℕ
  exec_shares = if ltb lo.remaining_shares order.shares then lo.remaining_shares else order.shares

  abbrev left : ℕ
  left = sub32 lo.remaining_shares exec_shares

  abbrev lo' : LiveOrder
  lo' = record lo { remaining_shares = left }

  abbrev m1 : FlatOrderMap
  m1 = write m idx lo'

  abbrev less : OrderBook
  less = record (remove_side lo.side lo.price exec_shares b) { live_orders = m1 }

  in_slot : Holds m.slots m.capacity r idx
  in_slot = held (sides b) m valid.core r idx hit

  exec-le : exec_shares ≤ lo.remaining_shares
  exec-le = ground arith

  -- No more is executed than the order has, so the subtraction does not wrap.
  left-eq : left + exec_shares ≡ lo.remaining_shares
  left-eq = ground (arith, exec-le, remaining-lt (sides b) m valid.core r idx hit)

  m1-IsValid : Valid.IsValid m1
  m1-IsValid = write-IsValid m r idx lo' valid.core.orders in_slot in_slot.1 in_slot.2

  m1-sided : (q : ℕ) (l : LiveOrder) → lookup m1 q ≡ some l → IsSide l.side
  m1-sided q l h = elim (Bool-cases (q == r)) [
    | inl same ↦
        let now : lookup m1 q ≡ some lo' = looks' q ∙ rw same in
        subst IsSide (ap LiveOrder.side (some_eq (sym now ∙ h)))
          (side_is (sides b) m valid.core r idx hit)
    | inr other ↦ valid.core.sided q l (sym (looks' q ∙ rw other) ∙ h)
  ]
    where
      looks' : (q : ℕ) → lookup m1 q ≡ (if q == r then some lo' else lookup m q)
      looks' = lookup-write m r idx lo' valid.core.orders in_slot in_slot.1 in_slot.2

  m1-live :
      (d : Bool) (p : ℕ)
      → live_shares m1 d p
          + (if same_side d (is_bid lo.side) && lo.price == p then exec_shares else 0)
        ≡ live_shares m d p
  m1-live d p = ground (
    arith,
    total-write m r idx lo' valid.core.orders in_slot in_slot.1 in_slot.2 (weight d p),
    left-eq,
    in_slot.1,
  )

  less-sides :
      (d : Bool)
      → sides less d ≡ (
          if same_side d (is_bid lo.side)
          then remove_from_levels (sides b d) lo.price exec_shares d
          else sides b d)
  less-sides d = sides-remove_side lo.side lo.price exec_shares b d

  less-best_of : (d : Bool) → best_of less d ≡ best_of b d
  less-best_of d = best_of-remove_side lo.side lo.price exec_shares b d

  -- A partial execution: the order stays with the shares that are left.
  less-Core : Core (sides less) m1
  less-Core =
      removed-Core (sides b) (sides less) m m1 valid.core lo exec_shares exec-le
        (live (sides b) m valid.core r idx hit) in_slot.1 m1-IsValid m1-sided m1-live less-sides

  less-IsBest : 0 < left → (d : Bool) → IsBest d (sides less d) (best_of less d)
  less-IsBest some' d = elim (same_side-cases d (is_bid lo.side)) [
    | inl (_, yes') ↦
        let taken : sides less d ≡ remove_from_levels (sides b d) lo.price exec_shares d =
          less-sides d ∙ rw yes' in
        let partly : exec_shares < shares_at (sides b d) lo.price =
          omega (arith, left-eq, level_has (sides b) m valid.core r idx hit d yes') in
        subst (λ L. IsBest d L (best_of less d)) (sym taken)
          (subst (IsBest d (remove_from_levels (sides b d) lo.price exec_shares d))
            (sym (less-best_of d))
            (IsBest-rest d (sides b d) lo.price exec_shares (valid.core.levels d) (best_of b d)
              (inr partly) (valid.best d)))
    | inr no' ↦
        let kept : sides less d ≡ sides b d = less-sides d ∙ rw no' in
        subst (λ L. IsBest d L (best_of less d)) (sym kept)
          (subst (IsBest d (sides b d)) (sym (less-best_of d)) (valid.best d))
  ]

  -- A full execution: the order goes.
  hit1 : find m1 r ≡ some idx
  unfolding find write
  hit1 = Holds→find m1.mask m1.capacity m1-IsValid.sized m1.slots r idx m1-IsValid.table (
    in_slot.0,
    ap LiveOrder.occupied (set_self m.slots idx lo') ∙ in_slot.1,
    ap LiveOrder.order_ref (set_self m.slots idx lo') ∙ in_slot.2,
  )

  abbrev gone : OrderBook
  gone = forget r less

  weight-left : (d : Bool) (p : ℕ) → left ≡ 0 → weight d p (m1.slots idx) ≡ 0
  unfolding write
  weight-left d p none_left = ap (weight d p) (set_self m.slots idx lo') ∙ ground arith

  gone-live :
      left ≡ 0
      → (d : Bool) (p : ℕ)
      → live_shares (erase m1 r) d p
          + (if same_side d (is_bid lo.side) && lo.price == p then exec_shares else 0)
        ≡ live_shares m d p
  gone-live none_left d p = omega (
    arith,
    m1-live d p,
    total-erase m1 r m1-IsValid idx (weight d p) hit1 (weight-Vanishes d p),
    weight-left d p none_left,
  )

  gone-Core : left ≡ 0 → Core (sides gone) (erase m1 r)
  gone-Core none_left =
      removed-Core (sides b) (sides gone) m (erase m1 r) valid.core lo exec_shares exec-le
        (live (sides b) m valid.core r idx hit) in_slot.1 (erase-IsValid m1 r m1-IsValid)
        (erased-sided m1 m1-IsValid r idx hit1 m1-sided) (gone-live none_left) less-sides

  pub execute_found-IsValid : IsValid (execute_found order idx b)
  unfolding execute_found
  execute_found-IsValid = elim (Bool-cases (left == 0)) [
    | inr some_left ↦ rw some_left (record { core = less-Core; best = less-IsBest (ground arith) })
    | inl none_left ↦
        let core' = gone-Core ((==_iff left 0).0 none_left) in
        rw none_left (record {
          core =
              Core-cong (sides gone) _ gone.live_orders _
                (sides-recalculate_bbo lo.side lo.price gone)
                (live_orders-recalculate_bbo lo.side lo.price gone) core';
          best =
              recalculate_bbo-IsBest b gone lo.side lo.price exec_shares
                (side_is (sides b) m valid.core r idx hit) valid.core.levels valid.best core'.levels
                less-sides less-best_of;
        })
  ]

-- `handle_execute` keeps the invariant of the book, for any order, reference and number of shares.
pub handle_execute-IsValid :
    (order : DecodedOrder) (b : OrderBook) → IsValid b → IsValid (handle_execute order b)
unfolding handle_execute
handle_execute-IsValid order b valid = elim (Option-cases (find b.live_orders order.order_ref)) [
  | inl miss ↦ rw (miss, handle_execute) (counted-IsValid b _ valid)
  | inr (idx, hit) ↦
      rw (hit, handle_execute) (execute_found-IsValid order idx _ (counted-IsValid b _ valid) hit)
]
