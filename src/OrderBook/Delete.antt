-- ===== src/OrderBook/Delete.antt =====
-- `handle_delete` keeps the invariant of the book, whatever the order says.
use simd_nanoring.Common.{
  ℕ, ◌+◌, ◌≡◌, ◌∙◌, inl, inr, Bool, some, ap, sym, subst, ◌==◌, ◌&&◌, if◌then◌else◌, Option-cases,
}
use native.Mathlib.Nat.{le_refl}
use simd_nanoring.Itch.{DecodedOrder}
use simd_nanoring.Levels.{remove_from_levels}
use simd_nanoring.OrderMap.{FlatOrderMap, LiveOrder, find, erase}
use simd_nanoring.OrderMap.Erase.{erase-IsValid, total-erase}
use simd_nanoring.OrderBook.{
  OrderBook, Stats, is_bid, forget, remove_side, delete_found, handle_delete,
}
use simd_nanoring.OrderBook.Sides.{sides, same_side, sides-remove_side}
use simd_nanoring.OrderBook.Core.{
  Core, weight, weight-Vanishes, live_shares, removed-Core, Core-cong,
}
use simd_nanoring.OrderBook.Valid.{
  IsValid, best_of, sides-recalculate_bbo, live_orders-recalculate_bbo, live_orders-remove_side,
  best_of-remove_side,
}
use simd_nanoring.OrderBook.Leave.{recalculate_bbo-IsBest}
use simd_nanoring.OrderBook.Found.{held, side_is, live, erased-sided}

pub counted-IsValid : (b : OrderBook) (s : Stats) → IsValid b → IsValid (record b { stats = s })
counted-IsValid b s valid = record { core = valid.core; best = valid.best }

module _ (order : DecodedOrder) (idx : ℕ) (b : OrderBook) (valid : IsValid b)
    (hit : find b.live_orders order.order_ref ≡ some idx) where
  abbrev r : ℕ
  r = order.order_ref

  abbrev m : FlatOrderMap
  m = b.live_orders

  abbrev lo : LiveOrder
  lo = m.slots idx

  abbrev pub less : OrderBook
  less = forget r (remove_side lo.side lo.price lo.remaining_shares b)

  pub less-live_orders : less.live_orders ≡ erase m r
  less-live_orders =
      ap (λ k. erase k r) (live_orders-remove_side lo.side lo.price lo.remaining_shares b)

  less-sides :
      (d : Bool)
      → sides less d ≡ (
          if same_side d (is_bid lo.side)
          then remove_from_levels (sides b d) lo.price lo.remaining_shares d
          else sides b d)
  less-sides d = sides-remove_side lo.side lo.price lo.remaining_shares b d

  less-best_of : (d : Bool) → best_of less d ≡ best_of b d
  less-best_of d = best_of-remove_side lo.side lo.price lo.remaining_shares b d

  less-live :
      (d : Bool) (p : ℕ)
      → live_shares (erase m r) d p
          + (if same_side d (is_bid lo.side) && lo.price == p then lo.remaining_shares else 0)
        ≡ live_shares m d p
  less-live d p =
      ap
        (λ (b : Bool).
          live_shares (erase m r) d p
          + (if b && (same_side d (is_bid lo.side) && lo.price == p)
              then lo.remaining_shares
              else 0))
        (sym (held (sides b) m valid.core r idx hit).1)
      ∙ total-erase m r valid.core.orders idx (weight d p) hit (weight-Vanishes d p)

  pub less-Core : Core (sides less) less.live_orders
  less-Core = subst (Core (sides less)) (sym less-live_orders) (
      removed-Core (sides b) (sides less) m (erase m r) valid.core lo lo.remaining_shares
        (le_refl _) (live (sides b) m valid.core r idx hit)
        (held (sides b) m valid.core r idx hit).1 (erase-IsValid m r valid.core.orders)
        (erased-sided m valid.core.orders r idx hit valid.core.sided) (λ d p. less-live d p)
        less-sides)

  pub delete_found-IsValid : IsValid (delete_found order idx b)
  unfolding delete_found
  delete_found-IsValid = record {
    core =
        Core-cong (sides less) _ less.live_orders _ (sides-recalculate_bbo lo.side lo.price less)
          (live_orders-recalculate_bbo lo.side lo.price less) less-Core;
    best =
        recalculate_bbo-IsBest b less lo.side lo.price lo.remaining_shares
          (side_is (sides b) m valid.core r idx hit) valid.core.levels valid.best less-Core.levels
          less-sides less-best_of;
  }

-- `handle_delete` keeps the invariant of the book, for any order and any reference.
pub handle_delete-IsValid :
    (order : DecodedOrder) (b : OrderBook) → IsValid b → IsValid (handle_delete order b)
unfolding handle_delete
handle_delete-IsValid order b valid = elim (Option-cases (find b.live_orders order.order_ref)) [
  | inl miss ↦ rw (miss, handle_delete) (counted-IsValid b _ valid)
  | inr (idx, hit) ↦
      rw (hit, handle_delete) (delete_found-IsValid order idx _ (counted-IsValid b _ valid) hit)
]
