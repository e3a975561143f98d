-- ===== src/OrderBook/Add.antt =====
-- `handle_add` keeps the invariant of the book.
use simd_nanoring.Common.{
  ℕ, ◌≡◌, ◌∙◌, inl, inr, Bool, true, false, some, ap, sym, subst, ◌==◌, if◌then◌else◌, refl,
}
use simd_nanoring.Common.Word.{add64}
use simd_nanoring.Itch.{DecodedOrder}
use simd_nanoring.Levels.{add_to_levels}
use simd_nanoring.Levels.Add.{HasRoom, level_at-add_to_levels}
use simd_nanoring.Levels.View.{level_at, joined}
use simd_nanoring.OrderMap.{insert}
use simd_nanoring.OrderMap.Laws.{insert-Inserted}
use simd_nanoring.OrderBook.{OrderBook, is_bid, improve_bbo, add_side, handle_add, live_order}
use simd_nanoring.OrderBook.Best.{IsBest, IsBest-bid, IsBest-ask}
use simd_nanoring.OrderBook.Sides.{sides, same_side, same_side-cases, sides-add_side}
use simd_nanoring.OrderBook.Core.{Core, added-Core}
use simd_nanoring.OrderBook.Valid.{
  IsValid, Accepts, best_of, improved, best_of-cong, sides-cong, sides-improve_bbo,
  live_orders-improve_bbo, best_of-improve_bbo, live_orders-add_side, best_of-add_side,
}

module _ (order : DecodedOrder) (b : OrderBook) (valid : IsValid b)
    (ok : Accepts b order.order_ref order.side order.price order.shares) where
  open order use {order_ref, side, price, shares}

  -- The book with the order recorded, before its levels change.
  abbrev recorded : OrderBook
  recorded = record b {
    stats = record b.stats { adds = add64 b.stats.adds 1 };
    live_orders = insert b.live_orders order_ref (live_order order_ref price shares side);
  }

  abbrev after : OrderBook
  after = improve_bbo side price (add_side side price shares recorded)

  after-sides :
      (d : Bool)
      → sides after d ≡ (
          if same_side d (is_bid side) then add_to_levels (sides b d) price shares d else sides b d)
  after-sides d =
      sides-improve_bbo side price (add_side side price shares recorded) d
      ∙ (sides-add_side side price shares recorded d
          ∙ ap (λ L. if same_side d (is_bid side) then add_to_levels L price shares d else L)
              (sides-cong recorded b refl refl d))

  after-Core : Core (sides after) after.live_orders
  after-Core =
      subst (Core (sides after))
        (sym (
          live_orders-improve_bbo side price (add_side side price shares recorded)
          ∙ live_orders-add_side side price shares recorded))
        (added-Core (sides b) (sides after) b.live_orders recorded.live_orders valid.core order_ref
          (live_order order_ref price shares side) ok.side_is ok.room ok.pos ok.fits
          (insert-Inserted b.live_orders order_ref _ valid.core.orders ok.small ok.fresh)
          after-sides)

  after-best_of :
      (d : Bool)
      → best_of after d
        ≡ (if same_side d (is_bid side) then improved d price (best_of b d) else best_of b d)
  after-best_of d =
      best_of-improve_bbo side price (add_side side price shares recorded) d
      ∙ ap (λ x. if same_side d (is_bid side) then improved d price x else x)
          (best_of-add_side side price shares recorded d ∙ best_of-cong recorded b refl refl d)

  law :
      (d : Bool)
      → same_side d (is_bid side) ≡ true
      → HasRoom (sides b d) price
      → (q : ℕ)
      → level_at (sides after d) q ≡ (
          if q == price
          then some (joined price shares (level_at (sides b d) price))
          else level_at (sides b d) q)
  law d yes' room q =
      let grown : sides after d ≡ add_to_levels (sides b d) price shares d =
        after-sides d ∙ rw yes' in
      ap (λ L. level_at L q) grown
      ∙ level_at-add_to_levels d (sides b d) price shares (valid.core.levels d) room q

  improved-IsBest :
      (d : Bool)
      → same_side d (is_bid side) ≡ true
      → HasRoom (sides b d) price
      → IsBest d (sides after d) (improved d price (best_of b d))
  improved-IsBest true yes' room =
      IsBest-bid (sides b true) (sides after true) price _ (law true yes' room) (best_of b true)
        (valid.best true)
  improved-IsBest false yes' room =
      IsBest-ask (sides b false) (sides after false) price _ (law false yes' room) (best_of b false)
        valid.core.priced (valid.best false)

  after-IsBest : (d : Bool) → IsBest d (sides after d) (best_of after d)
  after-IsBest d = elim (same_side-cases d (is_bid side)) [
    | inl (e, yes') ↦
        subst (IsBest d (sides after d)) (sym (after-best_of d ∙ rw yes'))
          (improved-IsBest d yes' (subst (λ c. HasRoom (sides b c) price) e ok.room))
    | inr no' ↦
        let same_levels : sides after d ≡ sides b d = after-sides d ∙ rw no' in
        let same_best : best_of after d ≡ best_of b d = after-best_of d ∙ rw no' in
        subst (λ L. IsBest d L (best_of after d)) (sym same_levels)
          (subst (IsBest d (sides b d)) (sym same_best) (valid.best d))
  ]

  -- `handle_add` of an order that the book accepts keeps the invariant of the book.
  pub handle_add-IsValid : IsValid (handle_add order b)
  unfolding handle_add
  handle_add-IsValid = record { core = after-Core; best = after-IsBest }
