-- ===== src/OrderBook/Replace.antt =====
-- `handle_replace` keeps the invariant of the book.
use simd_nanoring.Common.{
  ℕ, ◌+◌, ◌<◌, ◌≤◌, ◌^◌, ◌≡◌, ◌∙◌, inl, inr, Bool, true, false, some, arith, ap, sym, subst,
  Option-cases, refl,
}
use simd_nanoring.Itch.{DecodedOrder}
use simd_nanoring.Levels.Add.{HasRoom}
use simd_nanoring.Common.Word.{u32}
use simd_nanoring.OrderMap.{FlatOrderMap, find, insert, lookup}
use simd_nanoring.OrderMap.Laws.{insert-Inserted}
use simd_nanoring.OrderBook.{
  OrderBook, Stats, is_bid, top, remove_side, add_side, recalculate_bbo_full, replace_found,
  handle_replace, live_order,
}
use simd_nanoring.OrderBook.Best.{IsBest, top-IsBest}
use simd_nanoring.OrderBook.Sides.{sides, shares_at, sides-add_side}
use simd_nanoring.OrderBook.Core.{Core, Core-cong, added-Core}
use simd_nanoring.OrderBook.Valid.{IsValid, Accepts, best_of, live_orders-add_side}
use simd_nanoring.OrderBook.Delete.{counted-IsValid, less, less-Core, less-live_orders}

sides-recalculate_bbo_full :
    (b : OrderBook) (d : Bool) → sides (recalculate_bbo_full b) d ≡ sides b d
unfolding recalculate_bbo_full
sides-recalculate_bbo_full b true = refl
sides-recalculate_bbo_full b false = refl

best_of-recalculate_bbo_full :
    (b : OrderBook) (d : Bool) → best_of (recalculate_bbo_full b) d ≡ top (sides b d)
unfolding recalculate_bbo_full
best_of-recalculate_bbo_full b true = refl
best_of-recalculate_bbo_full b false = refl

pub live_orders-recalculate_bbo_full :
    (b : OrderBook) → (recalculate_bbo_full b).live_orders ≡ b.live_orders
unfolding recalculate_bbo_full
live_orders-recalculate_bbo_full b = refl

recalculate_bbo_full-IsValid :
    (b : OrderBook) → Core (sides b) b.live_orders → IsValid (recalculate_bbo_full b)
recalculate_bbo_full-IsValid b core = record {
  core =
      Core-cong (sides b) _ b.live_orders _ (sides-recalculate_bbo_full b)
        (live_orders-recalculate_bbo_full b) core;
  best = λ d.
      subst (λ L. IsBest d L (best_of (recalculate_bbo_full b) d))
        (sym (sides-recalculate_bbo_full b d))
        (subst (IsBest d (sides b d)) (sym (best_of-recalculate_bbo_full b d))
          (top-IsBest d (sides b d) (core.levels d).sorted));
}

module _ (order : DecodedOrder) (idx : ℕ) (b : OrderBook) (valid : IsValid b)
    (hit : find b.live_orders order.order_ref ≡ some idx)
    (ok : Accepts
      (less order idx b valid hit)
      order.new_order_ref
      (b.live_orders.slots idx).side
      order.price
      order.shares) where
  abbrev gone : OrderBook
  gone = less order idx b valid hit

  abbrev side : ℕ
  side = (b.live_orders.slots idx).side

  abbrev recorded : OrderBook
  recorded = record gone {
    live_orders =
        insert gone.live_orders order.new_order_ref
          (live_order order.new_order_ref order.price order.shares side);
  }

  abbrev after : OrderBook
  after = add_side side order.price order.shares recorded

  after-Core : Core (sides after) after.live_orders
  after-Core =
      subst (Core (sides after)) (sym (live_orders-add_side side order.price order.shares recorded))
        (added-Core (sides gone) (sides after) gone.live_orders recorded.live_orders
          (less-Core order idx b valid hit) order.new_order_ref
          (live_order order.new_order_ref order.price order.shares side) ok.side_is ok.room ok.pos
          ok.fits
          (insert-Inserted gone.live_orders order.new_order_ref _
            (less-Core order idx b valid hit).orders ok.small ok.fresh)
          (λ d. sides-add_side side order.price order.shares recorded d))

  pub replace_found-IsValid : IsValid (replace_found order idx b)
  unfolding replace_found
  replace_found-IsValid = recalculate_bbo_full-IsValid after after-Core

-- The counts do not matter to what the book accepts.
Accepts-cong :
    (b c : OrderBook) (r side price shares : ℕ)
    → c.live_orders ≡ b.live_orders
    → ((d : Bool) → sides c d ≡ sides b d)
    → Accepts b r side price shares
    → Accepts c r side price shares
Accepts-cong b c r side price shares e f a = record {
  side_is = a.side_is;
  pos = a.pos;
  fresh = ap (λ m. lookup m r) e ∙ a.fresh;
  room = subst (λ L. HasRoom L price) (sym (f (is_bid side))) a.room;
  fits = subst (λ L. shares_at L price + shares < u32) (sym (f (is_bid side))) a.fits;
  small = subst (λ (m : FlatOrderMap). m.capacity ≤ 2 ^ 60) (sym e) a.small;
}

counted-sides :
    (b : OrderBook) (s : Stats) (side price shares : ℕ) (d : Bool)
    → sides (remove_side side price shares (record b { stats = s })) d
      ≡ sides (remove_side side price shares b) d
unfolding remove_side
counted-sides b s side price shares true = ground arith
counted-sides b s side price shares false = ground arith

pub counted-Accepts :
    (order : DecodedOrder) (idx : ℕ) (b : OrderBook) (valid : IsValid b)
    (hit : find b.live_orders order.order_ref ≡ some idx) (s : Stats) {r side price shares : ℕ}
    → Accepts (less order idx b valid hit) r side price shares
    → Accepts
        (less order idx (record b { stats = s }) (counted-IsValid b s valid) hit)
        r
        side
        price
        shares
counted-Accepts order idx b valid hit s {r} {side} {price} {shares} =
    let b' = record b { stats = s } in
    let lo = b.live_orders.slots idx in
    Accepts-cong (less order idx b valid hit) (less order idx b' (counted-IsValid b s valid) hit) r
      side price shares
      (less-live_orders order idx b' (counted-IsValid b s valid) hit
        ∙ sym (less-live_orders order idx b valid hit))
      (λ d. gone_sides d)
  where
    gone_sides :
        (d : Bool)
        → sides (less order idx (record b { stats = s }) (counted-IsValid b s valid) hit) d
          ≡ sides (less order idx b valid hit) d
    gone_sides true =
        counted-sides b s (b.live_orders.slots idx).side (b.live_orders.slots idx).price
          (b.live_orders.slots idx).remaining_shares true
    gone_sides false =
        counted-sides b s (b.live_orders.slots idx).side (b.live_orders.slots idx).price
          (b.live_orders.slots idx).remaining_shares false

-- What the book needs of a replace whose order is live: once that order is gone, the book accepts
-- the new one on the same side.
abbrev pub Replaceable : DecodedOrder → (b : OrderBook) → IsValid b → Type 0
Replaceable order b valid =
    (idx : ℕ)
    → (hit : find b.live_orders order.order_ref ≡ some idx)
    → Accepts (less order idx b valid hit) order.new_order_ref (b.live_orders.slots idx).side
        order.price order.shares

-- `handle_replace` keeps the invariant of a book that accepts the new order in place of the live
-- one, and of any book where the order is not live.
pub handle_replace-IsValid :
    (order : DecodedOrder) (b : OrderBook) (valid : IsValid b)
    → Replaceable order b valid
    → IsValid (handle_replace order b)
unfolding handle_replace
handle_replace-IsValid order b valid ok = elim (Option-cases (find b.live_orders order.order_ref)) [
  | inl miss ↦ rw (miss, handle_replace) (counted-IsValid b _ valid)
  | inr (idx, hit) ↦
      rw (hit, handle_replace)
        (replace_found-IsValid order idx _ (counted-IsValid b _ valid) hit
          (counted-Accepts order idx b valid hit _ (ok idx hit)))
]
