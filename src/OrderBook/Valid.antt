-- ===== src/OrderBook/Valid.antt =====
-- The invariant of `OrderBook`, and what the steps of its handlers leave alone.
use simd_nanoring.Common.{
  ℕ, ◌+◌, ◌<◌, ◌≤◌, ◌≡◌, ◌≢◌, ◌^◌, Bool, true, false, none, arith, ltb, ◌==◌, ◌||◌, ◌&&◌,
  if◌then◌else◌,
}
use simd_nanoring.Common.Word.{u32}
use simd_nanoring.Levels.Add.{HasRoom}
use simd_nanoring.OrderMap.{lookup}
use simd_nanoring.OrderBook.{
  OrderBook, is_bid, top, improve_bbo, recalculate_bbo, add_side, remove_side,
}
use simd_nanoring.OrderBook.Best.{IsBest}
use simd_nanoring.OrderBook.Sides.{sides, same_side, shares_at}
use simd_nanoring.OrderBook.Core.{Core, IsSide}

abbrev pub best_of : OrderBook → Bool → ℕ
best_of b true = b.best_bid_price
best_of b false = b.best_ask_price

-- The two sides agree with the live orders, and the best prices are the best of the sides.
pub record IsValid (b : OrderBook) : Type 0 where
  pub core : Core (sides b) b.live_orders
  pub best : (d : Bool) → IsBest d (sides b d) (best_of b d)

-- What the book needs of an order that comes in: a side letter, a price that is not 0, a reference
-- that is not live, room for the level, and shares that fit the level's 32 bits.
pub record Accepts (b : OrderBook) (order_ref side price shares : ℕ) : Type 0 where
  pub side_is : IsSide side
  pub pos : price ≢ 0
  pub fresh : lookup b.live_orders order_ref ≡ none
  pub room : HasRoom (sides b (is_bid side)) price
  pub fits : shares_at (sides b (is_bid side)) price + shares < u32
  pub small : b.live_orders.capacity ≤ 2 ^ 60

pub sides-cong :
    (b c : OrderBook)
    → b.bid_levels ≡ c.bid_levels
    → b.ask_levels ≡ c.ask_levels
    → (d : Bool) → sides b d ≡ sides c d
sides-cong b c e f true = e
sides-cong b c e f false = f

pub sides-improve_bbo :
    (side price : ℕ) (b : OrderBook) (d : Bool) → sides (improve_bbo side price b) d ≡ sides b d
unfolding improve_bbo
sides-improve_bbo side price b true = ground arith
sides-improve_bbo side price b false = ground arith

pub live_orders-improve_bbo :
    (side price : ℕ) (b : OrderBook) → (improve_bbo side price b).live_orders ≡ b.live_orders
unfolding improve_bbo
live_orders-improve_bbo side price b = ground arith

-- What an add at the price makes of the best price.
abbrev pub improved : Bool → ℕ → ℕ → ℕ
improved true price x = if ltb x price then price else x
improved false price x = if x == 0 || ltb price x then price else x

pub best_of-improve_bbo :
    (side price : ℕ) (b : OrderBook) (d : Bool)
    → best_of (improve_bbo side price b) d
      ≡ (if same_side d (is_bid side) then improved d price (best_of b d) else best_of b d)
unfolding improve_bbo
best_of-improve_bbo side price b true = ground arith
best_of-improve_bbo side price b false = ground arith

pub sides-recalculate_bbo :
    (side price : ℕ) (b : OrderBook) (d : Bool) → sides (recalculate_bbo side price b) d ≡ sides b d
unfolding recalculate_bbo
sides-recalculate_bbo side price b true = ground arith
sides-recalculate_bbo side price b false = ground arith

pub live_orders-recalculate_bbo :
    (side price : ℕ) (b : OrderBook) → (recalculate_bbo side price b).live_orders ≡ b.live_orders
unfolding recalculate_bbo
live_orders-recalculate_bbo side price b = ground arith

pub best_of-recalculate_bbo :
    (side price : ℕ) (b : OrderBook) (d : Bool)
    → IsSide side
    → best_of (recalculate_bbo side price b) d
      ≡ (if same_side d (is_bid side) && price == best_of b d then top (sides b d) else best_of b d)
unfolding recalculate_bbo
best_of-recalculate_bbo side price b true is_side = ground arith
best_of-recalculate_bbo side price b false is_side = ground arith

pub live_orders-add_side :
    (side price shares : ℕ) (b : OrderBook)
    → (add_side side price shares b).live_orders ≡ b.live_orders
unfolding add_side
live_orders-add_side side price shares b = ground arith

pub best_of-add_side :
    (side price shares : ℕ) (b : OrderBook) (d : Bool)
    → best_of (add_side side price shares b) d ≡ best_of b d
unfolding add_side
best_of-add_side side price shares b true = ground arith
best_of-add_side side price shares b false = ground arith

pub live_orders-remove_side :
    (side price shares : ℕ) (b : OrderBook)
    → (remove_side side price shares b).live_orders ≡ b.live_orders
unfolding remove_side
live_orders-remove_side side price shares b = ground arith

pub best_of-remove_side :
    (side price shares : ℕ) (b : OrderBook) (d : Bool)
    → best_of (remove_side side price shares b) d ≡ best_of b d
unfolding remove_side
best_of-remove_side side price shares b true = ground arith
best_of-remove_side side price shares b false = ground arith

pub best_of-cong :
    (b c : OrderBook)
    → b.best_bid_price ≡ c.best_bid_price
    → b.best_ask_price ≡ c.best_ask_price
    → (d : Bool) → best_of b d ≡ best_of c d
best_of-cong b c e f true = e
best_of-cong b c e f false = f
