-- ===== src/OrderBook.antt =====
-- include/order_book.h, `OrderBook`: one symbol's book, its handlers and its best prices.
pub mod Best
pub mod Sides
pub mod Core
pub mod Valid
pub mod Add
pub mod Leave
pub mod Found
pub mod Execute
pub mod Delete
pub mod Replace
pub mod Apply
pub mod Spec
pub mod Refines
use simd_nanoring.Common.{
  ℕ, Bool, true, false, Option, none, some, ltb, ◌==◌, ◌&&◌, ◌||◌, if◌then◌else◌,
}
use simd_nanoring.Common.Word.{add64, sub32}
use simd_nanoring.Itch.{DecodedOrder, OrderType}
use simd_nanoring.Levels.{Levels, PriceLevel, add_to_levels, remove_from_levels}
use simd_nanoring.OrderMap.{FlatOrderMap, LiveOrder, new_map, find, insert, erase}
use simd_nanoring.OrderMap.Write.{write}

pub record Stats : Type 0 where
  pub adds : ℕ
  pub executes : ℕ
  pub deletes : ℕ
  pub replaces : ℕ
  pub bbo_changes : ℕ

pub record OrderBook : Type 0 where
  pub bid_levels : Levels
  pub ask_levels : Levels
  pub best_bid_price : ℕ
  pub best_ask_price : ℕ
  pub live_orders : FlatOrderMap
  pub stats : Stats

abbrev pub no_levels : Levels
no_levels = record {
  cells = λ i. record { price = 0; total_shares = 0; order_count = 0 };
  count = 0;
}

abbrev pub no_stats : Stats
no_stats = record { adds = 0; executes = 0; deletes = 0; replaces = 0; bbo_changes = 0 }

unfoldable pub new_book : OrderBook
unfolding new_map
new_book = record {
  bid_levels = no_levels;
  ask_levels = no_levels;
  best_bid_price = 0;
  best_ask_price = 0;
  live_orders = new_map;
  stats = no_stats;
}

-- `side == 'B'`
abbrev pub is_bid : ℕ → Bool
is_bid side = side == b'B'

-- `stats_.bbo_changes++`
abbrev pub count_bbo : Stats → Stats
count_bbo s = record s { bbo_changes = add64 s.bbo_changes 1 }

-- The price that `recalculate_best_bid` and `recalculate_best_ask` read off a side.
abbrev pub top : Levels → ℕ
top levels = if ltb 0 levels.count then (levels.cells 0).price else 0

unfoldable pub recalculate_best_bid : OrderBook → OrderBook
recalculate_best_bid b = record b { best_bid_price = top b.bid_levels }

unfoldable pub recalculate_best_ask : OrderBook → OrderBook
recalculate_best_ask b = record b { best_ask_price = top b.ask_levels }

unfoldable pub recalculate_bbo : ℕ → ℕ → OrderBook → OrderBook
unfolding recalculate_best_bid recalculate_best_ask
recalculate_bbo side removed_price b =
    if is_bid side && removed_price == b.best_bid_price
    then record (recalculate_best_bid b) { stats = count_bbo b.stats }
    else if side == b'S' && removed_price == b.best_ask_price
    then record (recalculate_best_ask b) { stats = count_bbo b.stats }
    else b

unfoldable pub recalculate_bbo_full : OrderBook → OrderBook
unfolding recalculate_best_bid recalculate_best_ask
recalculate_bbo_full b = record (recalculate_best_ask (recalculate_best_bid b)) {
  stats = count_bbo b.stats;
}

-- `add_to_levels` on the side of an order.
unfoldable pub add_side : ℕ → ℕ → ℕ → OrderBook → OrderBook
unfolding add_to_levels
add_side side price shares b =
    if is_bid side
    then record b { bid_levels = add_to_levels b.bid_levels price shares true }
    else record b { ask_levels = add_to_levels b.ask_levels price shares false }

-- `remove_from_levels` on the side of an order.
unfoldable pub remove_side : ℕ → ℕ → ℕ → OrderBook → OrderBook
unfolding remove_from_levels
remove_side side price shares b =
    if is_bid side
    then record b { bid_levels = remove_from_levels b.bid_levels price shares true }
    else record b { ask_levels = remove_from_levels b.ask_levels price shares false }

-- The best price after an add.
unfoldable pub improve_bbo : ℕ → ℕ → OrderBook → OrderBook
improve_bbo side price b =
    if is_bid side
    then if ltb b.best_bid_price price
      then record b { best_bid_price = price; stats = count_bbo b.stats }
      else b
    else if b.best_ask_price == 0 || ltb price b.best_ask_price
    then record b { best_ask_price = price; stats = count_bbo b.stats }
    else b

abbrev pub live_order : ℕ → ℕ → ℕ → ℕ → LiveOrder
live_order order_ref price shares side = record {
  order_ref = order_ref;
  price = price;
  remaining_shares = shares;
  side = side;
  occupied = true;
}

unfoldable pub handle_add : DecodedOrder → OrderBook → OrderBook
unfolding add_side improve_bbo insert
handle_add order b = improve_bbo order.side order.price (
    add_side order.side order.price order.shares (record b {
      stats = record b.stats { adds = add64 b.stats.adds 1 };
      live_orders =
          insert b.live_orders order.order_ref
            (live_order order.order_ref order.price order.shares order.side);
    }))

-- `live_orders_.erase(order_ref)`
abbrev pub forget : ℕ → OrderBook → OrderBook
forget order_ref b = record b { live_orders = erase b.live_orders order_ref }

-- `handle_execute` once `find` has returned the slot at `idx`.
unfoldable pub execute_found : DecodedOrder → ℕ → OrderBook → OrderBook
unfolding remove_side recalculate_bbo erase write
execute_found order idx b =
    let lo = b.live_orders.slots idx in
    let exec_shares =
      (if ltb lo.remaining_shares order.shares then lo.remaining_shares else order.shares) in
    let left = sub32 lo.remaining_shares exec_shares in
    let b' = record (remove_side lo.side lo.price exec_shares b) {
      live_orders = write b.live_orders idx (record lo { remaining_shares = left });
    } in
    if left == 0 then recalculate_bbo lo.side lo.price (forget order.order_ref b') else b'

unfoldable pub handle_execute : DecodedOrder → OrderBook → OrderBook
unfolding execute_found find
handle_execute order b =
    let b' = record b { stats = record b.stats { executes = add64 b.stats.executes 1 } } in
    elim (find b.live_orders order.order_ref) [ none ↦ b' | some idx ↦ execute_found order idx b' ]

-- `handle_delete` once `find` has returned the slot at `idx`.
unfoldable pub delete_found : DecodedOrder → ℕ → OrderBook → OrderBook
unfolding remove_side recalculate_bbo erase
delete_found order idx b =
    let lo = b.live_orders.slots idx in
    recalculate_bbo lo.side lo.price
      (forget order.order_ref (remove_side lo.side lo.price lo.remaining_shares b))

unfoldable pub handle_delete : DecodedOrder → OrderBook → OrderBook
unfolding delete_found find
handle_delete order b =
    let b' = record b { stats = record b.stats { deletes = add64 b.stats.deletes 1 } } in
    elim (find b.live_orders order.order_ref) [ none ↦ b' | some idx ↦ delete_found order idx b' ]

-- `handle_replace` once `find` has returned the slot at `idx`.
unfoldable pub replace_found : DecodedOrder → ℕ → OrderBook → OrderBook
unfolding remove_side add_side recalculate_bbo_full erase insert
replace_found order idx b =
    let lo = b.live_orders.slots idx in
    let b1 = forget order.order_ref (remove_side lo.side lo.price lo.remaining_shares b) in
    let b2 = record b1 {
      live_orders =
          insert b1.live_orders order.new_order_ref
            (live_order order.new_order_ref order.price order.shares lo.side);
    } in
    recalculate_bbo_full (add_side lo.side order.price order.shares b2)

unfoldable pub handle_replace : DecodedOrder → OrderBook → OrderBook
unfolding replace_found find
handle_replace order b =
    let b' = record b { stats = record b.stats { replaces = add64 b.stats.replaces 1 } } in
    elim (find b.live_orders order.order_ref) [ none ↦ b' | some idx ↦ replace_found order idx b' ]

-- The `switch` of `apply`.
unfoldable pub apply_type : OrderType → DecodedOrder → OrderBook → OrderBook
apply_type OrderType.add = handle_add
apply_type OrderType.execute = handle_execute
apply_type OrderType.delete = handle_delete
apply_type OrderType.replace = handle_replace

unfoldable pub apply : DecodedOrder → OrderBook → OrderBook
unfolding apply_type handle_add handle_execute handle_delete handle_replace
apply order = apply_type order.type order

-- `best_ask_price_ - best_bid_price_`, on `uint32_t`.
unfoldable pub spread : OrderBook → ℕ
spread b =
    if b.best_ask_price == 0 || b.best_bid_price == 0
    then 0
    else sub32 b.best_ask_price b.best_bid_price
