-- ===== src/Tests/Books.antt =====
-- Runs of include/order_book.h, `OrderBook` and `ShardedBookManager`.
use simd_nanoring.Common.{◌↔◌, none, ◌≡◌, ◌⊎◌, inl, some, arith, refl}
use simd_nanoring.Itch.{DecodedOrder, OrderType}
use simd_nanoring.Levels.View.{level_at-empty}
use simd_nanoring.OrderMap.{lookup, new_map, blank, home, hash}
use simd_nanoring.OrderMap.Laws.{lookup-new_map}
use simd_nanoring.OrderBook
use simd_nanoring.OrderBook.{
  OrderBook, new_book, live_order, no_levels, no_stats, handle_add, handle_execute, handle_delete,
}
use simd_nanoring.OrderBook.Valid.{IsValid, Accepts}
use simd_nanoring.OrderBook.Apply.{new_book-IsValid, apply-IsValid}
use simd_nanoring.OrderBook.Refines.{lookup-apply}
use simd_nanoring.BookManager
use simd_nanoring.BookManager.{
  ShardedBookManager, new_manager, full, max_symbols_per_shard, find_or_insert_symbol, get_book,
}
use simd_nanoring.BookManager.Valid.{new_manager-IsValid}
use simd_nanoring.BookManager.Refines.{Applied, apply_lem}
use simd_nanoring.BookManager.Room.{full_iff}

abbrev bid : DecodedOrder
bid = record {
  type = OrderType.add;
  order_ref = 7;
  ticker_key = 1;
  price = 100;
  shares = 50;
  side = b'B';
  new_order_ref = 0;
}

abbrev trade : DecodedOrder
trade = record bid { type = OrderType.execute; shares = 20 }

abbrev cancel : DecodedOrder
cancel = record bid { type = OrderType.delete; price = 0; shares = 0 }

bid-Accepts : Accepts new_book 7 b'B' 100 50
unfolding new_book new_map
bid-Accepts = record {
  side_is = inl refl;
  pos = omega arith;
  fresh = lookup-new_map 7;
  room = inl (omega arith);
  fits = rw (level_at-empty no_levels.cells 100) (omega arith);
  small = omega arith;
}

one_bid-IsValid : IsValid (OrderBook.apply bid new_book)
one_bid-IsValid = apply-IsValid bid new_book new_book-IsValid bid-Accepts

apply-IsValid_example : IsValid (OrderBook.apply bid new_book)
apply-IsValid_example = apply-IsValid bid new_book new_book-IsValid bid-Accepts

lookup-apply_example :
    lookup (OrderBook.apply bid new_book).live_orders 7 ≡ some (live_order 7 100 50 b'B')
lookup-apply_example = lookup-apply bid new_book new_book-IsValid bid-Accepts 7

apply_lem_example :
    ((find_or_insert_symbol 1 new_manager ≡ (full, new_manager))
      × (BookManager.apply bid new_manager ≡ new_manager))
    ⊎ Applied new_manager bid (BookManager.apply bid new_manager)
apply_lem_example = apply_lem new_manager bid new_manager-IsValid

-- A book whose table of orders has four slots.
abbrev small_book : OrderBook
small_book = record {
  bid_levels = no_levels;
  ask_levels = no_levels;
  best_bid_price = 0;
  best_ask_price = 0;
  live_orders = record { slots = λ i. blank; capacity = 4; mask = 3; size = 0 };
  stats = no_stats;
}

-- A bid of 50 makes the best bid, a trade of 20 leaves it, the cancel takes it away.
best_after_add : (OrderBook.apply bid small_book).best_bid_price ≡ 100
unfolding OrderBook.apply
best_after_add = refl

best_after_trade : (OrderBook.apply trade (OrderBook.apply bid small_book)).best_bid_price ≡ 100
unfolding OrderBook.apply home hash
best_after_trade = refl

best_after_cancel :
    (OrderBook.apply cancel (OrderBook.apply trade (OrderBook.apply bid small_book))).best_bid_price
    ≡ 0
unfolding OrderBook.apply home hash
best_after_cancel = refl

full_iff_example :
    ((find_or_insert_symbol 1 new_manager).0 ≡ full)
    ↔ ((get_book new_manager 1 ≡ none) × (new_manager.book_count ≡ max_symbols_per_shard))
full_iff_example = full_iff new_manager new_manager-IsValid bid
