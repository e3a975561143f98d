-- ===== src/Tests/Routing.antt =====
-- Runs of the routing of include/routed_pipeline.h.
use simd_nanoring.Common.{ℕ, ◌≡◌, List, [], ◌∷◌, arith, refl}
use simd_nanoring.Itch.{DecodedOrder, OrderType}
use simd_nanoring.BookManager.{new_manager}
use simd_nanoring.Pipelines.{route, consume_routed, consume_broadcast}
use simd_nanoring.Pipelines.Route.{routed-broadcast}

abbrev bid : ℕ → DecodedOrder
bid key = record {
  type = OrderType.add;
  order_ref = key;
  ticker_key = key;
  price = 100;
  shares = 50;
  side = b'B';
  new_order_ref = 0;
}

abbrev orders : List DecodedOrder
orders = bid 1 ∷ bid 2 ∷ bid 1 ∷ []

routed-broadcast_example :
    consume_routed ((route 2 orders).queues 1) new_manager
    ≡ consume_broadcast 2 1 orders new_manager
routed-broadcast_example = routed-broadcast 2 1 orders new_manager (omega arith)

second_shard : (route 2 orders).queues 1 ≡ orders
unfolding route
second_shard = refl
