-- ===== src/OrderBook/Spec.antt =====
-- What the handlers of the book mean for its live orders: a map from references to orders.
use simd_nanoring.Common.{ℕ, ◌-◌, Option, none, some, leb, ◌==◌, if◌then◌else◌}
use simd_nanoring.Itch.{DecodedOrder, OrderType}
use simd_nanoring.OrderMap.{LiveOrder}
use simd_nanoring.OrderBook.{live_order}

abbrev pub Orders : Type 0
Orders = ℕ → Option LiveOrder

abbrev pub put : ℕ → Option LiveOrder → Orders → Orders
put r o orders q = if q == r then o else orders q

-- What is left of an order when `shares` of it are executed.
abbrev pub executed : ℕ → Option LiveOrder → Option LiveOrder
executed shares none = none
executed shares (some l) =
    if leb l.remaining_shares shares
    then none
    else some (record l { remaining_shares = l.remaining_shares - shares })

-- The replacement of a live order: the new reference on the old side.
abbrev pub replaced : DecodedOrder → Option LiveOrder → Orders → Orders
replaced order none orders = orders
replaced order (some l) orders =
    put order.new_order_ref (some (live_order order.new_order_ref order.price order.shares l.side))
      (put order.order_ref none orders)

abbrev pub step_type : OrderType → DecodedOrder → Orders → Orders
step_type OrderType.add order orders =
    put order.order_ref (some (live_order order.order_ref order.price order.shares order.side))
      orders
step_type OrderType.execute order orders =
    put order.order_ref (executed order.shares (orders order.order_ref)) orders
step_type OrderType.delete order orders = put order.order_ref none orders
step_type OrderType.replace order orders = replaced order (orders order.order_ref) orders

abbrev pub step : DecodedOrder → Orders → Orders
step order = step_type order.type order
