-- ===== src/OrderBook/Refines.antt =====
-- The handlers of the book do to the live orders what the specification says.
use simd_nanoring.Common.{
  ℕ, ◌-◌, ◌≡◌, ◌∙◌, inl, inr, true, false, Option, none, some, arith, ap, sym, ltb, leb, ◌==◌,
  if◌then◌else◌, Bool-cases, Option-cases, ==_iff, refl,
}
use simd_nanoring.Common.Word.{add64, sub32}
use simd_nanoring.Itch.{DecodedOrder, OrderType}
use simd_nanoring.OrderMap.{FlatOrderMap, LiveOrder, find, lookup, insert}
use simd_nanoring.OrderMap.Erase.{lookup-erase}
use simd_nanoring.OrderMap.Write.{write, write-IsValid, lookup-write}
use simd_nanoring.OrderMap.Valid.{lookup_missing}
use simd_nanoring.OrderMap.Laws.{insert-Inserted}
use simd_nanoring.OrderBook.{
  OrderBook, add_side, live_order, handle_add, execute_found, handle_execute, delete_found,
  handle_delete, replace_found, handle_replace, apply_type, apply,
}
use simd_nanoring.OrderBook.Sides.{sides}
use simd_nanoring.OrderBook.Valid.{
  IsValid, Accepts, live_orders-improve_bbo, live_orders-recalculate_bbo, live_orders-add_side,
}
use simd_nanoring.OrderBook.Found.{held, looks, remaining-lt}
use simd_nanoring.OrderBook.Delete.{counted-IsValid, less, less-Core, less-live_orders}
use simd_nanoring.OrderBook.Replace.{Replaceable, counted-Accepts, live_orders-recalculate_bbo_full}
use simd_nanoring.OrderBook.Apply.{AcceptableType, Acceptable}
use simd_nanoring.OrderBook.Spec.{Orders, put, executed, replaced, step_type, step}

lookup-handle_add :
    (order : DecodedOrder) (b : OrderBook) (valid : IsValid b)
    → Accepts b order.order_ref order.side order.price order.shares
    → (q : ℕ)
    → lookup (handle_add order b).live_orders q
      ≡ step_type OrderType.add order (lookup b.live_orders) q
unfolding handle_add
lookup-handle_add order b valid ok q =
    let lo = live_order order.order_ref order.price order.shares order.side in
    let recorded : OrderBook = record b {
      stats = record b.stats { adds = add64 b.stats.adds 1 };
      live_orders = insert b.live_orders order.order_ref lo;
    } in
    ap (λ m. lookup m q)
      (live_orders-improve_bbo order.side order.price
          (add_side order.side order.price order.shares recorded)
        ∙ live_orders-add_side order.side order.price order.shares recorded)
    ∙ (insert-Inserted b.live_orders order.order_ref lo valid.core.orders ok.small ok.fresh).looks q

put_same : (r : ℕ) (orders : Orders) (q : ℕ) → orders q ≡ put r (orders r) orders q
put_same r orders q = elim (Bool-cases (q == r)) [
  | inl same ↦ rw same (ap orders ((==_iff q r).0 same))
  | inr other ↦ rw other refl
]

module _ (order : DecodedOrder) (idx : ℕ) (b : OrderBook) (valid : IsValid b)
    (hit : find b.live_orders order.order_ref ≡ some idx) where
  abbrev lo : LiveOrder
  lo = b.live_orders.slots idx

  lookup-delete_found :
      (q : ℕ)
      → lookup (delete_found order idx b).live_orders q
        ≡ put order.order_ref none (lookup b.live_orders) q
  unfolding delete_found
  lookup-delete_found q =
      ap (λ m. lookup m q)
        (live_orders-recalculate_bbo lo.side lo.price (less order idx b valid hit)
          ∙ less-live_orders order idx b valid hit)
      ∙ lookup-erase b.live_orders order.order_ref valid.core.orders q

  abbrev exec_shares : ℕ
  exec_shares = if ltb lo.remaining_shares order.shares then lo.remaining_shares else order.shares

  abbrev left : ℕ
  left = sub32 lo.remaining_shares exec_shares

  abbrev m1 : FlatOrderMap
  m1 = write b.live_orders idx (record lo { remaining_shares = left })

  lookup-execute_found :
      (q : ℕ)
      → lookup (execute_found order idx b).live_orders q
        ≡ put order.order_ref (executed order.shares (some lo)) (lookup b.live_orders) q
  unfolding execute_found
  lookup-execute_found q =
      let in_slot = held (sides b) b.live_orders valid.core order.order_ref idx hit in
      let word = remaining-lt (sides b) b.live_orders valid.core order.order_ref idx hit in
      let lo' : LiveOrder = record lo { remaining_shares = left } in
      let m1-IsValid =
        write-IsValid b.live_orders order.order_ref idx lo' valid.core.orders in_slot in_slot.1
          in_slot.2 in
      let looks1 =
        lookup-write b.live_orders order.order_ref idx lo' valid.core.orders in_slot in_slot.1
          in_slot.2 in
      elim (Bool-cases (left == 0)) [
        | inl none_left ↦
            let gone : leb lo.remaining_shares order.shares ≡ true = ground arith in
            rw (none_left, gone)
              (ap (λ m. lookup m q) (live_orders-recalculate_bbo lo.side lo.price _)
                ∙ lookup-erase m1 order.order_ref m1-IsValid q
                ∙ rest q looks1)
        | inr some_left ↦
            let stays : leb lo.remaining_shares order.shares ≡ false = ground arith in
            let same_left : left ≡ lo.remaining_shares - order.shares = ground arith in
            rw (some_left, stays)
              (looks1 q
                ∙ ap
                    (λ n.
                      put order.order_ref (some (record lo { remaining_shares = n }))
                        (lookup b.live_orders) q)
                    same_left)
      ]
    where
      rest :
          (q : ℕ)
          → ((q : ℕ)
              → lookup m1 q
                ≡ put order.order_ref
                    (some (record lo { remaining_shares = left }))
                    (lookup b.live_orders)
                    q)
          → put order.order_ref none (lookup m1) q
            ≡ put order.order_ref none (lookup b.live_orders) q
      rest q looks1 = elim (Bool-cases (q == order.order_ref)) [
        | inl same ↦ rw same refl
        | inr other ↦ rw other (looks1 q ∙ rw other refl)
      ]

  lookup-replace_found :
      Accepts (less order idx b valid hit) order.new_order_ref lo.side order.price order.shares
      → (q : ℕ)
      → lookup (replace_found order idx b).live_orders q
        ≡ replaced order (some lo) (lookup b.live_orders) q
  unfolding replace_found
  lookup-replace_found ok q =
      let gone = less order idx b valid hit in
      let new_lo = live_order order.new_order_ref order.price order.shares lo.side in
      let recorded : OrderBook = record gone {
        live_orders = insert gone.live_orders order.new_order_ref new_lo;
      } in
      let gone_orders = less-live_orders order idx b valid hit in
      ap (λ m. lookup m q)
        (live_orders-recalculate_bbo_full (add_side lo.side order.price order.shares recorded)
          ∙ live_orders-add_side lo.side order.price order.shares recorded)
      ∙ (insert-Inserted gone.live_orders order.new_order_ref new_lo
            (less-Core order idx b valid hit).orders ok.small ok.fresh).looks
          q
      ∙ ap (λ (o : Option LiveOrder). if q == order.new_order_ref then some new_lo else o)
          (ap (λ m. lookup m q) gone_orders
            ∙ lookup-erase b.live_orders order.order_ref valid.core.orders q)

lookup-handle_execute :
    (order : DecodedOrder) (b : OrderBook)
    → IsValid b
    → (q : ℕ)
    → lookup (handle_execute order b).live_orders q
      ≡ step_type OrderType.execute order (lookup b.live_orders) q
unfolding handle_execute
lookup-handle_execute order b valid q = elim (Option-cases (find b.live_orders order.order_ref)) [
  | inl miss ↦
      rw (miss, handle_execute)
        (put_same order.order_ref (lookup b.live_orders) q
          ∙ ap (λ o. put order.order_ref o (lookup b.live_orders) q)
              (lookup_missing b.live_orders order.order_ref miss
                ∙ ap (executed order.shares)
                    (sym (lookup_missing b.live_orders order.order_ref miss))))
  | inr (idx, hit) ↦
      rw (hit, handle_execute)
        (lookup-execute_found order idx _ (counted-IsValid b _ valid) hit q
          ∙ ap (λ o. put order.order_ref (executed order.shares o) (lookup b.live_orders) q)
              (sym (looks (sides b) b.live_orders valid.core order.order_ref idx hit)))
]

lookup-handle_delete :
    (order : DecodedOrder) (b : OrderBook)
    → IsValid b
    → (q : ℕ)
    → lookup (handle_delete order b).live_orders q
      ≡ step_type OrderType.delete order (lookup b.live_orders) q
unfolding handle_delete
lookup-handle_delete order b valid q = elim (Option-cases (find b.live_orders order.order_ref)) [
  | inl miss ↦
      rw (miss, handle_delete)
        (put_same order.order_ref (lookup b.live_orders) q
          ∙ ap (λ o. put order.order_ref o (lookup b.live_orders) q)
              (lookup_missing b.live_orders order.order_ref miss))
  | inr (idx, hit) ↦
      rw (hit, handle_delete) (lookup-delete_found order idx _ (counted-IsValid b _ valid) hit q)
]

lookup-handle_replace :
    (order : DecodedOrder) (b : OrderBook) (valid : IsValid b)
    → Replaceable order b valid
    → (q : ℕ)
    → lookup (handle_replace order b).live_orders q
      ≡ step_type OrderType.replace order (lookup b.live_orders) q
unfolding handle_replace
lookup-handle_replace order b valid ok q =
    elim (Option-cases (find b.live_orders order.order_ref)) [
      | inl miss ↦
          rw (miss, handle_replace)
            (ap (λ o. replaced order o (lookup b.live_orders) q)
              (sym (lookup_missing b.live_orders order.order_ref miss)))
      | inr (idx, hit) ↦
          rw (hit, handle_replace)
            (lookup-replace_found order idx _ (counted-IsValid b _ valid) hit
                (counted-Accepts order idx b valid hit _ (ok idx hit)) q
              ∙ ap (λ o. replaced order o (lookup b.live_orders) q)
                  (sym (looks (sides b) b.live_orders valid.core order.order_ref idx hit)))
    ]

lookup-apply_type :
    (t : OrderType) (order : DecodedOrder) (b : OrderBook) (valid : IsValid b)
    → AcceptableType t order b valid
    → (q : ℕ)
    → lookup (apply_type t order b).live_orders q ≡ step_type t order (lookup b.live_orders) q
unfolding apply_type
lookup-apply_type OrderType.add order b valid ok = lookup-handle_add order b valid ok
lookup-apply_type OrderType.execute order b valid ok = lookup-handle_execute order b valid
lookup-apply_type OrderType.delete order b valid ok = lookup-handle_delete order b valid
lookup-apply_type OrderType.replace order b valid ok = lookup-handle_replace order b valid ok

-- `apply` does to the live orders of a valid book what the specification `step` does: an add puts
-- the order, an execute takes shares and drops the order when none are left, a delete drops it, a
-- replace puts the new order on the side of the old one; an unknown reference changes nothing. An
-- add and the replace of a live order are those that the book accepts.
pub lookup-apply :
    (order : DecodedOrder) (b : OrderBook) (valid : IsValid b)
    → Acceptable order b valid
    → (q : ℕ) → lookup (apply order b).live_orders q ≡ step order (lookup b.live_orders) q
unfolding apply
lookup-apply order b valid ok q = lookup-apply_type order.type order b valid ok q
