-- ===== src/Tests/Maps.antt =====
-- Runs of include/order_book.h, `FlatOrderMap`.
use simd_nanoring.Common.{◌*◌, ◌≤◌, ◌^◌, ◌≡◌, true, none, arith, refl}
use simd_nanoring.OrderMap.{FlatOrderMap, LiveOrder, new_map, insert, erase, rehash, lookup}
use simd_nanoring.OrderMap.Valid.{IsValid}
use simd_nanoring.OrderMap.Laws.{Inserted, new_map-IsValid, lookup-new_map, insert-Inserted}
use simd_nanoring.OrderMap.Erase.{erase-IsValid, lookup-erase}
use simd_nanoring.OrderMap.Rehash.{rehash-IsValid, lookup-rehash}

abbrev bid : LiveOrder
bid = record { order_ref = 7; price = 100; remaining_shares = 50; side = b'B'; occupied = true }

new_map-capacity : new_map.capacity ≡ 1_048_576
unfolding new_map
new_map-capacity = refl

insert-Inserted_example : Inserted new_map 7 bid (insert new_map 7 bid)
insert-Inserted_example =
    insert-Inserted new_map 7 bid new_map-IsValid (omega (arith, new_map-capacity))
      (lookup-new_map 7)

abbrev one_order : FlatOrderMap
one_order = insert new_map 7 bid

one_order-IsValid : IsValid one_order
one_order-IsValid =
    (insert-Inserted new_map 7 bid new_map-IsValid (omega (arith, new_map-capacity))
      (lookup-new_map 7)).valid

one_order-small : one_order.capacity ≤ 2 ^ 60
one_order-small = omega (
  arith,
  (insert-Inserted new_map 7 bid new_map-IsValid (omega (arith, new_map-capacity))
      (lookup-new_map 7)).grows,
  new_map-capacity,
)

erase-IsValid_example : IsValid (erase one_order 7)
erase-IsValid_example = erase-IsValid one_order 7 one_order-IsValid

lookup-erase_example : lookup (erase one_order 7) 7 ≡ none
lookup-erase_example = lookup-erase one_order 7 one_order-IsValid 7

rehash-IsValid_example :
    IsValid (rehash new_map)
    × ((rehash new_map).capacity ≡ new_map.capacity * 2)
    × ((rehash new_map).size ≡ new_map.size)
rehash-IsValid_example = rehash-IsValid new_map new_map-IsValid (omega (arith, new_map-capacity))

lookup-rehash_example : lookup (rehash one_order) 7 ≡ lookup one_order 7
lookup-rehash_example = lookup-rehash one_order one_order-IsValid one_order-small 7
