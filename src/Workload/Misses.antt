-- ===== src/Workload/Misses.antt =====
-- The orders of src/experiments.cpp and src/main.cpp in the books of include/order_book.h: none of them
-- names a live order.
use simd_nanoring.Common.{
  ℕ, zero, suc, ◌+◌, ◌*◌, ◌≤◌, ◌<◌, ◌≡◌, ◌∙◌, ◌==◌, inl, inr, none, some, List, [], ◌∷◌, Bool-cases,
  Option-cases, arith, sym, subst, refl,
}
use simd_nanoring.Common.Word.{u64, add64}
use simd_nanoring.Itch.{DecodedOrder, OrderType}
use simd_nanoring.OrderMap.{FlatOrderMap, lookup, find, found, insert}
use simd_nanoring.OrderBook
use simd_nanoring.OrderBook.{
  OrderBook, new_book, live_order, add_side, handle_add, handle_execute, handle_delete,
  handle_replace, apply_type,
}
use simd_nanoring.OrderBook.Valid.{live_orders-improve_bbo, live_orders-add_side}
use simd_nanoring.BookManager
use simd_nanoring.BookManager.{ShardedBookManager, new_manager, get_book}
use simd_nanoring.BookManager.Valid.{IsValid, or_new, new_manager-IsValid}
use simd_nanoring.BookManager.Refines.{apply_lem}
use simd_nanoring.Pipelines.{get_shard}
use simd_nanoring.Pipelines.Route.{of_shard}
use simd_nanoring.Workload.{
  Draw, make_order, generate_from, generate_test_data, make_orders, next_after, length,
  type_of_roll,
}
use simd_nanoring.Workload.Fresh.{Fresh, Fresh-weaken, max_ref, new_map-Fresh, insert-Fresh}
use simd_nanoring.Workload.Refs.{next_after-le, order_refs, consecutive, order_refs-make_orders}

-- Each order names a reference that is not live when it is applied.
abbrev pub Misses : List DecodedOrder → OrderBook → Type 0
Misses [] b = Unit
Misses (o ∷ orders) b =
    (lookup b.live_orders o.order_ref ≡ none) × Misses orders (OrderBook.apply o b)

-- The same of a manager: the reference is not live in the book of the order's symbol.
abbrev pub AllMiss : List DecodedOrder → ShardedBookManager → Type 0
AllMiss [] m = Unit
AllMiss (o ∷ orders) m =
    (lookup (or_new (get_book m o.ticker_key)).live_orders o.order_ref ≡ none)
    × AllMiss orders (BookManager.apply o m)

-- The references of the orders ascend, from `r` on.
abbrev Ascends : ℕ → List DecodedOrder → Type 0
Ascends r [] = Unit
Ascends r (o ∷ orders) =
    (r ≤ o.order_ref) × (o.order_ref < max_ref) × Ascends (o.order_ref + 1) orders

Ascends-weaken :
    (r r' : ℕ) (orders : List DecodedOrder) → r ≤ r' → Ascends r' orders → Ascends r orders
Ascends-weaken r r' [] le ascends = tt
Ascends-weaken r r' (o ∷ orders) le (from, low, ascends) = (omega arith, low, ascends)

Ascends-of_shard :
    (n t : ℕ) (orders : List DecodedOrder) (r : ℕ)
    → Ascends r orders
    → Ascends r (of_shard n t orders)
Ascends-of_shard n t [] r ascends = tt
Ascends-of_shard n t (o ∷ orders) r (from, low, ascends) =
    let rest = Ascends-of_shard n t orders (o.order_ref + 1) ascends in
    elim (Bool-cases (get_shard n o.ticker_key == t)) [
      | inl mine ↦ rw mine (from, low, rest)
      | inr other ↦
          rw other (Ascends-weaken r (o.order_ref + 1) (of_shard n t orders) (omega arith) rest)
    ]

lookup_hit : (m : FlatOrderMap) (r idx : ℕ) → find m r ≡ some idx → lookup m r ≡ some (m.slots idx)
unfolding lookup find found
lookup_hit m r idx hit = rw (hit, found) refl

find_missing : (m : FlatOrderMap) (r : ℕ) → lookup m r ≡ none → find m r ≡ none
find_missing m r miss = elim (Option-cases (find m r)) [
  | inl none_found ↦ none_found
  | inr (idx, hit) ↦ cc (miss, lookup_hit m r idx hit)
]

live_orders-handle_add :
    (o : DecodedOrder) (b : OrderBook)
    → (handle_add o b).live_orders
      ≡ insert b.live_orders o.order_ref (live_order o.order_ref o.price o.shares o.side)
unfolding handle_add
live_orders-handle_add o b =
    let recorded : OrderBook = record b {
      stats = record b.stats { adds = add64 b.stats.adds 1 };
      live_orders =
          insert b.live_orders o.order_ref (live_order o.order_ref o.price o.shares o.side);
    } in
    live_orders-improve_bbo o.side o.price (add_side o.side o.price o.shares recorded)
    ∙ live_orders-add_side o.side o.price o.shares recorded

-- An order whose reference is not live leaves no reference above its own live, whatever its type, and
-- whether or not the book has a level left for it.
apply_type-Fresh :
    (t : OrderType) (o : DecodedOrder) (b : OrderBook) (r : ℕ)
    → r ≤ o.order_ref
    → o.order_ref < max_ref
    → Fresh r b.live_orders
    → Fresh (o.order_ref + 1) (apply_type t o b).live_orders
unfolding apply_type handle_execute handle_delete handle_replace
apply_type-Fresh OrderType.add o b r le low fresh = rw (live_orders-handle_add o b) (
    insert-Fresh r o.order_ref (live_order o.order_ref o.price o.shares o.side) b.live_orders le low
      fresh)
apply_type-Fresh OrderType.execute o b r le low fresh =
    rw (find_missing b.live_orders o.order_ref (fresh.missing o.order_ref le), handle_execute)
      (Fresh-weaken r (o.order_ref + 1) b.live_orders (omega arith) fresh)
apply_type-Fresh OrderType.delete o b r le low fresh =
    rw (find_missing b.live_orders o.order_ref (fresh.missing o.order_ref le), handle_delete)
      (Fresh-weaken r (o.order_ref + 1) b.live_orders (omega arith) fresh)
apply_type-Fresh OrderType.replace o b r le low fresh =
    rw (find_missing b.live_orders o.order_ref (fresh.missing o.order_ref le), handle_replace)
      (Fresh-weaken r (o.order_ref + 1) b.live_orders (omega arith) fresh)

apply-Fresh :
    (o : DecodedOrder) (b : OrderBook) (r : ℕ)
    → r ≤ o.order_ref
    → o.order_ref < max_ref
    → Fresh r b.live_orders
    → Fresh (o.order_ref + 1) (OrderBook.apply o b).live_orders
unfolding OrderBook.apply
apply-Fresh o b r le low fresh = apply_type-Fresh o.type o b r le low fresh

Ascends-Misses :
    (orders : List DecodedOrder) (r : ℕ) (b : OrderBook)
    → Fresh r b.live_orders
    → Ascends r orders
    → Misses orders b
Ascends-Misses [] r b fresh ascends = tt
Ascends-Misses (o ∷ orders) r b fresh (le, low, ascends) = (
  fresh.missing o.order_ref le,
  Ascends-Misses orders (o.order_ref + 1) (OrderBook.apply o b) (apply-Fresh o b r le low fresh)
      ascends,
)

-- The books of a manager.
abbrev AllFresh : ℕ → ShardedBookManager → Type 0
AllFresh r m = (q : ℕ) → Fresh r (or_new (get_book m q)).live_orders

apply-AllFresh :
    (o : DecodedOrder) (m : ShardedBookManager) (r : ℕ)
    → IsValid m
    → r ≤ o.order_ref
    → o.order_ref < max_ref
    → AllFresh r m
    → IsValid (BookManager.apply o m) × AllFresh (o.order_ref + 1) (BookManager.apply o m)
apply-AllFresh o m r valid le low fresh =
    let old : AllFresh (o.order_ref + 1) m =
      λ q. Fresh-weaken r (o.order_ref + 1) _ (omega arith) (fresh q) in
    elim (apply_lem m o valid) [
      | inl (_, same) ↦
          subst (λ m'. IsValid m' × AllFresh (o.order_ref + 1) m') (sym same) (valid, old)
      | inr (valid', law) ↦ (
        valid',
        λ q.
            subst (λ b. Fresh (o.order_ref + 1) (or_new b).live_orders) (sym (law q))
              (elim (Bool-cases (q == o.ticker_key)) [
                | inl own ↦
                    rw own (
                      apply-Fresh o (or_new (get_book m o.ticker_key)) r le low
                        (fresh o.ticker_key))
                | inr other ↦ rw other (old q)
              ]),
      )
    ]

Ascends-AllMiss :
    (orders : List DecodedOrder) (r : ℕ) (m : ShardedBookManager)
    → IsValid m
    → AllFresh r m
    → Ascends r orders
    → AllMiss orders m
Ascends-AllMiss [] r m valid fresh ascends = tt
Ascends-AllMiss (o ∷ orders) r m valid fresh (le, low, ascends) =
    let (valid', fresh') = apply-AllFresh o m r valid le low fresh in
    (
      (fresh o.ticker_key).missing o.order_ref le,
      Ascends-AllMiss orders (o.order_ref + 1) (BookManager.apply o m) valid' fresh' ascends,
    )

new_book-Fresh : Fresh 1 new_book.live_orders
unfolding new_book
new_book-Fresh = new_map-Fresh

new_manager-AllFresh : AllFresh 1 new_manager
unfolding new_manager get_book
new_manager-AllFresh q = new_book-Fresh

next_after-gt : (t : OrderType) (r : ℕ) → r + 2 < u64 → r + 1 ≤ next_after t r
next_after-gt OrderType.add r low = omega arith
next_after-gt OrderType.execute r low = omega arith
next_after-gt OrderType.delete r low = omega arith
next_after-gt OrderType.replace r low = omega arith

generate_from-Ascends :
    (draws : List Draw) (r : ℕ)
    → r + 2 * length draws ≤ max_ref
    → Ascends r (generate_from draws r).orders
unfolding generate_from make_order
generate_from-Ascends [] r low = tt
generate_from-Ascends (d ∷ draws) r low =
    let t = type_of_roll d.type_roll in
    (
      omega arith,
      omega arith,
      Ascends-weaken (r + 1) (next_after t r) (generate_from draws (next_after t r)).orders
          (next_after-gt t r (omega arith))
          (generate_from-Ascends draws (next_after t r) (omega (arith, next_after-le t r))),
    )

order_refs-Ascends :
    (orders : List DecodedOrder) (r n : ℕ)
    → r + n ≤ max_ref
    → order_refs orders ≡ consecutive r n
    → Ascends r orders
order_refs-Ascends [] r n low e = tt
order_refs-Ascends (o ∷ orders) r zero low e = cc (e)
order_refs-Ascends (o ∷ orders) r (suc n) low e =
    let here : o.order_ref ≡ r = cc (e) in
    let rest : order_refs orders ≡ consecutive (r + 1) n = cc (e) in
    (
      omega (arith, here),
      omega (arith, here),
      Ascends-weaken (o.order_ref + 1) (r + 1) orders (omega (arith, here))
          (order_refs-Ascends orders (r + 1) n (omega arith) rest),
    )

-- No order that `generate_test_data` makes, an execute, a delete or a replace neither, names a live
-- order when the orders are applied to one new book in turn, as the first loop of
-- `experiment_book_throughput` does, whatever was drawn, and whether or not the sides of the book
-- overflow. The number of messages is below 2 ^ 55.
pub generate-Misses :
    (draws : List Draw)
    → length draws < 0x80_0000_0000_0000
    → Misses (generate_test_data draws).orders new_book
unfolding generate_test_data
generate-Misses draws low =
    Ascends-Misses (generate_from draws 1).orders 1 new_book new_book-Fresh
      (generate_from-Ascends draws 1 (omega arith))

-- No order that `main` decodes and types, whatever was drawn, names a live order of its symbol's book
-- when the orders of one shard, of any number of shards, are applied in turn to a new manager, as a
-- book thread does, and also when the manager has no book left for a symbol. The number of messages
-- is below 2 ^ 55.
pub make_orders-AllMiss :
    (draws : List Draw) (rolls : ℕ → ℕ) (n t : ℕ)
    → length draws < 0x80_0000_0000_0000
    → AllMiss (of_shard n t (make_orders draws rolls)) new_manager
make_orders-AllMiss draws rolls n t low =
    Ascends-AllMiss (of_shard n t (make_orders draws rolls)) 1 new_manager new_manager-IsValid
      new_manager-AllFresh
      (Ascends-of_shard n t (make_orders draws rolls) 1 (
        order_refs-Ascends (make_orders draws rolls) 1 (length draws) (omega arith)
          (order_refs-make_orders draws rolls (omega arith)).0))
