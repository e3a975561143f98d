-- ===== src/Pipelines/Sharded.antt =====
-- The books that the threads of include/pipeline.h and include/routed_pipeline.h end with are those
-- of one `ShardedBookManager` that is given every order.
use native.Mathlib.Nat.{mod-lt}
use simd_nanoring.Common.{
  ℕ, ◌≤◌, ◌<◌, ◌≡◌, ◌∙◌, inl, inr, Option, some, List, [], ◌∷◌, ◌==◌, if◌then◌else◌, Bool-cases,
  ==_iff, arith, ap, sym, refl, subst,
}
use simd_nanoring.Itch.{DecodedOrder}
use simd_nanoring.OrderBook
use simd_nanoring.OrderBook.{OrderBook}
use simd_nanoring.BookManager
use simd_nanoring.BookManager.{ShardedBookManager, new_manager, get_book, max_symbols_per_shard}
use simd_nanoring.BookManager.Valid.{IsValid, or_new, new_manager-IsValid}
use simd_nanoring.BookManager.Refines.{apply_lem}
use simd_nanoring.BookManager.Room.{apply-Applied, book_count-apply}
use simd_nanoring.Pipelines.{get_shard, route, consume_routed}
use simd_nanoring.Pipelines.Route.{of_shard, queues-route}

-- The book of a symbol after some orders, each of which goes to the book of its own.
abbrev pub book_after : ℕ → List DecodedOrder → Option OrderBook → Option OrderBook
book_after q [] b = b
book_after q (o ∷ orders) b =
    book_after q orders (if q == o.ticker_key then some (OrderBook.apply o (or_new b)) else b)

apply_one-IsValid :
    (o : DecodedOrder) (m : ShardedBookManager) → IsValid m → IsValid (BookManager.apply o m)
apply_one-IsValid o m valid = elim (apply_lem m o valid) [
  | inl (_, same) ↦ subst IsValid (sym same) valid
  | inr (valid', _) ↦ valid'
]

book_count-consume_routed :
    (orders : List DecodedOrder) (m : ShardedBookManager)
    → IsValid m
    → m.book_count ≤ (consume_routed orders m).book_count
unfolding consume_routed
book_count-consume_routed [] m valid = omega arith
book_count-consume_routed (o ∷ orders) m valid = omega (
  arith,
  book_count-apply m valid o,
  book_count-consume_routed orders (BookManager.apply o m) (apply_one-IsValid o m valid),
)

get_book-consume_routed :
    (q : ℕ) (orders : List DecodedOrder) (m : ShardedBookManager)
    → IsValid m
    → (consume_routed orders m).book_count < max_symbols_per_shard
    → get_book (consume_routed orders m) q ≡ book_after q orders (get_book m q)
unfolding consume_routed
get_book-consume_routed q [] m valid room = refl
get_book-consume_routed q (o ∷ orders) m valid room =
    let before = book_count-apply m valid o in
    let after =
      book_count-consume_routed orders (BookManager.apply o m) (apply_one-IsValid o m valid) in
    let applied = apply-Applied m valid o (omega arith) in
    get_book-consume_routed q orders (BookManager.apply o m) applied.0 room
    ∙ ap (book_after q orders) (
        applied.1 q ∙ elim (Bool-cases (q == o.ticker_key)) [
          | inl own ↦ rw own (
              ap (λ k. some (OrderBook.apply o (or_new (get_book m k))))
                (sym ((==_iff q o.ticker_key).0 own)))
          | inr other ↦ rw other refl
        ])

book_after-of_shard :
    (n t q : ℕ) (orders : List DecodedOrder) (b : Option OrderBook)
    → get_shard n q ≡ t
    → book_after q (of_shard n t orders) b ≡ book_after q orders b
book_after-of_shard n t q [] b own = refl
book_after-of_shard n t q (o ∷ orders) b own = elim (Bool-cases (get_shard n o.ticker_key == t)) [
  | inl mine ↦ rw mine (book_after-of_shard n t q orders _ own)
  | inr foreign ↦ elim (Bool-cases (q == o.ticker_key)) [
    | inl same ↦
        cc (foreign, (==_iff _ _).1 (ap (get_shard n) (sym ((==_iff q o.ticker_key).0 same)) ∙ own))
    | inr apart ↦ rw (foreign, apart) (book_after-of_shard n t q orders b own)
  ]
]

get_shard-lt : (n q : ℕ) → 0 < n → get_shard n q < n
unfolding get_shard
get_shard-lt n q pos = mod-lt _ pos

-- The book of a symbol in the manager of its shard's thread, after every order has been routed and
-- applied there, is the book that one manager that is given all the orders has for it: sharding
-- changes no book. Both managers have a free book at the end.
pub sharded-sequential :
    (n q : ℕ) (orders : List DecodedOrder)
    → 0 < n
    → (consume_routed ((route n orders).queues (get_shard n q)) new_manager).book_count
      < max_symbols_per_shard
    → (consume_routed orders new_manager).book_count < max_symbols_per_shard
    → get_book (consume_routed ((route n orders).queues (get_shard n q)) new_manager) q
      ≡ get_book (consume_routed orders new_manager) q
sharded-sequential n q orders pos room_shard room_all =
    let t = get_shard n q in
    get_book-consume_routed q ((route n orders).queues t) new_manager new_manager-IsValid room_shard
    ∙ ap (λ xs. book_after q xs (get_book new_manager q))
        (queues-route n t orders (get_shard-lt n q pos))
    ∙ book_after-of_shard n t q orders (get_book new_manager q) refl
    ∙ sym (get_book-consume_routed q orders new_manager new_manager-IsValid room_all)
