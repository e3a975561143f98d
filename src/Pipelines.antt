-- ===== src/Pipelines.antt =====
-- include/pipeline.h and include/routed_pipeline.h: how orders find the thread that owns their
-- symbol.
pub mod Route
pub mod Broadcast
pub mod Latency
pub mod Sharded
pub mod Routed
use simd_nanoring.Common.{
  ℕ, zero, suc, ◌+◌, ◌%◌, List, [], ◌∷◌, ◌++◌, leb, ◌==◌, if◌then◌else◌, set,
}
use simd_nanoring.Common.Word.{mul64, xor_shift}
use simd_nanoring.Itch.{DecodedOrder}
use simd_nanoring.BookManager
use simd_nanoring.BookManager.{ShardedBookManager}

-- The lambda `get_shard` of both pipelines.
unfoldable pub get_shard : ℕ → ℕ → ℕ
get_shard num_book_threads ticker_key =
    xor_shift (mul64 ticker_key 0x9e37_79b9_7f4a_7c15) 33 % num_book_threads

abbrev pub batch_size : ℕ
batch_size = 64

-- `std::vector::size`
abbrev pub length : List DecodedOrder → ℕ
length [] = 0
length (o ∷ orders) = suc (length orders)

-- The producer of `RoutedPipeline::run`: the batches, and what it has pushed to each queue so far,
-- in order.
pub record Routes : Type 0 where
  pub batches : ℕ → List DecodedOrder
  pub queues : ℕ → List DecodedOrder

abbrev pub no_routes : Routes
no_routes = record { batches = λ s. []; queues = λ s. [] }

-- `for (auto& msg : batches[s]) queues[s]->push(msg);`
unfoldable pub push_batch : ℕ → Routes → Routes
push_batch s r = record r { queues = set r.queues s (r.queues s ++ r.batches s) }

-- One round of the producer's loop, on the shard of the order.
unfoldable pub route_to : ℕ → DecodedOrder → Routes → Routes
unfolding push_batch
route_to shard order r =
    let r' = record r { batches = set r.batches shard (r.batches shard ++ (order ∷ [])) } in
    if leb batch_size (length (r'.batches shard))
    then record (push_batch shard r') { batches = set r'.batches shard [] }
    else r'

unfoldable pub route_one : ℕ → DecodedOrder → Routes → Routes
unfolding get_shard route_to
route_one n order r = route_to (get_shard n order.ticker_key) order r

unfoldable pub route_all : ℕ → List DecodedOrder → Routes → Routes
unfolding route_one
route_all n [] r = r
route_all n (o ∷ orders) r = route_all n orders (route_one n o r)

-- The loop that flushes the batches that remain, from `s`, with `rounds` rounds left.
unfoldable pub flush_from : ℕ → ℕ → Routes → Routes
unfolding push_batch
flush_from zero s r = r
flush_from (suc rounds) s r = flush_from rounds (s + 1) (push_batch s r)

-- The producer of `RoutedPipeline::run`, from the first order to the last flush.
unfoldable pub route : ℕ → List DecodedOrder → Routes
unfolding route_all flush_from
route n orders = flush_from n 0 (route_all n orders no_routes)

-- The consumer of `RoutedPipeline::run`: it applies every order that it pops.
unfoldable pub consume_routed : List DecodedOrder → ShardedBookManager → ShardedBookManager
unfolding BookManager.apply
consume_routed [] m = m
consume_routed (o ∷ orders) m = consume_routed orders (BookManager.apply o m)

-- The consumer `t` of `Pipeline::run`: it reads every order of the journal, and applies those of its
-- shard.
unfoldable pub consume_broadcast :
    ℕ → ℕ → List DecodedOrder → ShardedBookManager → ShardedBookManager
unfolding get_shard BookManager.apply
consume_broadcast n t [] m = m
consume_broadcast n t (o ∷ orders) m =
    consume_broadcast n t orders
      (if get_shard n o.ticker_key == t then BookManager.apply o m else m)
