-- ===== src/Tests/Threads.antt =====
-- Runs of the producer and a consumer of include/pipeline.h, and of the consumer of
-- src/experiments.cpp that does not load the index again.
use simd_nanoring.Common.{
  zero, suc, ℕ, ◌+◌, ◌≡◌, true, false, Bool, List, [], ◌∷◌, ◌++◌, arith, refl,
}
use simd_nanoring.Itch.{DecodedOrder, OrderType}
use simd_nanoring.BookManager.{new_manager, get_book}
use simd_nanoring.Pipelines.{get_shard, length, route, consume_routed, consume_broadcast}
use simd_nanoring.Pipelines.Route.{of_shard}
use simd_nanoring.Pipelines.Sharded.{sharded-sequential}
use simd_nanoring.Pipelines.Latency.{new_tracker, record_all}
use simd_nanoring.Pipelines.Broadcast.{Publisher, Setup, Turn, Reader, Program, run, launch}
use simd_nanoring.Pipelines.Broadcast.Safety.{few-IsPaced}
use simd_nanoring.Pipelines.Broadcast.Live.{consumes, drains}
use simd_nanoring.Pipelines.Broadcast.Books.{
  Worker, BookThread, sampled, book_thread, new_worker, listed, run-books,
}
use simd_nanoring.Pipelines.Routed.{Place, Thread, Move, run_moves, launch_thread}
use simd_nanoring.Pipelines.Routed.Books.{pop_order, run_moves-books}
use simd_nanoring.Pipelines.Routed.Live.{pops, pops-exit}
use simd_nanoring.Tests.Rings.{two_slots}

abbrev setup : Bool → Setup ℕ (List ℕ)
setup rechecks = record {
  capacity = 2;
  now = λ i. i;
  orders = λ i. i + 5;
  num_orders = 2;
  handle = λ k stamp x seen. x ∷ seen;
  rechecks = rechecks;
}

abbrev produces : ℕ → List Turn
produces zero = []
produces (suc k) = Turn.produce ∷ produces k

-- The consumer loads the index before the second order is published, and `producer_done` after.
abbrev interleaved : List Turn
interleaved =
    Turn.produce ∷ Turn.produce ∷ Turn.produce ∷ Turn.consume ∷ Turn.consume ∷ Turn.consume
    ∷ Turn.consume ∷ Turn.consume ∷ Turn.produce ∷ Turn.produce ∷ Turn.produce ∷ Turn.produce
    ∷ Turn.consume ∷ Turn.consume ∷ Turn.consume ∷ []

abbrev ended : Program ℕ (List ℕ)
ended = run (setup true) interleaved (launch (λ i. 0) [])

whole : (run (setup true) (interleaved ++ consumes 9) (launch (λ i. 0) [])).reader ≡ Reader.exited
unfolding run
whole = refl

all_read : (run (setup true) (consumes 4) ended).work ≡ 6 ∷ 5 ∷ []
unfolding run
all_read = refl

-- Without the second load the consumer leaves its loop with an order unread.
one_unread :
    ((run (setup false) interleaved (launch (λ i. 0) [])).reader ≡ Reader.exited)
    × ((run (setup false) interleaved (launch (λ i. 0) [])).local_seq ≡ 1)
unfolding run
one_unread = (refl, refl)

published : (run (setup true) interleaved (launch (λ i. 0) [])).publisher ≡ Publisher.finished
unfolding run
published = refl

drains_example : (run (setup true) (consumes 14) ended).reader ≡ Reader.exited
drains_example = drains (setup true) [] (λ i. 0) interleaved (omega arith) refl published

-- Four orders in a ring of two slots, all published before the consumer moves: it reads the last two
-- of them twice.
abbrev lapping : Setup ℕ (List ℕ)
lapping = record (setup true) { num_orders = 4 }

abbrev late : Program ℕ (List ℕ)
late = run lapping (produces 13 ++ consumes 22) (launch (λ i. 0) [])

late_work : late.work ≡ 8 ∷ 7 ∷ 8 ∷ 7 ∷ []
unfolding run
late_work = refl

abbrev bid : ℕ → DecodedOrder
bid key = record {
  type = OrderType.add;
  order_ref = key;
  ticker_key = key;
  price = 100;
  shares = 50;
  side = b'B';
  new_order_ref = 0;
}

abbrev bids : ℕ → DecodedOrder
bids i = bid (i + 1)

-- Stamps at 10 and 11, and a clock that is at 15 when the first order is handled.
abbrev second : BookThread
second = record {
  capacity = 2;
  num_book_threads = 2;
  measure_latency = true;
  now = λ i. i + 10;
  clock = λ i. i + 15;
  thread = 1;
}

abbrev thread : Setup DecodedOrder Worker
thread = book_thread second bids 2

abbrev at_end : Program DecodedOrder Worker
at_end = run thread (interleaved ++ consumes 9) (launch (λ i. bid 0) new_worker)

left : at_end.reader ≡ Reader.exited
unfolding run
left = refl

run-books_example :
    (at_end.work.manager ≡ consume_routed ((route 2 (listed bids 2)).queues 1) new_manager)
    × (at_end.work.local_count ≡ length (of_shard 2 1 (listed bids 2)))
    × (at_end.work.latency ≡ record_all (sampled second bids 2) new_tracker)
run-books_example =
    run-books second bids 2 (λ i. bid 0) (interleaved ++ consumes 9) two_slots (omega arith)
      (omega arith)
      (few-IsPaced thread (interleaved ++ consumes 9) (launch (λ i. bid 0) new_worker)
        (omega arith))
      left

-- The thread 0 of one thread samples the order at the sequence 0.
one_sample : sampled (record second { num_book_threads = 1; thread = 0 }) bids 2 ≡ 5 ∷ []
unfolding get_shard
one_sample = refl

shard_count :
    (consume_routed ((route 2 (listed bids 2)).queues (get_shard 2 1)) new_manager).book_count ≡ 2
unfolding consume_routed route get_shard new_manager
shard_count = refl

all_count : (consume_routed (listed bids 2) new_manager).book_count ≡ 2
unfolding consume_routed new_manager
all_count = refl

sharded-sequential_example :
    get_book (consume_routed ((route 2 (listed bids 2)).queues (get_shard 2 1)) new_manager) 1
    ≡ get_book (consume_routed (listed bids 2) new_manager) 1
sharded-sequential_example =
    sharded-sequential 2 1 (listed bids 2) (omega arith) (omega (arith, shard_count))
      (omega (arith, all_count))

-- Two orders pushed, of four accesses each, and the store of `producer_done`; then the consumer.
abbrev pushes : ℕ → List Move
pushes zero = []
pushes (suc k) = Move.push ∷ pushes k

abbrev pop_second : DecodedOrder → Worker → Worker
pop_second = pop_order true (λ i. i) (λ i. i) 2 1 2

abbrev queued : Thread DecodedOrder Worker
queued = launch_thread (λ i. bid 0) ((route 2 (listed bids 2)).queues 1) new_worker

popped : (run_moves 2 pop_second (pushes 9 ++ pops 14) queued).place ≡ Place.exited
unfolding run_moves route get_shard
popped = refl

run_moves-books_example :
    ((run_moves 2 pop_second (pushes 9 ++ pops 14) queued).work.manager
      ≡ consume_broadcast 2 1 (listed bids 2) new_manager)
    × ((run_moves 2 pop_second (pushes 9 ++ pops 14) queued).work.local_count
        ≡ length ((route 2 (listed bids 2)).queues 1))
run_moves-books_example =
    run_moves-books true (λ i. i) (λ i. i) 2 2 1 (listed bids 2) (λ i. bid 0) (pushes 9 ++ pops 14)
      two_slots (omega arith) (omega arith) popped

pushed : (run_moves 2 pop_second (pushes 9) queued).producer_done ≡ true
unfolding run_moves route get_shard
pushed = refl

pops-exit_example :
    (run_moves 2 pop_second (pops 14) (run_moves 2 pop_second (pushes 9) queued)).place
    ≡ Place.exited
pops-exit_example =
    pops-exit 2 pop_second ((route 2 (listed bids 2)).queues 1) new_worker (λ i. bid 0) (pushes 9)
      two_slots (omega arith) pushed
