-- ===== src/Pipelines/Broadcast/Books.antt =====
-- The book threads of include/pipeline.h, `Pipeline::run`: what a thread does with an order, and the
-- books that it ends with.
use simd_nanoring.Common.{
  ℕ, ltb, Bool, ◌&&◌, ◌-◌, ◌%◌, zero, suc, ◌+◌, ◌<◌, ◌≡◌, ◌∙◌, inl, inr, List, [], ◌∷◌, ◌++◌, true,
  ◌==◌, if◌then◌else◌, Bool-cases, arith, ap, sym, refl,
}
use simd_nanoring.Common.Word.{u64}
use simd_nanoring.Itch.{DecodedOrder}
use simd_nanoring.BookManager
use simd_nanoring.BookManager.{ShardedBookManager, new_manager}
use simd_nanoring.Ring.{IsCapacity}
use simd_nanoring.Pipelines.{get_shard, length, route, consume_routed, consume_broadcast}
use simd_nanoring.Pipelines.Route.{of_shard, queues-route, broadcast-of_shard}
use simd_nanoring.Pipelines.Latency.{LatencyTracker, new_tracker, record_sample, record_all}
use simd_nanoring.Pipelines.Broadcast.{Setup, Turn, Reader, run, launch}
use simd_nanoring.Pipelines.Broadcast.Invariant.{handled, IsPaced}
use simd_nanoring.Pipelines.Broadcast.Safety.{run-handled}

-- `shard_managers[t]`, `local_count` and, for the thread 0, `results.latency`.
pub record Worker : Type 0 where
  pub manager : ShardedBookManager
  pub local_count : ℕ
  pub latency : LatencyTracker

-- The latency sample, with the time at which the order is handled.
unfoldable pub sample : ℕ → ℕ → LatencyTracker → LatencyTracker
unfolding record_sample
sample consume_ns pub_ns latency =
    if ltb pub_ns consume_ns then record_sample (consume_ns - pub_ns) latency else latency

-- The body of the inner loop of thread `t` of `n`. `clock` is the time of the sample at a sequence.
unfoldable pub handle_order : Bool → (ℕ → ℕ) → ℕ → ℕ → ℕ → ℕ → DecodedOrder → Worker → Worker
unfolding get_shard BookManager.apply sample
handle_order measure_latency clock n t local_seq pub_ns order w =
    if get_shard n order.ticker_key == t
    then record {
      manager = BookManager.apply order w.manager;
      local_count = w.local_count + 1;
      latency =
          if measure_latency && (t == 0 && local_seq % 1000 == 0)
          then sample (clock local_seq) pub_ns w.latency
          else w.latency;
    }
    else w

abbrev pub new_worker : Worker
new_worker = record { manager = new_manager; local_count = 0; latency = new_tracker }

-- The clocks and the configuration of a run, and the thread.
pub record BookThread : Type 0 where
  pub capacity : ℕ
  pub num_book_threads : ℕ
  pub measure_latency : Bool
  pub now : ℕ → ℕ
  pub clock : ℕ → ℕ
  pub thread : ℕ

abbrev pub book_thread : BookThread → (ℕ → DecodedOrder) → ℕ → Setup DecodedOrder Worker
book_thread b orders num_orders = record {
  capacity = b.capacity;
  now = b.now;
  orders = orders;
  num_orders = num_orders;
  handle = handle_order b.measure_latency b.clock b.num_book_threads b.thread;
  rechecks = true;
}

-- The first `k` orders.
abbrev pub listed : (ℕ → DecodedOrder) → ℕ → List DecodedOrder
listed orders zero = []
listed orders (suc k) = listed orders k ++ (orders k ∷ [])

module _ (n t : ℕ) where
  consume_broadcast-append :
      (xs ys : List DecodedOrder) (m : ShardedBookManager)
      → consume_broadcast n t (xs ++ ys) m ≡ consume_broadcast n t ys (consume_broadcast n t xs m)
  unfolding consume_broadcast
  consume_broadcast-append [] ys m = refl
  consume_broadcast-append (x ∷ xs) ys m = consume_broadcast-append xs ys _

  length-of_shard_next :
      (xs : List DecodedOrder) (o : DecodedOrder)
      → length (of_shard n t (xs ++ (o ∷ []))) ≡ (
          if get_shard n o.ticker_key == t
          then length (of_shard n t xs) + 1
          else length (of_shard n t xs))
  length-of_shard_next [] o = ground arith
  length-of_shard_next (x ∷ xs) o = ground (arith, length-of_shard_next xs o)

record_all-append :
    (xs : List ℕ) (v : ℕ) (t : LatencyTracker)
    → record_all (xs ++ (v ∷ [])) t ≡ record_sample v (record_all xs t)
unfolding record_all
record_all-append [] v t = refl
record_all-append (x ∷ xs) v t = record_all-append xs v (record_sample x t)

module _ (b : BookThread) (orders : ℕ → DecodedOrder) where
  abbrev worked : ℕ → Worker
  worked k =
      handled (handle_order b.measure_latency b.clock b.num_book_threads b.thread) b.now orders k
        new_worker

  abbrev is_own : ℕ → Bool
  is_own k = get_shard b.num_book_threads (orders k).ticker_key == b.thread

  handled-manager :
      (k : ℕ)
      → (worked k).manager
        ≡ consume_broadcast b.num_book_threads b.thread (listed orders k) new_manager
  unfolding handle_order consume_broadcast
  handled-manager zero = refl
  handled-manager (suc k) =
      let step =
        consume_broadcast-append b.num_book_threads b.thread (listed orders k) (orders k ∷ [])
          new_manager in
      elim (Bool-cases (is_own k)) [
        | inl mine ↦ rw (step, mine) (ap (BookManager.apply (orders k)) (handled-manager k))
        | inr other ↦ rw (step, other) (handled-manager k)
      ]

  handled-local_count :
      (k : ℕ)
      → (worked k).local_count ≡ length (of_shard b.num_book_threads b.thread (listed orders k))
  unfolding handle_order
  handled-local_count zero = refl
  handled-local_count (suc k) =
      let counted = length-of_shard_next b.num_book_threads b.thread (listed orders k) (orders k) in
      elim (Bool-cases (is_own k)) [
        | inl mine ↦
            let at_mine = rw mine at counted in
            rw mine (ap (λ (c : ℕ). c + 1) (handled-local_count k) ∙ sym at_mine)
        | inr other ↦
            let at_other = rw other at counted in rw other (handled-local_count k ∙ sym at_other)
      ]

  abbrev is_sampled : ℕ → Bool
  is_sampled k = b.measure_latency && (b.thread == 0 && k % 1000 == 0)

  -- The latencies of the first `k` orders that the thread samples: of its own, those at every
  -- thousandth sequence, where the clock has moved on since the stamp.
  abbrev pub sampled : ℕ → List ℕ
  sampled zero = []
  sampled (suc k) =
      if is_own k
      then if is_sampled k
        then if ltb (b.now k) (b.clock k)
          then sampled k ++ ((b.clock k - b.now k) ∷ [])
          else sampled k
        else sampled k
      else sampled k

  handled-latency : (k : ℕ) → (worked k).latency ≡ record_all (sampled k) new_tracker
  unfolding handle_order sample
  handled-latency zero = unfold record_all in refl
  handled-latency (suc k) = elim (Bool-cases (is_own k)) [
    | inr other ↦ rw other (handled-latency k)
    | inl mine ↦ rw mine (elim (Bool-cases (is_sampled k)) [
      | inr unsampled ↦ rw unsampled (handled-latency k)
      | inl sampling ↦ rw sampling (elim (Bool-cases (ltb (b.now k) (b.clock k))) [
        | inr early ↦ rw early (handled-latency k)
        | inl later ↦ rw later (
            ap (record_sample (b.clock k - b.now k)) (handled-latency k)
            ∙ sym (record_all-append (sampled k) (b.clock k - b.now k) new_tracker))
      ])
    ])
  ]

-- A book thread of `Pipeline::run` that has left its loop, in any interleaving in which the producer
-- never writes a slot that the thread has yet to read, which the code does not ensure by itself: it
-- has the books that the same thread of `RoutedPipeline::run` makes of the orders that are pushed to
-- its queue, has counted the orders of its shard, and has recorded the latency of each order that it
-- samples, from the stamp of that order. The number of orders fits in 64 bits.
pub run-books :
    (b : BookThread) (orders : ℕ → DecodedOrder) (num_orders : ℕ) (slots : ℕ → DecodedOrder)
    (turns : List Turn)
    → IsCapacity b.capacity
    → num_orders < u64
    → b.thread < b.num_book_threads
    → IsPaced (book_thread b orders num_orders) turns (launch slots new_worker)
    → (run (book_thread b orders num_orders) turns (launch slots new_worker)).reader ≡ Reader.exited
    → ((run (book_thread b orders num_orders) turns (launch slots new_worker)).work.manager
        ≡ consume_routed
            ((route b.num_book_threads (listed orders num_orders)).queues b.thread)
            new_manager)
      × ((run (book_thread b orders num_orders) turns (launch slots new_worker)).work.local_count
          ≡ length (of_shard b.num_book_threads b.thread (listed orders num_orders)))
      × ((run (book_thread b orders num_orders) turns (launch slots new_worker)).work.latency
          ≡ record_all (sampled b orders num_orders) new_tracker)
run-books b orders num_orders slots turns cap word below paced left =
    let n = b.num_book_threads in
    let whole =
      run-handled (book_thread b orders num_orders) new_worker slots turns cap word refl paced
        left in
    (
      ap (λ w. w.manager) whole
          ∙ handled-manager b orders num_orders
          ∙ broadcast-of_shard n b.thread (listed orders num_orders) new_manager
          ∙ ap (λ xs. consume_routed xs new_manager)
              (sym (queues-route n b.thread (listed orders num_orders) below)),
      ap (λ w. w.local_count) whole ∙ handled-local_count b orders num_orders,
      ap (λ w. w.latency) whole ∙ handled-latency b orders num_orders,
    )
