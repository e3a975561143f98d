-- ===== src/Pipelines/Broadcast.antt =====
-- include/pipeline.h, `Pipeline::run`, and the consumers of src/experiments.cpp: one producer that
-- publishes in a journal, and one of its consumers, an access to shared memory at a time. The
-- consumers touch nothing that another one reads, since `publish` does not wait for them.
pub mod Invariant
pub mod Safety
pub mod Live
pub mod Books
use simd_nanoring.Common.{
  ℕ, suc, ◌+◌, ◌<◌, Bool, true, false, List, [], ◌∷◌, ltb, leb, ◌==◌, if◌then◌else◌, set,
}
use simd_nanoring.Common.Word.{add64}
use simd_nanoring.Ring.{slot_of}
use simd_nanoring.Journal.{Journal, get_payload, report_consumer_progress}

-- The producer: before it stamps the order `i`, before the copy of that order, before the store of the
-- index for it, and after the store of `producer_done`.
pub data Publisher : Type 0 where
  stamping : ℕ → Publisher
  filling : ℕ → Publisher
  copied : ℕ → Publisher
  finished : Publisher

-- The consumer: at the head of its loop, after its load of the index, after a load of
-- `producer_done` that was true, in the inner loop up to an index, and after the loop.
pub data Reader : Type 0 where
  polling : Reader
  has_published : ℕ → Reader
  rechecking : Reader
  reading : ℕ → Reader
  exited : Reader

-- `A` is the type of the orders, `M` what the consumer works on.
pub record Program (A M : Type 0) : Type 0 where
  pub journal : Journal A
  pub publish_ts : ℕ → ℕ
  pub producer_done : Bool
  pub publisher : Publisher
  pub reader : Reader
  pub local_seq : ℕ
  pub work : M

-- Which thread moves next.
pub data Turn : Type 0 where
  produce consume : Turn

module _ {A M : Type 0} where
  -- One access of the producer, for the orders `0` to `num_orders - 1`, of which `now i` is the time
  -- at which the order `i` is stamped. Without `measure_latency`, nothing reads the stamps.
  unfoldable pub publish_step : ℕ → (ℕ → ℕ) → (ℕ → A) → ℕ → Publisher → Program A M → Program A M
  publish_step capacity now orders num_orders (Publisher.stamping i) p =
      if ltb i num_orders
      then record p { publish_ts = set p.publish_ts i (now i); publisher = Publisher.filling i }
      else record p { producer_done = true; publisher = Publisher.finished }
  publish_step capacity now orders num_orders (Publisher.filling i) p = record p {
    journal = record p.journal { journal = set p.journal.journal (slot_of capacity i) (orders i) };
    publisher = Publisher.copied i;
  }
  publish_step capacity now orders num_orders (Publisher.copied i) p = record p {
    journal = record p.journal { published_index = add64 i 1 };
    publisher = Publisher.stamping (i + 1);
  }
  publish_step capacity now orders num_orders Publisher.finished p = p

  -- One access of the consumer. `handle` is what it does with an order, given its sequence and its
  -- stamp; with `rechecks`, it loads
  -- the index again before it leaves, as `Pipeline::run` and `experiment_latency` do and
  -- `experiment_broadcast_scaling` does not. Those of the experiments do
  -- not report their progress, which nothing here reads.
  unfoldable pub read_step : ℕ → (ℕ → ℕ → A → M → M) → Bool → Reader → Program A M → Program A M
  unfolding get_payload report_consumer_progress
  read_step capacity handle rechecks Reader.polling p = record p {
    reader = Reader.has_published p.journal.published_index;
  }
  read_step capacity handle rechecks (Reader.has_published published) p =
      if leb published p.local_seq
      then if p.producer_done
        then record p { reader = if rechecks then Reader.rechecking else Reader.exited }
        else record p { reader = Reader.polling }
      else record p { reader = Reader.reading published }
  read_step capacity handle rechecks Reader.rechecking p = record p {
    reader = if leb p.journal.published_index p.local_seq then Reader.exited else Reader.polling;
  }
  read_step capacity handle rechecks (Reader.reading published) p =
      if ltb p.local_seq published
      then record p {
        work =
            handle p.local_seq (p.publish_ts p.local_seq)
              (get_payload capacity p.local_seq p.journal) p.work;
        local_seq = p.local_seq + 1;
      }
      else record p {
        journal = report_consumer_progress p.local_seq p.journal;
        reader = Reader.polling;
      }
  read_step capacity handle rechecks Reader.exited p = p

-- One run of the pipeline: the capacity of the ring, the times of the stamps, the orders, and the
-- consumer.
pub record Setup (A M : Type 0) : Type 0 where
  pub capacity : ℕ
  pub now : ℕ → ℕ
  pub orders : ℕ → A
  pub num_orders : ℕ
  pub handle : ℕ → ℕ → A → M → M
  pub rechecks : Bool

module _ {A M : Type 0} where
  unfoldable pub turn : Setup A M → Turn → Program A M → Program A M
  unfolding publish_step read_step
  turn s Turn.produce p = publish_step s.capacity s.now s.orders s.num_orders p.publisher p
  turn s Turn.consume p = read_step s.capacity s.handle s.rechecks p.reader p

  -- An interleaving of the two threads.
  unfoldable pub run : Setup A M → List Turn → Program A M → Program A M
  unfolding turn
  run s [] p = p
  run s (t ∷ turns) p = run s turns (turn s t p)

  -- The journal as it is constructed, and both threads at their start.
  abbrev pub launch : (ℕ → A) → M → Program A M
  launch slots work = record {
    journal = record { journal = slots; published_index = 0; min_consumer_seq = 0 };
    publish_ts = λ i. 0;
    producer_done = false;
    publisher = Publisher.stamping 0;
    reader = Reader.polling;
    local_seq = 0;
    work = work;
  }
