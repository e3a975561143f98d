-- ===== src/Pipelines/Routed.antt =====
-- include/routed_pipeline.h, `RoutedPipeline::run`: the producer and one consumer thread, on the queue
-- between them, an access to shared memory at a time. What the producer pushes to other queues in
-- between is time that passes.
pub mod Invariant
pub mod Safety
pub mod Books
pub mod Live
use simd_nanoring.Common.{ℕ, ◌+◌, Bool, true, false, List, [], ◌∷◌, leb, ◌==◌, if◌then◌else◌}
use simd_nanoring.SpscQueue.{System, Producer, Consumer, produce, consume, available, start}

-- The consumer: in its `try_pop`, after a `try_pop` that failed, after a load of `producer_done` that
-- was true, and after the loop.
pub data Place : Type 0 where
  popping : Place
  failed : Place
  checking : Place
  exited : Place

-- `pending` is what the producer has yet to push to this queue, `work` what the consumer works on.
pub record Thread (A M : Type 0) : Type 0 where
  pub system : System A
  pub producer_done : Bool
  pub pending : List A
  pub place : Place
  pub work : M

-- Which thread moves next.
pub data Move : Type 0 where
  push pop : Move

module _ {A : Type 0} where
  abbrev pub pending_after : Producer A → A → List A → List A
  pending_after Producer.idle x rest = x ∷ rest
  pending_after (Producer.has_head y h) x rest = x ∷ rest
  pending_after (Producer.has_room y h) x rest = x ∷ rest
  pending_after (Producer.wrote y h) x rest = rest

  -- `try_pop` fails when the head that it loads is not beyond the tail.
  abbrev pub place_after : ℕ → Consumer A → Place
  place_after head Consumer.idle = Place.popping
  place_after head (Consumer.has_tail k) = if leb head k then Place.failed else Place.popping
  place_after head (Consumer.has_item k) = Place.popping
  place_after head (Consumer.copied x k) = Place.popping

module _ {A M : Type 0} where
  -- One access of the producer: of its `push` of the next order, or the store of `producer_done`.
  unfoldable pub push_step : ℕ → Producer A → List A → Thread A M → Thread A M
  unfolding produce
  push_step capacity p [] t = record t { producer_done = true }
  push_step capacity p (x ∷ rest) t = record t {
    system = produce capacity false x p t.system;
    pending = pending_after p x rest;
  }

  abbrev pub work_after : (A → M → M) → Consumer A → M → M
  work_after handle Consumer.idle work = work
  work_after handle (Consumer.has_tail k) work = work
  work_after handle (Consumer.has_item k) work = work
  work_after handle (Consumer.copied x k) work = handle x work

  -- One access of the consumer's `try_pop`; `handle` is what it does with the order.
  unfoldable pub pop_step : ℕ → (A → M → M) → Consumer A → Thread A M → Thread A M
  unfolding consume
  pop_step capacity handle k t = record t {
    system = consume capacity k t.system;
    place = place_after t.system.queue.head k;
    work = work_after handle k t.work;
  }

  -- One access of the consumer's loop. Only the consumer moves the tail, so `available` is one load,
  -- of the head.
  unfoldable pub loop_step : ℕ → (A → M → M) → Place → Thread A M → Thread A M
  unfolding pop_step available
  loop_step capacity handle Place.popping t = pop_step capacity handle t.system.consumer t
  loop_step capacity handle Place.failed t = record t {
    place = if t.producer_done then Place.checking else Place.popping;
  }
  loop_step capacity handle Place.checking t = record t {
    place = if available t.system.queue == 0 then Place.exited else Place.popping;
  }
  loop_step capacity handle Place.exited t = t

  unfoldable pub move : ℕ → (A → M → M) → Move → Thread A M → Thread A M
  unfolding push_step loop_step
  move capacity handle Move.push t = push_step capacity t.system.producer t.pending t
  move capacity handle Move.pop t = loop_step capacity handle t.place t

  -- An interleaving of the two threads.
  unfoldable pub run_moves : ℕ → (A → M → M) → List Move → Thread A M → Thread A M
  unfolding move
  run_moves capacity handle [] t = t
  run_moves capacity handle (x ∷ moves) t =
      run_moves capacity handle moves (move capacity handle x t)

  -- Both threads at their start.
  abbrev pub launch_thread : (ℕ → A) → List A → M → Thread A M
  launch_thread slots orders work = record {
    system = start slots;
    producer_done = false;
    pending = orders;
    place = Place.popping;
    work = work;
  }
