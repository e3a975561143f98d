-- ===== src/SpscQueue.antt =====
-- include/spsc_queue.h: the single-producer single-consumer queue, call by call, and as the two
-- threads run it, one atomic access at a time.
pub mod Threads
pub mod Calls
use simd_nanoring.Common.{
  ℕ, ◌+◌, ◌-◌, Bool, true, false, Option, none, some, List, [], ◌∷◌, ◌++◌, leb, if◌then◌else◌, set,
}
use simd_nanoring.Common.Word.{add64, sub64}
use simd_nanoring.Ring.{slot_of}

-- `slots_`, `head_` and `tail_`. A slot holds one item of the template's type.
pub record Queue {ℓ} (A : Type ℓ) : Type ℓ where
  pub slots : ℕ → A
  pub head : ℕ
  pub tail : ℕ

-- `h - t >= Capacity`
abbrev pub is_full : ℕ → ℕ → ℕ → Bool
is_full capacity h t = leb capacity (sub64 h t)

module _ {ℓ} {A : Type ℓ} where
  unfoldable pub try_push : ℕ → A → Queue A → Bool × Queue A
  try_push capacity item q = if is_full capacity q.head q.tail then (false, q) else (
    true,
    record q { slots = set q.slots (slot_of capacity q.head) item; head = add64 q.head 1 },
  )

  unfoldable pub try_pop : ℕ → Queue A → Option A × Queue A
  try_pop capacity q =
      if leb q.head q.tail
      then (none, q)
      else (some (q.slots (slot_of capacity q.tail)), record q { tail = add64 q.tail 1 })

  unfoldable pub available : Queue A → ℕ
  available q = sub64 q.head q.tail

  unfoldable pub free_slots : ℕ → Queue A → ℕ
  free_slots capacity q = sub64 capacity (sub64 q.head q.tail)

-- The producer inside `try_push` or `push`: before the call, after the load of `head_`, after the
-- load of `tail_` that found room, and after the copy into the slot.
pub data Producer {ℓ} (A : Type ℓ) : Type ℓ where
  idle : Producer A
  has_head : A → ℕ → Producer A
  has_room : A → ℕ → Producer A
  wrote : A → ℕ → Producer A

-- The consumer inside `try_pop`: before the call, after the load of `tail_`, after the load of
-- `head_` that found an item, and after the copy out of the slot.
pub data Consumer {ℓ} (A : Type ℓ) : Type ℓ where
  idle : Consumer A
  has_tail : ℕ → Consumer A
  has_item : ℕ → Consumer A
  copied : A → ℕ → Consumer A

-- The queue, the two threads, and the items that calls have pushed and popped so far.
pub record System {ℓ} (A : Type ℓ) : Type ℓ where
  pub queue : Queue A
  pub producer : Producer A
  pub consumer : Consumer A
  pub sent : List A
  pub got : List A

-- The next access of one thread; the producer's next call, if it starts one, is `try_push` or
-- `push` of the item.
pub data Turn {ℓ} (A : Type ℓ) : Type ℓ where
  try : A → Turn A
  spin : A → Turn A
  pop : Turn A

module _ {ℓ} {A : Type ℓ} where
  -- One access of the producer. With `give_up`, a full queue ends the call, as in `try_push`;
  -- without, it loads `tail_` again, as in `push`.
  unfoldable pub produce : ℕ → Bool → A → Producer A → System A → System A
  produce capacity give_up item Producer.idle s = record s {
    producer = Producer.has_head item s.queue.head;
  }
  produce capacity give_up item (Producer.has_head x h) s =
      if is_full capacity h s.queue.tail
      then if give_up then record s { producer = Producer.idle } else s
      else record s { producer = Producer.has_room x h }
  produce capacity give_up item (Producer.has_room x h) s = record s {
    queue = record s.queue { slots = set s.queue.slots (slot_of capacity h) x };
    producer = Producer.wrote x h;
  }
  produce capacity give_up item (Producer.wrote x h) s = record s {
    queue = record s.queue { head = add64 h 1 };
    producer = Producer.idle;
    sent = s.sent ++ (x ∷ []);
  }

  -- One access of the consumer.
  unfoldable pub consume : ℕ → Consumer A → System A → System A
  consume capacity Consumer.idle s = record s { consumer = Consumer.has_tail s.queue.tail }
  consume capacity (Consumer.has_tail t) s =
      if leb s.queue.head t
      then record s { consumer = Consumer.idle }
      else record s { consumer = Consumer.has_item t }
  consume capacity (Consumer.has_item t) s = record s {
    consumer = Consumer.copied (s.queue.slots (slot_of capacity t)) t;
  }
  consume capacity (Consumer.copied x t) s = record s {
    queue = record s.queue { tail = add64 t 1 };
    consumer = Consumer.idle;
    got = s.got ++ (x ∷ []);
  }

  unfoldable pub turn : ℕ → Turn A → System A → System A
  unfolding produce consume
  turn capacity (Turn.try x) s = produce capacity true x s.producer s
  turn capacity (Turn.spin x) s = produce capacity false x s.producer s
  turn capacity Turn.pop s = consume capacity s.consumer s

  -- An interleaving of the two threads.
  unfoldable pub run : ℕ → List (Turn A) → System A → System A
  unfolding turn
  run capacity [] s = s
  run capacity (x ∷ turns) s = run capacity turns (turn capacity x s)

  -- The constructor: nothing pushed, the slots whatever the vector holds.
  abbrev pub start : (ℕ → A) → System A
  start slots = record {
    queue = record { slots = slots; head = 0; tail = 0 };
    producer = Producer.idle;
    consumer = Consumer.idle;
    sent = [];
    got = [];
  }
