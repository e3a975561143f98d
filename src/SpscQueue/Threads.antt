-- ===== src/SpscQueue/Threads.antt =====
-- However the two threads of the queue interleave, it is a bounded first-in first-out channel.
use mathlib.Core.List.{append_assoc}
use simd_nanoring.Common.{
  ℕ, zero, suc, ◌+◌, ◌-◌, ◌≤◌, ◌<◌, ◌≡◌, ◌∙◌, inl, inr, Bool, true, false, List, [], ◌∷◌, ◌++◌, leb,
  Bool-cases, set, set_self, set_other, arith, ap, ap₂, sym, refl,
}
use simd_nanoring.Common.Word.{u64, add64}
use simd_nanoring.Ring.{IsCapacity, slot_of}
use simd_nanoring.Ring.Contents.{contents, contents-append, contents-set, slot-ne, capacity-le}
use simd_nanoring.SpscQueue.{
  Queue, Producer, Consumer, System, Turn, is_full, produce, consume, turn, run, start,
}

-- The number of turns.
abbrev pub count {ℓ} : {A : Type ℓ} → List A → ℕ
count [] = 0
count (x ∷ xs) = suc (count xs)

module _ {A : Type 0} where
  -- What a thread knows at its place in the call.
  abbrev pub ProducerKnows : ℕ → Queue A → Producer A → Type 0
  ProducerKnows c q Producer.idle = Unit
  ProducerKnows c q (Producer.has_head x h) = h ≡ q.head
  ProducerKnows c q (Producer.has_room x h) = (h ≡ q.head) × (q.head < q.tail + c)
  ProducerKnows c q (Producer.wrote x h) =
      (h ≡ q.head) × (q.head < q.tail + c) × (q.slots (slot_of c h) ≡ x)

  abbrev pub ConsumerKnows : ℕ → Queue A → Consumer A → Type 0
  ConsumerKnows c q Consumer.idle = Unit
  ConsumerKnows c q (Consumer.has_tail t) = t ≡ q.tail
  ConsumerKnows c q (Consumer.has_item t) = (t ≡ q.tail) × (q.tail < q.head)
  ConsumerKnows c q (Consumer.copied x t) =
      (t ≡ q.tail) × (q.tail < q.head) × (q.slots (slot_of c t) ≡ x)

  -- The queue never holds more than its capacity, what was pushed is what was popped followed by
  -- what the queue holds, and each thread knows what it has read.
  pub record IsFifo (c : ℕ) (s : System A) : Type 0 where
    pub below : s.queue.tail ≤ s.queue.head
    pub within : s.queue.head ≤ s.queue.tail + c
    pub word : s.queue.head < u64
    pub fifo : s.sent ≡ s.got ++ contents c s.queue.slots s.queue.tail (s.queue.head - s.queue.tail)
    pub producer_knows : ProducerKnows c s.queue s.producer
    pub consumer_knows : ConsumerKnows c s.queue s.consumer

  module _ (c : ℕ) (cap : IsCapacity c) where
    -- A write at the head changes nothing that the consumer relies on.
    ConsumerKnows-set :
        (q : Queue A) (k : Consumer A) (x : A)
        → q.head < q.tail + c
        → ConsumerKnows c q k
        → ConsumerKnows c (record q { slots = set q.slots (slot_of c q.head) x }) k
    ConsumerKnows-set q Consumer.idle x room knows = knows
    ConsumerKnows-set q (Consumer.has_tail t) x room knows = knows
    ConsumerKnows-set q (Consumer.has_item t) x room knows = knows
    ConsumerKnows-set q (Consumer.copied y t) x room (e, more, at) =
        (e, more, set_other q.slots _ _ x (slot-ne c cap t q.head (omega arith) (omega arith)) ∙ at)

    ConsumerKnows-push :
        (q : Queue A) (k : Consumer A) (h : ℕ)
        → q.head ≤ h
        → ConsumerKnows c q k
        → ConsumerKnows c (record q { head = h }) k
    ConsumerKnows-push q Consumer.idle h up knows = knows
    ConsumerKnows-push q (Consumer.has_tail t) h up knows = knows
    ConsumerKnows-push q (Consumer.has_item t) h up (e, more) = (e, omega arith)
    ConsumerKnows-push q (Consumer.copied y t) h up (e, more, at) = (e, omega arith, at)

    ProducerKnows-pop :
        (q : Queue A) (p : Producer A) (t : ℕ)
        → q.tail ≤ t
        → ProducerKnows c q p
        → ProducerKnows c (record q { tail = t }) p
    ProducerKnows-pop q Producer.idle t up knows = knows
    ProducerKnows-pop q (Producer.has_head x h) t up knows = knows
    ProducerKnows-pop q (Producer.has_room x h) t up (e, room) = (e, omega arith)
    ProducerKnows-pop q (Producer.wrote x h) t up (e, room, at) = (e, omega arith, at)

    contents_drop :
        (slots : ℕ → A) (t n : ℕ)
        → 0 < n
        → contents c slots t n ≡ slots (slot_of c t) ∷ contents c slots (t + 1) (n - 1)
    contents_drop slots t zero h = absurd (omega arith)
    contents_drop slots t (suc n) h =
        ap (λ k. slots (slot_of c t) ∷ contents c slots (t + 1) k) (omega arith)

    contents_grow :
        (slots : ℕ → A) (t n k : ℕ)
        → k ≡ n + 1
        → contents c slots t k ≡ contents c slots t n ++ (slots (slot_of c (t + n)) ∷ [])
    contents_grow slots t n zero h = absurd (omega arith)
    contents_grow slots t n (suc k) h =
        ap (contents c slots t) {x = suc k} {y = suc n} (omega arith) ∙ contents-append c slots t n

    pub produce-IsFifo :
        (give_up : Bool) (item : A) (p : Producer A) (s : System A)
        → IsFifo c s
        → s.producer ≡ p
        → s.queue.head + 1 < u64
        → ProducerKnows c s.queue p
        → IsFifo c (produce c give_up item p s)
    unfolding produce
    produce-IsFifo give_up item Producer.idle s inv at low knows = record {
      below = inv.below;
      within = inv.within;
      word = inv.word;
      fifo = inv.fifo;
      producer_knows = refl;
      consumer_knows = inv.consumer_knows;
    }
    produce-IsFifo give_up item (Producer.has_head x h) s inv at low knows =
        elim (Bool-cases (is_full c h s.queue.tail)) [
          | inr room ↦ rw room (record {
            below = inv.below;
            within = inv.within;
            word = inv.word;
            fifo = inv.fifo;
            producer_knows = (knows, ground (arith, inv.below, inv.word, knows, capacity-le c cap));
            consumer_knows = inv.consumer_knows;
          })
          | inl full ↦ rw full (elim (Bool-cases give_up) [
            | inr again ↦ rw again inv
            | inl stop ↦ rw stop (record {
              below = inv.below;
              within = inv.within;
              word = inv.word;
              fifo = inv.fifo;
              producer_knows = tt;
              consumer_knows = inv.consumer_knows;
            })
          ])
        ]
    produce-IsFifo give_up item (Producer.has_room x h) s inv at low (e, room) = record {
      below = inv.below;
      within = inv.within;
      word = inv.word;
      fifo =
          inv.fifo
          ∙ ap (λ xs. s.got ++ xs)
              (sym (
                contents-set c cap s.queue.slots s.queue.tail _ h x (omega (arith, inv.below))
                  (omega arith)));
      producer_knows = (e, room, set_self s.queue.slots (slot_of c h) x);
      consumer_knows = rw e (ConsumerKnows-set s.queue s.consumer x room inv.consumer_knows);
    }
    produce-IsFifo give_up item (Producer.wrote x h) s inv at low (e, room, stored) = record {
      below = omega (arith, inv.below);
      within = omega arith;
      word = omega arith;
      fifo =
          ap (λ xs. xs ++ (x ∷ [])) inv.fifo
          ∙ append_assoc s.got _ _
          ∙ ap (λ xs. s.got ++ xs)
              (sym (
                contents_grow s.queue.slots s.queue.tail (s.queue.head - s.queue.tail) _
                  (omega (arith, inv.below))
                ∙ ap
                    (λ y.
                      contents c s.queue.slots s.queue.tail (s.queue.head - s.queue.tail)
                      ++ (y ∷ []))
                    (ap (λ k. s.queue.slots (slot_of c k)) (omega (arith, inv.below)) ∙ stored)));
      producer_knows = tt;
      consumer_knows = ConsumerKnows-push s.queue s.consumer _ (omega arith) inv.consumer_knows;
    }

    pub consume-IsFifo :
        (k : Consumer A) (s : System A)
        → IsFifo c s
        → ConsumerKnows c s.queue k
        → IsFifo c (consume c k s)
    unfolding consume
    consume-IsFifo Consumer.idle s inv knows = record {
      below = inv.below;
      within = inv.within;
      word = inv.word;
      fifo = inv.fifo;
      producer_knows = inv.producer_knows;
      consumer_knows = refl;
    }
    consume-IsFifo (Consumer.has_tail t) s inv knows = elim (Bool-cases (leb s.queue.head t)) [
      | inl empty ↦ rw empty (record {
        below = inv.below;
        within = inv.within;
        word = inv.word;
        fifo = inv.fifo;
        producer_knows = inv.producer_knows;
        consumer_knows = tt;
      })
      | inr more ↦ rw more (record {
        below = inv.below;
        within = inv.within;
        word = inv.word;
        fifo = inv.fifo;
        producer_knows = inv.producer_knows;
        consumer_knows = (knows, ground (arith, knows));
      })
    ]
    consume-IsFifo (Consumer.has_item t) s inv (e, more) = record {
      below = inv.below;
      within = inv.within;
      word = inv.word;
      fifo = inv.fifo;
      producer_knows = inv.producer_knows;
      consumer_knows = (e, more, refl);
    }
    consume-IsFifo (Consumer.copied x t) s inv (e, more, read) =
        let next_tail : add64 t 1 ≡ s.queue.tail + 1 = omega (arith, inv.word) in
        record {
          below = omega arith;
          within = omega (arith, inv.within);
          word = inv.word;
          fifo =
              inv.fifo
              ∙ ap (λ xs. s.got ++ xs)
                  (contents_drop s.queue.slots s.queue.tail _ (omega arith)
                    ∙ ap₂ (λ y xs. y ∷ xs) (ap (λ k. s.queue.slots (slot_of c k)) (sym e) ∙ read)
                        (ap₂ (contents c s.queue.slots) (sym next_tail) (omega arith)))
              ∙ sym (append_assoc s.got _ _);
          producer_knows = ProducerKnows-pop s.queue s.producer _ (omega arith) inv.producer_knows;
          consumer_knows = tt;
        }

    turn-IsFifo :
        (x : Turn A) (s : System A) → IsFifo c s → s.queue.head + 1 < u64 → IsFifo c (turn c x s)
    unfolding turn
    turn-IsFifo (Turn.try x) s inv low =
        produce-IsFifo true x s.producer s inv refl low inv.producer_knows
    turn-IsFifo (Turn.spin x) s inv low =
        produce-IsFifo false x s.producer s inv refl low inv.producer_knows
    turn-IsFifo Turn.pop s inv low = consume-IsFifo s.consumer s inv inv.consumer_knows

    pub head-produce :
        (give_up : Bool) (x : A) (p : Producer A) (s : System A)
        → ProducerKnows c s.queue p
        → (produce c give_up x p s).queue.head ≤ s.queue.head + 1
    unfolding produce
    head-produce give_up x Producer.idle s knows = omega arith
    head-produce give_up x (Producer.has_head y h) s knows = ground arith
    head-produce give_up x (Producer.has_room y h) s knows = omega arith
    head-produce give_up x (Producer.wrote y h) s (e, room, at) = omega arith

    pub head-consume : (k : Consumer A) (s : System A) → (consume c k s).queue.head ≡ s.queue.head
    unfolding consume
    head-consume Consumer.idle s = refl
    head-consume (Consumer.has_tail t) s = ground arith
    head-consume (Consumer.has_item t) s = refl
    head-consume (Consumer.copied x t) s = refl

    head-turn :
        (x : Turn A) (s : System A) → IsFifo c s → (turn c x s).queue.head ≤ s.queue.head + 1
    unfolding turn
    head-turn (Turn.try x) s inv = head-produce true x s.producer s inv.producer_knows
    head-turn (Turn.spin x) s inv = head-produce false x s.producer s inv.producer_knows
    head-turn Turn.pop s inv = omega (arith, head-consume s.consumer s)

    run_from-IsFifo :
        (turns : List (Turn A)) (s : System A)
        → IsFifo c s
        → s.queue.head + count turns < u64
        → IsFifo c (run c turns s)
    unfolding run
    run_from-IsFifo [] s inv low = inv
    run_from-IsFifo (x ∷ turns) s inv low =
        run_from-IsFifo turns (turn c x s) (turn-IsFifo x s inv (omega arith))
          (omega (arith, head-turn x s inv))

-- For every interleaving of the two threads from the constructor's queue, short enough for the
-- counters not to wrap: the queue holds at most its capacity, and the items pushed are, in order,
-- the items popped followed by those that the slots hold.
pub run-IsFifo :
    {A : Type 0} (c : ℕ) (cap : IsCapacity c) (slots : ℕ → A) (turns : List (Turn A))
    → count turns < u64
    → IsFifo c (run c turns (start slots))
run-IsFifo c cap slots turns low =
    run_from-IsFifo c cap turns (start slots)
      (record {
        below = omega arith;
        within = omega arith;
        word = omega arith;
        fifo = refl;
        producer_knows = tt;
        consumer_knows = tt;
      })
      (omega arith)
