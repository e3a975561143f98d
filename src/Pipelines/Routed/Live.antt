-- ===== src/Pipelines/Routed/Live.antt =====
-- Once the producer has finished, a consumer of the routed pipeline leaves its loop.
use simd_nanoring.Common.{
  ℕ, zero, suc, ◌+◌, ◌-◌, ◌*◌, ◌≤◌, ◌<◌, ◌≡◌, ◌∙◌, inl, inr, true, false, List, [], ◌∷◌, leb, ◌==◌,
  if◌then◌else◌, Bool-cases, arith, sym, refl, subst,
}
use simd_nanoring.Common.Word.{u64}
use simd_nanoring.Ring.{IsCapacity}
use simd_nanoring.SpscQueue.{Queue, Consumer, System, consume, available}
use simd_nanoring.SpscQueue.Threads.{ConsumerKnows}
use simd_nanoring.Pipelines.Routed.{
  Place, Thread, Move, place_after, pop_step, loop_step, move, run_moves, launch_thread,
}
use simd_nanoring.Pipelines.Routed.Invariant.{count, Inv}
use simd_nanoring.Pipelines.Routed.Safety.{loop_step-Inv, run_moves-Inv, launch_thread-Inv}

-- A bound on the accesses that the consumer still makes, with `n` items in the queue.
abbrev left_in_pop : {A : Type 0} → Consumer A → ℕ
left_in_pop Consumer.idle = 4
left_in_pop (Consumer.has_tail t) = 3
left_in_pop (Consumer.has_item t) = 2
left_in_pop (Consumer.copied x t) = 1

rank : {A : Type 0} → ℕ → Place → Consumer A → ℕ
rank n Place.popping k = 4 * n + left_in_pop k
rank n Place.failed k = if n == 0 then 2 else 4 * n + 6
rank n Place.checking k = if n == 0 then 1 else 4 * n + 5
rank n Place.exited k = 0

left_in_pop-le : {A : Type 0} (k : Consumer A) → left_in_pop k ≤ 4
left_in_pop-le Consumer.idle = omega arith
left_in_pop-le (Consumer.has_tail t) = omega arith
left_in_pop-le (Consumer.has_item t) = omega arith
left_in_pop-le (Consumer.copied x t) = omega arith

left_in_pop-pos : {A : Type 0} (k : Consumer A) → 0 < left_in_pop k
left_in_pop-pos Consumer.idle = omega arith
left_in_pop-pos (Consumer.has_tail t) = omega arith
left_in_pop-pos (Consumer.has_item t) = omega arith
left_in_pop-pos (Consumer.copied x t) = omega arith

rank-le : {A : Type 0} (n : ℕ) (place : Place) (k : Consumer A) → rank n place k ≤ 4 * n + 6
unfolding rank
rank-le n Place.popping k = omega (arith, left_in_pop-le k)
rank-le n Place.failed k = ground arith
rank-le n Place.checking k = ground arith
rank-le n Place.exited k = omega arith

rank-zero :
    {A : Type 0} (n : ℕ) (place : Place) (k : Consumer A)
    → rank n place k ≤ 0
    → place ≡ Place.exited
unfolding rank
rank-zero n Place.popping k low = absurd (omega (arith, left_in_pop-pos k))
rank-zero n Place.failed k low = absurd (ground arith)
rank-zero n Place.checking k low = absurd (ground arith)
rank-zero n Place.exited k low = refl

abbrev held : {A : Type 0} → System A → ℕ
held s = s.queue.head - s.queue.tail

-- One access inside `try_pop`.
module _ {A : Type 0} (c : ℕ) where
  pop-rank :
      (k : Consumer A) (s : System A)
      → ConsumerKnows c s.queue k
      → s.queue.head < u64
      → rank (held (consume c k s)) (place_after s.queue.head k) (consume c k s).consumer
        ≤ rank (held s) Place.popping k - 1
  unfolding rank consume
  pop-rank Consumer.idle s knows word = omega arith
  pop-rank (Consumer.has_tail t) s knows word = elim (Bool-cases (leb s.queue.head t)) [
    | inl empty ↦
        let none_held : s.queue.head - s.queue.tail ≡ 0 = ground (arith, knows) in
        rw (empty, none_held) (omega arith)
    | inr more ↦ rw more (omega arith)
  ]
  pop-rank (Consumer.has_item t) s knows word = omega arith
  pop-rank (Consumer.copied x t) s (e, more, at) word = omega arith

module _ {A M : Type 0} (c : ℕ) (cap : IsCapacity c) (handle : A → M → M) (all : List A)
    (m : M) where
  abbrev rank_of : Thread A M → ℕ
  rank_of t = rank (held t.system) t.place t.system.consumer

  checking_next : (n : ℕ) (k : Consumer A) → rank n Place.checking k ≤ rank n Place.failed k - 1
  unfolding rank
  checking_next n k = ground arith

  popping_next :
      (n : ℕ) (k : Consumer A) → 0 < n → rank n Place.popping k ≤ rank n Place.checking k - 1
  unfolding rank
  popping_next n k pos = ground (arith, left_in_pop-le k)

  held_some :
      (q : Queue A)
      → q.tail ≤ q.head
      → q.head < u64
      → (available q == 0) ≡ false
      → 0 < q.head - q.tail
  unfolding available
  held_some q below word more = ground arith

  loop_step-rank :
      (place : Place) (t : Thread A M)
      → Inv c handle all m t
      → t.producer_done ≡ true
      → t.place ≡ place
      → rank_of (loop_step c handle place t) ≤ rank (held t.system) place t.system.consumer - 1
  unfolding rank loop_step pop_step
  loop_step-rank Place.popping t inv done at =
      pop-rank c t.system.consumer t.system inv.fifo.consumer_knows inv.fifo.word
  loop_step-rank Place.failed t inv done at =
      subst
        (λ b.
          rank (held t.system) (if b then Place.checking else Place.popping) t.system.consumer
          ≤ rank (held t.system) Place.failed t.system.consumer - 1)
        (sym done) (checking_next (held t.system) t.system.consumer)
  loop_step-rank Place.checking t inv done at = elim (Bool-cases (available t.system.queue == 0)) [
    | inl empty ↦ rw empty (omega arith)
    | inr more ↦ rw more (
        popping_next (held t.system) t.system.consumer
          (held_some t.system.queue inv.fifo.below inv.fifo.word more))
  ]
  loop_step-rank Place.exited t inv done at =
      subst (λ p. rank (held t.system) p t.system.consumer ≤ 0) (sym at) (omega arith)

  done-loop_step :
      (place : Place) (t : Thread A M)
      → (loop_step c handle place t).producer_done ≡ t.producer_done
  unfolding loop_step pop_step
  done-loop_step Place.popping t = refl
  done-loop_step Place.failed t = refl
  done-loop_step Place.checking t = refl
  done-loop_step Place.exited t = refl

-- The consumer alone.
abbrev pub pops : ℕ → List Move
pops zero = []
pops (suc k) = Move.pop ∷ pops k

module _ {A M : Type 0} (c : ℕ) (cap : IsCapacity c) (handle : A → M → M) (all : List A)
    (m : M) where
  drain :
      (fuel : ℕ) (t : Thread A M)
      → Inv c handle all m t
      → t.producer_done ≡ true
      → rank (held t.system) t.place t.system.consumer ≤ fuel
      → (run_moves c handle (pops fuel) t).place ≡ Place.exited
  unfolding run_moves move
  drain zero t inv done low = rank-zero (held t.system) t.place t.system.consumer low
  drain (suc fuel) t inv done low =
      drain fuel (loop_step c handle t.place t)
        (loop_step-Inv c cap handle all m t.place t inv refl)
        (done-loop_step c cap handle all m t.place t ∙ done)
        (omega (arith, low, loop_step-rank c cap handle all m t.place t inv done refl))

-- From any state that an interleaving reaches in which `producer_done` is set, `4 * c + 6` accesses of
-- the consumer alone, for a queue of `c` slots, are enough for it to empty the queue and leave its
-- loop, however many orders there are.
pub pops-exit :
    {A M : Type 0} (c : ℕ) (handle : A → M → M) (orders : List A) (m : M) (slots : ℕ → A)
    (moves : List Move)
    → IsCapacity c
    → count moves < u64
    → (run_moves c handle moves (launch_thread slots orders m)).producer_done ≡ true
    → (run_moves c handle
        (pops (4 * c + 6))
        (run_moves c handle moves (launch_thread slots orders m))).place
      ≡ Place.exited
pops-exit c handle orders m slots moves cap low done =
    let t = run_moves c handle moves (launch_thread slots orders m) in
    let inv =
      run_moves-Inv c cap handle orders m moves (launch_thread slots orders m)
        (launch_thread-Inv c cap handle orders m slots) (omega arith) in
    drain c cap handle orders m (4 * c + 6) t inv done
      (omega (arith, rank-le (held t.system) t.place t.system.consumer, inv.fifo.within))
