-- ===== src/Pipelines/Routed/Safety.antt =====
-- A consumer of include/routed_pipeline.h that leaves its loop has handled every order of its queue.
use mathlib.Core.List.{append-nil}
use simd_nanoring.Common.{
  ℕ, ◌+◌, ◌-◌, ◌≤◌, ◌<◌, ◌≡◌, ◌∙◌, inl, inr, false, List, [], ◌∷◌, ◌++◌, ◌==◌, if◌then◌else◌,
  Bool-cases, ==_iff, arith, ap, sym, refl, subst,
}
use simd_nanoring.Common.Word.{u64}
use simd_nanoring.Ring.{IsCapacity}
use simd_nanoring.Ring.Contents.{contents}
use simd_nanoring.SpscQueue.{available}
use simd_nanoring.SpscQueue.Threads.{produce-IsFifo, consume-IsFifo, head-produce, head-consume}
use simd_nanoring.Pipelines.Routed.{
  Place, Thread, Move, push_step, work_after, pop_step, loop_step, move, run_moves, launch_thread,
}
use simd_nanoring.Pipelines.Routed.Invariant.{
  count, worked, PushKnows, PlaceKnows, Inv, got-produce, sent-consume, producer-consume,
  sent-produce, PushKnows-produce, PlaceKnows-push, place_after-knows, work_after-consume,
}

module _ {A M : Type 0} (c : ℕ) (cap : IsCapacity c) (handle : A → M → M) (all : List A)
    (m : M) where
  push_step-Inv :
      (pending : List A) (t : Thread A M)
      → Inv c handle all m t
      → t.pending ≡ pending
      → t.system.queue.head + 1 < u64
      → Inv c handle all m (push_step c t.system.producer pending t)
  unfolding push_step
  push_step-Inv [] t inv at low = record {
    fifo = inv.fifo;
    split = inv.split;
    so_far = inv.so_far;
    over = λ done. at;
    push_knows = inv.push_knows;
    place_knows = inv.place_knows;
  }
  push_step-Inv (x ∷ rest) t inv at low =
      let knows : PushKnows t.system.producer (x ∷ rest) =
        subst (PushKnows t.system.producer) at inv.push_knows in
      record {
        fifo =
            produce-IsFifo c cap false x t.system.producer t.system inv.fifo refl low
              inv.fifo.producer_knows;
        split =
            sent-produce c t.system.producer t.system x rest knows
            ∙ ap (λ xs. t.system.sent ++ xs) (sym at)
            ∙ inv.split;
        so_far =
            inv.so_far
            ∙ ap (λ xs. worked handle xs m) (sym (got-produce c x t.system.producer t.system));
        over = λ done. cc (inv.over done, at);
        push_knows = PushKnows-produce c t.system.producer t.system x rest refl knows;
        place_knows =
            PlaceKnows-push all x rest _ t.system.got _ t.place
              (subst (λ xs. PlaceKnows all xs t.system.got t.place) at inv.place_knows)
              (got-produce c x t.system.producer t.system);
      }

  pop_step-Inv :
      (t : Thread A M)
      → Inv c handle all m t
      → Inv c handle all m (pop_step c handle t.system.consumer t)
  unfolding pop_step
  pop_step-Inv t inv =
      let k = t.system.consumer in
      record {
        fifo = consume-IsFifo c cap k t.system inv.fifo inv.fifo.consumer_knows;
        split = ap (λ xs. xs ++ t.pending) (sent-consume c k t.system) ∙ inv.split;
        so_far = ap (work_after handle k) inv.so_far ∙ work_after-consume c handle m k t.system;
        over = inv.over;
        push_knows =
            subst (λ p. PushKnows p t.pending) (sym (producer-consume c k t.system)) inv.push_knows;
        place_knows = place_after-knows all t.pending _ t.system.queue.head k;
      }

  -- The consumer moves on, and nothing else changes.
  at_place :
      (t : Thread A M) (place : Place)
      → Inv c handle all m t
      → PlaceKnows all t.pending t.system.got place
      → Inv c handle all m (record t { place = place })
  at_place t place inv knows = record {
    fifo = inv.fifo;
    split = inv.split;
    so_far = inv.so_far;
    over = inv.over;
    push_knows = inv.push_knows;
    place_knows = knows;
  }

  -- An empty queue with nothing pending: everything has been popped.
  all_popped :
      (t : Thread A M)
      → Inv c handle all m t
      → t.pending ≡ []
      → available t.system.queue ≡ 0
      → t.system.got ≡ all
  unfolding available
  all_popped t inv nothing empty =
      let level : t.system.queue.head - t.system.queue.tail ≡ 0 =
        omega (arith, inv.fifo.below, inv.fifo.word) in
      sym (append-nil t.system.got)
      ∙ ap (λ n. t.system.got ++ contents c t.system.queue.slots t.system.queue.tail n) (sym level)
      ∙ sym inv.fifo.fifo
      ∙ sym (append-nil t.system.sent)
      ∙ ap (λ xs. t.system.sent ++ xs) (sym nothing)
      ∙ inv.split

  pub loop_step-Inv :
      (place : Place) (t : Thread A M)
      → Inv c handle all m t
      → t.place ≡ place
      → Inv c handle all m (loop_step c handle place t)
  unfolding loop_step
  loop_step-Inv Place.popping t inv at = pop_step-Inv t inv
  loop_step-Inv Place.failed t inv at =
      at_place t (if t.producer_done then Place.checking else Place.popping) inv
        (elim (Bool-cases t.producer_done) [
          | inl done ↦
              subst
                (λ b.
                  PlaceKnows all t.pending t.system.got
                    (if b then Place.checking else Place.popping))
                (sym done) (inv.over done)
          | inr not_done ↦
              subst
                (λ b.
                  PlaceKnows all t.pending t.system.got
                    (if b then Place.checking else Place.popping))
                (sym not_done) tt
        ])
  loop_step-Inv Place.checking t inv at =
      let nothing : t.pending ≡ [] =
        subst (PlaceKnows all t.pending t.system.got) at inv.place_knows in
      elim (Bool-cases (available t.system.queue == 0)) [
        | inl empty ↦
            rw empty (at_place t Place.exited inv (all_popped t inv nothing ((==_iff _ _).0 empty)))
        | inr more ↦ rw more (at_place t Place.popping inv tt)
      ]
  loop_step-Inv Place.exited t inv at = inv

  head-push_step :
      (pending : List A) (t : Thread A M)
      → Inv c handle all m t
      → (push_step c t.system.producer pending t).system.queue.head ≤ t.system.queue.head + 1
  unfolding push_step
  head-push_step [] t inv = omega arith
  head-push_step (x ∷ rest) t inv =
      head-produce c cap false x t.system.producer t.system inv.fifo.producer_knows

  head-loop_step :
      (place : Place) (t : Thread A M)
      → (loop_step c handle place t).system.queue.head ≡ t.system.queue.head
  unfolding loop_step pop_step
  head-loop_step Place.popping t = head-consume c cap t.system.consumer t.system
  head-loop_step Place.failed t = refl
  head-loop_step Place.checking t = refl
  head-loop_step Place.exited t = refl

  pub run_moves-Inv :
      (moves : List Move) (t : Thread A M)
      → Inv c handle all m t
      → t.system.queue.head + count moves < u64
      → Inv c handle all m (run_moves c handle moves t)
  unfolding run_moves move
  run_moves-Inv [] t inv low = inv
  run_moves-Inv (Move.push ∷ moves) t inv low =
      run_moves-Inv moves (push_step c t.system.producer t.pending t)
        (push_step-Inv t.pending t inv refl (omega arith))
        (omega (arith, head-push_step t.pending t inv))
  run_moves-Inv (Move.pop ∷ moves) t inv low =
      run_moves-Inv moves (loop_step c handle t.place t) (loop_step-Inv t.place t inv refl)
        (omega (arith, head-loop_step t.place t))

  pub launch_thread-Inv : (slots : ℕ → A) → Inv c handle all m (launch_thread slots all m)
  launch_thread-Inv slots = record {
    fifo = record {
      below = omega arith;
      within = omega arith;
      word = omega arith;
      fifo = refl;
      producer_knows = tt;
      consumer_knows = tt;
    };
    split = refl;
    so_far = refl;
    over = λ done. cc (done);
    push_knows = tt;
    place_knows = tt;
  }

-- A consumer of the routed pipeline that has left its loop has handled every order that the producer
-- pushes to its queue, each once and in the order of the pushes, whatever the interleaving of the
-- two, if it is short enough for the counters not to wrap.
pub run_moves-worked :
    {A M : Type 0} (c : ℕ) (cap : IsCapacity c) (handle : A → M → M) (orders : List A) (m : M)
    (slots : ℕ → A) (moves : List Move)
    → count moves < u64
    → (run_moves c handle moves (launch_thread slots orders m)).place ≡ Place.exited
    → (run_moves c handle moves (launch_thread slots orders m)).work ≡ worked handle orders m
run_moves-worked c cap handle orders m slots moves low left =
    let t = run_moves c handle moves (launch_thread slots orders m) in
    let inv =
      run_moves-Inv c cap handle orders m moves (launch_thread slots orders m)
        (launch_thread-Inv c cap handle orders m slots) (omega arith) in
    inv.so_far
    ∙ ap (λ xs. worked handle xs m)
        (subst (PlaceKnows orders t.pending t.system.got) left inv.place_knows)
