-- ===== src/Pipelines/Broadcast/Safety.antt =====
-- A consumer of the journal of include/pipeline.h that leaves its loop has handled every order, each
-- once and in order.
use simd_nanoring.Common.{
  zero, suc, ℕ, ◌+◌, ◌%◌, ◌≤◌, ◌<◌, ◌≡◌, ◌∙◌, inl, inr, true, List, [], ◌∷◌, ltb, leb, ltb→lt,
  subst, if◌then◌else◌, Bool-cases, arith, ap₂, sym, refl,
}
use simd_nanoring.Common.Word.{u64}
use simd_nanoring.Ring.{IsCapacity}
use simd_nanoring.Ring.Contents.{slot-ne}
use simd_nanoring.Journal.{get_payload, report_consumer_progress}
use simd_nanoring.Pipelines.Broadcast.{Reader, Program, Turn, Setup, read_step, turn, run, launch}
use simd_nanoring.Pipelines.Broadcast.Invariant.{
  handled, Served, Served-next, IsPaced, AllPermit, ReaderKnows, Inv, publish_step-Inv, moved,
  reported,
}

-- Any order at all.
abbrev pub Anything : {A : Type 0} → ℕ → A → Type 0
Anything k x = Unit

module _ {A M : Type 0} where
  module _ (R : ℕ → A → Type 0) (s : Setup A M) (m : M)
      (own : (i : ℕ) → i < s.num_orders → R i (s.orders i)) (word : s.num_orders < u64) where
    pub read_step-Inv :
        (r : Reader) (p : Program A M)
        → Inv R s m p
        → ReaderKnows s.num_orders p.journal.published_index p.local_seq r
        → p.reader ≡ r
        → Inv R s m (read_step s.capacity s.handle true r p)
    unfolding read_step get_payload report_consumer_progress
    read_step-Inv Reader.polling p inv knows at =
        moved R s m own word p inv (Reader.has_published p.journal.published_index) (omega arith)
    read_step-Inv (Reader.has_published k) p inv knows at = elim (Bool-cases (leb k p.local_seq)) [
      | inr more ↦ rw more (moved R s m own word p inv (Reader.reading k) knows)
      | inl caught_up ↦ rw caught_up (elim (Bool-cases p.producer_done) [
        | inl done ↦
            subst
              (λ b. Inv R s m (
                if b
                then record p { reader = Reader.rechecking }
                else record p { reader = Reader.polling }))
              (sym done) (moved R s m own word p inv Reader.rechecking (inv.over done))
        | inr not_done ↦
            subst
              (λ b. Inv R s m (
                if b
                then record p { reader = Reader.rechecking }
                else record p { reader = Reader.polling }))
              (sym not_done) (moved R s m own word p inv Reader.polling tt)
      ])
    ]
    read_step-Inv Reader.rechecking p inv knows at =
        elim (Bool-cases (leb p.journal.published_index p.local_seq)) [
          | inl caught_up ↦
              rw caught_up (moved R s m own word p inv Reader.exited (ground (arith, inv.behind)))
          | inr more ↦ rw more (moved R s m own word p inv Reader.polling tt)
        ]
    read_step-Inv (Reader.reading k) p inv knows at = elim (Bool-cases (ltb p.local_seq k)) [
      | inl more ↦
          let inside : p.local_seq < k = ltb→lt p.local_seq k more in
          rw more (record {
            behind = omega arith;
            some_left = inv.some_left;
            kept = λ n from upto. inv.kept n (omega arith) upto;
            stamped = inv.stamped;
            so_far =
                Served-next R s m p.local_seq p.work (p.publish_ts p.local_seq)
                  (get_payload s.capacity p.local_seq p.journal) inv.so_far
                  (inv.kept p.local_seq (omega arith) (omega arith))
                  (inv.stamped p.local_seq (omega arith));
            over = inv.over;
            publisher_knows = inv.publisher_knows;
            reader_knows =
                subst (ReaderKnows s.num_orders p.journal.published_index (p.local_seq + 1))
                  (sym at) knows;
          })
      | inr done ↦ rw done (elim (Bool-cases (ltb p.journal.min_consumer_seq p.local_seq)) [
        | inl farther ↦ rw farther (
            moved R s m own word
              (record p { journal = record p.journal { min_consumer_seq = p.local_seq } })
              (reported R s m own word p inv) Reader.polling tt)
        | inr behind ↦ rw behind (moved R s m own word p inv Reader.polling tt)
      ])
    ]
    read_step-Inv Reader.exited p inv knows at = inv

    turn-Inv :
        (t : Turn) (turns : List Turn) (p : Program A M)
        → s.rechecks ≡ true
        → AllPermit R s (t ∷ turns) p
        → Inv R s m p
        → Inv R s m (turn s t p)
    unfolding turn
    turn-Inv Turn.produce turns p checks (near, _) inv =
        publish_step-Inv R s m own word p.publisher p inv inv.publisher_knows near
    turn-Inv Turn.consume turns p checks paced inv =
        subst (λ b. Inv R s m (read_step s.capacity s.handle b p.reader p)) (sym checks)
          (read_step-Inv p.reader p inv inv.reader_knows refl)

    pub run-Inv :
        (turns : List Turn) (p : Program A M)
        → s.rechecks ≡ true
        → AllPermit R s turns p
        → Inv R s m p
        → Inv R s m (run s turns p)
    unfolding run
    run-Inv [] p checks paced inv = inv
    run-Inv (Turn.produce ∷ turns) p checks (near, paced) inv =
        run-Inv turns (turn s Turn.produce p) checks paced
          (turn-Inv Turn.produce turns p checks (near, paced) inv)
    run-Inv (Turn.consume ∷ turns) p checks paced inv =
        run-Inv turns (turn s Turn.consume p) checks paced
          (turn-Inv Turn.consume turns p checks paced inv)

    launch-Inv : (slots : ℕ → A) → Inv R s m (launch slots m)
    launch-Inv slots = record {
      behind = omega arith;
      some_left = omega arith;
      kept = λ k from upto. absurd (omega arith);
      stamped = λ k upto. absurd (omega arith);
      so_far = record { seen = slots; allowed = λ i below. absurd (omega arith); made = refl };
      over = λ done. cc (done);
      publisher_knows = (refl, omega arith, refl);
      reader_knows = tt;
    }

    pub reached-Inv :
        (slots : ℕ → A) (turns : List Turn)
        → s.rechecks ≡ true
        → AllPermit R s turns (launch slots m)
        → Inv R s m (run s turns (launch slots m))
    reached-Inv slots turns checks permitted =
        run-Inv turns (launch slots m) checks permitted (launch-Inv slots)

    pub exited-Served :
        (p : Program A M)
        → Inv R s m p
        → p.reader ≡ Reader.exited
        → Served R s m s.num_orders p.work
    exited-Served p inv left =
        let all : p.local_seq ≡ s.num_orders =
          subst (ReaderKnows s.num_orders p.journal.published_index p.local_seq) left
            inv.reader_knows in
        subst (λ k. Served R s m k p.work) all inv.so_far

  -- The order is at its own sequence.
  abbrev Exact : Setup A M → ℕ → A → Type 0
  Exact s k x = x ≡ s.orders k

  -- The order is one of the run, at this sequence or a whole number of laps of the ring later.
  pub record IsLap (s : Setup A M) (k : ℕ) (x : A) : Type 0 where
    pub at : ℕ
    pub later : k ≤ at
    pub within : at < s.num_orders
    pub laps : k % s.capacity ≡ at % s.capacity
    pub order : x ≡ s.orders at

  Anything-AllPermit :
      (s : Setup A M) (turns : List Turn) (p : Program A M) → AllPermit Anything s turns p
  Anything-AllPermit s [] p = tt
  Anything-AllPermit s (Turn.consume ∷ turns) p = Anything-AllPermit s turns (turn s Turn.consume p)
  Anything-AllPermit s (Turn.produce ∷ turns) p =
      (λ i at below k from upto same. tt, Anything-AllPermit s turns (turn s Turn.produce p))

  IsPaced-AllPermit :
      (s : Setup A M)
      → IsCapacity s.capacity
      → (turns : List Turn) (p : Program A M) → IsPaced s turns p
      → AllPermit (Exact s) s turns p
  IsPaced-AllPermit s cap [] p paced = tt
  IsPaced-AllPermit s cap (Turn.consume ∷ turns) p paced =
      IsPaced-AllPermit s cap turns (turn s Turn.consume p) paced
  IsPaced-AllPermit s cap (Turn.produce ∷ turns) p (near, paced) = (
    λ i at below k from upto same.
        let room : i < p.local_seq + s.capacity = near i at below in
        absurd (slot-ne s.capacity cap k i upto (omega arith) same),
    IsPaced-AllPermit s cap turns (turn s Turn.produce p) paced,
  )

  handled-Exact :
      (s : Setup A M) (seen : ℕ → A) (m : M) (k : ℕ)
      → ((i : ℕ) → i < k → Exact s i (seen i))
      → handled s.handle s.now seen k m ≡ handled s.handle s.now s.orders k m
  handled-Exact s seen m zero exact = refl
  handled-Exact s seen m (suc k) exact =
      ap₂ (s.handle k (s.now k)) (exact k (omega arith))
        (handled-Exact s seen m k (λ i below. exact i (omega arith)))

  -- In any reached state, whatever the consumer is given.
  pub any-Inv :
      (s : Setup A M) (m : M) (slots : ℕ → A) (turns : List Turn)
      → s.num_orders < u64
      → s.rechecks ≡ true
      → Inv Anything s m (run s turns (launch slots m))
  any-Inv s m slots turns word checks =
      reached-Inv Anything s m (λ i below. tt) word slots turns checks
        (Anything-AllPermit s turns (launch slots m))

-- If the producer, moreover, never writes a slot that the consumer has yet to read, each of those
-- orders is that of its sequence.
pub run-handled :
    {A M : Type 0} (s : Setup A M) (m : M) (slots : ℕ → A) (turns : List Turn)
    → IsCapacity s.capacity
    → s.num_orders < u64
    → s.rechecks ≡ true
    → IsPaced s turns (launch slots m)
    → (run s turns (launch slots m)).reader ≡ Reader.exited
    → (run s turns (launch slots m)).work ≡ handled s.handle s.now s.orders s.num_orders m
run-handled s m slots turns cap word checks paced left =
    let served =
      exited-Served (Exact s) s m (λ i below. refl) word (run s turns (launch slots m))
        (reached-Inv (Exact s) s m (λ i below. refl) word slots turns checks
          (IsPaced-AllPermit s cap turns (launch slots m) paced))
        left in
    served.made ∙ handled-Exact s served.seen m s.num_orders served.allowed

-- A run of no more orders than the ring has slots is paced, whatever the interleaving.
pub few-IsPaced :
    {A M : Type 0} (s : Setup A M) (turns : List Turn) (p : Program A M)
    → s.num_orders ≤ s.capacity
    → IsPaced s turns p
few-IsPaced s [] p few = tt
few-IsPaced s (Turn.consume ∷ turns) p few = few-IsPaced s turns _ few
few-IsPaced s (Turn.produce ∷ turns) p few = ((λ i at more. omega arith), few-IsPaced s turns _ few)
