-- ===== src/Pipelines/Broadcast/Live.antt =====
-- Once the producer has finished, the consumer leaves its loop.
use simd_nanoring.Common.{
  ℕ, zero, suc, ◌+◌, ◌-◌, ◌*◌, ◌≤◌, ◌<◌, ◌≡◌, ◌∙◌, inl, inr, true, List, [], ◌∷◌, ltb, leb,
  if◌then◌else◌, Bool-cases, arith, sym, subst, refl, ltb→lt,
}
use simd_nanoring.Common.Word.{u64}
use simd_nanoring.Journal.{report_consumer_progress}
use simd_nanoring.Pipelines.Broadcast.{
  Publisher, Reader, Program, Turn, Setup, read_step, turn, run, launch,
}
use simd_nanoring.Pipelines.Broadcast.Invariant.{Inv, PublisherKnows, ReaderKnows}
use simd_nanoring.Pipelines.Broadcast.Safety.{any-Inv, Anything, read_step-Inv}

-- A bound on the accesses that the consumer still makes, with `n` orders published and `seq` read.
rank : ℕ → ℕ → Reader → ℕ
rank n seq Reader.exited = 0
rank n seq Reader.rechecking = if leb n seq then 1 else 4 * (n - seq) + 5
rank n seq (Reader.has_published k) =
    if leb n seq then 2 else if leb k seq then 4 * (n - seq) + 6 else 4 * (n - seq) + 3
rank n seq Reader.polling = if leb n seq then 3 else 4 * (n - seq) + 4
rank n seq (Reader.reading k) =
    if leb n seq then 4 else if leb k seq then 4 * (n - seq) + 5 else 4 * (n - seq) + 2

rank-le : (n seq : ℕ) (r : Reader) → rank n seq r ≤ 4 * n + 6
unfolding rank
rank-le n seq Reader.exited = omega arith
rank-le n seq Reader.rechecking = ground arith
rank-le n seq (Reader.has_published k) = ground arith
rank-le n seq Reader.polling = ground arith
rank-le n seq (Reader.reading k) = ground arith

rank-zero : (n seq : ℕ) (r : Reader) → rank n seq r ≤ 0 → r ≡ Reader.exited
unfolding rank
rank-zero n seq Reader.exited low = refl
rank-zero n seq Reader.rechecking low = absurd (ground arith)
rank-zero n seq (Reader.has_published k) low = absurd (ground arith)
rank-zero n seq Reader.polling low = absurd (ground arith)
rank-zero n seq (Reader.reading k) low = absurd (ground arith)

reading-rank :
    (n k seq : ℕ)
    → seq < k
    → k ≤ n
    → rank n (seq + 1) (Reader.reading k) ≤ rank n seq (Reader.reading k) - 1
unfolding rank
reading-rank n k seq inside le = ground arith

module _ {A M : Type 0} (c : ℕ) (handle : ℕ → ℕ → A → M → M) where
  abbrev rank_of : ℕ → Program A M → ℕ
  rank_of n p = rank n p.local_seq p.reader

  read_step-rank :
      (n : ℕ) (r : Reader) (p : Program A M)
      → p.journal.published_index ≡ n
      → p.producer_done ≡ true
      → p.local_seq ≤ n
      → ReaderKnows n n p.local_seq r
      → p.reader ≡ r
      → rank_of n (read_step c handle true r p) ≤ rank n p.local_seq r - 1
  unfolding rank read_step report_consumer_progress
  read_step-rank n Reader.polling p e done le knows at = ground arith
  read_step-rank n (Reader.has_published k) p e done le knows at =
      elim (Bool-cases (leb k p.local_seq)) [
        | inl caught_up ↦ rw (caught_up, done) (ground arith)
        | inr more ↦ rw more (ground arith)
      ]
  read_step-rank n Reader.rechecking p e done le knows at =
      elim (Bool-cases (leb p.journal.published_index p.local_seq)) [
        | inl caught_up ↦ rw caught_up (ground arith)
        | inr more ↦ rw more (ground arith)
      ]
  read_step-rank n (Reader.reading k) p e done le knows at = elim (Bool-cases (ltb p.local_seq k)) [
    | inl more ↦ rw more (
        subst (λ r. rank n (p.local_seq + 1) r ≤ rank n p.local_seq (Reader.reading k) - 1) (sym at)
          (reading-rank n k p.local_seq (ltb→lt p.local_seq k more) knows))
    | inr caught_up ↦ rw caught_up (ground arith)
  ]
  read_step-rank n Reader.exited p e done le knows at =
      subst (λ r. rank n p.local_seq r ≤ 0) (sym at) (omega arith)

  publisher-read_step :
      (r : Reader) (p : Program A M) → (read_step c handle true r p).publisher ≡ p.publisher
  unfolding read_step
  publisher-read_step Reader.polling p = refl
  publisher-read_step (Reader.has_published k) p = ground arith
  publisher-read_step Reader.rechecking p = refl
  publisher-read_step (Reader.reading k) p = ground arith
  publisher-read_step Reader.exited p = refl

-- The consumer alone.
abbrev pub consumes : ℕ → List Turn
consumes zero = []
consumes (suc k) = Turn.consume ∷ consumes k

module _ {A M : Type 0} (s : Setup A M) (m : M) (word : s.num_orders < u64)
    (checks : s.rechecks ≡ true) where
  consume-finished :
      (p : Program A M)
      → Inv Anything s m p
      → p.publisher ≡ Publisher.finished
      → Inv Anything s m (turn s Turn.consume p)
        × ((turn s Turn.consume p).publisher ≡ Publisher.finished)
        × (rank s.num_orders (turn s Turn.consume p).local_seq (turn s Turn.consume p).reader
            ≤ rank s.num_orders p.local_seq p.reader - 1)
  unfolding turn
  consume-finished p inv over =
      let settled : (p.journal.published_index ≡ s.num_orders) × (p.producer_done ≡ true) =
        subst
          (PublisherKnows s p.journal.published_index p.producer_done p.publish_ts
            p.journal.journal)
          over inv.publisher_knows in
      let knows : ReaderKnows s.num_orders s.num_orders p.local_seq p.reader =
        subst (λ k. ReaderKnows s.num_orders k p.local_seq p.reader) settled.0 inv.reader_knows in
      subst
        (λ b.
          Inv Anything s m (read_step s.capacity s.handle b p.reader p)
          × ((read_step s.capacity s.handle b p.reader p).publisher ≡ Publisher.finished)
          × (rank s.num_orders (read_step s.capacity s.handle b p.reader p).local_seq
                (read_step s.capacity s.handle b p.reader p).reader
              ≤ rank s.num_orders p.local_seq p.reader - 1))
        (sym checks)
        (
          read_step-Inv Anything s m (λ i below. tt) word p.reader p inv inv.reader_knows refl,
          publisher-read_step s.capacity s.handle p.reader p ∙ over,
          read_step-rank s.capacity s.handle s.num_orders p.reader p settled.0 settled.1
              (omega (arith, inv.behind, inv.some_left)) knows refl,
        )

  drain :
      (fuel : ℕ) (p : Program A M)
      → Inv Anything s m p
      → p.publisher ≡ Publisher.finished
      → rank s.num_orders p.local_seq p.reader ≤ fuel
      → (run s (consumes fuel) p).reader ≡ Reader.exited
  unfolding run
  drain zero p inv over low = rank-zero s.num_orders p.local_seq p.reader low
  drain (suc fuel) p inv over low =
      let (inv', over', less) = consume-finished p inv over in
      drain fuel (turn s Turn.consume p) inv' over' (omega (arith, low, less))

-- From any state that an interleaving reaches in which the producer has finished, however far it ran
-- ahead of the consumer, `4 * num_orders + 6` accesses of the consumer alone are enough for it to leave
-- its loop, if it is one that loads the index again before it leaves. The number of orders fits in 64
-- bits.
pub drains :
    {A M : Type 0} (s : Setup A M) (m : M) (slots : ℕ → A) (turns : List Turn)
    → s.num_orders < u64
    → s.rechecks ≡ true
    → (run s turns (launch slots m)).publisher ≡ Publisher.finished
    → (run s (consumes (4 * s.num_orders + 6)) (run s turns (launch slots m))).reader
      ≡ Reader.exited
drains s m slots turns word checks over =
    let p = run s turns (launch slots m) in
    drain s m word checks (4 * s.num_orders + 6) p (any-Inv s m slots turns word checks) over
      (rank-le s.num_orders p.local_seq p.reader)
