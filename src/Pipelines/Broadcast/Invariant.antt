-- ===== src/Pipelines/Broadcast/Invariant.antt =====
-- What holds of the producer and a consumer of include/pipeline.h in every interleaving, and what an
-- access of the producer keeps of it.
use simd_nanoring.Common.{
  ℕ, zero, suc, ◌+◌, ◌≤◌, ◌<◌, ◌≡◌, ◌∙◌, inl, inr, Bool, true, false, List, [], ◌∷◌, ltb, ltb→lt,
  Bool-cases, eq_cases, set, set_self, set_other, arith, ap, ap₂, subst, refl,
}
use simd_nanoring.Common.Word.{u64, add64}
use simd_nanoring.Ring.{slot_of}
use simd_nanoring.Journal.{get_payload}
use simd_nanoring.Pipelines.Broadcast.{Publisher, Reader, Program, Turn, Setup, publish_step, turn}

-- What the consumer knows at its place in the loop.
-- With the number of orders, the published index and the consumer's sequence.
abbrev pub ReaderKnows : ℕ → ℕ → ℕ → Reader → Type 0
ReaderKnows n published seq Reader.polling = Unit
ReaderKnows n published seq (Reader.has_published k) = k ≤ published
ReaderKnows n published seq Reader.rechecking = published ≡ n
ReaderKnows n published seq (Reader.reading k) = k ≤ published
ReaderKnows n published seq Reader.exited = seq ≡ n

module _ {A M : Type 0} where
  -- What the first `k` orders make of the work, one after the other.
  abbrev pub handled : (ℕ → ℕ → A → M → M) → (ℕ → ℕ) → (ℕ → A) → ℕ → M → M
  handled handle now orders zero m = m
  handled handle now orders (suc k) m = handle k (now k) (orders k) (handled handle now orders k m)

  pub handled_next :
      (handle : ℕ → ℕ → A → M → M) (now : ℕ → ℕ) (orders : ℕ → A) (k : ℕ) (m : M)
      → handled handle now orders (k + 1) m
        ≡ handle k (now k) (orders k) (handled handle now orders k m)
  handled_next handle now orders k m =
      ap (λ n. handled handle now orders n m) {x = k + 1} {y = suc k} (omega arith)

  handled-set :
      (handle : ℕ → ℕ → A → M → M) (now : ℕ → ℕ) (orders : ℕ → A) (i : ℕ) (x : A) (k : ℕ) (m : M)
      → k ≤ i
      → handled handle now (set orders i x) k m ≡ handled handle now orders k m
  handled-set handle now orders i x zero m le = refl
  handled-set handle now orders i x (suc k) m le =
      ap₂ (handle k (now k)) (set_other orders i k x (λ e. omega arith))
        (handled-set handle now orders i x k m (omega arith))

  -- What a consumer has made of the first `k` sequences: at each of them it was given an order that
  -- `R` allows there, with the stamp of the sequence.
  pub record Served (R : ℕ → A → Type 0) (s : Setup A M) (m : M) (k : ℕ) (work : M) : Type 0 where
    pub seen : ℕ → A
    pub allowed : (i : ℕ) → i < k → R i (seen i)
    pub made : work ≡ handled s.handle s.now seen k m

  pub Served-next :
      (R : ℕ → A → Type 0) (s : Setup A M) (m : M) (k : ℕ) (work : M) (t : ℕ) (x : A)
      → Served R s m k work
      → R k x
      → t ≡ s.now k
      → Served R s m (k + 1) (s.handle k t x work)
  Served-next R s m k work t x so_far ok stamp = record {
    seen = set so_far.seen k x;
    allowed = λ i below. elim (eq_cases i k) [
      | inl now ↦ rw (now, set_self so_far.seen k x) ok
      | inr before ↦ rw (set_other so_far.seen k i x before) (so_far.allowed i (omega arith))
    ];
    made =
        rw
          (
            handled_next s.handle s.now (set so_far.seen k x) k m,
            set_self so_far.seen k x,
            handled-set s.handle s.now so_far.seen k x k m (omega arith),
            stamp,
            so_far.made,
          )
          refl;
  }

  -- The producer never writes a slot that the consumer has yet to read.
  abbrev pub IsPaced : Setup A M → List Turn → Program A M → Type 0
  IsPaced s [] p = Unit
  IsPaced s (Turn.consume ∷ turns) p = IsPaced s turns (turn s Turn.consume p)
  IsPaced s (Turn.produce ∷ turns) p =
      ((i : ℕ)
        → p.publisher ≡ Publisher.filling i
        → i < s.num_orders
        → i < p.local_seq + s.capacity)
      × IsPaced s turns (turn s Turn.produce p)

  -- Before the copy of the order `i`, `R` allows it at every sequence from `from` on whose slot the
  -- copy overwrites.
  abbrev pub Permits : (ℕ → A → Type 0) → Setup A M → ℕ → Publisher → Type 0
  Permits R s from w =
      (i : ℕ)
      → w ≡ Publisher.filling i
      → i < s.num_orders
      → (k : ℕ) → from ≤ k
      → k < i
      → slot_of s.capacity k ≡ slot_of s.capacity i
      → R k (s.orders i)

  abbrev pub AllPermit : (ℕ → A → Type 0) → Setup A M → List Turn → Program A M → Type 0
  AllPermit R s [] p = Unit
  AllPermit R s (Turn.consume ∷ turns) p = AllPermit R s turns (turn s Turn.consume p)
  AllPermit R s (Turn.produce ∷ turns) p =
      Permits R s p.local_seq p.publisher × AllPermit R s turns (turn s Turn.produce p)

  abbrev pub PublisherKnows : Setup A M → ℕ → Bool → (ℕ → ℕ) → (ℕ → A) → Publisher → Type 0
  PublisherKnows s published done stamps slots (Publisher.stamping i) =
      (i ≡ published) × (i ≤ s.num_orders) × (done ≡ false)
  PublisherKnows s published done stamps slots (Publisher.filling i) =
      (i ≡ published) × (i < s.num_orders) × (done ≡ false) × (stamps i ≡ s.now i)
  PublisherKnows s published done stamps slots (Publisher.copied i) =
      (i ≡ published)
      × (i < s.num_orders)
      × (done ≡ false)
      × (stamps i ≡ s.now i)
      × (slots (slot_of s.capacity i) ≡ s.orders i)
  PublisherKnows s published done stamps slots Publisher.finished =
      (published ≡ s.num_orders) × (done ≡ true)

  pub record Inv (R : ℕ → A → Type 0) (s : Setup A M) (m : M) (p : Program A M) : Type 0 where
    pub behind : p.local_seq ≤ p.journal.published_index
    pub some_left : p.journal.published_index ≤ s.num_orders
    pub kept :
        (k : ℕ)
        → p.local_seq ≤ k
        → k < p.journal.published_index
        → R k (get_payload s.capacity k p.journal)
    pub stamped : (k : ℕ) → k < p.journal.published_index → p.publish_ts k ≡ s.now k
    pub so_far : Served R s m p.local_seq p.work
    pub over : p.producer_done ≡ true → p.journal.published_index ≡ s.num_orders
    pub publisher_knows :
        PublisherKnows s p.journal.published_index p.producer_done p.publish_ts p.journal.journal
          p.publisher
    pub reader_knows : ReaderKnows s.num_orders p.journal.published_index p.local_seq p.reader

  module _ (R : ℕ → A → Type 0) (s : Setup A M) (m : M)
      (own : (i : ℕ) → i < s.num_orders → R i (s.orders i)) (word : s.num_orders < u64) where
    -- A copy into the slot of the next order leaves each slot that is to be read with an order that
    -- is allowed there.
    kept-copy :
        (p : Program A M)
        → Inv R s m p
        → p.journal.published_index < s.num_orders
        → Permits R s p.local_seq (Publisher.filling p.journal.published_index)
        → (k : ℕ) → p.local_seq ≤ k
        → k < p.journal.published_index
        → R k (
            set p.journal.journal
              (slot_of s.capacity p.journal.published_index)
              (s.orders p.journal.published_index)
              (slot_of s.capacity k))
    unfolding get_payload
    kept-copy p inv more permit k from upto =
        let i = p.journal.published_index in
        elim (eq_cases (slot_of s.capacity k) (slot_of s.capacity i)) [
          | inl same ↦
              rw (same, set_self p.journal.journal (slot_of s.capacity i) (s.orders i))
                (permit i refl more k from upto same)
          | inr apart ↦
              rw
                (set_other p.journal.journal (slot_of s.capacity i) (slot_of s.capacity k)
                  (s.orders i) apart)
                (inv.kept k from upto)
        ]

    ReaderKnows-publish :
        {n published seq next : ℕ} (r : Reader)
        → published < n
        → published ≤ next
        → ReaderKnows n published seq r
        → seq ≤ published
        → ReaderKnows n next seq r
    ReaderKnows-publish Reader.polling more up knows low = tt
    ReaderKnows-publish (Reader.has_published k) more up knows low = omega arith
    ReaderKnows-publish Reader.rechecking more up knows low = absurd (omega arith)
    ReaderKnows-publish (Reader.reading k) more up knows low = omega arith
    ReaderKnows-publish Reader.exited more up knows low = absurd (omega arith)

    -- The consumer moves on, and nothing else changes.
    pub moved :
        (p : Program A M)
        → Inv R s m p
        → (r : Reader) → ReaderKnows s.num_orders p.journal.published_index p.local_seq r
        → Inv R s m (record p { reader = r })
    moved p inv r knows = record {
      behind = inv.behind;
      some_left = inv.some_left;
      kept = inv.kept;
      stamped = inv.stamped;
      so_far = inv.so_far;
      over = inv.over;
      publisher_knows = inv.publisher_knows;
      reader_knows = knows;
    }

    pub publish_step-Inv :
        (w : Publisher) (p : Program A M)
        → Inv R s m p
        → PublisherKnows s p.journal.published_index p.producer_done p.publish_ts p.journal.journal
            w
        → Permits R s p.local_seq w
        → Inv R s m (publish_step s.capacity s.now s.orders s.num_orders w p)
    unfolding publish_step get_payload
    publish_step-Inv (Publisher.stamping i) p inv (e, le, not_done) near =
        elim (Bool-cases (ltb i s.num_orders)) [
          | inl more ↦ rw more (record {
            behind = inv.behind;
            some_left = inv.some_left;
            kept = inv.kept;
            stamped = λ k upto.
                set_other p.publish_ts i k (s.now i) (λ q. omega arith) ∙ inv.stamped k upto;
            so_far = inv.so_far;
            over = inv.over;
            publisher_knows =
                (e, ltb→lt i s.num_orders more, not_done, set_self p.publish_ts i (s.now i));
            reader_knows = inv.reader_knows;
          })
          | inr none_left ↦ rw none_left (record {
            behind = inv.behind;
            some_left = inv.some_left;
            kept = inv.kept;
            stamped = inv.stamped;
            so_far = inv.so_far;
            over = λ done. ground arith;
            publisher_knows = (ground arith, refl);
            reader_knows = inv.reader_knows;
          })
        ]
    publish_step-Inv (Publisher.filling i) p inv (e, lt, not_done, stamp) near = rw e (record {
      behind = inv.behind;
      some_left = inv.some_left;
      kept =
          kept-copy p inv (omega arith)
            (subst (λ k. Permits R s p.local_seq (Publisher.filling k)) e near);
      stamped = inv.stamped;
      so_far = inv.so_far;
      over = inv.over;
      publisher_knows =
          (refl, omega arith, not_done, rw (← e) stamp, set_self p.journal.journal _ _);
      reader_knows = inv.reader_knows;
    })
    publish_step-Inv (Publisher.copied i) p inv (e, lt, not_done, stamp, stored) near =
        let next : add64 i 1 ≡ suc i = omega arith in
        rw next (record {
          behind = omega (arith, inv.behind);
          some_left = omega arith;
          kept = λ k from upto. elim (eq_cases k i) [
            | inl now ↦ rw (now, stored) (own i lt)
            | inr before ↦ inv.kept k from (omega arith)
          ];
          stamped = λ k upto. elim (eq_cases k i) [
            | inl now ↦ rw now stamp
            | inr before ↦ inv.stamped k (omega arith)
          ];
          so_far = inv.so_far;
          over = λ done. cc (not_done, done);
          publisher_knows = (omega arith, omega arith, not_done);
          reader_knows =
              ReaderKnows-publish p.reader (omega arith) (omega arith) inv.reader_knows inv.behind;
        })
    publish_step-Inv Publisher.finished p inv knows near = inv

    pub reported :
        (p : Program A M)
        → Inv R s m p
        → Inv R s m (record p { journal = record p.journal { min_consumer_seq = p.local_seq } })
    unfolding get_payload
    reported p inv = record {
      behind = inv.behind;
      some_left = inv.some_left;
      kept = inv.kept;
      stamped = inv.stamped;
      so_far = inv.so_far;
      over = inv.over;
      publisher_knows = inv.publisher_knows;
      reader_knows = inv.reader_knows;
    }
