-- ===== src/Journal/Intact.antt =====
-- Backpressure keeps what a consumer may still read.
use Prim.Native.Nat.{max}
use simd_nanoring.Common.{
  ℕ, suc, ◌+◌, ◌≤◌, ◌<◌, ◌≡◌, ◌∙◌, inl, inr, List, [], ◌∷◌, ltb, leb, if◌then◌else◌, Bool-cases,
  eq_cases, set, set_self, set_other, arith, ap, sym,
}
use simd_nanoring.Common.Word.{u64, add64, sub64}
use simd_nanoring.Ring.{IsCapacity, slot_of}
use simd_nanoring.Ring.Contents.{slot-ne, capacity-le}
use simd_nanoring.Journal.{
  Journal, Event, publish, try_publish, report_consumer_progress, get_payload, happen, happen_all,
}

module _ {A : Type 0} where
  -- The number of events, and of those that can publish.
  abbrev pub count : List (Event A) → ℕ
  count [] = 0
  count (e ∷ events) = suc (count events)

  -- The item of each sequence number, with one more at the published index when the journal takes
  -- it.
  abbrev pub logged : ℕ → Event A → Journal A → (ℕ → A) → ℕ → A
  logged c (Event.offer x) j log =
      if (try_publish c j.published_index x j).0 then set log j.published_index x else log
  logged c (Event.report k) j log = log

  abbrev pub logged_all : ℕ → List (Event A) → Journal A → (ℕ → A) → ℕ → A
  logged_all c [] j log = log
  logged_all c (e ∷ events) j log = logged_all c events (happen c e j) (logged c e j log)

  -- No consumer reports more than is published when it does.
  abbrev pub IsHonest : ℕ → List (Event A) → Journal A → Type 0
  IsHonest c [] j = Unit
  IsHonest c (Event.offer x ∷ events) j = IsHonest c events (happen c (Event.offer x) j)
  IsHonest c (Event.report k ∷ events) j =
      (k ≤ j.published_index) × IsHonest c events (happen c (Event.report k) j)

  -- The producer is at most a capacity ahead of the reported sequence, and every item from there
  -- on is in its slot.
  pub record IsIntact (c : ℕ) (log : ℕ → A) (j : Journal A) : Type 0 where
    pub below : j.min_consumer_seq ≤ j.published_index
    pub ahead : j.published_index ≤ j.min_consumer_seq + c
    pub word : j.published_index < u64
    pub kept : (n : ℕ) → j.min_consumer_seq ≤ n → n < j.published_index → get_payload c n j ≡ log n

  module _ (c : ℕ) (cap : IsCapacity c) where
    offer-IsIntact :
        (x : A) (j : Journal A) (log : ℕ → A)
        → IsIntact c log j
        → j.published_index + 1 < u64
        → IsIntact c (logged c (Event.offer x) j log) (happen c (Event.offer x) j)
    unfolding happen try_publish publish get_payload
    offer-IsIntact x j log intact low =
        elim (Bool-cases (leb c (sub64 j.published_index j.min_consumer_seq))) [
          | inl full ↦ rw (full, happen) intact
          | inr room ↦
              let next : add64 j.published_index 1 ≡ j.published_index + 1 = omega arith in
              let near : j.published_index < j.min_consumer_seq + c =
                ground (arith, intact.below, intact.word, capacity-le c cap) in
              rw (room, happen)
                (record {
                  below = omega (arith, intact.below);
                  ahead = omega arith;
                  word = omega arith;
                  kept = λ n from upto. kept' n from upto near;
                })
        ]
      where
        kept' :
            (n : ℕ)
            → j.min_consumer_seq ≤ n
            → n < add64 j.published_index 1
            → j.published_index < j.min_consumer_seq + c
            → set j.journal (slot_of c j.published_index) x (slot_of c n)
              ≡ set log j.published_index x n
        kept' n from upto near = elim (eq_cases n j.published_index) [
          | inl now ↦
              ap (λ k. set j.journal (slot_of c j.published_index) x (slot_of c k)) now
              ∙ set_self j.journal (slot_of c j.published_index) x
              ∙ sym (ap (set log j.published_index x) now ∙ set_self log j.published_index x)
          | inr before ↦
              let older : n < j.published_index = omega arith in
              set_other j.journal _ _ x (slot-ne c cap n j.published_index older (omega arith))
              ∙ intact.kept n from older
              ∙ sym (set_other log j.published_index n x before)
        ]

    report-IsIntact :
        (k : ℕ) (j : Journal A) (log : ℕ → A)
        → IsIntact c log j
        → k ≤ j.published_index
        → IsIntact c log (happen c (Event.report k) j)
    unfolding happen report_consumer_progress get_payload
    report-IsIntact k j log intact honest = elim (Bool-cases (ltb j.min_consumer_seq k)) [
      | inr behind ↦ rw behind intact
      | inl farther ↦ rw farther (record {
        below = honest;
        ahead = ground (arith, intact.ahead);
        word = intact.word;
        kept = λ n from upto. intact.kept n (ground arith) upto;
      })
    ]

    published-happen :
        (e : Event A) (j : Journal A)
        → j.published_index < u64
        → (happen c e j).published_index ≤ j.published_index + 1
    unfolding happen try_publish publish report_consumer_progress
    published-happen (Event.offer x) j low = ground arith
    published-happen (Event.report k) j low = ground arith

    happen_all_from-IsIntact :
        (events : List (Event A)) (j : Journal A) (log : ℕ → A)
        → IsIntact c log j
        → IsHonest c events j
        → j.published_index + count events < u64
        → IsIntact c (logged_all c events j log) (happen_all c events j)
    unfolding happen_all
    happen_all_from-IsIntact [] j log intact honest low = intact
    happen_all_from-IsIntact (Event.offer x ∷ events) j log intact honest low =
        happen_all_from-IsIntact events _ _ (offer-IsIntact x j log intact (omega arith)) honest
          (omega (arith, published-happen (Event.offer x) j intact.word))
    happen_all_from-IsIntact (Event.report k ∷ events) j log intact (here, honest) low =
        happen_all_from-IsIntact events _ _ (report-IsIntact k j log intact here) honest
          (omega (arith, published-happen (Event.report k) j intact.word))

-- Whatever the order of offers and reports, when no report is beyond what is published and the
-- counter does not wrap: the producer is never more than a capacity ahead of the reported
-- sequence, and `get_payload` of every sequence number from there on gives the item published.
pub happen_all-IsIntact :
    {A : Type 0} (c : ℕ) (cap : IsCapacity c) (events : List (Event A)) (j : Journal A)
    (log : ℕ → A)
    → IsIntact c log j
    → IsHonest c events j
    → j.published_index + count events < u64
    → IsIntact c (logged_all c events j log) (happen_all c events j)
happen_all-IsIntact c cap = happen_all_from-IsIntact c cap

-- After two reports `min_consumer_seq` is the largest of its old value and the two that were
-- reported: of two consumers, that of the faster one.
pub report-max :
    {A : Type 0} (j : Journal A) (a b : ℕ)
    → (report_consumer_progress b (report_consumer_progress a j)).min_consumer_seq
      ≡ max j.min_consumer_seq (max a b)
unfolding report_consumer_progress
report-max j a b = ground arith
