-- ===== src/Journal/Reports.antt =====
-- include/broadcast_journal.h, `report_consumer_progress` as several consumers run it at once, one
-- access to `min_consumer_seq_` at a time.
use simd_nanoring.Common.{
  ℕ, zero, suc, ◌≤◌, ◌<◌, ◌≡◌, inl, inr, Bool, not, List, [], ◌∷◌, ltb, ◌==◌, if◌then◌else◌, ◌&&◌,
  Bool-cases, eq_cases, set, set_self, set_other, arith, subst,
}
use simd_nanoring.Journal.{Journal, report_consumer_progress}

-- A consumer: before the call, in its loop with `current_min` in hand, and after the call.
pub data Reporter : Type 0 where
  calling : Reporter
  comparing : ℕ → Reporter
  reported : Reporter

-- The journal, and the place of each consumer.
pub record Reports (A : Type 0) : Type 0 where
  pub journal : Journal A
  pub reporters : ℕ → Reporter

-- The consumer that moves next, and whether its `compare_exchange_weak` fails although the values
-- agree.
pub record Access : Type 0 where
  pub reporter : ℕ
  pub spurious : Bool

-- Every access is one of a consumer below `n`.
abbrev pub AllBelow : ℕ → List Access → Type 0
AllBelow n [] = Unit
AllBelow n (a ∷ accesses) = (a.reporter < n) × AllBelow n accesses

-- What a consumer knows of the value at its place in the call.
abbrev ReporterKnows : ℕ → ℕ → Reporter → Type 0
ReporterKnows seq least Reporter.calling = Unit
ReporterKnows seq least (Reporter.comparing c) = c ≤ least
ReporterKnows seq least Reporter.reported = seq ≤ least

ReporterKnows-up :
    (seq least least' : ℕ) (w : Reporter)
    → least ≤ least'
    → ReporterKnows seq least w
    → ReporterKnows seq least' w
ReporterKnows-up seq least least' Reporter.calling up knows = tt
ReporterKnows-up seq least least' (Reporter.comparing c) up knows = omega arith
ReporterKnows-up seq least least' Reporter.reported up knows = omega arith

module _ {A : Type 0} where
  -- One access of the consumer `i`, which reports `consumer_seq`. An exchange that fails loads the
  -- value again.
  unfoldable pub report_step : ℕ → ℕ → Bool → Reporter → Reports A → Reports A
  report_step i consumer_seq spurious Reporter.calling r = record r {
    reporters = set r.reporters i (Reporter.comparing r.journal.min_consumer_seq);
  }
  report_step i consumer_seq spurious (Reporter.comparing current_min) r =
      if ltb current_min consumer_seq
      then if r.journal.min_consumer_seq == current_min && not spurious
        then record r {
          journal = record r.journal { min_consumer_seq = consumer_seq };
          reporters = set r.reporters i Reporter.reported;
        }
        else record r {
          reporters = set r.reporters i (Reporter.comparing r.journal.min_consumer_seq);
        }
      else record r { reporters = set r.reporters i Reporter.reported }
  report_step i consumer_seq spurious Reporter.reported r = r

  -- An interleaving of the calls; `seqs i` is what the consumer `i` reports.
  unfoldable pub run_reports : (ℕ → ℕ) → List Access → Reports A → Reports A
  unfolding report_step
  run_reports seqs [] r = r
  run_reports seqs (a ∷ accesses) r =
      run_reports seqs accesses
        (report_step a.reporter (seqs a.reporter) a.spurious (r.reporters a.reporter) r)

  -- The same calls of the consumers below `n`, one after the other.
  unfoldable pub report_all : ℕ → (ℕ → ℕ) → Journal A → Journal A
  unfolding report_consumer_progress
  report_all zero seqs j = j
  report_all (suc n) seqs j = report_consumer_progress (seqs n) (report_all n seqs j)

  abbrev pub top : ℕ → (ℕ → ℕ) → Journal A → ℕ
  top n seqs j = (report_all n seqs j).min_consumer_seq

  start-le-top : (n : ℕ) (seqs : ℕ → ℕ) (j : Journal A) → j.min_consumer_seq ≤ top n seqs j
  unfolding report_all report_consumer_progress
  start-le-top zero seqs j = omega arith
  start-le-top (suc n) seqs j = ground (arith, start-le-top n seqs j)

  seq-le-top : (n : ℕ) (seqs : ℕ → ℕ) (j : Journal A) (i : ℕ) → i < n → seqs i ≤ top n seqs j
  unfolding report_all report_consumer_progress
  seq-le-top zero seqs j i below = absurd (omega arith)
  seq-le-top (suc n) seqs j i below = elim (eq_cases i n) [
    | inl last ↦ rw last (ground arith)
    | inr earlier ↦ ground (arith, seq-le-top n seqs j i (omega arith))
  ]

  top-le :
      (n : ℕ) (seqs : ℕ → ℕ) (j : Journal A) (b : ℕ)
      → j.min_consumer_seq ≤ b
      → ((i : ℕ) → i < n → seqs i ≤ b)
      → top n seqs j ≤ b
  unfolding report_all report_consumer_progress
  top-le zero seqs j b start all = start
  top-le (suc n) seqs j b start all =
      ground (arith, all n (omega arith), top-le n seqs j b start (λ i below. all i (omega arith)))

  record IsBetween (n : ℕ) (seqs : ℕ → ℕ) (j : Journal A) (r : Reports A) : Type 0 where
    from : j.min_consumer_seq ≤ r.journal.min_consumer_seq
    upto : r.journal.min_consumer_seq ≤ top n seqs j
    know : (i : ℕ) → ReporterKnows (seqs i) r.journal.min_consumer_seq (r.reporters i)

  -- The consumer `i` moves to a place, and the value, if it changes, grows.
  moved :
      (n : ℕ) (seqs : ℕ → ℕ) (j : Journal A) (r : Reports A) (i least : ℕ) (w : Reporter)
      → IsBetween n seqs j r
      → r.journal.min_consumer_seq ≤ least
      → least ≤ top n seqs j
      → ReporterKnows (seqs i) least w
      → IsBetween n seqs j (record {
        journal = record r.journal { min_consumer_seq = least };
        reporters = set r.reporters i w;
      })
  moved n seqs j r i least w inv up low knows = record {
    from = omega (arith, inv.from);
    upto = low;
    know = λ k. elim (eq_cases k i) [
      | inl own ↦ rw (own, set_self r.reporters i w) knows
      | inr other ↦ rw (set_other r.reporters i k w other) (
          ReporterKnows-up (seqs k) r.journal.min_consumer_seq least (r.reporters k) up
            (inv.know k))
    ];
  }

  report_step-IsBetween :
      (n : ℕ) (seqs : ℕ → ℕ) (j : Journal A) (i : ℕ) (spurious : Bool) (w : Reporter)
      (r : Reports A)
      → i < n
      → IsBetween n seqs j r
      → ReporterKnows (seqs i) r.journal.min_consumer_seq w
      → IsBetween n seqs j (report_step i (seqs i) spurious w r)
  unfolding report_step
  report_step-IsBetween n seqs j i spurious Reporter.calling r below inv knows =
      moved n seqs j r i r.journal.min_consumer_seq (Reporter.comparing r.journal.min_consumer_seq)
        inv (omega arith) inv.upto (omega arith)
  report_step-IsBetween n seqs j i spurious (Reporter.comparing c) r below inv knows =
      let least = r.journal.min_consumer_seq in
      elim (Bool-cases (ltb c (seqs i))) [
        | inr behind ↦
            rw behind
              (moved n seqs j r i least Reporter.reported inv (omega arith) inv.upto (ground arith))
        | inl farther ↦ rw farther (elim (Bool-cases (least == c && not spurious)) [
          | inl swapped ↦ rw swapped (
              moved n seqs j r i (seqs i) Reporter.reported inv (ground arith)
                (seq-le-top n seqs j i below) (omega arith))
          | inr failed ↦ rw failed (
              moved n seqs j r i least (Reporter.comparing least) inv (omega arith) inv.upto
                (omega arith))
        ])
      ]
  report_step-IsBetween n seqs j i spurious Reporter.reported r below inv knows = inv

  run_reports-IsBetween :
      (n : ℕ) (seqs : ℕ → ℕ) (j : Journal A) (accesses : List Access) (r : Reports A)
      → AllBelow n accesses
      → IsBetween n seqs j r
      → IsBetween n seqs j (run_reports seqs accesses r)
  unfolding run_reports
  run_reports-IsBetween n seqs j [] r below inv = inv
  run_reports-IsBetween n seqs j (a ∷ accesses) r (here, below) inv =
      run_reports-IsBetween n seqs j accesses _ below (
        report_step-IsBetween n seqs j a.reporter a.spurious (r.reporters a.reporter) r here inv
          (inv.know a.reporter))

-- However the accesses of the calls of `report_consumer_progress` by the consumers below `n`
-- interleave, and whichever exchanges fail spuriously: once all these calls have returned,
-- `min_consumer_seq_` is what the calls leave when they are run one after the other.
pub run_reports-report_all :
    {A : Type 0} (n : ℕ) (seqs : ℕ → ℕ) (j : Journal A) (accesses : List Access)
    → AllBelow n accesses
    → ((i : ℕ)
        → i < n
        → (run_reports seqs accesses
              (record { journal = j; reporters = λ k. Reporter.calling })).reporters
            i
          ≡ Reporter.reported)
    → (run_reports seqs accesses
        (record { journal = j; reporters = λ k. Reporter.calling })).journal.min_consumer_seq
      ≡ (report_all n seqs j).min_consumer_seq
run_reports-report_all n seqs j accesses below done =
    let r = run_reports seqs accesses (record { journal = j; reporters = λ k. Reporter.calling }) in
    let inv : IsBetween n seqs j r =
      run_reports-IsBetween n seqs j accesses
        (record { journal = j; reporters = λ k. Reporter.calling }) below
        (record { from = omega arith; upto = start-le-top n seqs j; know = λ k. tt }) in
    let low : top n seqs j ≤ r.journal.min_consumer_seq =
      top-le n seqs j r.journal.min_consumer_seq inv.from (λ i inside.
        subst (ReporterKnows (seqs i) r.journal.min_consumer_seq) (done i inside) (inv.know i)) in
    omega (arith, low, inv.upto)
