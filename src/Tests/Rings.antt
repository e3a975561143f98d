-- ===== src/Tests/Rings.antt =====
-- Runs of include/spsc_queue.h and include/broadcast_journal.h, on rings of two slots.
use simd_nanoring.Common.{
  zero, suc, Bool, false, ◌<◌, ◌==◌, if◌then◌else◌, true, ℕ, ◌≡◌, some, List, [], ◌∷◌, ◌++◌, arith,
  refl,
}
use simd_nanoring.Ring.{IsCapacity}
use simd_nanoring.SpscQueue.{System, Producer, Consumer, Turn, try_push, try_pop, run, start}
use simd_nanoring.SpscQueue.Calls.{accesses, resting, calls-inside}
use simd_nanoring.SpscQueue.Threads.{IsFifo, run-IsFifo}
use simd_nanoring.Journal.{Journal, Event, happen, report_consumer_progress, happen_all}
use simd_nanoring.Journal.Reports.{
  Access, Reporter, Reports, run_reports, report_all, run_reports-report_all,
}
use simd_nanoring.Journal.Intact.{IsIntact, IsHonest, logged_all, happen_all-IsIntact, report-max}

pub two_slots : IsCapacity 2
two_slots = record { bits = 1; power = refl; word = omega arith }

-- Two items pushed, and one popped in between.
abbrev turns : List (Turn ℕ)
turns =
    Turn.try 5
    ∷ Turn.try 5
    ∷ Turn.pop
    ∷ Turn.try 5
    ∷ Turn.try 5
    ∷ Turn.pop
    ∷ Turn.pop
    ∷ Turn.try 6
    ∷ Turn.pop
    ∷ Turn.pop
    ∷ Turn.pop
    ∷ Turn.pop
    ∷ Turn.try 6
    ∷ []

run-IsFifo_example : IsFifo 2 (run 2 turns (start (λ i. 0)))
run-IsFifo_example = run-IsFifo 2 two_slots (λ i. 0) turns (omega arith)

-- One item pushed, in four accesses, and another one to be pushed.
abbrev one_push : List (Turn ℕ)
one_push = accesses true (Turn.try 5)

abbrev holding : System ℕ
holding = run 2 one_push (start (λ i. 0))

producing : holding.producer ≡ Producer.idle
unfolding run
producing = refl

consuming : holding.consumer ≡ Consumer.idle
unfolding run
consuming = refl

holds_five : holding.sent ≡ holding.got ++ (5 ∷ [])
unfolding run
holds_five = refl

calls-inside_example :
    ((try_push 2 6 holding.queue).0 ≡ true)
    × ((try_pop 2 holding.queue).0 ≡ some 5)
    × (run 2 (accesses true (Turn.try 6)) holding
        ≡ resting (try_push 2 6 holding.queue).1 (holding.sent ++ (6 ∷ [])) holding.got)
    × (run 2 (accesses true Turn.pop) holding
        ≡ resting (try_pop 2 holding.queue).1 holding.sent (holding.got ++ (5 ∷ [])))
calls-inside_example =
    calls-inside 2 (λ i. 0) one_push (5 ∷ []) 6 two_slots (omega arith) producing consuming
      holds_five

got_five : (run 2 turns (start (λ i. 0))).got ≡ 5 ∷ []
unfolding run
got_five = refl

abbrev new_journal : Journal ℕ
new_journal = record { journal = λ i. 0; published_index = 0; min_consumer_seq = 0 }

abbrev events : List (Event ℕ)
events = Event.offer 5 ∷ Event.offer 6 ∷ Event.offer 7 ∷ Event.report 1 ∷ Event.offer 8 ∷ []

new_journal-IsIntact : IsIntact 2 (λ n. 0) new_journal
new_journal-IsIntact = record {
  below = omega arith;
  ahead = omega arith;
  word = omega arith;
  kept = λ n h k. absurd (omega arith);
}

honest : IsHonest 2 events new_journal
unfolding happen
honest = (omega arith, tt)

happen_all-IsIntact_example :
    IsIntact 2 (logged_all 2 events new_journal (λ n. 0)) (happen_all 2 events new_journal)
happen_all-IsIntact_example =
    happen_all-IsIntact 2 two_slots events new_journal (λ n. 0) new_journal-IsIntact honest
      (omega arith)

report-max_example :
    (report_consumer_progress 1 (report_consumer_progress 2 new_journal)).min_consumer_seq ≡ 2
report-max_example = report-max new_journal 2 1

-- Two consumers report 3 and 7 and load the value before either exchange; one exchange fails
-- spuriously, and that of the slower consumer fails because the value has changed.
abbrev accessed : List Access
accessed =
    access 0 false
    ∷ access 1 false
    ∷ access 1 true
    ∷ access 1 false
    ∷ access 0 false
    ∷ access 0 false
    ∷ []
  where
    access : ℕ → Bool → Access
    access i spurious = record { reporter = i; spurious = spurious }

abbrev both : ℕ → ℕ
both i = if i == 0 then 3 else 7

abbrev called : Reports ℕ
called = record { journal = new_journal; reporters = λ k. Reporter.calling }

both-reported : (i : ℕ) → i < 2 → (run_reports both accessed called).reporters i ≡ Reporter.reported
unfolding run_reports
both-reported zero below = refl
both-reported (suc zero) below = refl
both-reported (suc (suc i)) below = absurd (omega arith)

run_reports-report_all_example :
    (run_reports both accessed called).journal.min_consumer_seq
    ≡ (report_all 2 both new_journal).min_consumer_seq
run_reports-report_all_example =
    run_reports-report_all 2 both new_journal accessed
      (omega arith, (omega arith, (omega arith, (omega arith, (omega arith, (omega arith, tt))))))
      both-reported
