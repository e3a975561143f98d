-- ===== src/SpscQueue/Calls.antt =====
-- A call of include/spsc_queue.h that no access of the other thread interrupts: what it returns and
-- leaves, in terms of the items that the queue holds.
use mathlib.Core.List.{append_cancel_left}
use simd_nanoring.Common.{
  ℕ, zero, suc, ◌+◌, ◌-◌, ◌<◌, ◌≡◌, ◌∙◌, inl, inr, Bool, true, false, Option, none, some, List, [],
  ◌∷◌, ◌++◌, ltb, leb, Bool-cases, arith, ap, ap₂, sym, subst, refl,
}
use simd_nanoring.Common.Word.{u64, sub64}
use simd_nanoring.Ring.{IsCapacity, slot_of}
use simd_nanoring.Ring.Contents.{contents}
use simd_nanoring.SpscQueue.Threads.{IsFifo, count, run-IsFifo}
use simd_nanoring.SpscQueue.{
  Queue, Producer, Consumer, System, Turn, is_full, try_push, try_pop, produce, consume, turn, run,
  start,
}

-- A queue between calls.
abbrev pub resting : {A : Type 0} → Queue A → List A → List A → System A
resting q sent got = record {
  queue = q;
  producer = Producer.idle;
  consumer = Consumer.idle;
  sent = sent;
  got = got;
}

-- The accesses of one call: two when it fails, four when it succeeds.
abbrev pub accesses : {A : Type 0} → Bool → Turn A → List (Turn A)
accesses false x = x ∷ x ∷ []
accesses true x = x ∷ x ∷ x ∷ x ∷ []

abbrev pub added : {A : Type 0} → Bool → List A → A → List A
added false xs x = xs
added true xs x = xs ++ (x ∷ [])

abbrev pub succeeded : {A : Type 0} → Option A → Bool
succeeded none = false
succeeded (some x) = true

abbrev pub popped : {A : Type 0} → List A → Option A → List A
popped xs none = xs
popped xs (some x) = xs ++ (x ∷ [])

-- The accesses of an uninterrupted `try_push`, or of an uninterrupted `try_pop`, leave the queue that
-- the function of the call gives; the item counts as pushed, or popped, just when the function
-- returns true.
run_alone :
    {A : Type 0} (c : ℕ) (x : A) (q : Queue A) (sent got : List A)
    → (run c (accesses (try_push c x q).0 (Turn.try x)) (resting q sent got)
        ≡ resting (try_push c x q).1 (added (try_push c x q).0 sent x) got)
      × (run c (accesses (succeeded (try_pop c q).0) Turn.pop) (resting q sent got)
          ≡ resting (try_pop c q).1 sent (popped got (try_pop c q).0))
unfolding run turn produce consume try_push try_pop
run_alone c x q sent got = (pushing, popping)
  where
    pushing :
        run c (accesses (try_push c x q).0 (Turn.try x)) (resting q sent got)
        ≡ resting (try_push c x q).1 (added (try_push c x q).0 sent x) got
    pushing = elim (Bool-cases (is_full c q.head q.tail)) [
      | inl full ↦ rw full (rw full refl)
      | inr room ↦ rw room (rw room refl)
    ]

    popping :
        run c (accesses (succeeded (try_pop c q).0) Turn.pop) (resting q sent got)
        ≡ resting (try_pop c q).1 sent (popped got (try_pop c q).0)
    popping = elim (Bool-cases (leb q.head q.tail)) [
      | inl empty ↦ rw empty (rw empty refl)
      | inr more ↦ rw more (rw more refl)
    ]

-- The oldest item of those that the queue holds.
abbrev pub oldest : {A : Type 0} → List A → Option A
oldest [] = none
oldest (x ∷ xs) = some x

count-contents :
    {A : Type 0} (c : ℕ) (slots : ℕ → A) (from n : ℕ) → count (contents c slots from n) ≡ n
count-contents c slots from zero = refl
count-contents c slots from (suc n) = ap suc (count-contents c slots (from + 1) n)

module _ {A : Type 0} (c : ℕ) (s : System A) (inv : IsFifo c s) (inside : List A)
    (pushed : s.sent ≡ s.got ++ inside) where
  inside-contents : inside ≡ contents c s.queue.slots s.queue.tail (s.queue.head - s.queue.tail)
  inside-contents = append_cancel_left s.got inside _ (sym pushed ∙ inv.fifo)

  count-inside : count inside ≡ s.queue.head - s.queue.tail
  count-inside = ap count inside-contents ∙ count-contents c s.queue.slots s.queue.tail _

  try_push-room : (x : A) → (try_push c x s.queue).0 ≡ ltb (count inside) c
  unfolding try_push
  try_push-room x =
      let held : sub64 s.queue.head s.queue.tail ≡ count inside =
        omega (arith, count-inside, inv.below, inv.word) in
      elim (Bool-cases (is_full c s.queue.head s.queue.tail)) [
        | inl full ↦
            let no_room : ltb (count inside) c ≡ false = ground (arith, held) in
            rw (full, no_room) refl
        | inr room ↦
            let some_room : ltb (count inside) c ≡ true = ground (arith, held) in
            rw (room, some_room) refl
      ]

  contents-oldest :
      (n : ℕ)
      → 0 < n
      → oldest (contents c s.queue.slots s.queue.tail n)
        ≡ some (s.queue.slots (slot_of c s.queue.tail))
  contents-oldest zero pos = absurd (omega arith)
  contents-oldest (suc n) pos = refl

  try_pop-oldest : (try_pop c s.queue).0 ≡ oldest inside
  unfolding try_pop
  try_pop-oldest = elim (Bool-cases (leb s.queue.head s.queue.tail)) [
    | inl empty ↦
        let none_left : s.queue.head - s.queue.tail ≡ 0 = ground arith in
        rw (empty, inside-contents, none_left) refl
    | inr more ↦
        let some_left : 0 < s.queue.head - s.queue.tail = ground arith in
        rw (more, inside-contents) (sym (contents-oldest (s.queue.head - s.queue.tail) some_left))
  ]

-- In any state that an interleaving reaches with both threads between calls, `inside` being what has
-- been pushed and not popped yet: `try_push` returns true just when `inside` is shorter than the
-- capacity, and `try_pop` returns the oldest item of `inside`, or nothing when there is none; and the
-- accesses of one such call, which nothing interrupts, leave the queue that the function of the call
-- gives, with the item pushed or popped just when it returns true. There are fewer than 2 ^ 64
-- accesses before the call.
pub calls-inside :
    {A : Type 0} (c : ℕ) (slots : ℕ → A) (turns : List (Turn A)) (inside : List A) (x : A)
    → IsCapacity c
    → count turns < u64
    → (run c turns (start slots)).producer ≡ Producer.idle
    → (run c turns (start slots)).consumer ≡ Consumer.idle
    → (run c turns (start slots)).sent ≡ (run c turns (start slots)).got ++ inside
    → let s = run c turns (start slots) in
      ((try_push c x s.queue).0 ≡ ltb (count inside) c)
      × ((try_pop c s.queue).0 ≡ oldest inside)
      × (run c (accesses (ltb (count inside) c) (Turn.try x)) s
          ≡ resting (try_push c x s.queue).1 (added (ltb (count inside) c) s.sent x) s.got)
      × (run c (accesses (succeeded (oldest inside)) Turn.pop) s
          ≡ resting (try_pop c s.queue).1 s.sent (popped s.got (oldest inside)))
calls-inside c slots turns inside x cap low producing consuming pushed =
    let s = run c turns (start slots) in
    let inv : IsFifo c s = run-IsFifo c cap slots turns low in
    let rests : resting s.queue s.sent s.got ≡ s =
      sym (ap₂ (λ p k. record s { producer = p; consumer = k }) producing consuming) in
    let push_law = try_push-room c s inv inside pushed x in
    let pop_law = try_pop-oldest c s inv inside pushed in
    let (pushing, popping) = run_alone c x s.queue s.sent s.got in
    (
      push_law,
      pop_law,
      subst
          (λ z.
            run c (accesses (ltb (count inside) c) (Turn.try x)) z
            ≡ resting (try_push c x s.queue).1 (added (ltb (count inside) c) s.sent x) s.got)
          rests
          (subst
            (λ ok.
              run c (accesses ok (Turn.try x)) (resting s.queue s.sent s.got)
              ≡ resting (try_push c x s.queue).1 (added ok s.sent x) s.got)
            push_law pushing),
      subst
          (λ z.
            run c (accesses (succeeded (oldest inside)) Turn.pop) z
            ≡ resting (try_pop c s.queue).1 s.sent (popped s.got (oldest inside)))
          rests
          (subst
            (λ o.
              run c (accesses (succeeded o) Turn.pop) (resting s.queue s.sent s.got)
              ≡ resting (try_pop c s.queue).1 s.sent (popped s.got o))
            pop_law popping),
    )
