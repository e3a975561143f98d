-- ===== src/Workload/Refs.antt =====
-- The order references that src/experiments.cpp and src/main.cpp hand out.
use simd_nanoring.Common.{
  ℕ, zero, suc, ◌+◌, ◌*◌, ◌≤◌, ◌<◌, ◌≡◌, ◌∙◌, inl, inr, true, false, List, [], ◌∷◌, leb, ◌==◌,
  if◌then◌else◌, Bool-cases, arith, ap, sym, refl,
}
use simd_nanoring.Common.Word.{u64, add64}
use simd_nanoring.Itch.{ItchAddOrder, DecodedOrder, OrderType}
use simd_nanoring.Decoder.Batch.{decode_scalar, decode_tail, decode_add_orders-scalar}
use simd_nanoring.Workload.{
  Draw, make_order, generate_from, generate_test_data, nth, next_after, new_ref, length,
  type_of_roll, make_raw_messages, ref_after, assign_types, make_orders,
}
use simd_nanoring.Workload.Decodes.{decode_tail_next}

abbrev pub consecutive : ℕ → ℕ → List ℕ
consecutive from zero = []
consecutive from (suc n) = from ∷ consecutive (from + 1) n

abbrev pub size : List ℕ → ℕ
size [] = 0
size (r ∷ refs) = suc (size refs)

-- The references that an order uses, before `rest`.
abbrev pub refs_of : OrderType → ℕ → ℕ → List ℕ → List ℕ
refs_of OrderType.add r n rest = r ∷ rest
refs_of OrderType.execute r n rest = r ∷ rest
refs_of OrderType.delete r n rest = r ∷ rest
refs_of OrderType.replace r n rest = r ∷ n ∷ rest

abbrev pub all_refs : List DecodedOrder → List ℕ
all_refs [] = []
all_refs (o ∷ orders) = refs_of o.type o.order_ref o.new_order_ref (all_refs orders)

consecutive_next :
    (r s : ℕ) (rest : List ℕ)
    → s ≡ r + 1
    → rest ≡ consecutive s (size rest)
    → r ∷ rest ≡ consecutive r (size (r ∷ rest))
consecutive_next r s rest e h = ap (λ xs. r ∷ xs) (h ∙ ap (λ k. consecutive k (size rest)) e)

refs_of-consecutive :
    (t : OrderType) (r : ℕ) (rest : List ℕ)
    → r + 2 < u64
    → rest ≡ consecutive (next_after t r) (size rest)
    → refs_of t r (new_ref t (add64 r 1)) rest
      ≡ consecutive r (size (refs_of t r (new_ref t (add64 r 1)) rest))
refs_of-consecutive OrderType.add r rest low h = consecutive_next r (add64 r 1) rest (omega arith) h
refs_of-consecutive OrderType.execute r rest low h =
    consecutive_next r (add64 r 1) rest (omega arith) h
refs_of-consecutive OrderType.delete r rest low h =
    consecutive_next r (add64 r 1) rest (omega arith) h
refs_of-consecutive OrderType.replace r rest low h =
    consecutive_next r (add64 r 1) (add64 r 1 ∷ rest) (omega arith)
      (consecutive_next (add64 r 1) (add64 (add64 r 1) 1) rest (omega arith) h)

pub next_after-le : (t : OrderType) (r : ℕ) → next_after t r ≤ r + 2
next_after-le OrderType.add r = omega arith
next_after-le OrderType.execute r = omega arith
next_after-le OrderType.delete r = omega arith
next_after-le OrderType.replace r = omega arith

all_refs-generate_from :
    (draws : List Draw) (r : ℕ)
    → r + 2 * length draws < u64
    → all_refs (generate_from draws r).orders
      ≡ consecutive r (size (all_refs (generate_from draws r).orders))
unfolding generate_from make_order
all_refs-generate_from [] r low = refl
all_refs-generate_from (d ∷ draws) r low =
    let t = type_of_roll d.type_roll in
    refs_of-consecutive t r (all_refs (generate_from draws (next_after t r)).orders) (omega arith)
      (all_refs-generate_from draws (next_after t r) (omega (arith, next_after-le t r)))

-- The references of the orders that `generate_test_data` makes, with the new reference of each
-- replace after its own, are 1, 2, 3 and so on, in the order of the messages. The number of messages
-- is below 2 ^ 62.
pub all_refs-generate :
    (draws : List Draw)
    → length draws < 0x4000_0000_0000_0000
    → all_refs (generate_test_data draws).orders
      ≡ consecutive 1 (size (all_refs (generate_test_data draws).orders))
unfolding generate_test_data
all_refs-generate draws low = all_refs-generate_from draws 1 (omega arith)

-- The references of the orders of `main`.
abbrev pub order_refs : List DecodedOrder → List ℕ
order_refs [] = []
order_refs (o ∷ orders) = o.order_ref ∷ order_refs orders

abbrev new_refs_of : OrderType → ℕ → List ℕ → List ℕ
new_refs_of OrderType.add n rest = rest
new_refs_of OrderType.execute n rest = rest
new_refs_of OrderType.delete n rest = rest
new_refs_of OrderType.replace n rest = n ∷ rest

abbrev pub new_refs : List DecodedOrder → List ℕ
new_refs [] = []
new_refs (o ∷ orders) = new_refs_of o.type o.new_order_ref (new_refs orders)

order_refs-assign_types :
    (rolls : ℕ → ℕ) (decoded : List DecodedOrder) (i r : ℕ)
    → order_refs (assign_types rolls decoded i r) ≡ order_refs decoded
unfolding assign_types
order_refs-assign_types rolls [] i r = refl
order_refs-assign_types rolls (o ∷ decoded) i r =
    ap (λ refs. o.order_ref ∷ refs) (order_refs-assign_types rolls decoded _ _)

new_refs_of-type_of_roll :
    (roll n : ℕ) (rest : List ℕ)
    → new_refs_of (type_of_roll roll) n rest ≡ (if leb roll 8 then rest else n ∷ rest)
new_refs_of-type_of_roll roll n rest = elim (Bool-cases (leb roll 5)) [
  | inl add ↦ let small : leb roll 8 ≡ true = ground arith in rw (add, small) refl
  | inr not_add ↦ elim (Bool-cases (leb roll 7)) [
    | inl exec ↦ let small : leb roll 8 ≡ true = ground arith in rw (not_add, exec, small) refl
    | inr not_exec ↦ elim (Bool-cases (roll == 8)) [
      | inl del ↦
          let small : leb roll 8 ≡ true = ground arith in rw (not_add, not_exec, del, small) refl
      | inr not_del ↦
          let large : leb roll 8 ≡ false = ground arith in
          rw (not_add, not_exec, not_del, large) refl
    ]
  ]
]

abbrev count : List DecodedOrder → ℕ
count [] = 0
count (o ∷ orders) = suc (count orders)

new_refs-assign_types :
    (rolls : ℕ → ℕ) (decoded : List DecodedOrder) (i r : ℕ)
    → r + count decoded < u64
    → new_refs (assign_types rolls decoded i r)
      ≡ consecutive r (size (new_refs (assign_types rolls decoded i r)))
unfolding assign_types
new_refs-assign_types rolls [] i r low = refl
new_refs-assign_types rolls (o ∷ decoded) i r low =
    let n = (if leb (rolls i) 8 then o.new_order_ref else r) in
    elim (Bool-cases (leb (rolls i) 8)) [
      | inl same ↦
          rw (new_refs_of-type_of_roll (rolls i) n, same)
            (new_refs-assign_types rolls decoded (i + 1) r (omega arith))
      | inr fresh ↦
          rw (new_refs_of-type_of_roll (rolls i) n, fresh)
            (consecutive_next r (add64 r 1)
              (new_refs (assign_types rolls decoded (i + 1) (add64 r 1))) (omega arith)
              (new_refs-assign_types rolls decoded (i + 1) (add64 r 1) (omega arith)))
    ]

count-decode_tail :
    (msgs : ℕ → ItchAddOrder) (rounds i : ℕ) → count (decode_tail msgs rounds i) ≡ rounds
unfolding decode_tail
count-decode_tail msgs zero i = refl
count-decode_tail msgs (suc rounds) i = ap suc (count-decode_tail msgs rounds (i + 1))

order_refs-make_raw_messages :
    (draws : List Draw) (r : ℕ)
    → r + length draws < u64
    → order_refs (decode_tail (nth (make_raw_messages draws r)) (length draws) 0)
      ≡ consecutive r (length draws)
unfolding make_raw_messages decode_tail decode_scalar
order_refs-make_raw_messages [] r low = refl
order_refs-make_raw_messages (d ∷ draws) r low =
    let next : add64 r 1 ≡ r + 1 = omega arith in
    ap (λ refs. r ∷ refs)
      (ap order_refs
          (sym (decode_tail_next (nth (make_raw_messages (d ∷ draws) r)) (length draws) 0))
        ∙ order_refs-make_raw_messages draws (add64 r 1) (omega arith)
        ∙ ap (λ k. consecutive k (length draws)) next)

ref_after_lem :
    (draws : List Draw) (r : ℕ) → r + length draws < u64 → ref_after draws r ≡ r + length draws
unfolding ref_after
ref_after_lem [] r low = omega arith
ref_after_lem (d ∷ draws) r low = omega (arith, ref_after_lem draws (add64 r 1) (omega arith))

-- The references of the orders that `main` gives to the pipeline: those of the orders are 1, 2, 3 and
-- so on, one for each message, and the new references of the replaces go on from there, whatever the
-- rolls. The number of messages is below 2 ^ 62.
pub order_refs-make_orders :
    (draws : List Draw) (rolls : ℕ → ℕ)
    → length draws < 0x4000_0000_0000_0000
    → (order_refs (make_orders draws rolls) ≡ consecutive 1 (length draws))
      × (new_refs (make_orders draws rolls)
          ≡ consecutive (1 + length draws) (size (new_refs (make_orders draws rolls))))
unfolding make_orders
order_refs-make_orders draws rolls low =
    let n = length draws in
    let msgs = nth (make_raw_messages draws 1) in
    let after : ref_after draws 1 ≡ 1 + n = ref_after_lem draws 1 (omega arith) in
    rw ((decode_add_orders-scalar msgs n).0, after)
      (
        order_refs-assign_types rolls (decode_tail msgs n 0) 0 (1 + n)
            ∙ order_refs-make_raw_messages draws 1 (omega arith),
        new_refs-assign_types rolls (decode_tail msgs n 0) 0 (1 + n)
            (omega (arith, count-decode_tail msgs n 0)),
      )
