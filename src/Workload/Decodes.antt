-- ===== src/Workload/Decodes.antt =====
-- The raw messages that src/experiments.cpp and src/main.cpp make up decode to the orders they are made of.
use simd_nanoring.Common.{
  ℕ, zero, suc, ◌+◌, ◌<◌, ◌≡◌, ◌∙◌, List, [], ◌∷◌, arith, ap, ap₂, sym, refl,
}
use simd_nanoring.Common.Word.{u32}
use simd_nanoring.Itch.{ItchAddOrder, DecodedOrder, OrderType}
use simd_nanoring.Decoder.{swap32, load_ticker}
use simd_nanoring.Decoder.Batch.{
  decode_scalar, decode_tail, decode_add_orders_neon, decode_add_orders_avx2,
  decode_add_orders-scalar,
}
use simd_nanoring.Workload.{
  Draw, make_order, make_raw, key_of, generate_from, generate_test_data, nth, next_after, length,
  type_of_roll,
}

-- Prices and shares that the distributions draw from are 32-bit words.
abbrev pub AllWords : List Draw → Type 0
AllWords [] = Unit
AllWords (d ∷ draws) = (d.price < u32) × (d.shares < u32) × AllWords draws

pub swap32_twice : (v : ℕ) → v < u32 → swap32 (swap32 v) ≡ v
unfolding swap32
swap32_twice v h = omega arith

-- An order as its raw add order tells it.
abbrev pub as_adds : List DecodedOrder → List DecodedOrder
as_adds [] = []
as_adds (o ∷ orders) = record o { type = OrderType.add; new_order_ref = 0 } ∷ as_adds orders

pub decode_tail_next :
    (msgs : ℕ → ItchAddOrder) (rounds i : ℕ)
    → decode_tail (λ k. msgs (suc k)) rounds i ≡ decode_tail msgs rounds (suc i)
unfolding decode_tail decode_scalar
decode_tail_next msgs zero i = refl
decode_tail_next msgs (suc rounds) i =
    ap₂ (λ o rest. o ∷ rest) refl
      (decode_tail_next msgs rounds (i + 1)
        ∙ ap (decode_tail msgs rounds) {x = suc (i + 1)} {y = suc i + 1} (omega arith))

decode_scalar-make_raw :
    (d : Draw) (next_order_ref : ℕ) (rest : List ItchAddOrder)
    → d.price < u32
    → d.shares < u32
    → decode_scalar (nth (make_raw d.ticker (make_order d next_order_ref) ∷ rest)) 0
      ≡ record (make_order d next_order_ref) { type = OrderType.add; new_order_ref = 0 }
unfolding decode_scalar make_raw make_order load_ticker key_of
decode_scalar-make_raw d next_order_ref rest p s =
    rw (swap32_twice d.price p, swap32_twice d.shares s) refl

decode_tail-generate_from :
    (draws : List Draw) (next_order_ref : ℕ)
    → AllWords draws
    → decode_tail (nth (generate_from draws next_order_ref).raw_add_orders) (length draws) 0
      ≡ as_adds (generate_from draws next_order_ref).orders
unfolding generate_from decode_tail
decode_tail-generate_from [] next_order_ref words = refl
decode_tail-generate_from (d ∷ draws) next_order_ref (p, s, words) =
    let next = next_after (type_of_roll d.type_roll) next_order_ref in
    let rest = generate_from draws next in
    ap₂ (λ o orders. o ∷ orders) (decode_scalar-make_raw d next_order_ref rest.raw_add_orders p s)
      (sym (
          decode_tail_next
            (nth (make_raw d.ticker (make_order d next_order_ref) ∷ rest.raw_add_orders))
            (length draws) 0)
        ∙ decode_tail-generate_from draws next words)

-- Both vector versions of `decode_add_orders_simd` give back, from the raw add orders that
-- `generate_test_data` writes beside its orders, those orders with the type of an add and the new
-- reference 0: reference, ticker, price, shares and side all survive the byte swaps, if prices and
-- shares are 32-bit words.
pub decode_add_orders-generate :
    (draws : List Draw)
    → AllWords draws
    → (decode_add_orders_neon (nth (generate_test_data draws).raw_add_orders) (length draws)
        ≡ as_adds (generate_test_data draws).orders)
      × (decode_add_orders_avx2 (nth (generate_test_data draws).raw_add_orders) (length draws)
          ≡ as_adds (generate_test_data draws).orders)
unfolding generate_test_data
decode_add_orders-generate draws words =
    let raws = nth (generate_from draws 1).raw_add_orders in
    let (neon, avx2) = decode_add_orders-scalar raws (length draws) in
    let tail = decode_tail-generate_from draws 1 words in (neon ∙ tail, avx2 ∙ tail)
