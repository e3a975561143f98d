-- ===== src/Tests/Decoding.antt =====
-- Runs of include/simd_decoder.h.
use simd_nanoring.Common.{ℕ, ◌≤◌, ◌≡◌, some, List, [], ◌∷◌, arith, ◌==◌, if◌then◌else◌, refl}
use simd_nanoring.Itch.{ItchAddOrder, DecodedOrder, OrderType}
use simd_nanoring.Decoder.{decode_stream}
use simd_nanoring.Decoder.Stream.{AllOf, KeyedIfAdd, count, decode_stream-Bounded}
use simd_nanoring.Decoder.Reads.{decode_stream_cong}
use simd_nanoring.Decoder.Filter.{filter_scalar, filter_neon, filter_avx2, filter_simd-scalar}
use simd_nanoring.Decoder.Wire.{Message, Sent, encode_stream, length, meanings}
use simd_nanoring.Decoder.RoundTrip.{decode_stream-encode_stream}
use simd_nanoring.Decoder.Batch.{
  entry, decode_tail, decode_add_orders_neon, decode_add_orders_avx2, decode_add_orders-scalar,
}

-- A delete of the reference 5: the length 19, the letter, ten bytes, the reference.
abbrev frame : ℕ → ℕ
frame i = if i == 1 then 19 else if i == 2 then b'D' else if i == 13 then 5 else 0

decode_stream-Bounded_example :
    (orders : List DecodedOrder) × (decode_stream frame 21 4 ≡ some orders)
    × (count orders ≤ 4)
    × AllOf KeyedIfAdd orders
decode_stream-Bounded_example = decode_stream-Bounded frame 21 4

abbrev deleted : DecodedOrder
deleted = record {
  type = OrderType.delete;
  order_ref = 5;
  ticker_key = 0;
  price = 0;
  shares = 0;
  side = 0;
  new_order_ref = 0;
}

decode_one : decode_stream frame 21 4 ≡ some (deleted ∷ [])
unfolding decode_stream
decode_one = refl

-- A stream that is cut within the message decodes to nothing.
decode_cut : decode_stream frame 20 4 ≡ some []
unfolding decode_stream
decode_cut = refl

-- The same 21 bytes, with others behind them.
abbrev longer : ℕ → ℕ
longer i = if i == 21 then 9 else frame i

decode_stream_cong_example : decode_stream frame 21 4 ≡ decode_stream longer 21 4
decode_stream_cong_example = decode_stream_cong frame longer 21 4 (λ i h. ground arith)

abbrev orders : ℕ → DecodedOrder
orders i = record deleted { ticker_key = i }

filter_simd-scalar_example :
    (filter_avx2 orders 2 5 ≡ filter_neon orders 2 5)
    × (filter_neon orders 2 5 ≡ filter_scalar orders 2 4)
filter_simd-scalar_example = filter_simd-scalar orders 2 5

abbrev msgs : ℕ → ItchAddOrder
msgs i = record {
  message_type = b'A';
  stock_locate = 0;
  tracking_number = 0;
  timestamp = λ k. 0;
  order_ref_num = i;
  buy_sell_indicator = b'B';
  shares = 16777216;
  stock = λ k. k;
  price = 33554432;
}

decode_add_orders-scalar_example :
    (decode_add_orders_neon msgs 5 ≡ decode_tail msgs 5 0)
    × (decode_add_orders_avx2 msgs 5 ≡ decode_tail msgs 5 0)
decode_add_orders-scalar_example = decode_add_orders-scalar msgs 5

-- An add, a message of type `P` and a delete.
abbrev sent : List Sent
sent =
    ((λ i. i), Message.add 5 6 400000 50 b'B')
    ∷ ((λ i. 0), Message.other b'P' (1 ∷ 2 ∷ 3 ∷ []))
    ∷ ((λ i. 0), Message.delete 5)
    ∷ []

decode_stream-encode_stream_example :
    decode_stream (entry (encode_stream sent)) (length (encode_stream sent)) 8
    ≡ some (meanings 8 sent)
decode_stream-encode_stream_example = decode_stream-encode_stream sent 8 (omega arith)
