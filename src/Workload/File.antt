-- ===== src/Workload/File.antt =====
-- The file of tools/generator.cpp holds the messages that it makes up.
use simd_nanoring.Common.{
  ℕ, zero, suc, ◌+◌, ◌<◌, ◌≡◌, ◌∙◌, Option, some, List, [], ◌∷◌, arith, ap, ap₂, refl,
}
use simd_nanoring.Common.Word.{u32, u64}
use simd_nanoring.Itch.{ItchAddOrder, DecodedOrder, OrderType, as_add_order, load16, load32, load64}
use simd_nanoring.Decoder.{
  swap32, load_ticker, decode_message, run_handler, get_handler, min_msg_size, decode_add_order,
}
use simd_nanoring.Decoder.Batch.{entry}
use simd_nanoring.Decoder.Reads.{decode_message_cong}
use simd_nanoring.Decoder.RoundTrip.Shift.{decode_message_shift}
use simd_nanoring.Decoder.Wire.{load32-le32, load64-le64}
use simd_nanoring.Decoder.Wire.Held.{Holds, Holds_left, Holds_right}
use simd_nanoring.Workload.{Draw, mock_message, mock_file, record_bytes, key_of, length}
use simd_nanoring.Workload.Decodes.{swap32_twice}

-- The order that the `i`-th message says.
abbrev pub mock_order : ℕ → Draw → DecodedOrder
mock_order i d = record {
  type = OrderType.add;
  order_ref = i + 1;
  ticker_key = key_of d.ticker;
  price = d.price;
  shares = 100;
  side = b'B';
  new_order_ref = 0;
}

abbrev pub mock_orders : List Draw → ℕ → List (Option DecodedOrder)
mock_orders [] i = []
mock_orders (d ∷ draws) i = some (mock_order i d) ∷ mock_orders draws (i + 1)

-- What the decoder makes of `n` records of 36 bytes from an offset on.
abbrev pub read_records : (ℕ → ℕ) → ℕ → ℕ → List (Option DecodedOrder)
read_records raw zero at = []
read_records raw (suc n) at = decode_message raw at 36 ∷ read_records raw n (at + 36)

abbrev pub AllPrices : List Draw → Type 0
AllPrices [] = Unit
AllPrices (d ∷ draws) = (d.price < u32) × AllPrices draws

swap32_word : (v : ℕ) → swap32 v < u32
unfolding swap32
swap32_word v = omega arith

decode_message-record_bytes :
    (m : ItchAddOrder)
    → m.message_type ≡ b'A'
    → m.order_ref_num < u64
    → m.shares < u32
    → m.price < u32
    → decode_message (entry (record_bytes m [])) 0 36
      ≡ some (record {
        type = OrderType.add;
        order_ref = m.order_ref_num;
        ticker_key = load_ticker m.stock;
        price = swap32 m.price;
        shares = swap32 m.shares;
        side = m.buy_sell_indicator;
        new_order_ref = 0;
      })
unfolding decode_message run_handler get_handler min_msg_size decode_add_order as_add_order load16
    load32 load64 load_ticker
decode_message-record_bytes m letter r s p =
    rw (letter, load64-le64 m.order_ref_num r, load32-le32 m.shares s, load32-le32 m.price p) refl

mock_message-decodes :
    (i : ℕ) (d : Draw)
    → i + 1 < u64
    → d.price < u32
    → decode_message (entry (record_bytes (mock_message i d) [])) 0 36 ≡ some (mock_order i d)
unfolding mock_message
mock_message-decodes i d low p =
    decode_message-record_bytes (mock_message i d) refl low (swap32_word 100) (swap32_word d.price)
    ∙ unfold load_ticker key_of in rw (swap32_twice d.price p, swap32_twice 100 (omega arith)) refl

read_records-mock_file :
    (raw : ℕ → ℕ) (draws : List Draw) (i at : ℕ)
    → AllPrices draws
    → i + length draws < u64
    → Holds raw at (mock_file draws i)
    → read_records raw (length draws) at ≡ mock_orders draws i
unfolding mock_file
read_records-mock_file raw [] i at prices low holds = refl
read_records-mock_file raw (d ∷ draws) i at (p, prices) low holds =
    let here = record_bytes (mock_message i d) [] in
    let rest = mock_file draws (i + 1) in
    ap₂ (λ o orders. o ∷ orders)
      (decode_message_shift raw at 36
        ∙ decode_message_cong (λ k. raw (at + k)) (entry here) 36
            (Holds_left raw at here rest holds) 0 36 (omega arith) (omega arith)
        ∙ mock_message-decodes i d (omega arith) p)
      (read_records-mock_file raw draws (i + 1) (at + 36) prices (omega arith)
        (Holds_right raw at here rest holds))

-- The records of 36 bytes that the generator writes, read back in order by the handler that the
-- decoder has for them, are the orders that were drawn: numbered from 1, on the bid side, of 100
-- shares, with their tickers and their prices, if those are 32-bit words.
pub read_records-file :
    (draws : List Draw)
    → AllPrices draws
    → length draws < u64
    → read_records (entry (mock_file draws 0)) (length draws) 0 ≡ mock_orders draws 0
read_records-file draws prices low =
    read_records-mock_file (entry (mock_file draws 0)) draws 0 0 prices (omega arith)
      (λ k below. ap (entry (mock_file draws 0)) {x = 0 + k} {y = k} (omega arith))
