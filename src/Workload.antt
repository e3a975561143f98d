-- ===== src/Workload.antt =====
-- The market data that src/experiments.cpp, src/main.cpp and tools/generator.cpp make up. The random
-- draws of `std::mt19937` and its distributions are arguments.
pub mod Tickers
pub mod Decodes
pub mod Refs
pub mod File
pub mod Fresh
pub mod Misses
use simd_nanoring.Common.{ℕ, zero, suc, ◌+◌, ◌*◌, List, [], ◌∷◌, ◌++◌, leb, ◌==◌, if◌then◌else◌}
use simd_nanoring.Common.Word.{add64}
use simd_nanoring.Itch.{ItchAddOrder, DecodedOrder, OrderType, load64}
use simd_nanoring.Decoder.{swap32}
use simd_nanoring.Decoder.Batch.{entry, decode_add_orders_neon}
use simd_nanoring.Decoder.Wire.{le16, le32, le64}

-- What the generator draws for a message: the eight characters of its ticker, the price, the
-- shares, `side_dist(gen)` and `type_dist(gen)`.
pub record Draw : Type 0 where
  pub ticker : List ℕ
  pub price : ℕ
  pub shares : ℕ
  pub side_roll : ℕ
  pub type_roll : ℕ

abbrev pub type_of_roll : ℕ → OrderType
type_of_roll roll =
    if leb roll 5
    then OrderType.add
    else if leb roll 7
    then OrderType.execute
    else if roll == 8
    then OrderType.delete
    else OrderType.replace

abbrev pub side_of_roll : ℕ → ℕ
side_of_roll roll = if roll == 0 then b'S' else b'B'

-- `memcpy(&ticker_key, TICKERS[ticker_idx], 8)`
unfoldable pub key_of : List ℕ → ℕ
unfolding load64
key_of ticker = load64 (entry ticker) 0

pub record TestData : Type 0 where
  pub orders : List DecodedOrder
  pub raw_add_orders : List ItchAddOrder

-- Whether `order.new_order_ref = next_order_ref++` is run, and the counter after the message.
abbrev pub next_after : OrderType → ℕ → ℕ
next_after OrderType.add next_order_ref = add64 next_order_ref 1
next_after OrderType.execute next_order_ref = add64 next_order_ref 1
next_after OrderType.delete next_order_ref = add64 next_order_ref 1
next_after OrderType.replace next_order_ref = add64 (add64 next_order_ref 1) 1

abbrev pub new_ref : OrderType → ℕ → ℕ
new_ref OrderType.add next_order_ref = 0
new_ref OrderType.execute next_order_ref = 0
new_ref OrderType.delete next_order_ref = 0
new_ref OrderType.replace next_order_ref = next_order_ref

abbrev pub blank : ItchAddOrder
blank = record {
  message_type = 0;
  stock_locate = 0;
  tracking_number = 0;
  timestamp = λ i. 0;
  order_ref_num = 0;
  buy_sell_indicator = 0;
  shares = 0;
  stock = λ i. 0;
  price = 0;
}

-- The body of the loop of `generate_test_data`: the order, and the raw message beside it. The vectors
-- start out zeroed.
unfoldable pub make_order : Draw → ℕ → DecodedOrder
unfolding key_of
make_order d next_order_ref = record {
  type = type_of_roll d.type_roll;
  order_ref = next_order_ref;
  ticker_key = key_of d.ticker;
  price = d.price;
  shares = d.shares;
  side = side_of_roll d.side_roll;
  new_order_ref = new_ref (type_of_roll d.type_roll) (add64 next_order_ref 1);
}

unfoldable pub make_raw : List ℕ → DecodedOrder → ItchAddOrder
unfolding swap32
make_raw ticker order = record {
  message_type = b'A';
  stock_locate = 0;
  tracking_number = 0;
  timestamp = λ i. 0;
  order_ref_num = order.order_ref;
  buy_sell_indicator = order.side;
  shares = swap32 order.shares;
  stock = entry ticker;
  price = swap32 order.price;
}

-- The loop of `generate_test_data`.
unfoldable pub generate_from : List Draw → ℕ → TestData
unfolding make_order make_raw
generate_from [] next_order_ref = record { orders = []; raw_add_orders = [] }
generate_from (d ∷ draws) next_order_ref =
    let order = make_order d next_order_ref in
    let rest = generate_from draws (next_after order.type next_order_ref) in
    record {
      orders = order ∷ rest.orders;
      raw_add_orders = make_raw d.ticker order ∷ rest.raw_add_orders;
    }

unfoldable pub generate_test_data : List Draw → TestData
unfolding generate_from
generate_test_data draws = generate_from draws 1

-- The raw messages of `main` in src/main.cpp, from a reference on.
unfoldable pub make_raw_messages : List Draw → ℕ → List ItchAddOrder
unfolding swap32
make_raw_messages [] next_ref = []
make_raw_messages (d ∷ draws) next_ref =
    record {
      message_type = b'A';
      stock_locate = 0;
      tracking_number = 0;
      timestamp = λ i. 0;
      order_ref_num = next_ref;
      buy_sell_indicator = side_of_roll d.side_roll;
      shares = swap32 d.shares;
      stock = entry d.ticker;
      price = swap32 d.price;
    }
    ∷ make_raw_messages draws (add64 next_ref 1)

-- `next_ref` after that loop.
unfoldable pub ref_after : List Draw → ℕ → ℕ
ref_after [] next_ref = next_ref
ref_after (d ∷ draws) next_ref = ref_after draws (add64 next_ref 1)

-- Its second loop, from message `i`, with the rolls of `type_dist`.
unfoldable pub assign_types : (ℕ → ℕ) → List DecodedOrder → ℕ → ℕ → List DecodedOrder
assign_types rolls [] i next_ref = []
assign_types rolls (o ∷ decoded) i next_ref =
    record o {
      type = type_of_roll (rolls i);
      new_order_ref = if leb (rolls i) 8 then o.new_order_ref else next_ref;
    }
    ∷ assign_types rolls decoded (i + 1) (if leb (rolls i) 8 then next_ref else add64 next_ref 1)

-- `v[i]`
abbrev pub nth : List ItchAddOrder → ℕ → ItchAddOrder
nth [] i = blank
nth (m ∷ msgs) zero = m
nth (m ∷ msgs) (suc i) = nth msgs i

abbrev pub length : List Draw → ℕ
length [] = 0
length (d ∷ draws) = suc (length draws)

-- The orders that `main` gives to the pipeline.
unfoldable pub make_orders : List Draw → (ℕ → ℕ) → List DecodedOrder
unfolding make_raw_messages ref_after assign_types decode_add_orders_neon
make_orders draws rolls =
    let raw_messages = make_raw_messages draws 1 in
    assign_types rolls (decode_add_orders_neon (nth raw_messages) (length draws)) 0
      (ref_after draws 1)

-- A message of tools/generator.cpp, the `i`-th from 0, for a ticker and a price.
unfoldable pub mock_message : ℕ → Draw → ItchAddOrder
unfolding swap32
mock_message i d = record {
  message_type = b'A';
  stock_locate = 0;
  tracking_number = 0;
  timestamp = λ k. 0;
  order_ref_num = i + 1;
  buy_sell_indicator = b'B';
  shares = swap32 100;
  stock = entry d.ticker;
  price = swap32 d.price;
}

-- `outfile.write(reinterpret_cast<const char*>(&msg), sizeof(ItchAddOrder))`
abbrev pub record_bytes : ItchAddOrder → List ℕ → List ℕ
record_bytes m rest =
    m.message_type
    ∷ le16 m.stock_locate (
        le16 m.tracking_number (
          m.timestamp 0
          ∷ m.timestamp 1
          ∷ m.timestamp 2
          ∷ m.timestamp 3
          ∷ m.timestamp 4
          ∷ m.timestamp 5
          ∷ le64 m.order_ref_num (
              m.buy_sell_indicator
              ∷ le32 m.shares (
                  m.stock 0
                  ∷ m.stock 1
                  ∷ m.stock 2
                  ∷ m.stock 3
                  ∷ m.stock 4
                  ∷ m.stock 5
                  ∷ m.stock 6
                  ∷ m.stock 7
                  ∷ le32 m.price rest))))

-- The file, from message `i` on.
unfoldable pub mock_file : List Draw → ℕ → List ℕ
unfolding mock_message
mock_file [] i = []
mock_file (d ∷ draws) i = record_bytes (mock_message i d) [] ++ mock_file draws (i + 1)
