-- ===== src/Itch.antt =====
-- include/itch_messages.h: the packed ITCH records, byte for byte, and the decoded order.
use simd_nanoring.Common.{ℕ, ◌+◌, ◌*◌}

-- `char message_type` and the other characters are bytes, 0 to 255. `uint8_t timestamp[6]` and
-- `char stock[8]` are functions of the index. `uint64_t order_ref_num` is the number that the host
-- reads from the eight bytes; `uint32_t shares` and `price` likewise, before any byte swap.
pub record ItchAddOrder : Type 0 where
  pub message_type : ℕ
  pub stock_locate : ℕ
  pub tracking_number : ℕ
  pub timestamp : ℕ → ℕ
  pub order_ref_num : ℕ
  pub buy_sell_indicator : ℕ
  pub shares : ℕ
  pub stock : ℕ → ℕ
  pub price : ℕ

-- `DecodedOrder::Type`
pub data OrderType : Type 0 where
  add execute delete replace : OrderType

pub record DecodedOrder : Type 0 where
  pub type : OrderType
  pub order_ref : ℕ
  pub ticker_key : ℕ
  pub price : ℕ
  pub shares : ℕ
  pub side : ℕ
  pub new_order_ref : ℕ

pub record ItchHeader : Type 0 where
  pub length : ℕ
  pub message_type : ℕ

pub record ItchOrderExecuted : Type 0 where
  pub message_type : ℕ
  pub stock_locate : ℕ
  pub tracking_number : ℕ
  pub timestamp : ℕ → ℕ
  pub order_ref_num : ℕ
  pub executed_shares : ℕ
  pub match_number : ℕ

pub record ItchOrderDelete : Type 0 where
  pub message_type : ℕ
  pub stock_locate : ℕ
  pub tracking_number : ℕ
  pub timestamp : ℕ → ℕ
  pub order_ref_num : ℕ

pub record ItchOrderReplace : Type 0 where
  pub message_type : ℕ
  pub stock_locate : ℕ
  pub tracking_number : ℕ
  pub timestamp : ℕ → ℕ
  pub original_order_ref : ℕ
  pub new_order_ref : ℕ
  pub shares : ℕ
  pub price : ℕ

-- What the host reads from two, four and eight bytes at an offset: the low byte first.
unfoldable pub load16 : (ℕ → ℕ) → ℕ → ℕ
load16 raw at = raw at + 256 * raw (at + 1)

unfoldable pub load32 : (ℕ → ℕ) → ℕ → ℕ
unfolding load16
load32 raw at = load16 raw at + 65536 * load16 raw (at + 2)

unfoldable pub load64 : (ℕ → ℕ) → ℕ → ℕ
unfolding load32
load64 raw at = load32 raw at + 0x1_0000_0000 * load32 raw (at + 4)

-- `reinterpret_cast` of the bytes at an offset, by the packed layout.
unfoldable pub as_add_order : (ℕ → ℕ) → ℕ → ItchAddOrder
unfolding load16 load32 load64
as_add_order raw at = record {
  message_type = raw at;
  stock_locate = load16 raw (at + 1);
  tracking_number = load16 raw (at + 3);
  timestamp = λ i. raw (at + 5 + i);
  order_ref_num = load64 raw (at + 11);
  buy_sell_indicator = raw (at + 19);
  shares = load32 raw (at + 20);
  stock = λ i. raw (at + 24 + i);
  price = load32 raw (at + 32);
}

unfoldable pub as_order_executed : (ℕ → ℕ) → ℕ → ItchOrderExecuted
unfolding load16 load32 load64
as_order_executed raw at = record {
  message_type = raw at;
  stock_locate = load16 raw (at + 1);
  tracking_number = load16 raw (at + 3);
  timestamp = λ i. raw (at + 5 + i);
  order_ref_num = load64 raw (at + 11);
  executed_shares = load32 raw (at + 19);
  match_number = load64 raw (at + 23);
}

unfoldable pub as_order_delete : (ℕ → ℕ) → ℕ → ItchOrderDelete
unfolding load16 load64
as_order_delete raw at = record {
  message_type = raw at;
  stock_locate = load16 raw (at + 1);
  tracking_number = load16 raw (at + 3);
  timestamp = λ i. raw (at + 5 + i);
  order_ref_num = load64 raw (at + 11);
}

unfoldable pub as_order_replace : (ℕ → ℕ) → ℕ → ItchOrderReplace
unfolding load16 load32 load64
as_order_replace raw at = record {
  message_type = raw at;
  stock_locate = load16 raw (at + 1);
  tracking_number = load16 raw (at + 3);
  timestamp = λ i. raw (at + 5 + i);
  original_order_ref = load64 raw (at + 11);
  new_order_ref = load64 raw (at + 19);
  shares = load32 raw (at + 27);
  price = load32 raw (at + 31);
}

unfoldable pub ticker_to_key : (ℕ → ℕ) → ℕ
unfolding load64
ticker_to_key stock = load64 stock 0
