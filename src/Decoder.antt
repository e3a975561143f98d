-- ===== src/Decoder.antt =====
-- include/simd_decoder.h: the handlers of the four messages, the decoding of a length-prefixed
-- stream, the batch decoding of add orders and the filter by ticker.
pub mod Stream
pub mod Reads
pub mod Batch
pub mod Filter
pub mod Wire
pub mod RoundTrip
use simd_nanoring.Common.{
  ℕ, zero, suc, ◌+◌, ◌-◌, ◌*◌, ◌/◌, ◌%◌, ◌≤◌, Bool, true, false, Option, none, some, List, [], ◌∷◌,
  ltb, leb, ◌==◌, ◌&&◌, if◌then◌else◌,
}
use simd_nanoring.Common.Word.{add64}
use simd_nanoring.Itch.{
  ItchAddOrder, DecodedOrder, OrderType, as_add_order, as_order_executed, as_order_delete,
  as_order_replace, load64,
}

-- `__builtin_bswap32`
unfoldable pub swap32 : ℕ → ℕ
swap32 v =
    v % 256 * 0x1_000000
    + v / 256 % 256 * 0x1_0000
    + v / 0x1_0000 % 256 * 256
    + v / 0x1_000000 % 256

-- `load_ticker`
unfoldable pub load_ticker : (ℕ → ℕ) → ℕ
unfolding load64
load_ticker stock = load64 stock 0

abbrev pub itch_add_order_size : ℕ
itch_add_order_size = 36

abbrev pub itch_order_executed_size : ℕ
itch_order_executed_size = 31

abbrev pub itch_order_delete_size : ℕ
itch_order_delete_size = 19

abbrev pub itch_order_replace_size : ℕ
itch_order_replace_size = 35

-- The handlers set every field of the output, which is their result here. `&msg->price` and the
-- like are read by `load_u32_be`, which does not swap.
unfoldable pub decode_add_order : (ℕ → ℕ) → ℕ → DecodedOrder
unfolding as_add_order load_ticker swap32
decode_add_order raw at =
    let msg = as_add_order raw at in
    record {
      type = OrderType.add;
      order_ref = msg.order_ref_num;
      ticker_key = load_ticker msg.stock;
      price = swap32 msg.price;
      shares = swap32 msg.shares;
      side = msg.buy_sell_indicator;
      new_order_ref = 0;
    }

unfoldable pub decode_execute : (ℕ → ℕ) → ℕ → DecodedOrder
unfolding as_order_executed swap32
decode_execute raw at =
    let msg = as_order_executed raw at in
    record {
      type = OrderType.execute;
      order_ref = msg.order_ref_num;
      ticker_key = 0;
      price = 0;
      shares = swap32 msg.executed_shares;
      side = 0;
      new_order_ref = 0;
    }

unfoldable pub decode_delete : (ℕ → ℕ) → ℕ → DecodedOrder
unfolding as_order_delete
decode_delete raw at =
    let msg = as_order_delete raw at in
    record {
      type = OrderType.delete;
      order_ref = msg.order_ref_num;
      ticker_key = 0;
      price = 0;
      shares = 0;
      side = 0;
      new_order_ref = 0;
    }

unfoldable pub decode_replace : (ℕ → ℕ) → ℕ → DecodedOrder
unfolding as_order_replace swap32
decode_replace raw at =
    let msg = as_order_replace raw at in
    record {
      type = OrderType.replace;
      order_ref = msg.original_order_ref;
      ticker_key = 0;
      price = swap32 msg.price;
      shares = swap32 msg.shares;
      side = 0;
      new_order_ref = msg.new_order_ref;
    }

-- The entry of the table of handlers: the type of the handler, which `run_handler` runs; `none` is
-- the null pointer.
unfoldable pub get_handler : ℕ → Option OrderType
get_handler msg_type =
    if msg_type == b'A'
    then some OrderType.add
    else if msg_type == b'D'
    then some OrderType.delete
    else if msg_type == b'E'
    then some OrderType.execute
    else if msg_type == b'U'
    then some OrderType.replace
    else none

unfoldable pub run_handler : OrderType → (ℕ → ℕ) → ℕ → DecodedOrder
unfolding decode_add_order decode_execute decode_delete decode_replace
run_handler OrderType.add = decode_add_order
run_handler OrderType.execute = decode_execute
run_handler OrderType.delete = decode_delete
run_handler OrderType.replace = decode_replace

unfoldable pub min_msg_size : ℕ → ℕ
min_msg_size msg_type =
    if msg_type == b'A'
    then itch_add_order_size
    else if msg_type == b'D'
    then itch_order_delete_size
    else if msg_type == b'E'
    then itch_order_executed_size
    else if msg_type == b'U'
    then itch_order_replace_size
    else 0

-- The big-endian length prefix.
unfoldable pub msg_len_at : (ℕ → ℕ) → ℕ → ℕ
msg_len_at stream offset = stream offset * 256 + stream (offset + 1)

-- The order that the message at an offset decodes to, if it has a handler and enough bytes.
unfoldable pub decode_message : (ℕ → ℕ) → ℕ → ℕ → Option DecodedOrder
unfolding get_handler run_handler min_msg_size
decode_message stream offset msg_len = elim (get_handler (stream offset)) [
  | none ↦ none
  | some handler ↦
      if leb (min_msg_size (stream offset)) msg_len
      then some (run_handler handler stream offset)
      else none
]

abbrev pub push_front : Option DecodedOrder → List DecodedOrder → List DecodedOrder
push_front none orders = orders
push_front (some o) orders = o ∷ orders

abbrev pub room_after : Option DecodedOrder → ℕ → ℕ
room_after none room = room
room_after (some o) room = room - 1

-- The loop of `decode_stream` from an offset, with `room` free places in the output; the orders
-- that it appends. `none` is a loop that needs more rounds than it is given.
unfoldable pub decode_from : ℕ → (ℕ → ℕ) → ℕ → ℕ → ℕ → Option (List DecodedOrder)
unfolding decode_message msg_len_at
decode_from zero stream stream_len offset room = none
decode_from (suc rounds) stream stream_len offset room =
    let msg_len = msg_len_at stream offset in
    let decoded = decode_message stream (offset + 2) msg_len in
    let rest =
      decode_from rounds stream stream_len (offset + 2 + msg_len) (room_after decoded room) in
    if leb (offset + 3) stream_len && ltb 0 room
    then if ltb stream_len (offset + 2 + msg_len)
      then some []
      else elim rest [ none ↦ none | some orders ↦ some (push_front decoded orders) ]
    else some []

unfoldable pub decode_stream : (ℕ → ℕ) → ℕ → ℕ → Option (List DecodedOrder)
unfolding decode_from
decode_stream stream stream_len max_output =
    decode_from (suc stream_len) stream stream_len 0 max_output
