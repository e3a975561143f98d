-- ===== src/Decoder/Wire.antt =====
-- The feed that include/simd_decoder.h expects, written down from the layouts of
-- include/itch_messages.h: what a message says, its bytes, and a stream of such messages.
pub mod Words
pub mod Held
pub use Words.{length, le16, le32, le64, be32, load32-le32, load64-le64, swap32-be32}
use simd_nanoring.Common.{
  ℕ, zero, suc, ◌+◌, ◌-◌, ◌*◌, ◌/◌, ◌%◌, ◌<◌, ◌≢◌, Option, none, some, List, [], ◌∷◌, ◌++◌,
}
use simd_nanoring.Common.Word.{u32, u64}
use simd_nanoring.Itch.{DecodedOrder, OrderType}

-- The fields that the engine reads, and the bytes of a message of another type.
pub data Message : Type 0 where
  add : (order_ref ticker_key price shares side : ℕ) → Message
  execute : (order_ref shares match_number : ℕ) → Message
  delete : (order_ref : ℕ) → Message
  replace : (original_order_ref new_order_ref price shares : ℕ) → Message
  other : (message_type : ℕ) → List ℕ → Message

-- The ten bytes of locate, tracking number and timestamp, which nothing reads.
abbrev pub preamble : (ℕ → ℕ) → List ℕ → List ℕ
preamble h rest = h 0 ∷ h 1 ∷ h 2 ∷ h 3 ∷ h 4 ∷ h 5 ∷ h 6 ∷ h 7 ∷ h 8 ∷ h 9 ∷ rest

-- Prices and shares are big-endian; references and the ticker are as the host reads them.
abbrev pub payload : (ℕ → ℕ) → Message → List ℕ
payload h (Message.add order_ref ticker_key price shares side) =
    b'A' ∷ preamble h (le64 order_ref (side ∷ be32 shares (le64 ticker_key (be32 price []))))
payload h (Message.execute order_ref shares match_number) =
    b'E' ∷ preamble h (le64 order_ref (be32 shares (le64 match_number [])))
payload h (Message.delete order_ref) = b'D' ∷ preamble h (le64 order_ref [])
payload h (Message.replace original_order_ref new_order_ref price shares) =
    b'U' ∷ preamble h (le64 original_order_ref (le64 new_order_ref (be32 shares (be32 price []))))
payload h (Message.other message_type body) = message_type ∷ body

-- The order that a message stands for, if it stands for one.
abbrev pub meaning : Message → Option DecodedOrder
meaning (Message.add order_ref ticker_key price shares side) = some (record {
  type = OrderType.add;
  order_ref = order_ref;
  ticker_key = ticker_key;
  price = price;
  shares = shares;
  side = side;
  new_order_ref = 0;
})
meaning (Message.execute order_ref shares match_number) = some (record {
  type = OrderType.execute;
  order_ref = order_ref;
  ticker_key = 0;
  price = 0;
  shares = shares;
  side = 0;
  new_order_ref = 0;
})
meaning (Message.delete order_ref) = some (record {
  type = OrderType.delete;
  order_ref = order_ref;
  ticker_key = 0;
  price = 0;
  shares = 0;
  side = 0;
  new_order_ref = 0;
})
meaning (Message.replace original_order_ref new_order_ref price shares) = some (record {
  type = OrderType.replace;
  order_ref = original_order_ref;
  ticker_key = 0;
  price = price;
  shares = shares;
  side = 0;
  new_order_ref = new_order_ref;
})
meaning (Message.other message_type body) = none

-- The fields fit in their bytes, and a message of another type has another type's letter.
abbrev pub IsWire : Message → Type 0
IsWire (Message.add order_ref ticker_key price shares side) =
    (order_ref < u64) × (ticker_key < u64) × (price < u32) × (shares < u32)
IsWire (Message.execute order_ref shares match_number) = (order_ref < u64) × (shares < u32)
IsWire (Message.delete order_ref) = order_ref < u64
IsWire (Message.replace original_order_ref new_order_ref price shares) =
    (original_order_ref < u64) × (new_order_ref < u64) × (price < u32) × (shares < u32)
IsWire (Message.other message_type body) =
    (length body < 0xffff)
    × (message_type ≢ b'A')
    × (message_type ≢ b'D')
    × (message_type ≢ b'E')
    × (message_type ≢ b'U')

-- A message behind its length, high byte first.
abbrev pub frame : (ℕ → ℕ) → Message → List ℕ
frame h message = let bytes = payload h message in length bytes / 256 ∷ length bytes % 256 ∷ bytes

-- A message with its preamble.
abbrev pub Sent : Type 0
Sent = (ℕ → ℕ) × Message

unfoldable pub encode_stream : List Sent → List ℕ
encode_stream [] = []
encode_stream ((h, message) ∷ sent) = frame h message ++ encode_stream sent

abbrev pub AllWire : List Sent → Type 0
AllWire [] = Unit
AllWire ((h, message) ∷ sent) = IsWire message × AllWire sent

-- The orders of the messages, `room` at most.
unfoldable pub meanings : ℕ → List Sent → List DecodedOrder
meanings zero sent = []
meanings (suc room) [] = []
meanings (suc room) ((h, message) ∷ sent) = elim (meaning message) [
  | none ↦ meanings (suc room) sent
  | some o ↦ o ∷ meanings room sent
]
