-- ===== src/Decoder/RoundTrip.antt =====
-- `decode_stream` of include/simd_decoder.h reads back what Decoder/Wire writes.
pub mod Shift
use simd_nanoring.Common.{
  ℕ, zero, suc, ◌+◌, ◌-◌, ◌*◌, ◌/◌, ◌%◌, ◌≤◌, ◌<◌, ◌≡◌, ◌≢◌, ◌∙◌, inl, inr, Option-cases, Option,
  none, some, List, [], ◌∷◌, ◌++◌, ltb, leb, ◌==◌, if◌then◌else◌, ne→==, arith, ap, ap₂, sym, refl,
  true, false,
}
use simd_nanoring.Common.Word.{u32, u64}
use simd_nanoring.Itch.{
  DecodedOrder, OrderType, load16, load32, load64, as_add_order, as_order_executed, as_order_delete,
  as_order_replace,
}
use simd_nanoring.Decoder.{
  get_handler, run_handler, min_msg_size, msg_len_at, decode_message, push_front, room_after,
  decode_from, decode_stream, decode_add_order, decode_execute, decode_delete, decode_replace,
  load_ticker,
}
use simd_nanoring.Decoder.Batch.{entry}
use simd_nanoring.Decoder.Wire.Held.{Holds, Holds_left, Holds_right, length-append}
use simd_nanoring.Decoder.Stream.{decode_from_next, decode_from_done}
use simd_nanoring.Decoder.Reads.{decode_message_cong}
use simd_nanoring.Decoder.RoundTrip.Shift.{decode_message_shift}
use simd_nanoring.Decoder.Wire.{
  Message, payload, length, meaning, IsWire, frame, Sent, encode_stream, AllWire, meanings, le64,
  be32, load64-le64, swap32-be32,
}

-- One message, alone.
payload-meaning :
    (h : ℕ → ℕ) (message : Message)
    → IsWire message
    → decode_message (entry (payload h message)) 0 (length (payload h message)) ≡ meaning message
unfolding decode_message run_handler get_handler min_msg_size decode_add_order decode_execute
    decode_delete decode_replace as_add_order as_order_executed as_order_delete as_order_replace
    load16 load32 load64 load_ticker
payload-meaning h (Message.add order_ref ticker_key price shares side) (r, t, p, s) =
    rw
      (load64-le64 order_ref r, load64-le64 ticker_key t, swap32-be32 price p, swap32-be32 shares s)
      refl
payload-meaning h (Message.execute order_ref shares match_number) (r, s) =
    rw (load64-le64 order_ref r, swap32-be32 shares s) refl
payload-meaning h (Message.delete order_ref) r = rw (load64-le64 order_ref r) refl
payload-meaning h (Message.replace original_order_ref new_order_ref price shares) (r, n, p, s) =
    rw
      (
        load64-le64 original_order_ref r,
        load64-le64 new_order_ref n,
        swap32-be32 price p,
        swap32-be32 shares s,
      )
      refl
payload-meaning h (Message.other message_type body) (_, a, d, e, u) =
    let miss : get_handler message_type ≡ none =
      rw
        (
          ne→== message_type b'A' a,
          ne→== message_type b'D' d,
          ne→== message_type b'E' e,
          ne→== message_type b'U' u,
        )
        refl in
    rw (miss, decode_message) refl

-- One message in a stream.
module _ (s : ℕ → ℕ) (at : ℕ) (h : ℕ → ℕ) (message : Message) (wire : IsWire message) where
  payload_some : 0 < length (payload h message)
  payload_some = length_pos message
    where
      length_pos : (m : Message) → 0 < length (payload h m)
      length_pos (Message.add r t p n side) = omega arith
      length_pos (Message.execute r n m) = omega arith
      length_pos (Message.delete r) = omega arith
      length_pos (Message.replace r n p q) = omega arith
      length_pos (Message.other t body) = omega arith

  payload-meaning_at :
      Holds s at (payload h message)
      → decode_message s at (length (payload h message)) ≡ meaning message
  payload-meaning_at holds =
      decode_message_shift s at (length (payload h message))
      ∙ decode_message_cong (λ i. s (at + i)) (entry (payload h message))
          (length (payload h message)) holds 0 (length (payload h message)) payload_some
          (omega arith)
      ∙ payload-meaning h message wire

less_one : (room : ℕ) → suc room - 1 ≡ room
less_one room = omega arith

meanings_cons :
    (room : ℕ) (h : ℕ → ℕ) (message : Message) (sent : List Sent)
    → meanings (suc room) ((h, message) ∷ sent)
      ≡ push_front (meaning message) (meanings (room_after (meaning message) (suc room)) sent)
unfolding meanings
meanings_cons room h (Message.add r t p n side) sent = rw (less_one room) refl
meanings_cons room h (Message.execute r n m) sent = rw (less_one room) refl
meanings_cons room h (Message.delete r) sent = rw (less_one room) refl
meanings_cons room h (Message.replace r n p q) sent = rw (less_one room) refl
meanings_cons room h (Message.other t body) sent = refl

module _ (s : ℕ → ℕ) (stream_len : ℕ) where
  -- A round of the loop at a whole frame.
  decode_from-frame :
      (rounds at room : ℕ) (h : ℕ → ℕ) (message : Message)
      → IsWire message
      → Holds s at (frame h message)
      → at + length (frame h message) ≤ stream_len
      → decode_from (suc rounds) s stream_len at (suc room)
        ≡ elim (decode_from rounds s stream_len
            (at + length (frame h message))
            (room_after (meaning message) (suc room))) [
              | none ↦ none
              | some orders ↦ some (push_front (meaning message) orders)
            ]
  unfolding msg_len_at
  decode_from-frame rounds at room h message wire holds upto =
      let len = length (payload h message) in
      let first : s at ≡ len / 256 =
        ap s {x = at} {y = at + 0} (omega arith) ∙ holds 0 (omega arith) in
      let prefix : msg_len_at s at ≡ len = omega (arith, first, holds 1 (omega arith)) in
      let decoded : decode_message s (at + 2) (msg_len_at s at) ≡ meaning message =
        ap (decode_message s (at + 2)) prefix
        ∙ payload-meaning_at s (at + 2) h message wire (λ k below.
          ap s {x = at + 2 + k} {y = at + suc (suc k)} (omega arith)
          ∙ holds (suc (suc k)) (omega arith)) in
      let pos = payload_some s at h message wire in
      decode_from_next s stream_len rounds at (suc room) (ground arith) (ground (arith, prefix))
      ∙ ap₂
          (λ (d : Option DecodedOrder) n.
            elim (decode_from rounds s stream_len (at + 2 + n) (room_after d (suc room))) [
              | none ↦ none
              | some orders ↦ some (push_front d orders)
            ])
          decoded prefix
      ∙ ap
          (λ (n : ℕ).
            elim (decode_from rounds s stream_len n (room_after (meaning message) (suc room))) [
              | none ↦ none
              | some orders ↦ some (push_front (meaning message) orders)
            ])
          {x = at + 2 + len} {y = at + length (frame h message)} (omega arith)

  decode_from-meanings :
      (sent : List Sent) (rounds at room : ℕ)
      → AllWire sent
      → Holds s at (encode_stream sent)
      → at + length (encode_stream sent) ≡ stream_len
      → length (encode_stream sent) ≤ rounds
      → decode_from (suc rounds) s stream_len at room ≡ some (meanings room sent)
  unfolding encode_stream meanings
  decode_from-meanings sent rounds at zero wire holds ends enough =
      decode_from_done s stream_len rounds at 0 (ground arith)
  decode_from-meanings [] rounds at (suc room) wire holds ends enough =
      decode_from_done s stream_len rounds at (suc room) (ground arith)
  decode_from-meanings ((h, message) ∷ sent) zero at (suc room) wire holds ends enough =
      absurd (omega arith)
  decode_from-meanings ((h, message) ∷ sent) (suc rounds) at (suc room) (wire, wires) holds ends
        enough =
      let here = frame h message in
      let rest = encode_stream sent in
      let lengths = length-append here rest in
      let next : (n : ℕ)
          → decode_from (suc rounds) s stream_len (at + length here) n ≡ some (meanings n sent) =
        λ room'.
          decode_from-meanings sent rounds (at + length here) room' wires
            (Holds_right s at here rest holds) (omega (arith, ends, lengths))
            (omega (arith, enough, lengths)) in
      decode_from-frame (suc rounds) at room h message wire (Holds_left s at here rest holds)
        (omega (arith, ends, lengths))
      ∙ rw (next (room_after (meaning message) (suc room)))
          (ap some (sym (meanings_cons room h message sent)))

-- `decode_stream` of the encoding of any messages whose fields fit in their bytes is the orders of
-- those messages, in order, the first `max_output` of them: each field is read where the layout puts
-- it, and messages of other types are passed over whatever their length.
pub decode_stream-encode_stream :
    (sent : List Sent) (max_output : ℕ)
    → AllWire sent
    → decode_stream (entry (encode_stream sent)) (length (encode_stream sent)) max_output
      ≡ some (meanings max_output sent)
unfolding decode_stream
decode_stream-encode_stream sent max_output wire =
    let bytes = encode_stream sent in
    decode_from-meanings (entry bytes) (length bytes) sent (length bytes) 0 max_output wire
      (λ k below. ap (entry bytes) {x = 0 + k} {y = k} (omega arith)) (omega arith) (omega arith)
