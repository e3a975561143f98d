-- ===== src/Decoder/Stream.antt =====
-- What `decode_stream` guarantees of any bytes.
use simd_nanoring.Common.{
  ℕ, zero, suc, ◌+◌, ◌≤◌, ◌<◌, ◌≡◌, ◌≢◌, ◌∙◌, ◌⊎◌, inl, inr, Bool, true, false, ◌&&◌, Option, none,
  some, List, [], ◌∷◌, ltb, leb, Bool-cases, Option-cases, arith, sym, refl, subst,
}
use simd_nanoring.Itch.{DecodedOrder, OrderType}
use simd_nanoring.Decoder.{
  get_handler, run_handler, min_msg_size, msg_len_at, decode_message, push_front, room_after,
  decode_from, decode_stream, decode_add_order, decode_execute, decode_delete, decode_replace,
}

abbrev pub AllOf : (DecodedOrder → Type 0) → List DecodedOrder → Type 0
AllOf P [] = Unit
AllOf P (o ∷ orders) = P o × AllOf P orders

abbrev pub count : List DecodedOrder → ℕ
count [] = 0
count (o ∷ orders) = suc (count orders)

abbrev Bounded : (DecodedOrder → Type 0) → ℕ → Option (List DecodedOrder) → Type 0
Bounded P room none = Unit
Bounded P room (some orders) = (count orders ≤ room) × AllOf P orders

abbrev Each : (DecodedOrder → Type 0) → Option DecodedOrder → Type 0
Each P none = Unit
Each P (some o) = P o

-- The two ways out of the loop, and a round that goes on.
abbrev pub goes_on : ℕ → ℕ → ℕ → Bool
goes_on stream_len offset room = leb (offset + 3) stream_len && ltb 0 room

module _ (stream : ℕ → ℕ) (stream_len : ℕ) where
  abbrev len : ℕ → ℕ
  len offset = msg_len_at stream offset

  abbrev decoded : ℕ → Option DecodedOrder
  decoded offset = decode_message stream (offset + 2) (len offset)

  pub decode_from_done :
      (rounds offset room : ℕ)
      → goes_on stream_len offset room ≡ false
      → decode_from (suc rounds) stream stream_len offset room ≡ some []
  unfolding decode_from
  decode_from_done rounds offset room done = rw done refl

  pub decode_from_cut :
      (rounds offset room : ℕ)
      → goes_on stream_len offset room ≡ true
      → ltb stream_len (offset + 2 + len offset) ≡ true
      → decode_from (suc rounds) stream stream_len offset room ≡ some []
  unfolding decode_from
  decode_from_cut rounds offset room more cut = rw (more, cut) refl

  abbrev pub continued : ℕ → Option (List DecodedOrder) → Option (List DecodedOrder)
  continued offset rest = elim rest [
    | none ↦ none
    | some orders ↦ some (push_front (decoded offset) orders)
  ]

  pub decode_from_next :
      (rounds offset room : ℕ)
      → goes_on stream_len offset room ≡ true
      → ltb stream_len (offset + 2 + len offset) ≡ false
      → decode_from (suc rounds) stream stream_len offset room
        ≡ continued offset (
            decode_from rounds stream stream_len
              (offset + 2 + len offset)
              (room_after (decoded offset) room))
  unfolding decode_from
  decode_from_next rounds offset room more whole = rw (more, whole) refl

  continued_some :
      (offset : ℕ) (rest : Option (List DecodedOrder)) → rest ≢ none → continued offset rest ≢ none
  continued_some offset none ne e = ne refl
  continued_some offset (some orders) ne e = cc (e)

  decode_from_total :
      (rounds offset room : ℕ)
      → stream_len ≤ offset + rounds
      → decode_from (suc rounds) stream stream_len offset room ≢ none
  decode_from_total zero offset room enough e =
      cc (decode_from_done zero offset room (ground arith), e)
  decode_from_total (suc rounds) offset room enough e =
      elim (Bool-cases (goes_on stream_len offset room)) [
        | inr done ↦ cc (decode_from_done (suc rounds) offset room done, e)
        | inl more ↦ elim (Bool-cases (ltb stream_len (offset + 2 + len offset))) [
          | inl cut ↦ cc (decode_from_cut (suc rounds) offset room more cut, e)
          | inr whole ↦
              continued_some offset _
                (decode_from_total rounds (offset + 2 + len offset)
                  (room_after (decoded offset) room) (omega arith))
                (sym (decode_from_next (suc rounds) offset room more whole) ∙ e)
        ]
      ]

  module _ (P : DecodedOrder → Type 0)
      (each : (at msg_len : ℕ) → Each P (decode_message stream at msg_len)) where
    continued-Bounded :
        (offset room : ℕ) (d : Option DecodedOrder) (rest : Option (List DecodedOrder))
        → decoded offset ≡ d
        → 0 < room
        → Bounded P (room_after d room) rest
        → Bounded P room (continued offset rest)
    continued-Bounded offset room d none e pos h = tt
    continued-Bounded offset room none (some orders) e pos (h, all) = rw e (h, all)
    continued-Bounded offset room (some o) (some orders) e pos (h, all) =
        rw e (omega arith, (subst (Each P) e (each _ _), all))

    decode_from-Bounded :
        (rounds offset room : ℕ) → Bounded P room (decode_from rounds stream stream_len offset room)
    unfolding decode_from
    decode_from-Bounded zero offset room = tt
    decode_from-Bounded (suc rounds) offset room =
        elim (Bool-cases (goes_on stream_len offset room)) [
          | inr done ↦ rw (decode_from_done rounds offset room done) (omega arith, tt)
          | inl more ↦ elim (Bool-cases (ltb stream_len (offset + 2 + len offset))) [
            | inl cut ↦ rw (decode_from_cut rounds offset room more cut) (omega arith, tt)
            | inr whole ↦ rw (decode_from_next rounds offset room more whole) (
                continued-Bounded offset room (decoded offset) _ refl (ground arith)
                  (decode_from-Bounded rounds _ _))
          ]
        ]

-- A decoded message is an add order, or its ticker key is 0.
abbrev pub KeyedIfAdd : DecodedOrder → Type 0
KeyedIfAdd o = (o.type ≡ OrderType.add) ⊎ (o.ticker_key ≡ 0)

run_handler-KeyedIfAdd :
    (t : OrderType) (stream : ℕ → ℕ) (at : ℕ) → KeyedIfAdd (run_handler t stream at)
unfolding run_handler decode_add_order decode_execute decode_delete decode_replace
run_handler-KeyedIfAdd OrderType.add stream at = inl refl
run_handler-KeyedIfAdd OrderType.execute stream at = inr refl
run_handler-KeyedIfAdd OrderType.delete stream at = inr refl
run_handler-KeyedIfAdd OrderType.replace stream at = inr refl

decode_message-KeyedIfAdd :
    (stream : ℕ → ℕ) (at msg_len : ℕ) → Each KeyedIfAdd (decode_message stream at msg_len)
unfolding decode_message
decode_message-KeyedIfAdd stream at msg_len = elim (Option-cases (get_handler (stream at))) [
  | inl no_handler ↦ rw (no_handler, decode_message) tt
  | inr (t, handler) ↦
      rw (handler, decode_message)
        (elim (Bool-cases (leb (min_msg_size (stream at)) msg_len)) [
          | inl enough ↦ rw enough (run_handler-KeyedIfAdd t stream at)
          | inr short ↦ rw short tt
        ])
]

-- `decode_stream` ends on any bytes, and the number of orders that it decodes is at most the room
-- in the output; every execute, delete and replace among them has the ticker key 0.
pub decode_stream-Bounded :
    (stream : ℕ → ℕ) (stream_len max_output : ℕ)
    → (orders : List DecodedOrder) × (decode_stream stream stream_len max_output ≡ some orders)
      × (count orders ≤ max_output)
      × AllOf KeyedIfAdd orders
unfolding decode_stream
decode_stream-Bounded stream stream_len max_output =
    let result = decode_from (suc stream_len) stream stream_len 0 max_output in
    elim (Option-cases result) [
      | inl none' ↦
          absurd (decode_from_total stream stream_len stream_len 0 max_output (omega arith) none')
      | inr (orders, e) ↦
          let bounds : (count orders ≤ max_output) × AllOf KeyedIfAdd orders =
            subst (Bounded KeyedIfAdd max_output) e (
              decode_from-Bounded stream stream_len KeyedIfAdd (decode_message-KeyedIfAdd stream)
                (suc stream_len) 0 max_output) in
          (orders, e, bounds.0, bounds.1)
    ]
