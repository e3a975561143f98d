-- ===== src/Decoder/Reads.antt =====
-- `decode_stream` reads no byte beyond the stream.
use simd_nanoring.Decoder.Stream.{goes_on, decode_from_done, decode_from_cut, decode_from_next}
use simd_nanoring.Common.{
  some_eq, ℕ, zero, suc, ◌+◌, ◌*◌, ◌≤◌, ◌<◌, ◌≡◌, ◌∙◌, inl, inr, Option, none, some, List, ltb, leb,
  ◌==◌, if◌then◌else◌, Bool-cases, Option-cases, arith, ap, ap₂, sym, refl,
}
use simd_nanoring.Itch.{
  DecodedOrder, OrderType, load16, load32, load64, as_add_order, as_order_executed, as_order_delete,
  as_order_replace,
}
use simd_nanoring.Decoder.{
  get_handler, run_handler, min_msg_size, msg_len_at, decode_message, push_front, room_after,
  decode_from, decode_stream, decode_add_order, decode_execute, decode_delete, decode_replace,
  load_ticker,
}

-- The two streams have the same bytes from `at` on, `n` of them.
abbrev pub SameBytes : (ℕ → ℕ) → (ℕ → ℕ) → ℕ → ℕ → Type 0
SameBytes s t at n = (i : ℕ) → at ≤ i → i < at + n → s i ≡ t i

module _ (s t : ℕ → ℕ) where
  SameBytes-part :
      (at n at' n' : ℕ) → SameBytes s t at n → at ≤ at' → at' + n' ≤ at + n → SameBytes s t at' n'
  SameBytes-part at n at' n' same h k i from upto = same i (omega arith) (omega arith)

  load16_cong : (at : ℕ) → SameBytes s t at 2 → load16 s at ≡ load16 t at
  unfolding load16
  load16_cong at same =
      ap₂ (λ a b. a + 256 * b) (same at (omega arith) (omega arith))
        (same (at + 1) (omega arith) (omega arith))

  load32_cong : (at : ℕ) → SameBytes s t at 4 → load32 s at ≡ load32 t at
  unfolding load32
  load32_cong at same =
      ap₂ (λ a b. a + 65536 * b)
        (load16_cong at (SameBytes-part at 4 at 2 same (omega arith) (omega arith)))
        (load16_cong (at + 2) (SameBytes-part at 4 (at + 2) 2 same (omega arith) (omega arith)))

  load64_cong : (at : ℕ) → SameBytes s t at 8 → load64 s at ≡ load64 t at
  unfolding load64
  load64_cong at same =
      ap₂ (λ a b. a + 0x1_0000_0000 * b)
        (load32_cong at (SameBytes-part at 8 at 4 same (omega arith) (omega arith)))
        (load32_cong (at + 4) (SameBytes-part at 8 (at + 4) 4 same (omega arith) (omega arith)))

-- The bytes that a handler reads.
abbrev size_of : OrderType → ℕ
size_of OrderType.add = 36
size_of OrderType.execute = 31
size_of OrderType.delete = 19
size_of OrderType.replace = 35

module _ (s t : ℕ → ℕ) (at : ℕ) where
  add_cong : SameBytes s t at 36 → decode_add_order s at ≡ decode_add_order t at
  unfolding decode_add_order as_add_order load_ticker
  add_cong same =
      let part = (λ (from n : ℕ). SameBytes-part s t at 36 from n same) in
      let stock =
        load64_cong (λ i. s (at + 24 + i)) (λ i. t (at + 24 + i)) 0
          (λ i from upto. same (at + 24 + i) (omega arith) (omega arith)) in
      rw
        (
          load64_cong s t (at + 11) (part (at + 11) 8 (omega arith) (omega arith)),
          same (at + 19) (omega arith) (omega arith),
          load32_cong s t (at + 20) (part (at + 20) 4 (omega arith) (omega arith)),
          stock,
          load32_cong s t (at + 32) (part (at + 32) 4 (omega arith) (omega arith)),
        )
        refl

  execute_cong : SameBytes s t at 31 → decode_execute s at ≡ decode_execute t at
  unfolding decode_execute as_order_executed
  execute_cong same =
      let part = (λ (from n : ℕ). SameBytes-part s t at 31 from n same) in
      rw
        (
          load64_cong s t (at + 11) (part (at + 11) 8 (omega arith) (omega arith)),
          load32_cong s t (at + 19) (part (at + 19) 4 (omega arith) (omega arith)),
        )
        refl

  delete_cong : SameBytes s t at 19 → decode_delete s at ≡ decode_delete t at
  unfolding decode_delete as_order_delete
  delete_cong same =
      rw
        (load64_cong s t (at + 11)
          (SameBytes-part s t at 19 (at + 11) 8 same (omega arith) (omega arith)))
        refl

  replace_cong : SameBytes s t at 35 → decode_replace s at ≡ decode_replace t at
  unfolding decode_replace as_order_replace
  replace_cong same =
      let part = (λ (from n : ℕ). SameBytes-part s t at 35 from n same) in
      rw
        (
          load64_cong s t (at + 11) (part (at + 11) 8 (omega arith) (omega arith)),
          load64_cong s t (at + 19) (part (at + 19) 8 (omega arith) (omega arith)),
          load32_cong s t (at + 27) (part (at + 27) 4 (omega arith) (omega arith)),
          load32_cong s t (at + 31) (part (at + 31) 4 (omega arith) (omega arith)),
        )
        refl

  run_handler_cong :
      (h : OrderType) → SameBytes s t at (size_of h) → run_handler h s at ≡ run_handler h t at
  unfolding run_handler
  run_handler_cong OrderType.add same = add_cong same
  run_handler_cong OrderType.execute same = execute_cong same
  run_handler_cong OrderType.delete same = delete_cong same
  run_handler_cong OrderType.replace same = replace_cong same

-- The table of sizes asks for every byte that the handler of the type reads.
size_of-min_msg_size :
    (msg_type : ℕ) (h : OrderType)
    → get_handler msg_type ≡ some h
    → size_of h ≡ min_msg_size msg_type
unfolding get_handler min_msg_size
size_of-min_msg_size msg_type h e = elim (Bool-cases (msg_type == b'A')) [
  | inl a ↦
      let entry : get_handler msg_type ≡ some OrderType.add = rw a refl in
      rw a (ap size_of (some_eq (sym e ∙ entry)))
  | inr not_a ↦ elim (Bool-cases (msg_type == b'D')) [
    | inl d ↦
        let entry : get_handler msg_type ≡ some OrderType.delete = rw (not_a, d) refl in
        rw (not_a, d) (ap size_of (some_eq (sym e ∙ entry)))
    | inr not_d ↦ elim (Bool-cases (msg_type == b'E')) [
      | inl x ↦
          let entry : get_handler msg_type ≡ some OrderType.execute = rw (not_a, not_d, x) refl in
          rw (not_a, not_d, x) (ap size_of (some_eq (sym e ∙ entry)))
      | inr not_e ↦ elim (Bool-cases (msg_type == b'U')) [
        | inl u ↦
            let entry : get_handler msg_type ≡ some OrderType.replace =
              rw (not_a, not_d, not_e, u) refl in
            rw (not_a, not_d, not_e, u) (ap size_of (some_eq (sym e ∙ entry)))
        | inr not_u ↦
            let entry : get_handler msg_type ≡ none = rw (not_a, not_d, not_e, not_u) refl in
            cc (entry, e)
      ]
    ]
  ]
]

module _ (u : ℕ → ℕ) (at msg_len : ℕ) where
  message_none : get_handler (u at) ≡ none → decode_message u at msg_len ≡ none
  unfolding decode_message
  message_none e = rw (e, decode_message) refl

  message_some :
      (h : OrderType)
      → get_handler (u at) ≡ some h
      → decode_message u at msg_len
        ≡ (if leb (min_msg_size (u at)) msg_len then some (run_handler h u at) else none)
  unfolding decode_message
  message_some h e = rw (e, decode_message) refl

module _ (s t : ℕ → ℕ) (stream_len : ℕ) (same : (i : ℕ) → i < stream_len → s i ≡ t i) where
  same_if :
      (h : OrderType) (at msg_len : ℕ)
      → at + msg_len ≤ stream_len
      → get_handler (t at) ≡ some h
      → (if leb (min_msg_size (t at)) msg_len then some (run_handler h s at) else none)
        ≡ (if leb (min_msg_size (t at)) msg_len then some (run_handler h t at) else none)
  same_if h at msg_len whole handler = elim (Bool-cases (leb (min_msg_size (t at)) msg_len)) [
    | inl enough ↦
        let bytes : SameBytes s t at (size_of h) =
          (λ i from upto. same i (ground (arith, size_of-min_msg_size (t at) h handler))) in
        rw enough (ap some (run_handler_cong s t at h bytes))
    | inr short ↦ rw short refl
  ]

  pub decode_message_cong :
      (at msg_len : ℕ)
      → at < stream_len
      → at + msg_len ≤ stream_len
      → decode_message s at msg_len ≡ decode_message t at msg_len
  decode_message_cong at msg_len here whole =
      let first : s at ≡ t at = same at here in
      elim (Option-cases (get_handler (t at))) [
        | inl no_handler ↦
            message_none s at msg_len (ap get_handler first ∙ no_handler)
            ∙ sym (message_none t at msg_len no_handler)
        | inr (h, handler) ↦
            message_some s at msg_len h (ap get_handler first ∙ handler)
            ∙ ap (λ k. if leb (min_msg_size k) msg_len then some (run_handler h s at) else none)
                first
            ∙ same_if h at msg_len whole handler
            ∙ sym (message_some t at msg_len h handler)
      ]

  msg_len_cong : (offset : ℕ) → offset + 3 ≤ stream_len → msg_len_at s offset ≡ msg_len_at t offset
  unfolding msg_len_at
  msg_len_cong offset more =
      ap₂ (λ a b. a * 256 + b) (same offset (omega arith)) (same (offset + 1) (omega arith))

  abbrev after : Option DecodedOrder → Option (List DecodedOrder) → Option (List DecodedOrder)
  after d rest = elim rest [ none ↦ none | some orders ↦ some (push_front d orders) ]

  decode_from_cong :
      (rounds offset room : ℕ)
      → decode_from rounds s stream_len offset room ≡ decode_from rounds t stream_len offset room
  unfolding decode_from
  decode_from_cong zero offset room = refl
  decode_from_cong (suc rounds) offset room = elim (Bool-cases (goes_on stream_len offset room)) [
    | inr done ↦
        decode_from_done s stream_len rounds offset room done
        ∙ sym (decode_from_done t stream_len rounds offset room done)
    | inl more ↦
        let len_eq = msg_len_cong offset (ground arith) in
        elim (Bool-cases (ltb stream_len (offset + 2 + msg_len_at t offset))) [
          | inl cut ↦
              decode_from_cut s stream_len rounds offset room more
                (ap (λ n. ltb stream_len (offset + 2 + n)) len_eq ∙ cut)
              ∙ sym (decode_from_cut t stream_len rounds offset room more cut)
          | inr whole ↦
              let message =
                ap (decode_message s (offset + 2)) len_eq
                ∙ decode_message_cong (offset + 2) (msg_len_at t offset) (ground arith)
                    (ground arith) in
              decode_from_next s stream_len rounds offset room more
                (ap (λ n. ltb stream_len (offset + 2 + n)) len_eq ∙ whole)
              ∙ ap₂
                  (λ (d : Option DecodedOrder) n.
                    after d (decode_from rounds s stream_len (offset + 2 + n) (room_after d room)))
                  message len_eq
              ∙ ap (after (decode_message t (offset + 2) (msg_len_at t offset))) (
                  decode_from_cong rounds (offset + 2 + msg_len_at t offset)
                    (room_after (decode_message t (offset + 2) (msg_len_at t offset)) room))
              ∙ sym (decode_from_next t stream_len rounds offset room more whole)
        ]
  ]

-- `decode_stream` of two byte arrays that agree below the stream's length is the same: no byte at
-- or beyond the length has a part in the result, whatever the length prefixes say.
pub decode_stream_cong :
    (s t : ℕ → ℕ) (stream_len max_output : ℕ)
    → ((i : ℕ) → i < stream_len → s i ≡ t i)
    → decode_stream s stream_len max_output ≡ decode_stream t stream_len max_output
unfolding decode_stream
decode_stream_cong s t stream_len max_output same =
    decode_from_cong s t stream_len same (suc stream_len) 0 max_output
