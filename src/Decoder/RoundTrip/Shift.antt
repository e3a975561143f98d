-- ===== src/Decoder/RoundTrip/Shift.antt =====
-- A message of include/simd_decoder.h decodes to the same order wherever it stands in a stream.
use simd_nanoring.Common.{
  ℕ, ◌+◌, ◌*◌, ◌≡◌, ◌∙◌, inl, inr, none, some, leb, if◌then◌else◌, Option-cases, arith, ap, ap₂,
  refl,
}
use simd_nanoring.Itch.{
  OrderType, load16, load32, load64, as_add_order, as_order_executed, as_order_delete,
  as_order_replace,
}
use simd_nanoring.Decoder.{
  get_handler, run_handler, min_msg_size, decode_message, decode_add_order, decode_execute,
  decode_delete, decode_replace, load_ticker,
}

module _ (s : ℕ → ℕ) (a : ℕ) where
  -- The stream from `a` on.
  abbrev pub from : ℕ → ℕ
  from i = s (a + i)

  load16_shift : (b : ℕ) → load16 s (a + b) ≡ load16 from b
  unfolding load16
  load16_shift b = ap (λ i. s (a + b) + 256 * s i) {x = a + b + 1} {y = a + (b + 1)} (omega arith)

  load32_shift : (b : ℕ) → load32 s (a + b) ≡ load32 from b
  unfolding load32
  load32_shift b =
      ap₂ (λ x y. x + 65536 * y) (load16_shift b)
        (ap (load16 s) {x = a + b + 2} {y = a + (b + 2)} (omega arith) ∙ load16_shift (b + 2))

  load64_shift : (b : ℕ) → load64 s (a + b) ≡ load64 from b
  unfolding load64
  load64_shift b =
      ap₂ (λ x y. x + 0x1_0000_0000 * y) (load32_shift b)
        (ap (load32 s) {x = a + b + 4} {y = a + (b + 4)} (omega arith) ∙ load32_shift (b + 4))

  load_ticker_shift : (b : ℕ) → load_ticker (λ i. s (a + b + i)) ≡ load_ticker (λ i. from (b + i))
  unfolding load_ticker load64 load32 load16
  load_ticker_shift b =
      let at = λ (k : ℕ). ap s {x = a + b + k} {y = a + (b + k)} (omega arith) in
      rw (at 0, at 1, at 2, at 3, at 4, at 5, at 6, at 7) refl

  run_handler_shift : (t : OrderType) → run_handler t s a ≡ run_handler t from 0
  unfolding run_handler decode_add_order decode_execute decode_delete decode_replace as_add_order
      as_order_executed as_order_delete as_order_replace
  run_handler_shift OrderType.add =
      rw (load64_shift 11, load_ticker_shift 24, load32_shift 20, load32_shift 32) refl
  run_handler_shift OrderType.execute = rw (load64_shift 11, load32_shift 19) refl
  run_handler_shift OrderType.delete = rw (load64_shift 11) refl
  run_handler_shift OrderType.replace =
      rw (load64_shift 11, load64_shift 19, load32_shift 27, load32_shift 31) refl

  pub decode_message_shift : (len : ℕ) → decode_message s a len ≡ decode_message from 0 len
  unfolding decode_message
  decode_message_shift len =
      let first : a + 0 ≡ a = omega arith in
      elim (Option-cases (get_handler (s a))) [
        | inl miss ↦ rw (first, miss, decode_message) refl
        | inr (t, hit) ↦
            rw (first, hit, run_handler_shift t, decode_message)
              (ap (λ i. if leb (min_msg_size (s i)) len then some (run_handler t from 0) else none)
                {x = a} {y = a + 0} (omega arith))
      ]
