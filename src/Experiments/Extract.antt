-- ===== src/Experiments/Extract.antt =====
-- The scalar decoding of src/experiments.cpp against that of include/simd_decoder.h.
use simd_nanoring.Common.{
  ℕ, zero, suc, ◌+◌, ◌≤◌, ◌<◌, ◌≡◌, ◌∙◌, inl, inr, set, set_self, set_other, eq_cases, arith, ap,
  sym, refl,
}
use simd_nanoring.Itch.{ItchAddOrder, DecodedOrder}
use simd_nanoring.Decoder.{load_ticker}
use simd_nanoring.Decoder.Batch.{decode_scalar}
use simd_nanoring.Experiments.{extract_fields, extract_from}

module _ (raws : ℕ → ItchAddOrder) where
  extracted_before :
      (rounds i : ℕ) (output : ℕ → DecodedOrder) (k : ℕ)
      → k < i
      → extract_from raws rounds i output k ≡ output k
  unfolding extract_from
  extracted_before zero i output k past = refl
  extracted_before (suc rounds) i output k past =
      extracted_before rounds (i + 1) _ k (omega arith) ∙ set_other output i k _ (λ e. omega arith)

  extracted :
      (rounds i : ℕ) (output : ℕ → DecodedOrder) (k : ℕ)
      → i ≤ k
      → k < i + rounds
      → extract_from raws rounds i output k ≡ extract_fields (raws k) (output k)
  unfolding extract_from
  extracted zero i output k from upto = absurd (omega arith)
  extracted (suc rounds) i output k from upto = elim (eq_cases k i) [
    | inl now ↦
        extracted_before rounds (i + 1) _ k (omega arith)
        ∙ ap (set output i (extract_fields (raws i) (output i))) now
        ∙ set_self output i (extract_fields (raws i) (output i))
        ∙ ap (λ j. extract_fields (raws j) (output j)) (sym now)
    | inr later ↦
        extracted rounds (i + 1) (set output i (extract_fields (raws i) (output i))) k (omega arith)
          (omega arith)
        ∙ ap (extract_fields (raws k)) (set_other output i k _ later)
  ]

-- After the scalar loop of `experiment_simd_decode`, each of the `n` outputs is what the scalar code
-- of `decode_add_orders_simd` makes of its message, but for `new_order_ref`, which it leaves as it
-- was.
pub extract_from-decode_scalar :
    (raws : ℕ → ItchAddOrder) (n : ℕ) (output : ℕ → DecodedOrder) (k : ℕ)
    → k < n
    → extract_from raws n 0 output k
      ≡ record (decode_scalar raws k) { new_order_ref = (output k).new_order_ref }
unfolding extract_fields decode_scalar load_ticker
extract_from-decode_scalar raws n output k below =
    extracted raws n 0 output k (omega arith) (omega arith)
