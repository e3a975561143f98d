-- ===== src/Decoder/Filter.antt =====
-- include/simd_decoder.h, `filter_tickers_simd`: its three versions and what each leaves out.
use mathlib.Core.Path.{fun_ext}
use simd_nanoring.Common.{
  ℕ, zero, suc, ◌+◌, ◌-◌, ◌*◌, ◌/◌, ◌%◌, ◌≤◌, ◌≡◌, ◌∙◌, inl, inr, Bool, true, false, ◌&&◌, ◌||◌,
  ltb, leb, ◌==◌, if◌then◌else◌, Bool-cases, le_cases, eq_cases, arith, ap, sym, refl,
}
use simd_nanoring.Itch.{DecodedOrder}

-- A `uint32_t` mask as its bits.
abbrev pub Mask : Type 0
Mask = ℕ → Bool

abbrev pub no_bits : Mask
no_bits k = false

module _ (orders : ℕ → DecodedOrder) (target_key : ℕ) where
  abbrev pub matches : ℕ → Bool
  matches i = (orders i).ticker_key == target_key

  -- `if (...) match_mask |= (1u << (i % 32))`
  abbrev pub mark : ℕ → Mask → Mask
  mark i match_mask k = match_mask k || (matches i && k == i % 32)

  -- The scalar loop, with `rounds` rounds left.
  unfoldable pub filter_scalar_from : ℕ → ℕ → Mask → Mask
  filter_scalar_from zero i match_mask = match_mask
  filter_scalar_from (suc rounds) i match_mask =
      filter_scalar_from rounds (i + 1) (mark i match_mask)

  unfoldable pub filter_scalar : ℕ → Mask
  unfolding filter_scalar_from
  filter_scalar n = filter_scalar_from n 0 no_bits

  -- The NEON loop: a comparison of four lanes, and a test of each.
  unfoldable pub filter_neon_from : ℕ → ℕ → ℕ → Mask → Mask
  filter_neon_from zero n i match_mask = match_mask
  filter_neon_from (suc rounds) n i match_mask =
      let rest =
        filter_neon_from rounds n (i + 4)
          (mark (i + 3) (mark (i + 2) (mark (i + 1) (mark i match_mask)))) in
      if leb (i + 4) n then rest else match_mask

  unfoldable pub filter_neon : ℕ → Mask
  unfolding filter_neon_from
  filter_neon n = filter_neon_from n n 0 no_bits

  -- `_mm256_movemask_pd` of the comparison of the orders from `i` on.
  abbrev pub movemask : ℕ → Mask
  movemask i k = ltb k 4 && matches (i + k)

  -- `match_mask |= mask << (i % 32)`
  abbrev pub or_shifted : ℕ → Mask → Mask
  or_shifted i match_mask k =
      match_mask k || (ltb k 32 && (leb (i % 32) k && movemask i (k - i % 32)))

  unfoldable pub filter_avx2_from : ℕ → ℕ → ℕ → Mask → Mask
  filter_avx2_from zero n i match_mask = match_mask
  filter_avx2_from (suc rounds) n i match_mask =
      let rest = filter_avx2_from rounds n (i + 4) (or_shifted i match_mask) in
      if leb (i + 4) n then rest else match_mask

  unfoldable pub filter_avx2 : ℕ → Mask
  unfolding filter_avx2_from
  filter_avx2 n = filter_avx2_from n n 0 no_bits

  abbrev four_marks : ℕ → Mask → Mask
  four_marks i match_mask = mark (i + 3) (mark (i + 2) (mark (i + 1) (mark i match_mask)))

  -- Four rounds of the scalar loop.
  scalar_four :
      (r n i : ℕ) (match_mask : Mask)
      → r ≡ suc (suc (suc (suc n)))
      → filter_scalar_from r i match_mask ≡ filter_scalar_from n (i + 4) (four_marks i match_mask)
  unfolding filter_scalar_from
  scalar_four r n i match_mask e =
      let two : i + 1 + 1 ≡ i + 2 = omega arith in
      let three : i + 2 + 1 ≡ i + 3 = omega arith in
      let four : i + 3 + 1 ≡ i + 4 = omega arith in
      ap (λ k. filter_scalar_from k i match_mask) e ∙ rw (two, three, four) refl

  scalar_zero :
      (r i : ℕ) (match_mask : Mask) → r ≡ 0 → filter_scalar_from r i match_mask ≡ match_mask
  unfolding filter_scalar_from
  scalar_zero r i match_mask e = ap (λ k. filter_scalar_from k i match_mask) e

  neon_from-scalar :
      (rounds n i : ℕ) (match_mask : Mask)
      → n ≤ i + rounds
      → filter_neon_from rounds n i match_mask ≡ filter_scalar_from ((n - i) / 4 * 4) i match_mask
  unfolding filter_neon_from
  neon_from-scalar zero n i match_mask enough =
      sym (scalar_zero ((n - i) / 4 * 4) i match_mask (omega arith))
  neon_from-scalar (suc rounds) n i match_mask enough = elim (Bool-cases (leb (i + 4) n)) [
    | inl more ↦ rw more (
        neon_from-scalar rounds n (i + 4) (four_marks i match_mask) (omega arith)
        ∙ sym (scalar_four ((n - i) / 4 * 4) ((n - (i + 4)) / 4 * 4) i match_mask (ground arith)))
    | inr done ↦ rw done (sym (scalar_zero ((n - i) / 4 * 4) i match_mask (ground arith)))
  ]

  -- A bit of the shifted mask of four lanes, by its distance from the shift.
  lane_bit :
      (m a b c d : Bool) (s k x : ℕ)
      → s ≤ 28
      → (k ≡ s → matches x ≡ a)
      → (k ≡ s + 1 → matches x ≡ b)
      → (k ≡ s + 2 → matches x ≡ c)
      → (k ≡ s + 3 → matches x ≡ d)
      → (m || (ltb k 32 && (leb s k && (ltb (k - s) 4 && matches x))))
        ≡ ((((m || (a && k == s)) || (b && k == s + 1)) || (c && k == s + 2)) || (d && k == s + 3))
  lane_bit true a b c d s k x low ha hb hc hd = refl
  lane_bit false a b c d s k x low ha hb hc hd = elim (le_cases k s) [
    | inl under ↦ ground arith
    | inr from ↦ elim (eq_cases k s) [
      | inl e ↦ ground (arith, ha e)
      | inr n0 ↦ elim (eq_cases k (s + 1)) [
        | inl e ↦ ground (arith, hb e)
        | inr n1 ↦ elim (eq_cases k (s + 2)) [
          | inl e ↦ ground (arith, hc e)
          | inr n2 ↦ elim (eq_cases k (s + 3)) [
            | inl e ↦ ground (arith, hd e)
            | inr n3 ↦ ground arith
          ]
        ]
      ]
    ]
  ]

  -- A shifted mask of four lanes is the four bits, when the group starts at a multiple of 4.
  or_shifted-marks :
      (i : ℕ) (match_mask : Mask) → i % 4 ≡ 0 → or_shifted i match_mask ≡ four_marks i match_mask
  or_shifted-marks i match_mask aligned = fun_ext (λ k. bits k)
    where
      bits : (k : ℕ) → or_shifted i match_mask k ≡ four_marks i match_mask k
      bits k =
          let one : (i + 1) % 32 ≡ i % 32 + 1 = omega arith in
          let two : (i + 2) % 32 ≡ i % 32 + 2 = omega arith in
          let three : (i + 3) % 32 ≡ i % 32 + 3 = omega arith in
          rw (one, two, three)
            (lane_bit (match_mask k) (matches i) (matches (i + 1)) (matches (i + 2))
              (matches (i + 3)) (i % 32) k (i + (k - i % 32)) (omega arith)
              (λ e. ap matches (omega arith)) (λ e. ap matches (omega arith))
              (λ e. ap matches (omega arith)) (λ e. ap matches (omega arith)))

  avx2_from-neon :
      (rounds n i : ℕ) (match_mask : Mask)
      → i % 4 ≡ 0
      → filter_avx2_from rounds n i match_mask ≡ filter_neon_from rounds n i match_mask
  unfolding filter_avx2_from filter_neon_from
  avx2_from-neon zero n i match_mask aligned = refl
  avx2_from-neon (suc rounds) n i match_mask aligned = elim (Bool-cases (leb (i + 4) n)) [
    | inl more ↦ rw more (
        ap (filter_avx2_from rounds n (i + 4)) (or_shifted-marks i match_mask aligned)
        ∙ avx2_from-neon rounds n (i + 4) (four_marks i match_mask) (omega arith))
    | inr done ↦ rw done refl
  ]

-- The NEON and the AVX2 versions of the filter agree, and both are the scalar version on the
-- whole groups of four: the `n % 4` orders at the end are not looked at.
pub filter_simd-scalar :
    (orders : ℕ → DecodedOrder) (target_key n : ℕ)
    → (filter_avx2 orders target_key n ≡ filter_neon orders target_key n)
      × (filter_neon orders target_key n ≡ filter_scalar orders target_key (n / 4 * 4))
unfolding filter_avx2 filter_neon filter_scalar
filter_simd-scalar orders target_key n = (
  avx2_from-neon orders target_key n n 0 no_bits refl,
  neon_from-scalar orders target_key n n 0 no_bits (omega arith)
      ∙ ap (λ r. filter_scalar_from orders target_key r 0 no_bits) {x = (n - 0) / 4 * 4}
          {y = n / 4 * 4} (omega arith),
)
