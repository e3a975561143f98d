-- ===== src/Experiments/Scans.antt =====
-- The scans of src/experiments.cpp count the same orders, whatever the layout and the instructions.
use simd_nanoring.Common.{
  ℕ, zero, suc, ◌+◌, ◌-◌, ◌≤◌, ◌<◌, ◌≡◌, ◌∙◌, inl, inr, ◌&&◌, ltb, leb, ◌==◌, set, set_self,
  set_other, Bool-cases, eq_cases, arith, ap, sym, refl,
}
use simd_nanoring.Itch.{DecodedOrder}
use simd_nanoring.Experiments.{
  Columns, fill_columns, new_columns, one_if, scan_orders, scan_scalar, lane_match, scan_neon,
  group_matches, scan_avx2, flip,
}

module _ (output : ℕ → DecodedOrder) where
  -- An element that the loop has passed, and one that it has yet to reach.
  filled_before :
      (rounds i : ℕ) (c : Columns) (k : ℕ)
      → k < i
      → ((fill_columns output rounds i c).soa_tickers k ≡ c.soa_tickers k)
        × ((fill_columns output rounds i c).soa_prices k ≡ c.soa_prices k)
  unfolding fill_columns
  filled_before zero i c k past = (refl, refl)
  filled_before (suc rounds) i c k past =
      let (tickers, prices) = filled_before rounds (i + 1) _ k (omega arith) in
      (
        tickers ∙ set_other c.soa_tickers i k _ (λ e. omega arith),
        prices ∙ set_other c.soa_prices i k _ (λ e. omega arith),
      )

  filled :
      (rounds i : ℕ) (c : Columns) (k : ℕ)
      → i ≤ k
      → k < i + rounds
      → ((fill_columns output rounds i c).soa_tickers k ≡ (output k).ticker_key)
        × ((fill_columns output rounds i c).soa_prices k ≡ (output k).price)
  unfolding fill_columns
  filled zero i c k from upto = absurd (omega arith)
  filled (suc rounds) i c k from upto = elim (eq_cases k i) [
    | inl now ↦
        let (tickers, prices) = filled_before rounds (i + 1) _ k (omega arith) in
        (
          tickers
              ∙ ap (set c.soa_tickers i (output i).ticker_key) now
              ∙ set_self c.soa_tickers i _
              ∙ ap (λ j. (output j).ticker_key) (sym now),
          prices
              ∙ ap (set c.soa_prices i (output i).price) now
              ∙ set_self c.soa_prices i _
              ∙ ap (λ j. (output j).price) (sym now),
        )
    | inr later ↦ filled rounds (i + 1) _ k (omega arith) (omega arith)
  ]

module _ (target threshold : ℕ) (c : Columns) where
  abbrev hit : ℕ → ℕ
  hit i = one_if (c.soa_tickers i == target && ltb threshold (c.soa_prices i))

  scan_scalar_step :
      (rounds i matches : ℕ)
      → scan_scalar target threshold c (suc rounds) i matches
        ≡ scan_scalar target threshold c rounds (i + 1) (matches + hit i)
  unfolding scan_scalar
  scan_scalar_step rounds i matches =
      ap (scan_scalar target threshold c rounds (i + 1)) (ground arith)

  scan_scalar_four :
      (r n i matches : ℕ)
      → r ≡ suc (suc (suc (suc n)))
      → scan_scalar target threshold c r i matches
        ≡ scan_scalar target threshold c n
            (i + 4)
            (matches + hit i + hit (i + 1) + hit (i + 2) + hit (i + 3))
  scan_scalar_four r n i matches e =
      let two : i + 1 + 1 ≡ i + 2 = omega arith in
      let three : i + 2 + 1 ≡ i + 3 = omega arith in
      let four : i + 3 + 1 ≡ i + 4 = omega arith in
      ap (λ k. scan_scalar target threshold c k i matches) e
      ∙ rw
          (
            scan_scalar_step (suc (suc (suc n))) i matches,
            scan_scalar_step (suc (suc n)) (i + 1) (matches + hit i),
            two,
            scan_scalar_step (suc n) (i + 2) (matches + hit i + hit (i + 1)),
            three,
            scan_scalar_step n (i + 3) (matches + hit i + hit (i + 1) + hit (i + 2)),
            four,
          )
          refl

  lane_match-hit : (i l : ℕ) → lane_match target threshold c i l ≡ hit (i + l)
  unfolding lane_match
  lane_match-hit i l = elim (Bool-cases (c.soa_tickers (i + l) == target)) [
    | inl ticker ↦ elim (Bool-cases (ltb threshold (c.soa_prices (i + l)))) [
      | inl price ↦ rw (ticker, price) refl
      | inr price ↦ rw (ticker, price) refl
    ]
    | inr ticker ↦ elim (Bool-cases (ltb threshold (c.soa_prices (i + l)))) [
      | inl price ↦ rw (ticker, price) refl
      | inr price ↦ rw (ticker, price) refl
    ]
  ]

  scan_neon-scalar :
      (rounds n i matches : ℕ)
      → scan_neon target threshold c rounds n i matches
        ≡ scan_scalar target threshold c (n - i) i matches
  unfolding scan_neon
  scan_neon-scalar zero n i matches = refl
  scan_neon-scalar (suc rounds) n i matches = elim (Bool-cases (leb (i + 4) n)) [
    | inl more ↦
        let here : i + 0 ≡ i = omega arith in
        rw
          (
            more,
            lane_match-hit i 0,
            lane_match-hit i 1,
            lane_match-hit i 2,
            lane_match-hit i 3,
            here,
          )
          (scan_neon-scalar rounds n (i + 4) _
            ∙ sym (scan_scalar_four (n - i) (n - (i + 4)) i matches (ground arith)))
    | inr done ↦ rw done refl
  ]

  group_matches-hits :
      (i : ℕ)
      → threshold < 0x8000_0000
      → ((l : ℕ) → l < 4 → c.soa_prices (i + l) < 0x8000_0000)
      → group_matches target threshold c i ≡ hit (i + 0) + hit (i + 1) + hit (i + 2) + hit (i + 3)
  unfolding group_matches
  group_matches-hits i low prices =
      let same : (p : ℕ) → p < 0x8000_0000 → ltb (flip threshold) (flip p) ≡ ltb threshold p =
        λ p h. ground arith in
      rw
        (
          same (c.soa_prices (i + 0)) (prices 0 (omega arith)),
          same (c.soa_prices (i + 1)) (prices 1 (omega arith)),
          same (c.soa_prices (i + 2)) (prices 2 (omega arith)),
          same (c.soa_prices (i + 3)) (prices 3 (omega arith)),
        )
        (omega arith)

  scan_avx2-scalar :
      (rounds n i matches : ℕ)
      → threshold < 0x8000_0000
      → ((k : ℕ) → k < n → c.soa_prices k < 0x8000_0000)
      → scan_avx2 target threshold c rounds n i matches
        ≡ scan_scalar target threshold c (n - i) i matches
  unfolding scan_avx2
  scan_avx2-scalar zero n i matches low prices = refl
  scan_avx2-scalar (suc rounds) n i matches low prices = elim (Bool-cases (leb (i + 4) n)) [
    | inl more ↦
        let here : i + 0 ≡ i = omega arith in
        let four = group_matches-hits i low (λ l h. prices (i + l) (ground arith)) in
        rw more (
          scan_avx2-scalar rounds n (i + 4) (matches + group_matches target threshold c i) low
            prices
          ∙ ap (scan_scalar target threshold c (n - (i + 4)) (i + 4))
              (omega (arith, four, ap hit here))
          ∙ sym (scan_scalar_four (n - i) (n - (i + 4)) i matches (ground arith)))
    | inr done ↦ rw done refl
  ]

module _ (target threshold : ℕ) (output : ℕ → DecodedOrder) (n : ℕ) where
  abbrev columns : Columns
  columns = fill_columns output n 0 new_columns

  scan_scalar-orders :
      (rounds i matches : ℕ)
      → i + rounds ≤ n
      → scan_scalar target threshold columns rounds i matches
        ≡ scan_orders target threshold output rounds i matches
  unfolding scan_scalar scan_orders
  scan_scalar-orders zero i matches upto = refl
  scan_scalar-orders (suc rounds) i matches upto =
      let (ticker, price) = filled output n 0 new_columns i (omega arith) (omega arith) in
      rw (ticker, price) (scan_scalar-orders rounds (i + 1) _ (omega arith))

abbrev last : ℕ → ℕ → (ℕ → DecodedOrder) → ℕ → ℕ
last target threshold output n =
    scan_scalar target threshold (fill_columns output n 0 new_columns) (n - 0) 0 0

last-orders :
    (target threshold : ℕ) (output : ℕ → DecodedOrder) (n : ℕ)
    → last target threshold output n ≡ scan_orders target threshold output n 0 0
last-orders target threshold output n =
    ap (λ k. scan_scalar target threshold (fill_columns output n 0 new_columns) k 0 0) {x = n - 0}
      {y = n} (omega arith)
    ∙ scan_scalar-orders target threshold output n n 0 0 (omega arith)

-- The scan of the decoded orders, the scalar scan of the three arrays that are filled from them and
-- the NEON scan of these arrays count the same orders, those of the ticker with a price above the
-- threshold, however many orders there are.
pub scan_neon-orders :
    (target threshold : ℕ) (output : ℕ → DecodedOrder) (n : ℕ)
    → (scan_scalar target threshold (fill_columns output n 0 new_columns) n 0 0
        ≡ scan_orders target threshold output n 0 0)
      × (scan_neon target threshold (fill_columns output n 0 new_columns) n n 0 0
          ≡ scan_orders target threshold output n 0 0)
scan_neon-orders target threshold output n = (
  scan_scalar-orders target threshold output n n 0 0 (omega arith),
  scan_neon-scalar target threshold (fill_columns output n 0 new_columns) n n 0 0
      ∙ last-orders target threshold output n,
)

-- The AVX2 scan, which compares signed numbers, counts the orders that the scan of the decoded orders
-- counts, if the threshold and the prices are below 2 ^ 31.
pub scan_avx2-orders :
    (target threshold : ℕ) (output : ℕ → DecodedOrder) (n : ℕ)
    → threshold < 0x8000_0000
    → ((i : ℕ) → i < n → (output i).price < 0x8000_0000)
    → scan_avx2 target threshold (fill_columns output n 0 new_columns) n n 0 0
      ≡ scan_orders target threshold output n 0 0
scan_avx2-orders target threshold output n low prices =
    scan_avx2-scalar target threshold (fill_columns output n 0 new_columns) n n 0 0 low (λ k below.
      let price = (filled output n 0 new_columns k (omega arith) (omega arith)).1 in
      rw price (prices k below))
    ∙ last-orders target threshold output n
