-- ===== src/Decoder/Batch.antt =====
-- include/simd_decoder.h, `decode_add_orders_simd`: groups of four messages by vector shuffles, then
-- a scalar tail.
use simd_nanoring.Common.{
  ℕ, zero, suc, ◌+◌, ◌-◌, ◌*◌, ◌/◌, ◌%◌, ◌^◌, ◌<◌, ◌≡◌, ◌∙◌, inl, inr, List, [], ◌∷◌, leb,
  if◌then◌else◌, Bool-cases, arith, ap, sym, refl,
}
use simd_nanoring.Itch.{ItchAddOrder, DecodedOrder, OrderType}
use simd_nanoring.Decoder.{swap32, load_ticker}

-- Four 32-bit lanes, and the sixteen bytes that they are in a register.
abbrev pub Lanes : Type 0
Lanes = ℕ → ℕ

abbrev pub byte_of : Lanes → ℕ → ℕ
byte_of lanes j = lanes (j / 4) / 256 ^ (j % 4) % 256

abbrev pub lane_of : (ℕ → ℕ) → ℕ → ℕ
lane_of bytes l =
    bytes (4 * l)
    + 256 * bytes (4 * l + 1)
    + 65536 * bytes (4 * l + 2)
    + 0x1_000000 * bytes (4 * l + 3)

-- `vrev32q_u8`: the bytes of each 32-bit lane in the opposite order.
abbrev pub rev32 : (ℕ → ℕ) → ℕ → ℕ
rev32 bytes j = bytes (j / 4 * 4 + (3 - j % 4))

-- `bswap_mask`, from byte 0 up.
abbrev pub bswap_mask : List ℕ
bswap_mask = 3 ∷ 2 ∷ 1 ∷ 0 ∷ 7 ∷ 6 ∷ 5 ∷ 4 ∷ 11 ∷ 10 ∷ 9 ∷ 8 ∷ 15 ∷ 14 ∷ 13 ∷ 12 ∷ []

abbrev pub entry : List ℕ → ℕ → ℕ
entry [] i = 0
entry (x ∷ xs) zero = x
entry (x ∷ xs) (suc i) = entry xs i

-- `_mm_shuffle_epi8` with that mask.
abbrev pub shuffle : (ℕ → ℕ) → ℕ → ℕ
shuffle bytes j = bytes (entry bswap_mask j)

unfoldable pub swap_neon : Lanes → Lanes
swap_neon raw = lane_of (rev32 (byte_of raw))

unfoldable pub swap_avx2 : Lanes → Lanes
swap_avx2 raw = lane_of (shuffle (byte_of raw))

module _ (msgs : ℕ → ItchAddOrder) where
  -- One round of the scalar tail.
  unfoldable pub decode_scalar : ℕ → DecodedOrder
  unfolding swap32 load_ticker
  decode_scalar i = record {
    type = OrderType.add;
    order_ref = (msgs i).order_ref_num;
    ticker_key = load_ticker (msgs i).stock;
    price = swap32 (msgs i).price;
    shares = swap32 (msgs i).shares;
    side = (msgs i).buy_sell_indicator;
    new_order_ref = 0;
  }

  -- The order of lane `j` of the group at `i`, its numbers from the swapped lanes.
  unfoldable pub decode_lane : (Lanes → Lanes) → ℕ → ℕ → DecodedOrder
  unfolding load_ticker
  decode_lane swap i j = record {
    type = OrderType.add;
    order_ref = (msgs (i + j)).order_ref_num;
    ticker_key = load_ticker (msgs (i + j)).stock;
    price = swap (λ l. (msgs (i + l)).price) j;
    shares = swap (λ l. (msgs (i + l)).shares) j;
    side = (msgs (i + j)).buy_sell_indicator;
    new_order_ref = 0;
  }

  -- The scalar loop from `i`, with `rounds` rounds left; the orders that it writes.
  unfoldable pub decode_tail : ℕ → ℕ → List DecodedOrder
  unfolding decode_scalar
  decode_tail zero i = []
  decode_tail (suc rounds) i = decode_scalar i ∷ decode_tail rounds (i + 1)

  -- The vector loop from `i`, and the tail after it.
  unfoldable pub decode_groups : (Lanes → Lanes) → ℕ → ℕ → ℕ → List DecodedOrder
  unfolding decode_lane decode_tail
  decode_groups swap zero n i = decode_tail (n - i) i
  decode_groups swap (suc rounds) n i =
      let rest = decode_groups swap rounds n (i + 4) in
      if leb (i + 4) n
      then decode_lane swap i 0
        ∷ decode_lane swap i 1
        ∷ decode_lane swap i 2
        ∷ decode_lane swap i 3
        ∷ rest
      else decode_tail (n - i) i

  unfoldable pub decode_add_orders_neon : ℕ → List DecodedOrder
  unfolding decode_groups swap_neon
  decode_add_orders_neon n = decode_groups swap_neon n n 0

  unfoldable pub decode_add_orders_avx2 : ℕ → List DecodedOrder
  unfolding decode_groups swap_avx2
  decode_add_orders_avx2 n = decode_groups swap_avx2 n n 0

-- A swap of lanes that swaps the bytes of each of the four.
abbrev Swaps : (Lanes → Lanes) → Type 0
Swaps swap = (raw : Lanes) (l : ℕ) → l < 4 → swap raw l ≡ swap32 (raw l)

lane-cases : (P : ℕ → Type 0) → P 0 → P 1 → P 2 → P 3 → (l : ℕ) → l < 4 → P l
lane-cases P a b c d zero h = a
lane-cases P a b c d (suc zero) h = b
lane-cases P a b c d (suc (suc zero)) h = c
lane-cases P a b c d (suc (suc (suc zero))) h = d
lane-cases P a b c d (suc (suc (suc (suc l)))) h = absurd (omega arith)

swap_neon-Swaps : Swaps swap_neon
unfolding swap_neon swap32
swap_neon-Swaps raw =
    lane-cases (λ l. swap_neon raw l ≡ swap32 (raw l)) (omega arith) (omega arith) (omega arith)
      (omega arith)

swap_avx2-Swaps : Swaps swap_avx2
unfolding swap_avx2 swap32
swap_avx2-Swaps raw =
    lane-cases (λ l. swap_avx2 raw l ≡ swap32 (raw l)) (omega arith) (omega arith) (omega arith)
      (omega arith)

module _ (msgs : ℕ → ItchAddOrder) (swap : Lanes → Lanes) (swaps : Swaps swap) where
  decode_lane-scalar : (i j : ℕ) → j < 4 → decode_lane msgs swap i j ≡ decode_scalar msgs (i + j)
  unfolding decode_lane decode_scalar
  decode_lane-scalar i j h =
      rw (swaps (λ l. (msgs (i + l)).price) j h, swaps (λ l. (msgs (i + l)).shares) j h) refl

  tail_at :
      (r i k : ℕ)
      → i ≡ k
      → decode_tail msgs (suc r) i ≡ decode_scalar msgs k ∷ decode_tail msgs r (k + 1)
  unfolding decode_tail
  tail_at r i k e = ap (λ j. decode_scalar msgs j ∷ decode_tail msgs r (j + 1)) e

  tail_four :
      (r n i : ℕ)
      → r ≡ suc (suc (suc (suc n)))
      → decode_tail msgs r i
        ≡ decode_scalar msgs (i + 0)
          ∷ decode_scalar msgs (i + 1)
          ∷ decode_scalar msgs (i + 2)
          ∷ decode_scalar msgs (i + 3)
          ∷ decode_tail msgs n (i + 4)
  tail_four r n i e =
      ap (λ k. decode_tail msgs k i) e
      ∙ tail_at _ i (i + 0) (omega arith)
      ∙ ap (λ xs. decode_scalar msgs (i + 0) ∷ xs)
          (tail_at _ (i + 0 + 1) (i + 1) (omega arith)
            ∙ ap (λ xs. decode_scalar msgs (i + 1) ∷ xs)
                (tail_at _ (i + 1 + 1) (i + 2) (omega arith)
                  ∙ ap (λ xs. decode_scalar msgs (i + 2) ∷ xs)
                      (tail_at n (i + 2 + 1) (i + 3) (omega arith)
                        ∙ ap (λ k. decode_scalar msgs (i + 3) ∷ decode_tail msgs n k)
                            {x = i + 3 + 1} {y = i + 4} (omega arith))))

  decode_groups-tail :
      (rounds n i : ℕ) → decode_groups msgs swap rounds n i ≡ decode_tail msgs (n - i) i
  unfolding decode_groups
  decode_groups-tail zero n i = refl
  decode_groups-tail (suc rounds) n i = elim (Bool-cases (leb (i + 4) n)) [
    | inl more ↦
        rw
          (
            more,
            decode_lane-scalar i 0 (omega arith),
            decode_lane-scalar i 1 (omega arith),
            decode_lane-scalar i 2 (omega arith),
            decode_lane-scalar i 3 (omega arith),
            decode_groups-tail rounds n (i + 4),
          )
          (sym (tail_four (n - i) (n - (i + 4)) i (ground arith)))
    | inr done ↦ rw done refl
  ]

-- Both vector versions of the batch decoder write, in order, what the scalar loop writes for all
-- the messages, whatever their number.
pub decode_add_orders-scalar :
    (msgs : ℕ → ItchAddOrder) (n : ℕ)
    → (decode_add_orders_neon msgs n ≡ decode_tail msgs n 0)
      × (decode_add_orders_avx2 msgs n ≡ decode_tail msgs n 0)
unfolding decode_add_orders_neon decode_add_orders_avx2
decode_add_orders-scalar msgs n =
    let all : decode_tail msgs (n - 0) 0 ≡ decode_tail msgs n 0 =
      ap (λ k. decode_tail msgs k 0) {x = n - 0} {y = n} (omega arith) in
    (
      decode_groups-tail msgs swap_neon swap_neon-Swaps n n 0 ∙ all,
      decode_groups-tail msgs swap_avx2 swap_avx2-Swaps n n 0 ∙ all,
    )
