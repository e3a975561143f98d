-- ===== src/Experiments.antt =====
-- src/experiments.cpp: the scalar decoding and the scans of `experiment_simd_decode`, and the
-- partition of `experiment_book_throughput`.
pub mod Scans
pub mod Partition
pub mod Extract
use Prim.Native.Nat.{bit_and}
use simd_nanoring.Common.{
  ℕ, zero, suc, ◌+◌, ◌-◌, ◌*◌, ◌%◌, Bool, true, false, ◌&&◌, List, [], ◌∷◌, ◌++◌, ltb, leb, ◌==◌,
  if◌then◌else◌, set,
}
use simd_nanoring.Common.Word.{u32, add32, mul64, xor_shift}
use simd_nanoring.Itch.{ItchAddOrder, DecodedOrder, OrderType, load64}
use simd_nanoring.Decoder.{swap32}

-- One round of the scalar decoding, on what `output[i]` held before.
unfoldable pub extract_fields : ItchAddOrder → DecodedOrder → DecodedOrder
unfolding load64 swap32
extract_fields raw output = record output {
  type = OrderType.add;
  side = raw.buy_sell_indicator;
  ticker_key = load64 raw.stock 0;
  price = swap32 raw.price;
  shares = swap32 raw.shares;
  order_ref = raw.order_ref_num;
}

unfoldable pub extract_from : (ℕ → ItchAddOrder) → ℕ → ℕ → (ℕ → DecodedOrder) → ℕ → DecodedOrder
unfolding extract_fields
extract_from raws zero i output = output
extract_from raws (suc rounds) i output =
    extract_from raws rounds (i + 1) (set output i (extract_fields (raws i) (output i)))

-- The three arrays of the struct-of-arrays layout, and the loop that fills them.
pub record Columns : Type 0 where
  pub soa_tickers : ℕ → ℕ
  pub soa_prices : ℕ → ℕ
  pub soa_shares : ℕ → ℕ

unfoldable pub fill_columns : (ℕ → DecodedOrder) → ℕ → ℕ → Columns → Columns
fill_columns output zero i c = c
fill_columns output (suc rounds) i c = fill_columns output rounds (i + 1) (record {
  soa_tickers = set c.soa_tickers i (output i).ticker_key;
  soa_prices = set c.soa_prices i (output i).price;
  soa_shares = set c.soa_shares i (output i).shares;
})

abbrev pub new_columns : Columns
new_columns = record { soa_tickers = λ i. 0; soa_prices = λ i. 0; soa_shares = λ i. 0 }

abbrev pub one_if : Bool → ℕ
one_if b = if b then 1 else 0

-- The order of `int32_t` is that of the numbers with the top bit flipped.
abbrev pub flip : ℕ → ℕ
flip v = add32 v 0x8000_0000

-- `__builtin_popcount`, from bit `l` on.
abbrev pub popcount : (ℕ → Bool) → ℕ → ℕ → ℕ
popcount mask zero l = 0
popcount mask (suc bits) l = one_if (mask l) + popcount mask bits (l + 1)

module _ (target_ticker price_threshold : ℕ) where
  -- The scan of the decoded orders.
  unfoldable pub scan_orders : (ℕ → DecodedOrder) → ℕ → ℕ → ℕ → ℕ
  scan_orders output zero i matches = matches
  scan_orders output (suc rounds) i matches = scan_orders output rounds (i + 1) (
      if (output i).ticker_key == target_ticker && ltb price_threshold (output i).price
      then matches + 1
      else matches)

  module _ (c : Columns) where
    -- The scalar scan of the columns, which is also the tail of the vector scans.
    unfoldable pub scan_scalar : ℕ → ℕ → ℕ → ℕ
    scan_scalar zero i matches = matches
    scan_scalar (suc rounds) i matches = scan_scalar rounds (i + 1) (
        if c.soa_tickers i == target_ticker && ltb price_threshold (c.soa_prices i)
        then matches + 1
        else matches)

    -- `vceqq_u64` and `vmovn_u64`: the low half of a 64-bit lane that is all ones or all zeros.
    abbrev pub ticker_mask : ℕ → ℕ → ℕ
    ticker_mask i l =
        (if c.soa_tickers (i + l) == target_ticker then 0xffff_ffff_ffff_ffff else 0) % u32

    -- `vcgtq_u32`, an unsigned comparison.
    abbrev pub price_cmp : ℕ → ℕ → ℕ
    price_cmp i l = if ltb price_threshold (c.soa_prices (i + l)) then 0xffff_ffff else 0

    -- `vgetq_lane_u32(combined, l) ? 1 : 0`
    unfoldable pub lane_match : ℕ → ℕ → ℕ
    lane_match i l = if bit_and (ticker_mask i l) (price_cmp i l) == 0 then 0 else 1

    unfoldable pub scan_neon : ℕ → ℕ → ℕ → ℕ → ℕ
    unfolding lane_match scan_scalar
    scan_neon zero n i matches = scan_scalar (n - i) i matches
    scan_neon (suc rounds) n i matches =
        let rest =
          scan_neon rounds n (i + 4)
            (matches + lane_match i 0 + lane_match i 1 + lane_match i 2 + lane_match i 3) in
        if leb (i + 4) n then rest else scan_scalar (n - i) i matches

    -- `_mm_cmpgt_epi32`, a comparison of `int32_t`, and `_mm_movemask_ps`.
    abbrev pub pmask : ℕ → ℕ → Bool
    pmask i l = ltb l 4 && ltb (flip price_threshold) (flip (c.soa_prices (i + l)))

    -- `_mm256_cmpeq_epi64` and `_mm256_movemask_pd`. Both masks are given by their bits.
    abbrev pub tmask : ℕ → ℕ → Bool
    tmask i l = ltb l 4 && c.soa_tickers (i + l) == target_ticker

    unfoldable pub group_matches : ℕ → ℕ
    group_matches i = popcount (λ l. tmask i l && pmask i l) 32 0

    unfoldable pub scan_avx2 : ℕ → ℕ → ℕ → ℕ → ℕ
    unfolding group_matches scan_scalar
    scan_avx2 zero n i matches = scan_scalar (n - i) i matches
    scan_avx2 (suc rounds) n i matches =
        let rest = scan_avx2 rounds n (i + 4) (matches + group_matches i) in
        if leb (i + 4) n then rest else scan_scalar (n - i) i matches

-- The partitions of `experiment_book_throughput`.
unfoldable pub partition : ℕ → List DecodedOrder → (ℕ → List DecodedOrder) → ℕ → List DecodedOrder
partition num_shards [] partitions = partitions
partition num_shards (o ∷ orders) partitions =
    let shard = xor_shift (mul64 o.ticker_key 0x9e37_79b9_7f4a_7c15) 33 % num_shards in
    partition num_shards orders (set partitions shard (partitions shard ++ (o ∷ [])))
