-- ===== src/Levels/Shift.antt =====
-- The two shifting loops, in closed form: which cell each index holds afterwards.
use simd_nanoring.Common.{
  ℕ, zero, suc, ◌+◌, ◌-◌, ◌≤◌, ◌<◌, ◌==◌, ◌≡◌, ◌&&◌, arith, ltb, leb, if◌then◌else◌, set,
}
use simd_nanoring.Levels.{PriceLevel, shift_right, shift_left}

pub shift_right_lem :
    (cells : ℕ → PriceLevel) (p n j : ℕ)
    → shift_right cells p n j ≡ (if ltb p j && leb j (p + n) then cells (j - 1) else cells j)
unfolding shift_right
shift_right_lem cells p zero j = ground arith
shift_right_lem cells p (suc n) j =
    ground (arith, shift_right_lem (set cells (p + n + 1) (cells (p + n))) p n j)

pub shift_left_lem :
    (cells : ℕ → PriceLevel) (i n j : ℕ)
    → shift_left cells i n j ≡ (if leb i j && ltb j (i + n) then cells (j + 1) else cells j)
unfolding shift_left
shift_left_lem cells i zero j = ground arith
shift_left_lem cells i (suc n) j =
    ground (arith, shift_left_lem (set cells i (cells (i + 1))) (i + 1) n j)

-- The cells of a side after a level has been put in at `p`.
pub inserted_lem :
    (cells : ℕ → PriceLevel) (v : PriceLevel) (p count j : ℕ)
    → p ≤ count
    → j ≤ count
    → set (shift_right cells p (count - p)) p v j
      ≡ (if ltb j p then cells j else if j == p then v else cells (j - 1))
inserted_lem cells v p count j hp hj = ground (arith, shift_right_lem cells p (count - p) j)

-- The cells of a side after level `i` has been taken out.
pub removed_lem :
    (cells : ℕ → PriceLevel) (i count j : ℕ)
    → i < count
    → j < count - 1
    → shift_left cells i (count - 1 - i) j ≡ (if ltb j i then cells j else cells (j + 1))
removed_lem cells i count j hi hj = ground (arith, shift_left_lem cells i (count - 1 - i) j)
