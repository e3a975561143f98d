-- ===== src/Levels.antt =====
-- include/order_book.h, `PriceLevel`, `binary_find`, `add_to_levels` and `remove_from_levels`: one
-- side of a book, as an array of levels sorted by price.
pub mod Order
pub mod Search
pub mod Shift
pub mod View
pub mod Insert
pub mod Add
pub mod Remove
use simd_nanoring.Common.{
  ℕ, zero, suc, ◌+◌, ◌-◌, ◌/◌, Bool, true, false, ltb, leb, ◌==◌, if◌then◌else◌, set,
}
use simd_nanoring.Common.Word.{add32, sub32}

pub record PriceLevel : Type 0 where
  pub price : ℕ
  pub total_shares : ℕ
  pub order_count : ℕ

-- `std::array<PriceLevel, MAX_LEVELS>` with its `count`.
pub record Levels : Type 0 where
  pub cells : ℕ → PriceLevel
  pub count : ℕ

abbrev pub max_levels : ℕ
max_levels = 256

-- `ssize_t`: `negsuc n` is -(n + 1).
pub data ℤ : Type 0 where
  pos : ℕ → ℤ
  negsuc : ℕ → ℤ

-- `go_right`: a level at price `a` stands before one at price `b`.
abbrev pub before : Bool → ℕ → ℕ → Bool
before descending a b = if descending then ltb b a else ltb a b

-- The loop of `binary_find`. `hi` can be -1, so `stop` is `hi + 1`; `mid` is `(lo + hi) >> 1`.
unfoldable pub find_loop : (ℕ → PriceLevel) → ℕ → Bool → ℕ → ℕ → ℕ → ℤ
find_loop cells price descending zero lo stop = negsuc lo
find_loop cells price descending (suc fuel) lo stop =
    let mid = (lo + stop - 1) / 2 in
    let right = find_loop cells price descending fuel (mid + 1) stop in
    let left = find_loop cells price descending fuel lo mid in
    if ltb lo stop
    then if (cells mid).price == price
      then pos mid
      else if before descending (cells mid).price price
      then right
      else left
    else negsuc lo

-- Each round shortens the range, so `count` rounds are enough.
unfoldable pub binary_find : Levels → ℕ → Bool → ℤ
unfolding find_loop
binary_find levels price descending =
    find_loop levels.cells price descending levels.count 0 levels.count

-- `for (i = count; i > insert_pos; i--) levels[i] = levels[i - 1];` with `n` rounds left, so that
-- `i` is `insert_pos + n`.
unfoldable pub shift_right : (ℕ → PriceLevel) → ℕ → ℕ → ℕ → PriceLevel
shift_right cells insert_pos zero = cells
shift_right cells insert_pos (suc n) =
    shift_right (set cells (insert_pos + n + 1) (cells (insert_pos + n))) insert_pos n

-- `for (j = i; j + 1 < count; j++) levels[j] = levels[j + 1];` with `n` rounds left.
unfoldable pub shift_left : (ℕ → PriceLevel) → ℕ → ℕ → ℕ → PriceLevel
shift_left cells j zero = cells
shift_left cells j (suc n) = shift_left (set cells j (cells (j + 1))) (j + 1) n

-- The two ways on from `idx = binary_find(...)` in `add_to_levels`.
unfoldable pub add_at : Levels → ℕ → ℕ → ℤ → Levels
unfolding shift_right
add_at levels price shares (pos idx) = record levels {
  cells = set levels.cells idx (record (levels.cells idx) {
    total_shares = add32 (levels.cells idx).total_shares shares;
    order_count = add32 (levels.cells idx).order_count 1;
  });
}
add_at levels price shares (negsuc insert_pos) =
    if leb max_levels levels.count then levels else record {
      cells =
          set (shift_right levels.cells insert_pos (levels.count - insert_pos)) insert_pos
            (record { price = price; total_shares = shares; order_count = 1 });
      count = levels.count + 1;
    }

unfoldable pub add_to_levels : Levels → ℕ → ℕ → Bool → Levels
unfolding add_at binary_find
add_to_levels levels price shares descending =
    add_at levels price shares (binary_find levels price descending)

-- Likewise in `remove_from_levels`.
unfoldable pub remove_at : Levels → ℕ → ℤ → Levels
unfolding shift_left
remove_at levels shares (negsuc _) = levels
remove_at levels shares (pos i) =
    if leb (levels.cells i).total_shares shares
    then record {
      cells = shift_left levels.cells i (levels.count - 1 - i);
      count = levels.count - 1;
    }
    else record levels {
      cells = set levels.cells i (record (levels.cells i) {
        total_shares = sub32 (levels.cells i).total_shares shares;
        order_count = sub32 (levels.cells i).order_count 1;
      });
    }

unfoldable pub remove_from_levels : Levels → ℕ → ℕ → Bool → Levels
unfolding remove_at binary_find
remove_from_levels levels price shares descending =
    remove_at levels shares (binary_find levels price descending)
