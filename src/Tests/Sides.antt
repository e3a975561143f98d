-- ===== src/Tests/Sides.antt =====
-- Runs of include/order_book.h, one side of a book.
use simd_nanoring.Common.{ℕ, ◌≡◌, inl, true, some, arith, ◌==◌, if◌then◌else◌, refl}
use simd_nanoring.Levels.{
  Levels, PriceLevel, pos, negsuc, binary_find, add_to_levels, remove_from_levels,
}
use simd_nanoring.Levels.Order
use simd_nanoring.Levels.Search.{Locates, binary_find-Locates}
use simd_nanoring.Levels.View.{level_at, joined, drained}
use simd_nanoring.Levels.Add.{add_to_levels-IsValid, level_at-add_to_levels}
use simd_nanoring.Levels.Remove.{remove_from_levels-IsValid, level_at-remove_from_levels}

abbrev level : ℕ → ℕ → PriceLevel
level price shares = record { price = price; total_shares = shares; order_count = 1 }

-- Bids of 30 and 10.
abbrev two_bids : Levels
two_bids = record { cells = λ i. if i == 0 then level 30 5 else level 10 6; count = 2 }

two_bids-IsValid : Order.IsValid true two_bids
two_bids-IsValid = record { within = omega arith; sorted = λ i j h k. ground arith }

binary_find-Locates_example : Locates true two_bids.cells 2 20 (binary_find two_bids 20 true)
binary_find-Locates_example = binary_find-Locates true two_bids 20 two_bids-IsValid.sorted

found_at : binary_find two_bids 10 true ≡ pos 1
unfolding binary_find
found_at = refl

insertion_point : binary_find two_bids 20 true ≡ negsuc 1
unfolding binary_find
insertion_point = refl

add_to_levels-IsValid_example : Order.IsValid true (add_to_levels two_bids 20 7 true)
add_to_levels-IsValid_example = add_to_levels-IsValid true two_bids 20 7 two_bids-IsValid

level_at-add_to_levels_example :
    level_at (add_to_levels two_bids 20 7 true) 20 ≡ some (joined 20 7 (level_at two_bids 20))
level_at-add_to_levels_example =
    level_at-add_to_levels true two_bids 20 7 two_bids-IsValid (inl (omega arith)) 20

remove_from_levels-IsValid_example : Order.IsValid true (remove_from_levels two_bids 10 6 true)
remove_from_levels-IsValid_example = remove_from_levels-IsValid true two_bids 10 6 two_bids-IsValid

level_at-remove_from_levels_example :
    level_at (remove_from_levels two_bids 10 6 true) 10 ≡ drained 6 (level_at two_bids 10)
level_at-remove_from_levels_example =
    level_at-remove_from_levels true two_bids 10 6 two_bids-IsValid 10
