-- ===== src/OrderBook/Sides.antt =====
-- The two sides of a book, and the shares that each has at a price.
use simd_nanoring.Common.{
  ℕ, ◌+◌, ◌<◌, ◌≤◌, ◌≡◌, ◌∙◌, ◌⊎◌, inl, inr, Bool, true, false, not, Option, none, some, arith, ap,
  ◌==◌, if◌then◌else◌, eq_cases, refl,
}
use simd_nanoring.Common.Word.{u32}
use simd_nanoring.Levels.{Levels, PriceLevel, add_to_levels, remove_from_levels}
use simd_nanoring.Levels.Order.{IsValid}
use simd_nanoring.Levels.Add.{HasRoom, level_at-add_to_levels}
use simd_nanoring.Levels.Remove.{level_at-remove_from_levels}
use simd_nanoring.Levels.View.{level_at, joined, drained}
use simd_nanoring.OrderBook.{OrderBook, is_bid, add_side, remove_side}

-- `true` is the side of the bids, which descend.
abbrev pub sides : OrderBook → Bool → Levels
sides b true = b.bid_levels
sides b false = b.ask_levels

abbrev pub same_side : Bool → Bool → Bool
same_side true d = d
same_side false d = not d

pub same_side-cases : (d e : Bool) → ((e ≡ d) × (same_side d e ≡ true)) ⊎ (same_side d e ≡ false)
same_side-cases true true = inl (refl, refl)
same_side-cases true false = inr refl
same_side-cases false true = inr refl
same_side-cases false false = inl (refl, refl)

abbrev pub level_shares : Option PriceLevel → ℕ
level_shares none = 0
level_shares (some l) = l.total_shares

-- The shares of a side at a price: those of its level, if it has one.
abbrev pub shares_at : Levels → ℕ → ℕ
shares_at levels price = level_shares (level_at levels price)

pub sides-add_side :
    (side price shares : ℕ) (b : OrderBook) (d : Bool)
    → sides (add_side side price shares b) d
      ≡ (if same_side d (is_bid side) then add_to_levels (sides b d) price shares d else sides b d)
unfolding add_side
sides-add_side side price shares b true = ground arith
sides-add_side side price shares b false = ground arith

pub sides-remove_side :
    (side price shares : ℕ) (b : OrderBook) (d : Bool)
    → sides (remove_side side price shares b) d ≡ (
        if same_side d (is_bid side)
        then remove_from_levels (sides b d) price shares d
        else sides b d)
unfolding remove_side
sides-remove_side side price shares b true = ground arith
sides-remove_side side price shares b false = ground arith

joined_shares :
    (price shares : ℕ) (o : Option PriceLevel)
    → level_shares o + shares < u32
    → (joined price shares o).total_shares ≡ level_shares o + shares
joined_shares price shares none fits = omega arith
joined_shares price shares (some l) fits = omega arith

drained_shares :
    (shares : ℕ) (o : Option PriceLevel)
    → shares ≤ level_shares o
    → level_shares o < u32
    → level_shares (drained shares o) + shares ≡ level_shares o
drained_shares shares none has word = omega arith
drained_shares shares (some l) has word = ground arith

module _ (d : Bool) (levels : Levels) (price shares : ℕ) (valid : IsValid d levels) where
  -- What an add does to the shares of a side, when they fit into 32 bits.
  pub shares_at-add_to_levels :
      HasRoom levels price
      → shares_at levels price + shares < u32
      → (q : ℕ)
      → shares_at (add_to_levels levels price shares d) q
        ≡ shares_at levels q + (if price == q then shares else 0)
  shares_at-add_to_levels room fits q =
      ap level_shares (level_at-add_to_levels d levels price shares valid room q)
      ∙ split (level_at levels q) (ap (level_at levels))
    where
      split :
          (o : Option PriceLevel)
          → (q ≡ price → o ≡ level_at levels price)
          → level_shares
              (if q == price then some (joined price shares (level_at levels price)) else o)
            ≡ level_shares o + (if price == q then shares else 0)
      split o same = elim (eq_cases q price) [
        | inl e ↦ ground (arith, same e, joined_shares price shares (level_at levels price))
        | inr ne ↦ ground arith
      ]

  -- What a removal does to the shares of a side, when it has them.
  pub shares_at-remove_from_levels :
      shares ≤ shares_at levels price
      → shares_at levels price < u32
      → (q : ℕ)
      → shares_at (remove_from_levels levels price shares d) q + (if price == q then shares else 0)
        ≡ shares_at levels q
  shares_at-remove_from_levels has word q =
      ap (λ o. level_shares o + (if price == q then shares else 0))
        (level_at-remove_from_levels d levels price shares valid q)
      ∙ split (level_at levels q) (ap (level_at levels))
    where
      split :
          (o : Option PriceLevel)
          → (q ≡ price → o ≡ level_at levels price)
          → level_shares (if q == price then drained shares (level_at levels price) else o)
              + (if price == q then shares else 0)
            ≡ level_shares o
      split o same = elim (eq_cases q price) [
        | inl e ↦ ground (arith, same e, drained_shares shares (level_at levels price))
        | inr ne ↦ ground arith
      ]
