-- ===== src/Levels/Search.antt =====
-- `binary_find` is right on a sorted side: it finds the level of a price, or says where it belongs.
use simd_nanoring.Common.{
  ℕ, zero, suc, ◌+◌, ◌-◌, ◌/◌, ◌≤◌, ◌<◌, ◌≡◌, ◌≢◌, inl, inr, Bool, true, false, arith, ltb, ◌==◌,
  Bool-cases, ltb→lt, ltb→le, ==_iff, ==→ne, lt_cases, sym, subst,
}
use simd_nanoring.Levels.{PriceLevel, Levels, ℤ, pos, negsuc, before, find_loop, binary_find}
use simd_nanoring.Levels.Order.{price_at, IsSorted, before_trans, before_total}

-- A found index holds the price; a missing price belongs between the levels below the insertion
-- point, which all stand before it, and the others, which it stands before.
abbrev pub Locates : Bool → (ℕ → PriceLevel) → ℕ → ℕ → ℤ → Type 0
Locates d cells count price (pos i) = (i < count) × (price_at cells i ≡ price)
Locates d cells count price (negsuc i) =
    (i ≤ count)
    × ((j : ℕ) → j < i → before d (price_at cells j) price ≡ true)
    × ((j : ℕ) → i ≤ j → j < count → before d price (price_at cells j) ≡ true)

module _ (d : Bool) (cells : ℕ → PriceLevel) (count price : ℕ)
    (sorted : IsSorted d cells count) where
  Below : ℕ → Type 0
  Below lo = (j : ℕ) → j < lo → before d (price_at cells j) price ≡ true

  Above : ℕ → Type 0
  Above stop = (j : ℕ) → stop ≤ j → j < count → before d price (price_at cells j) ≡ true

  go_right : (mid : ℕ) → mid < count → before d (price_at cells mid) price ≡ true → Below (mid + 1)
  unfolding Below
  go_right mid hm h j hj = elim (lt_cases j mid) [
    | inl lt ↦ before_trans d _ _ _ (sorted j mid lt hm) h
    | inr (inl e) ↦ subst (λ k. before d (price_at cells k) price ≡ true) (sym e) h
    | inr (inr gt) ↦ absurd (omega arith)
  ]

  go_left :
      (mid : ℕ)
      → mid < count
      → price_at cells mid ≢ price
      → before d (price_at cells mid) price ≡ false
      → Above mid
  unfolding Above
  go_left mid hm ne h j hj hc = elim (lt_cases mid j) [
    | inl lt ↦ before_trans d _ _ _ (before_total d _ _ ne h) (sorted mid j lt hc)
    | inr (inl e) ↦
        subst (λ k. before d price (price_at cells k) ≡ true) e (before_total d _ _ ne h)
    | inr (inr gt) ↦ absurd (omega arith)
  ]

  find_loop-Locates :
      (fuel lo stop : ℕ)
      → stop - lo ≤ fuel
      → lo ≤ stop
      → stop ≤ count
      → Below lo
      → Above stop
      → Locates d cells count price (find_loop cells price d fuel lo stop)
  unfolding find_loop Below Above
  find_loop-Locates zero lo stop hf hl hs below above =
      (omega arith, below, λ j hj hc. above j (omega arith) hc)
  find_loop-Locates (suc fuel) lo stop hf hl hs below above =
      let mid = (lo + stop - 1) / 2 in
      elim (Bool-cases (ltb lo stop)) [
        | inr done ↦
            rw done (omega arith, below, λ j hj hc. above j (omega (arith, ltb→le lo stop done)) hc)
        | inl more ↦
            let lt = ltb→lt lo stop more in
            rw (more, Locates)
              (elim (Bool-cases (price_at cells mid == price)) [
                | inl hit ↦ rw (hit, Locates) (omega arith, (==_iff _ _).0 hit)
                | inr miss ↦
                    rw (miss, Locates)
                      (elim (Bool-cases (before d (price_at cells mid) price)) [
                        | inl right ↦ rw right (
                            find_loop-Locates fuel (mid + 1) stop (omega arith) (omega arith) hs
                              (go_right mid (omega arith) right) above)
                        | inr left ↦ rw left (
                            find_loop-Locates fuel lo mid (omega arith) (omega arith) (omega arith)
                              below (go_left mid (omega arith) (==→ne _ _ miss) left))
                      ])
              ])
      ]

-- `binary_find` on a sorted side: a non-negative result is the index of the level of the price;
-- a negative one encodes the insertion point, before which stand just the better prices.
pub binary_find-Locates :
    (d : Bool) (levels : Levels) (price : ℕ)
    → IsSorted d levels.cells levels.count
    → Locates d levels.cells levels.count price (binary_find levels price d)
unfolding binary_find Below Above
binary_find-Locates d levels price sorted =
    find_loop-Locates d levels.cells levels.count price sorted levels.count 0 levels.count
      (omega arith) (omega arith) (omega arith) (λ j h. absurd (omega arith))
      (λ j h k. absurd (omega arith))
