-- ===== src/OrderBook/Best.antt =====
-- The best price of a side, read off its map of levels.
use simd_nanoring.Common.{
  ℕ, ◌<◌, ◌≡◌, ◌≢◌, ◌⊎◌, ◌∙◌, inl, inr, Bool, true, false, Option, none, some, arith, ap, sym,
  subst, ltb, ◌==◌, ◌||◌, if◌then◌else◌, Bool-cases, Option-cases, eq_cases, ltb→lt, ltb→le, refl,
}
use simd_nanoring.Levels.{Levels, PriceLevel, before}
use simd_nanoring.OrderBook.{top}
use simd_nanoring.Levels.Order.{IsSorted, price_at, before_trans, before→ne}
use simd_nanoring.Levels.View.{level_at, level_at-Shows, Shows→level_at, Shows}

-- The side has a level of the price.
abbrev pub HasLevel : Levels → ℕ → Type 0
HasLevel levels price = level_at levels price ≢ none

-- The price is the best one of the side: it has a level, and stands before every other price that
-- has one; or the side is empty and the price is 0.
abbrev pub IsBest : Bool → Levels → ℕ → Type 0
IsBest d levels x =
    (HasLevel levels x × ((q : ℕ) → HasLevel levels q → q ≢ x → before d x q ≡ true))
    ⊎ ((x ≡ 0) × ((q : ℕ) → level_at levels q ≡ none))

HasLevel-Shows :
    (levels : Levels) (q : ℕ)
    → HasLevel levels q
    → (i : ℕ) × (i < levels.count) × (price_at levels.cells i ≡ q)
HasLevel-Shows levels q has = shown (level_at levels q) has (level_at-Shows levels q)
  where
    shown :
        (o : Option PriceLevel)
        → o ≢ none
        → Shows levels.cells levels.count q o
        → (i : ℕ) × (i < levels.count) × (price_at levels.cells i ≡ q)
    shown none ne s = absurd (ne refl)
    shown (some l) ne (i, hi, hp, e) = (i, hi, hp)

pub level_none : (levels : Levels) (q : ℕ) → ¬ HasLevel levels q → level_at levels q ≡ none
level_none levels q no_level = elim (Option-cases (level_at levels q)) [
  | inl miss ↦ miss
  | inr (l, hit) ↦ absurd (no_level (λ e. cc (hit, e)))
]

-- `levels[0]` of a sorted side holds the best price.
pub top-IsBest :
    (d : Bool) (levels : Levels)
    → IsSorted d levels.cells levels.count
    → IsBest d levels (top levels)
top-IsBest d levels sorted = elim (Bool-cases (ltb 0 levels.count)) [
  | inl more ↦
      let at_top : level_at levels (price_at levels.cells 0) ≡ some (levels.cells 0) =
        Shows→level_at d levels _ (some (levels.cells 0)) sorted
          (0, ltb→lt 0 levels.count more, refl, refl) in
      rw more (
        inl (
          λ e. cc (at_top, e),
          λ q has ne.
              let (i, hi, hp) = HasLevel-Shows levels q has in
              let pos : i ≢ 0 = (λ e. ne (sym hp ∙ ap (price_at levels.cells) e)) in
              subst (λ p. before d (price_at levels.cells 0) p ≡ true) hp
                (sorted 0 i (omega arith) hi),
        ))
  | inr empty' ↦ rw empty' (
      inr (
        refl,
        λ q.
            Shows→level_at d levels q none sorted
              (λ j hj. absurd (omega (arith, ltb→le 0 levels.count empty'))),
      ))
]

-- A side has one best price.
pub IsBest-unique :
    (d : Bool) (levels : Levels) (x y : ℕ) → IsBest d levels x → IsBest d levels y → x ≡ y
IsBest-unique d levels x y (inl (hx, bx)) (inl (hy, by)) = elim (eq_cases x y) [
  | inl same ↦ same
  | inr ne ↦
      absurd (before→ne d x x (before_trans d x y x (bx y hy (λ e. ne (sym e))) (by x hx ne)) refl)
]
IsBest-unique d levels x y (inl (hx, bx)) (inr (zero', no_level)) = absurd (hx (no_level x))
IsBest-unique d levels x y (inr (zero', no_level)) (inl (hy, by)) = absurd (hy (no_level y))
IsBest-unique d levels x y (inr (zx, nx)) (inr (zy, ny)) = zx ∙ sym zy

-- The best price stays when no price gains a level and the best one keeps its own.
pub IsBest-keep :
    (d : Bool) (old new : Levels) (x : ℕ)
    → ((q : ℕ) → HasLevel new q → HasLevel old q)
    → (HasLevel old x → HasLevel new x)
    → IsBest d old x
    → IsBest d new x
IsBest-keep d old new x back kept (inl (hx, bx)) = inl (kept hx, λ q hq ne. bx q (back q hq) ne)
IsBest-keep d old new x back kept (inr (zero', no_level)) =
    inr (zero', λ q. level_none new q (λ has. back q has (no_level q)))

-- One price of a side has got the level `v`, the others have kept theirs.
module _ (old new : Levels) (p : ℕ) (v : PriceLevel)
    (law : (q : ℕ) → level_at new q ≡ (if q == p then some v else level_at old q)) where
  here : HasLevel new p
  here e = ground (arith, law p)

  there : (q : ℕ) → q ≢ p → HasLevel new q → HasLevel old q
  there q ne has e = has (ground (arith, law q))

  still : (q : ℕ) → HasLevel old q → HasLevel new q
  still q has e = elim (eq_cases q p) [
    | inl same ↦ here (sym (ap (level_at new) same) ∙ e)
    | inr ne ↦ has (ground (arith, law q))
  ]

  -- The price takes the lead, or leaves the best price where it is.
  IsBest-takes :
      (d : Bool) (x : ℕ)
      → IsBest d old x
      → (HasLevel old x → x ≢ p → before d p x ≡ true)
      → IsBest d new p
  IsBest-takes d x (inr (zero', no_level)) better =
      inl (here, λ q has ne. absurd (there q ne has (no_level q)))
  IsBest-takes d x (inl (hx, bx)) better = inl (
    here,
    λ q has ne. elim (eq_cases x p) [
      | inl same ↦
          subst (λ y. before d y q ≡ true) same (bx q (there q ne has) (λ e. ne (e ∙ same)))
      | inr apart ↦ elim (eq_cases q x) [
        | inl e ↦ subst (λ y. before d p y ≡ true) (sym e) (better hx apart)
        | inr other ↦ before_trans d p x q (better hx apart) (bx q (there q ne has) other)
      ]
    ],
  )

  IsBest-stays :
      (d : Bool) (x : ℕ)
      → IsBest d old x
      → (x ≢ p → HasLevel old x × (before d x p ≡ true))
      → IsBest d new x
  IsBest-stays d x (inr (zero', no_level)) worse = elim (eq_cases x p) [
    | inl same ↦ inl (
      subst (HasLevel new) (sym same) here,
      λ q has ne. absurd (there q (λ e. ne (e ∙ sym same)) has (no_level q)),
    )
    | inr apart ↦ absurd ((worse apart).0 (no_level x))
  ]
  IsBest-stays d x (inl (hx, bx)) worse = inl (
    still x hx,
    λ q has ne. elim (eq_cases q p) [
      | inl same ↦ subst (λ y. before d x y ≡ true) (sym same) (worse (λ e. ne (same ∙ sym e))).1
      | inr other ↦ bx q (there q other has) ne
    ],
  )

  best_level : (d : Bool) (x : ℕ) → IsBest d old x → x ≢ 0 → HasLevel old x
  best_level d x (inl (hx, _)) ne = hx
  best_level d x (inr (zero', _)) ne = absurd (ne zero')

  -- What `handle_add` makes of the best bid and of the best ask.
  pub IsBest-bid : (x : ℕ) → IsBest true old x → IsBest true new (if ltb x p then p else x)
  IsBest-bid x best = elim (Bool-cases (ltb x p)) [
    | inl less ↦ rw less (IsBest-takes true x best (λ has ne. less))
    | inr more ↦
        rw more
          (IsBest-stays true x best (λ ne. (best_level true x best (ground arith), ground arith)))
  ]

  pub IsBest-ask :
      (x : ℕ)
      → level_at old 0 ≡ none
      → IsBest false old x
      → IsBest false new (if x == 0 || ltb p x then p else x)
  IsBest-ask x no_zero best = elim (Bool-cases (x == 0 || ltb p x)) [
    | inl take ↦ rw take (
        IsBest-takes false x best
          (λ has ne. let pos : x ≢ 0 = (λ e. has (ap (level_at old) e ∙ no_zero)) in ground arith))
    | inr stay ↦
        rw stay
          (IsBest-stays false x best (λ ne. (best_level false x best (ground arith), ground arith)))
  ]
