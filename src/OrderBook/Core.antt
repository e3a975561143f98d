-- ===== src/OrderBook/Core.antt =====
-- The invariant that ties the two sides of a book to its live orders, and the two ways in which the
-- handlers change both: an order comes in, an order loses shares.
use native.Mathlib.Nat.{add-zero}
use mathlib.Core.Path.{fun_ext}
use simd_nanoring.Common.{
  ℕ, ◌+◌, ◌<◌, ◌≤◌, ◌≡◌, ◌≢◌, ◌⊎◌, ◌∙◌, inl, inr, Bool, true, false, ◌&&◌, none, some, arith, ap,
  sym, subst, ◌==◌, if◌then◌else◌, Bool-cases, eq_cases, some_eq, ne→==, ==_iff,
}
use simd_nanoring.Common.Word.{u32}
use simd_nanoring.Levels.{Levels, add_to_levels, remove_from_levels}
use simd_nanoring.Levels.Order
use simd_nanoring.Levels.Add.{HasRoom, add_to_levels-IsValid, level_at-add_to_levels}
use simd_nanoring.Levels.Remove.{level_at-remove_from_levels, remove_from_levels-IsValid}
use simd_nanoring.Levels.View.{level_at, drained}
use simd_nanoring.OrderMap.{FlatOrderMap, LiveOrder, lookup, placed}
use simd_nanoring.OrderMap.Total.{total, Vanishes}
use simd_nanoring.OrderMap.Valid
use simd_nanoring.OrderMap.Laws.{Inserted}
use simd_nanoring.OrderBook.{is_bid}
use simd_nanoring.OrderBook.Sides.{
  same_side, shares_at, shares_at-add_to_levels, shares_at-remove_from_levels, same_side-cases,
}

-- What a slot counts for a side at a price.
abbrev pub weight : Bool → ℕ → LiveOrder → ℕ
weight d price l =
    if l.occupied && (same_side d (is_bid l.side) && l.price == price)
    then l.remaining_shares
    else 0

pub weight-Vanishes : (d : Bool) (price : ℕ) → Vanishes (weight d price)
weight-Vanishes d price l free = ground arith

-- The shares of the live orders of a side at a price.
abbrev pub live_shares : FlatOrderMap → Bool → ℕ → ℕ
live_shares m d price = total (weight d price) m.slots m.capacity

-- A side letter of the protocol.
abbrev pub IsSide : ℕ → Type 0
IsSide side = (side ≡ b'B') ⊎ (side ≡ b'S')

pub record Core (S : Bool → Levels) (m : FlatOrderMap) : Type 0 where
  pub levels : (d : Bool) → Order.IsValid d (S d)
  pub orders : Valid.IsValid m
  pub sided : (r : ℕ) (l : LiveOrder) → lookup m r ≡ some l → IsSide l.side
  pub priced : level_at (S false) 0 ≡ none
  pub words : (d : Bool) (p : ℕ) → shares_at (S d) p < u32
  pub backed : (d : Bool) (p : ℕ) → shares_at (S d) p ≡ live_shares m d p

pub Core-cong :
    (S S' : Bool → Levels) (m m' : FlatOrderMap)
    → ((d : Bool) → S' d ≡ S d)
    → m' ≡ m
    → Core S m
    → Core S' m'
Core-cong S S' m m' e f core =
    subst (Core S') (sym f) (subst (λ T. Core T m) (fun_ext (λ d. sym (e d))) core)

-- An order comes in.
module _ (S S' : Bool → Levels) (m m' : FlatOrderMap) (core : Core S m) (r : ℕ) (lo : LiveOrder)
    (side_is : IsSide lo.side) (room : HasRoom (S (is_bid lo.side)) lo.price) (pos : lo.price ≢ 0)
    (fits : shares_at (S (is_bid lo.side)) lo.price + lo.remaining_shares < u32)
    (ins : Inserted m r lo m')
    (grown : (d : Bool)
      → S' d ≡ (
          if same_side d (is_bid lo.side)
          then add_to_levels (S d) lo.price lo.remaining_shares d
          else S d)) where
  abbrev side : Bool
  side = is_bid lo.side

  grown_yes :
      (d : Bool)
      → same_side d side ≡ true
      → S' d ≡ add_to_levels (S d) lo.price lo.remaining_shares d
  grown_yes d yes' =
      grown d
      ∙ ap (λ (b : Bool). if b then add_to_levels (S d) lo.price lo.remaining_shares d else S d)
          yes'

  grown_no : (d : Bool) → same_side d side ≡ false → S' d ≡ S d
  grown_no d no' =
      grown d
      ∙ ap (λ (b : Bool). if b then add_to_levels (S d) lo.price lo.remaining_shares d else S d) no'

  added-levels : (d : Bool) → Order.IsValid d (S' d)
  added-levels d = elim (same_side-cases d side) [
    | inl (_, yes') ↦
        subst (Order.IsValid d) (sym (grown_yes d yes'))
          (add_to_levels-IsValid d (S d) lo.price lo.remaining_shares (core.levels d))
    | inr no' ↦ subst (Order.IsValid d) (sym (grown_no d no')) (core.levels d)
  ]

  room_at : (d : Bool) → side ≡ d → HasRoom (S d) lo.price
  room_at d e = subst (λ b. HasRoom (S b) lo.price) e room

  fits_at : (d : Bool) → side ≡ d → shares_at (S d) lo.price + lo.remaining_shares < u32
  fits_at d e = subst (λ b. shares_at (S b) lo.price + lo.remaining_shares < u32) e fits

  added-shares :
      (d : Bool) (q : ℕ) → shares_at (S' d) q ≡ shares_at (S d) q + weight d q (placed r lo)
  added-shares d q = elim (same_side-cases d side) [
    | inl (e, yes') ↦
        ap (λ L. shares_at L q) (grown_yes d yes')
        ∙ (shares_at-add_to_levels d (S d) lo.price lo.remaining_shares (core.levels d)
              (room_at d e) (fits_at d e) q
            ∙ ap
                (λ (b : Bool).
                  shares_at (S d) q + (if b && lo.price == q then lo.remaining_shares else 0))
                (sym yes'))
    | inr no' ↦
        ap (λ L. shares_at L q) (grown_no d no')
        ∙ (sym (add-zero (shares_at (S d) q))
            ∙ ap
                (λ (b : Bool).
                  shares_at (S d) q + (if b && lo.price == q then lo.remaining_shares else 0))
                (sym no'))
  ]

  added-words : (d : Bool) (p : ℕ) → shares_at (S' d) p < u32
  added-words d p = elim (same_side-cases d side) [
    | inl (e, yes') ↦ elim (eq_cases lo.price p) [
      | inl here ↦
          ground (arith, added-shares d p, fits_at d e, ap (shares_at (S d)) here, core.words d p)
      | inr there ↦ ground (arith, added-shares d p, core.words d p)
    ]
    | inr no' ↦ ground (arith, added-shares d p, core.words d p)
  ]

  added-priced : level_at (S' false) 0 ≡ none
  added-priced = elim (same_side-cases false side) [
    | inl (e, yes') ↦
        ap (λ L. level_at L 0) (grown_yes false yes')
        ∙ (level_at-add_to_levels false (S false) lo.price lo.remaining_shares (core.levels false)
              (room_at false e) 0
            ∙ rw (ne→== 0 lo.price (λ z. pos (sym z))) core.priced)
    | inr no' ↦ ap (λ L. level_at L 0) (grown_no false no') ∙ core.priced
  ]

  pub added-Core : Core S' m'
  added-Core = record {
    levels = added-levels;
    orders = ins.valid;
    sided = λ q l hit. elim (Bool-cases (q == r)) [
      | inl same ↦
          let now : lookup m' q ≡ some (placed r lo) = ins.looks q ∙ rw same in
          subst IsSide (ap LiveOrder.side (some_eq (sym now ∙ hit))) side_is
      | inr other ↦ core.sided q l (sym (ins.looks q ∙ rw other) ∙ hit)
    ];
    priced = added-priced;
    words = added-words;
    backed = λ d p.
        added-shares d p
        ∙ (ap (λ n. n + weight d p (placed r lo)) (core.backed d p)
            ∙ sym (ins.weighed (weight d p) (weight-Vanishes d p)));
  }

-- An order loses some of its shares, and its level with it.
module _ (S S' : Bool → Levels) (m m' : FlatOrderMap) (core : Core S m) (lo : LiveOrder) (s : ℕ)
    (less : s ≤ lo.remaining_shares) (live : (d : Bool) (p : ℕ) → weight d p lo ≤ live_shares m d p)
    (occ : lo.occupied ≡ true) (orders' : Valid.IsValid m')
    (sided' : (r : ℕ) (l : LiveOrder) → lookup m' r ≡ some l → IsSide l.side)
    (weighed : (d : Bool) (p : ℕ)
      → live_shares m' d p + (if same_side d (is_bid lo.side) && lo.price == p then s else 0)
        ≡ live_shares m d p)
    (shrunk : (d : Bool)
      → S' d ≡ (
          if same_side d (is_bid lo.side)
          then remove_from_levels (S d) lo.price s d
          else S d)) where
  abbrev from : Bool
  from = is_bid lo.side

  shrunk_yes : (d : Bool) → same_side d from ≡ true → S' d ≡ remove_from_levels (S d) lo.price s d
  shrunk_yes d yes' =
      shrunk d ∙ ap (λ (b : Bool). if b then remove_from_levels (S d) lo.price s d else S d) yes'

  shrunk_no : (d : Bool) → same_side d from ≡ false → S' d ≡ S d
  shrunk_no d no' =
      shrunk d ∙ ap (λ (b : Bool). if b then remove_from_levels (S d) lo.price s d else S d) no'

  -- The level of a live order has at least its shares.
  pub level_has :
      (d : Bool) → same_side d from ≡ true → lo.remaining_shares ≤ shares_at (S d) lo.price
  level_has d yes' = ground (arith, live d lo.price, core.backed d lo.price)

  removed-shares :
      (d : Bool) (q : ℕ)
      → shares_at (S' d) q + (if same_side d from && lo.price == q then s else 0)
        ≡ shares_at (S d) q
  removed-shares d q = elim (same_side-cases d from) [
    | inl (e, yes') ↦
        rw (yes', shrunk_yes d yes')
          (shares_at-remove_from_levels d (S d) lo.price s (core.levels d)
            (omega (arith, level_has d yes')) (core.words d lo.price) q)
    | inr no' ↦ rw (no', shrunk_no d no') (add-zero _)
  ]

  removed-levels : (d : Bool) → Order.IsValid d (S' d)
  removed-levels d = elim (same_side-cases d from) [
    | inl (_, yes') ↦
        subst (Order.IsValid d) (sym (shrunk_yes d yes'))
          (remove_from_levels-IsValid d (S d) lo.price s (core.levels d))
    | inr no' ↦ subst (Order.IsValid d) (sym (shrunk_no d no')) (core.levels d)
  ]

  gone :
      (if 0 == lo.price then drained s (level_at (S false) lo.price) else level_at (S false) 0)
      ≡ none
  gone = elim (Bool-cases (0 == lo.price)) [
    | inl e ↦
        rw e
          (ap (drained s) (ap (level_at (S false)) (sym ((==_iff 0 lo.price).0 e)) ∙ core.priced))
    | inr ne ↦ rw ne core.priced
  ]

  removed-priced : level_at (S' false) 0 ≡ none
  removed-priced = elim (same_side-cases false from) [
    | inl (e, yes') ↦
        ap (λ L. level_at L 0) (shrunk_yes false yes')
        ∙ (level_at-remove_from_levels false (S false) lo.price s (core.levels false) 0 ∙ gone)
    | inr no' ↦ ap (λ L. level_at L 0) (shrunk_no false no') ∙ core.priced
  ]

  pub removed-Core : Core S' m'
  removed-Core = record {
    levels = removed-levels;
    orders = orders';
    sided = sided';
    priced = removed-priced;
    words = λ d p. omega (arith, removed-shares d p, core.words d p);
    backed = λ d p. omega (arith, removed-shares d p, core.backed d p, weighed d p);
  }
