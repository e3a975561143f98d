-- ===== src/OrderMap/Update.antt =====
-- How a slot of a table is filled by `insert` and `rehash`, and emptied by `erase`.
use simd_nanoring.Common.{
  ℕ, ◌<◌, ◌≡◌, ◌≢◌, ◌⊎◌, ◌↔◌, ◌∙◌, inl, inr, true, false, arith, ap, set, set_self, set_other,
  Bool-cases, eq_cases, sym, refl, subst,
}
use simd_nanoring.OrderMap.{LiveOrder, home, is_vacant}
use simd_nanoring.OrderMap.Probe.{IsSized, probe, probe-lt, Stops}
use simd_nanoring.OrderMap.Table.{Holds, Reaches, Table}

pub not_vacant : (l : LiveOrder) → l.occupied ≡ true → is_vacant l ≡ false
not_vacant l h = ground arith

module _ (slots : ℕ → LiveOrder) (capacity idx : ℕ) (v : LiveOrder) (inside : idx < capacity) where
  -- What a changed slot holds, and what the others hold.
  pub Holds-set_self : v.occupied ≡ true → Holds (set slots idx v) capacity v.order_ref idx
  Holds-set_self occ = (
    inside,
    ap LiveOrder.occupied (set_self slots idx v) ∙ occ,
    ap LiveOrder.order_ref (set_self slots idx v),
  )

  pub Holds-set_other :
      (r i : ℕ) → i ≢ idx → Holds slots capacity r i ↔ Holds (set slots idx v) capacity r i
  Holds-set_other r i ne = rw (set_other slots idx i v ne) (λ h. h, λ h. h)

  -- A slot is found again if it was, when the changed slot is not vacant.
  pub Reaches-set :
      (mask r i : ℕ)
      → is_vacant v ≡ false
      → Reaches slots mask capacity r i
      → Reaches (set slots idx v) mask capacity r i
  Reaches-set mask r i taken (d, lt, at, full) = (
    d,
    lt,
    at,
    λ x hx. elim (eq_cases (probe capacity (home mask r) x) idx) [
      | inl same ↦ ap is_vacant (ap (set slots idx v) same ∙ set_self slots idx v) ∙ taken
      | inr other ↦ ap is_vacant (set_other slots idx _ v other) ∙ full x hx
    ],
  )

-- An order put where the loop of `insert` leaves, for a reference that no slot holds.
module _ (slots : ℕ → LiveOrder) (mask capacity : ℕ) (sized : IsSized mask capacity)
    (table : Table slots mask capacity) (r idx : ℕ)
    (stops : Stops mask capacity sized slots r (home mask r) 0 idx)
    (fresh : (i : ℕ) → ¬ Holds slots capacity r i) (v : LiveOrder) (occ : v.occupied ≡ true)
    (own : v.order_ref ≡ r) where
  pub filled_inside : idx < capacity
  filled_inside = rw stops.here_is (probe-lt mask capacity sized _ _)

  -- The slot was free.
  pub filled_free : (slots idx).occupied ≡ false
  filled_free = elim stops.stop [
    | inl free ↦ free
    | inr same ↦ elim (Bool-cases (slots idx).occupied) [
      | inl busy ↦ absurd (fresh idx (filled_inside, busy, same))
      | inr free ↦ free
    ]
  ]

  pub filled-Holds :
      (q i : ℕ)
      → Holds (set slots idx v) capacity q i
      → ((i ≡ idx) × (q ≡ r)) ⊎ ((i ≢ idx) × Holds slots capacity q i)
  filled-Holds q i h = elim (eq_cases i idx) [
    | inl same ↦ inl (
      same,
      sym h.2
          ∙ (ap (λ k. (set slots idx v k).order_ref) same
              ∙ (ap LiveOrder.order_ref (set_self slots idx v) ∙ own)),
    )
    | inr other ↦ inr (other, (Holds-set_other slots capacity idx v filled_inside q i other).1 h)
  ]

  abbrev filled : ℕ → LiveOrder
  filled = set slots idx v

  filled_taken : is_vacant v ≡ false
  filled_taken = ground arith

  filled_way : Reaches filled mask capacity r idx
  filled_way = Reaches-set slots capacity idx v filled_inside mask r idx filled_taken (
    stops.at,
    stops.within,
    sym stops.here_is,
    λ x hx. not_vacant (slots (probe capacity (home mask r) x)) (stops.busy x (omega arith) hx),
  )

  filled-reached :
      (i : ℕ)
      → i < capacity
      → (filled i).occupied ≡ true
      → Reaches filled mask capacity (filled i).order_ref i
  filled-reached i lt busy = elim (eq_cases i idx) [
    | inl same ↦
        subst (λ k. Reaches filled mask capacity (filled k).order_ref k) (sym same)
          (subst (λ q. Reaches filled mask capacity q idx)
            (sym (ap LiveOrder.order_ref (set_self slots idx v) ∙ own)) filled_way)
    | inr other ↦
        let kept = set_other slots idx i v other in
        subst (λ l. Reaches filled mask capacity (LiveOrder.order_ref l) i) (sym kept)
          (Reaches-set slots capacity idx v filled_inside mask _ i filled_taken
            (table.reached i lt (sym (ap LiveOrder.occupied kept) ∙ busy)))
  ]

  filled_unique : (i j q : ℕ) → Holds filled capacity q i → Holds filled capacity q j → i ≡ j
  filled_unique i j q hi hj = elim (filled-Holds q i hi) [
    | inl (ei, eq) ↦ elim (filled-Holds q j hj) [
      | inl (ej, _) ↦ ei ∙ sym ej
      | inr (_, old) ↦ absurd (fresh j (old.0, old.1, old.2 ∙ eq))
    ]
    | inr (_, old) ↦ elim (filled-Holds q j hj) [
      | inl (ej, eq) ↦ absurd (fresh i (old.0, old.1, old.2 ∙ eq))
      | inr (_, old') ↦ table.unique i j q old old'
    ]
  ]

  -- Every order of the new table can be found again.
  pub filled-Table : Table filled mask capacity
  filled-Table = record { reached = filled-reached; unique = filled_unique }

-- An order taken out: its slot becomes a tombstone, which is not vacant.
module _ (slots : ℕ → LiveOrder) (mask capacity : ℕ) (table : Table slots mask capacity) (r idx : ℕ)
    (held : Holds slots capacity r idx) (v : LiveOrder) (free : v.occupied ≡ false)
    (taken : is_vacant v ≡ false) where
  abbrev cleared : ℕ → LiveOrder
  cleared = set slots idx v

  -- What the table holds is what it held, but for the slot.
  pub cleared-Holds : (q i : ℕ) → Holds cleared capacity q i → (i ≢ idx) × Holds slots capacity q i
  cleared-Holds q i h = elim (eq_cases i idx) [
    | inl same ↦ cc (h.1, ap LiveOrder.occupied (set_self slots idx v), free)
    | inr other ↦ (other, (Holds-set_other slots capacity idx v held.0 q i other).1 h)
  ]

  pub cleared-Table : Table cleared mask capacity
  cleared-Table = record {
    reached = λ i lt busy.
        let (other, old) = cleared-Holds (cleared i).order_ref i (lt, busy, refl) in
        subst (λ l. Reaches cleared mask capacity (LiveOrder.order_ref l) i)
          (sym (set_other slots idx i v other))
          (Reaches-set slots capacity idx v held.0 mask _ i taken (table.reached i lt old.1));
    unique = λ i j q hi hj. table.unique i j q (cleared-Holds q i hi).1 (cleared-Holds q j hj).1;
  }
