-- ===== src/OrderMap/Insert.antt =====
-- `insert` into a table with room, of a reference that is not in it.
use simd_nanoring.Common.{
  ℕ, ◌+◌, ◌<◌, ◌≡◌, ◌≢◌, ◌∙◌, inl, inr, true, some, arith, ap, sym, subst, set, set_self, set_other,
  ◌==◌, if◌then◌else◌, Bool-cases, ==_iff, ==→ne, refl,
}
use simd_nanoring.OrderMap.{
  FlatOrderMap, LiveOrder, home, insert_from, insert_grown, lookup, found, placed,
}
use simd_nanoring.OrderMap.Probe.{IsSized, Stops}
use simd_nanoring.OrderMap.Table.{
  Holds, Table, occupied_count-set, found-cases, found_held, found-none,
}
use simd_nanoring.OrderMap.Total.{total, Vanishes, total-set}
use simd_nanoring.OrderMap.Update.{
  filled-Table, filled-Holds, filled_free, filled_inside, Holds-set_self, Holds-set_other,
}
use simd_nanoring.OrderMap.Valid.{IsValid, IsFresh, insert_from-home-Stops}

-- What the lookups of a table become when an order is put where the loop of `insert` leaves.
module _ (slots : ℕ → LiveOrder) (mask capacity : ℕ) (sized : IsSized mask capacity)
    (table : Table slots mask capacity) (r idx : ℕ)
    (stops : Stops mask capacity sized slots r (home mask r) 0 idx)
    (fresh : (i : ℕ) → ¬ Holds slots capacity r i) (v : LiveOrder) (occ : v.occupied ≡ true)
    (own : v.order_ref ≡ r) where
  table' : Table (set slots idx v) mask capacity
  table' = filled-Table slots mask capacity sized table r idx stops fresh v occ own

  inside : idx < capacity
  inside = filled_inside slots mask capacity sized table r idx stops fresh v occ own

  pub found-filled_self : found (set slots idx v) mask capacity r ≡ some v
  found-filled_self =
      found_held mask capacity sized (set slots idx v) r idx table' (
        subst (λ q. Holds (set slots idx v) capacity q idx) own
          (Holds-set_self slots capacity idx v inside occ))
      ∙ ap some (set_self slots idx v)

  pub found-filled_other :
      (q : ℕ) → q ≢ r → found (set slots idx v) mask capacity q ≡ found slots mask capacity q
  found-filled_other q ne = elim (found-cases mask capacity sized slots q table) [
    | inl (miss, absent) ↦
        found-none mask capacity sized (set slots idx v) q (λ i h.
          elim (filled-Holds slots mask capacity sized table r idx stops fresh v occ own q i h) [
            | inl (_, e) ↦ ne e
            | inr (_, old) ↦ absent i old
          ])
        ∙ sym miss
    | inr (i, held, hit) ↦
        let free = filled_free slots mask capacity sized table r idx stops fresh v occ own in
        let away : i ≢ idx = (λ e. cc (held.1, free)) in
        found_held mask capacity sized (set slots idx v) q i table'
          ((Holds-set_other slots capacity idx v inside q i away).0 held)
        ∙ (ap some (set_other slots idx i v away) ∙ sym hit)
  ]

module _ (m : FlatOrderMap) (r : ℕ) (order : LiveOrder) (valid : IsValid m)
    (room : m.size < m.capacity) (fresh : IsFresh m r) where
  abbrev idx : ℕ
  idx = insert_from m.slots m.mask r m.capacity (home m.mask r)

  stops : Stops m.mask m.capacity valid.sized m.slots r (home m.mask r) 0 idx
  stops =
      insert_from-home-Stops m.slots m.mask m.capacity r valid.sized (omega (arith, valid.counted))

  pub insert_grown-IsValid : IsValid (insert_grown m r order)
  unfolding insert_grown
  insert_grown-IsValid = record {
    sized = valid.sized;
    table =
        filled-Table m.slots m.mask m.capacity valid.sized valid.table r _ stops fresh
          (placed r order) refl refl;
    counted = ground (
      arith,
      valid.counted,
      valid.sized.small,
      occupied_count-set m.slots m.capacity idx (placed r order) (
          filled_inside m.slots m.mask m.capacity valid.sized valid.table r idx stops fresh
            (placed r order) refl refl),
      filled_free m.slots m.mask m.capacity valid.sized valid.table r idx stops fresh
          (placed r order) refl refl,
    );
  }

  pub lookup-insert_grown :
      (q : ℕ)
      → lookup (insert_grown m r order) q ≡ (if q == r then some (placed r order) else lookup m q)
  unfolding lookup insert_grown
  lookup-insert_grown q = elim (Bool-cases (q == r)) [
    | inl same ↦
        rw (same, (==_iff q r).0 same)
          (found-filled_self m.slots m.mask m.capacity valid.sized valid.table r idx stops fresh
            (placed r order) refl refl)
    | inr other ↦ rw other (
        found-filled_other m.slots m.mask m.capacity valid.sized valid.table r idx stops fresh
          (placed r order) refl refl q (==→ne q r other))
  ]

  -- A sum over the orders gains what the new order counts.
  pub total-insert_grown :
      (f : LiveOrder → ℕ)
      → Vanishes f
      → total f (insert_grown m r order).slots (insert_grown m r order).capacity
        ≡ total f m.slots m.capacity + f (placed r order)
  unfolding insert_grown
  total-insert_grown f none' = omega (
    arith,
    total-set f m.slots m.capacity idx (placed r order) (
        filled_inside m.slots m.mask m.capacity valid.sized valid.table r idx stops fresh
          (placed r order) refl refl),
    none' (m.slots idx) (
        filled_free m.slots m.mask m.capacity valid.sized valid.table r idx stops fresh
          (placed r order) refl refl),
  )
