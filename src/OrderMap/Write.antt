-- ===== src/OrderMap/Write.antt =====
-- A write through the pointer that `find` returned, which leaves the reference in its slot.
use simd_nanoring.Common.{
  ℕ, ◌+◌, ◌<◌, ◌≡◌, ◌≢◌, ◌∙◌, inl, inr, true, some, arith, ap, sym, subst, set, set_self, set_other,
  ◌==◌, if◌then◌else◌, Bool-cases, eq_cases, ==_iff, ==→ne, refl,
}
use simd_nanoring.OrderMap.{FlatOrderMap, LiveOrder, lookup, found}
use simd_nanoring.OrderMap.Table.{
  Holds, Table, Reaches, occupied_count-set, found-cases, found_held, found-none,
}
use simd_nanoring.OrderMap.Total.{total, total-set}
use simd_nanoring.OrderMap.Update.{Holds-set_self, Holds-set_other, Reaches-set, not_vacant}
use simd_nanoring.OrderMap.Valid.{IsValid}

-- `*p = v` for the slot at `idx`.
unfoldable pub write : FlatOrderMap → ℕ → LiveOrder → FlatOrderMap
write m idx v = record m { slots = set m.slots idx v }

module _ (m : FlatOrderMap) (r idx : ℕ) (v : LiveOrder) (valid : IsValid m)
    (held : Holds m.slots m.capacity r idx) (occ : v.occupied ≡ true) (own : v.order_ref ≡ r) where
  abbrev written : ℕ → LiveOrder
  written = set m.slots idx v

  -- The slots hold the references that they held.
  same_refs : (q i : ℕ) → Holds written m.capacity q i → Holds m.slots m.capacity q i
  same_refs q i h = elim (eq_cases i idx) [
    | inl same ↦
        let e : r ≡ q =
          (sym own
            ∙ (sym (ap LiveOrder.order_ref (ap written same ∙ set_self m.slots idx v)) ∙ h.2)) in
        subst (λ k. Holds m.slots m.capacity q k) (sym same) (held.0, held.1, held.2 ∙ e)
    | inr other ↦ (Holds-set_other m.slots m.capacity idx v held.0 q i other).1 h
  ]

  written-reached :
      (i : ℕ)
      → i < m.capacity
      → (written i).occupied ≡ true
      → Reaches written m.mask m.capacity (written i).order_ref i
  written-reached i lt busy =
      let old = same_refs (written i).order_ref i (lt, busy, refl) in
      Reaches-set m.slots m.capacity idx v held.0 m.mask (written i).order_ref i (not_vacant v occ)
        (subst (λ q. Reaches m.slots m.mask m.capacity q i) old.2 (valid.table.reached i lt old.1))

  written-Table : Table written m.mask m.capacity
  written-Table = record {
    reached = written-reached;
    unique = λ i j q hi hj. valid.table.unique i j q (same_refs q i hi) (same_refs q j hj);
  }

  -- Such a write keeps the invariant of the map.
  pub write-IsValid : IsValid (write m idx v)
  unfolding write
  write-IsValid = record {
    sized = valid.sized;
    table = written-Table;
    counted =
        ground
          (arith, valid.counted, occ, held.1, occupied_count-set m.slots m.capacity idx v held.0);
  }

  -- The reference has the order that was written, and every other one keeps its own.
  pub lookup-write : (q : ℕ) → lookup (write m idx v) q ≡ (if q == r then some v else lookup m q)
  unfolding write lookup
  lookup-write q = elim (Bool-cases (q == r)) [
    | inl same ↦ rw same (
        ap (found written m.mask m.capacity) ((==_iff q r).0 same)
        ∙ (found_held m.mask m.capacity valid.sized written r idx written-Table (
              subst (λ q. Holds written m.capacity q idx) own
                (Holds-set_self m.slots m.capacity idx v held.0 occ))
            ∙ ap some (set_self m.slots idx v)))
    | inr other ↦ rw other (elim (found-cases m.mask m.capacity valid.sized m.slots q valid.table) [
      | inl (miss, absent) ↦
          found-none m.mask m.capacity valid.sized written q (λ i h. absent i (same_refs q i h))
          ∙ sym miss
      | inr (i, hi, hit) ↦
          let away : i ≢ idx = (λ e.
            ==→ne q r other (sym hi.2 ∙ (ap (λ k. LiveOrder.order_ref (m.slots k)) e ∙ held.2))) in
          found_held m.mask m.capacity valid.sized written q i written-Table
            ((Holds-set_other m.slots m.capacity idx v held.0 q i away).0 hi)
          ∙ (ap some (set_other m.slots idx i v away) ∙ sym hit)
    ])
  ]

  pub total-write :
      (f : LiveOrder → ℕ)
      → total f (write m idx v).slots (write m idx v).capacity + f (m.slots idx)
        ≡ total f m.slots m.capacity + f v
  unfolding write
  total-write f = total-set f m.slots m.capacity idx v held.0
