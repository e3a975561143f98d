-- ===== src/OrderMap/Erase.antt =====
-- `erase` takes out the order of one reference, and no other.
use simd_nanoring.Common.{
  ℕ, ◌+◌, ◌≡◌, ◌≢◌, ◌∙◌, inl, inr, false, none, some, arith, ap, sym, set, set_other, ◌==◌,
  if◌then◌else◌, Bool-cases, Option-cases, ==_iff, ==→ne, refl,
}
use simd_nanoring.OrderMap.{FlatOrderMap, LiveOrder, find, erase, lookup, found, tombstone}
use simd_nanoring.OrderMap.Table.{
  Holds, Table, occupied_count-set, found-cases, found_held, found-none, find→Holds,
}
use simd_nanoring.OrderMap.Total.{total, Vanishes, total-set}
use simd_nanoring.OrderMap.Update.{cleared-Table, cleared-Holds, Holds-set_other}
use simd_nanoring.OrderMap.Valid.{IsValid, lookup_missing, size-le}

abbrev buried : LiveOrder → LiveOrder
buried l = record l { order_ref = tombstone; occupied = false }

module _ (m : FlatOrderMap) (r : ℕ) (valid : IsValid m) where
  module _ (idx : ℕ) (held : Holds m.slots m.capacity r idx) where
    abbrev v : LiveOrder
    v = buried (m.slots idx)

    after : Table (set m.slots idx v) m.mask m.capacity
    after = cleared-Table m.slots m.mask m.capacity valid.table r idx held v refl refl

    found-cleared_self : found (set m.slots idx v) m.mask m.capacity r ≡ none
    found-cleared_self = found-none m.mask m.capacity valid.sized (set m.slots idx v) r (λ i h.
        let (other, old) =
          cleared-Holds m.slots m.mask m.capacity valid.table r idx held v refl refl r i h in
        other (valid.table.unique i idx r old held))

    found-cleared_other :
        (q : ℕ)
        → q ≢ r
        → found (set m.slots idx v) m.mask m.capacity q ≡ found m.slots m.mask m.capacity q
    found-cleared_other q ne =
        elim (found-cases m.mask m.capacity valid.sized m.slots q valid.table) [
          | inl (miss, absent) ↦
              found-none m.mask m.capacity valid.sized (set m.slots idx v) q (λ i h.
                absent i
                  (cleared-Holds m.slots m.mask m.capacity valid.table r idx held v refl refl q i
                    h).1)
              ∙ sym miss
          | inr (i, hi, hit) ↦
              let away : i ≢ idx =
                (λ e. ne (sym hi.2 ∙ (ap (λ k. LiveOrder.order_ref (m.slots k)) e ∙ held.2))) in
              found_held m.mask m.capacity valid.sized (set m.slots idx v) q i after
                ((Holds-set_other m.slots m.capacity idx v held.0 q i away).0 hi)
              ∙ (ap some (set_other m.slots idx i v away) ∙ sym hit)
        ]

  -- `erase` keeps a map valid: the tombstone leaves every other order within reach.
  pub erase-IsValid : IsValid (erase m r)
  unfolding erase
  erase-IsValid = elim (Option-cases (find m r)) [
    | inl miss ↦ rw (miss, erase) valid
    | inr (idx, hit) ↦
        let held = find→Holds m.mask m.capacity valid.sized m.slots r idx hit in
        rw (hit, erase)
          (record {
            sized = valid.sized;
            table = after idx held;
            counted = ground (
              arith,
              valid.counted,
              size-le m valid,
              valid.sized.small,
              held.1,
              occupied_count-set m.slots m.capacity idx (v idx held) held.0,
            );
          })
  ]

  -- On a valid map `erase` forgets the order of its reference, and every other reference keeps its
  -- order.
  pub lookup-erase : (q : ℕ) → lookup (erase m r) q ≡ (if q == r then none else lookup m q)
  unfolding lookup erase
  lookup-erase q = elim (Option-cases (find m r)) [
    | inl miss ↦
        rw (miss, erase)
          (elim (Bool-cases (q == r)) [
            | inl same ↦ rw same (ap (lookup m) ((==_iff q r).0 same) ∙ lookup_missing m r miss)
            | inr other ↦ rw other
          ])
    | inr (idx, hit) ↦
        let held = find→Holds m.mask m.capacity valid.sized m.slots r idx hit in
        rw (hit, erase)
          (elim (Bool-cases (q == r)) [
            | inl same ↦ rw (same, (==_iff q r).0 same) (found-cleared_self idx held)
            | inr other ↦ rw other (found-cleared_other idx held q (==→ne q r other))
          ])
  ]

  -- A sum over the orders loses what the erased order counts.
  pub total-erase :
      (idx : ℕ) (f : LiveOrder → ℕ)
      → find m r ≡ some idx
      → Vanishes f
      → total f (erase m r).slots (erase m r).capacity + f (m.slots idx)
        ≡ total f m.slots m.capacity
  unfolding erase
  total-erase idx f hit none' =
      let held = find→Holds m.mask m.capacity valid.sized m.slots r idx hit in
      rw (hit, erase)
        (omega
          (arith, total-set f m.slots m.capacity idx (v idx held) held.0, none' (v idx held) refl))
