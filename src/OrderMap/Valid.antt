-- ===== src/OrderMap/Valid.antt =====
-- The invariant of `FlatOrderMap`.
use simd_nanoring.Common.{ℕ, ◌<◌, ◌≡◌, ◌∙◌, ◌≤◌, Option, none, some, arith, ap, subst}
use simd_nanoring.OrderMap.{FlatOrderMap, LiveOrder, home, insert_from, find, lookup}
use simd_nanoring.OrderMap.Probe.{
  IsSized, probe-home, probe_onto, home-lt, Stops, insert_from-Stops,
}
use simd_nanoring.OrderMap.Table.{Holds, Table, occupied_count, occupied_count-le, free_slot}

pub record IsValid (m : FlatOrderMap) : Type 0 where
  pub sized : IsSized m.mask m.capacity
  pub table : Table m.slots m.mask m.capacity
  pub counted : m.size ≡ occupied_count m.slots m.capacity

-- No slot holds the reference.
abbrev pub IsFresh : FlatOrderMap → ℕ → Type 0
IsFresh m r = (i : ℕ) → ¬ Holds m.slots m.capacity r i

-- With a free slot the loop of `insert` leaves within `capacity` rounds, at the first slot from the
-- home of the reference that is free or holds it.
pub insert_from-home-Stops :
    (slots : ℕ → LiveOrder) (mask capacity r : ℕ) (sized : IsSized mask capacity)
    → occupied_count slots capacity < capacity
    → Stops mask capacity sized slots r
        (home mask r)
        0
        (insert_from slots mask r capacity (home mask r))
insert_from-home-Stops slots mask capacity r sized room =
    let (j, lt, free) = free_slot slots capacity room in
    let (d, near, at) =
      probe_onto mask capacity sized (home mask r) j (home-lt mask capacity sized r) lt in
    subst
      (λ h. Stops mask capacity sized slots r (home mask r) 0 (insert_from slots mask r capacity h))
      (probe-home mask capacity sized r)
      (insert_from-Stops mask capacity sized slots r (home mask r) capacity 0 d (omega arith)
        (omega arith) near (ap (λ k. LiveOrder.occupied (slots k)) at ∙ free))

-- A miss of `find` is a miss of the lookup.
pub lookup_missing : (m : FlatOrderMap) (r : ℕ) → find m r ≡ none → lookup m r ≡ none
unfolding lookup find
lookup_missing m r miss =
    ap
      (λ (o : Option ℕ).
        let l : Option LiveOrder = elim o [ none ↦ none | some idx ↦ some (m.slots idx) ] in l)
      miss

pub size-le : (m : FlatOrderMap) → IsValid m → m.size ≤ m.capacity
size-le m valid = omega (arith, valid.counted, occupied_count-le m.slots m.capacity)
