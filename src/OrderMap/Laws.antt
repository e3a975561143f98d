-- ===== src/OrderMap/Laws.antt =====
-- What a client of `FlatOrderMap` may rely on, in terms of `lookup` alone.
use simd_nanoring.Common.{
  ℕ, ◌+◌, ◌*◌, ◌^◌, ◌<◌, ◌≡◌, ◌∙◌, ◌≤◌, inl, inr, none, some, arith, ap, sym, ◌==◌, leb,
  if◌then◌else◌, Bool-cases, refl,
}
use simd_nanoring.Common.Word.{mul64}
use simd_nanoring.OrderMap.{
  FlatOrderMap, LiveOrder, new_map, rehash, insert_grown, insert, lookup, placed, default_capacity,
}
use simd_nanoring.OrderMap.Probe.{capacity_pos}
use simd_nanoring.OrderMap.Table.{found_held, found-none, blank-Table, occupied_count-blank}
use simd_nanoring.OrderMap.Total.{total, Vanishes}
use simd_nanoring.OrderMap.Valid.{IsValid, IsFresh, size-le}
use simd_nanoring.OrderMap.Insert.{insert_grown-IsValid, lookup-insert_grown, total-insert_grown}
use simd_nanoring.OrderMap.Rehash.{rehash-IsValid, lookup-rehash, total-rehash}

-- The constructor's table is valid.
pub new_map-IsValid : IsValid new_map
unfolding new_map
new_map-IsValid = record {
  sized = record { bits = 20; power = refl; ones = refl; small = omega arith };
  table = blank-Table _ _;
  counted = sym (occupied_count-blank default_capacity);
}

-- The constructor's table holds nothing.
pub lookup-new_map : (r : ℕ) → lookup new_map r ≡ none
unfolding lookup new_map
lookup-new_map r = found-none _ _ new_map-IsValid.sized _ r (λ i held. cc (held.1))

capacity-insert_grown :
    (m : FlatOrderMap) (r : ℕ) (order : LiveOrder) → (insert_grown m r order).capacity ≡ m.capacity
unfolding insert_grown
capacity-insert_grown m r order = refl

lookup-none→IsFresh : (m : FlatOrderMap) (r : ℕ) → IsValid m → lookup m r ≡ none → IsFresh m r
unfolding lookup
lookup-none→IsFresh m r valid miss i held =
    cc (miss, found_held m.mask m.capacity valid.sized m.slots r i valid.table held)

-- What `insert` promises of the map that it makes of `m`.
pub record Inserted (m : FlatOrderMap) (r : ℕ) (order : LiveOrder) (m' : FlatOrderMap)
    : Type 0 where
  pub valid : IsValid m'
  pub looks : (q : ℕ) → lookup m' q ≡ (if q == r then some (placed r order) else lookup m q)
  pub grows : m'.capacity ≤ m.capacity * 2
  pub weighed :
      (f : LiveOrder → ℕ)
      → Vanishes f
      → total f m'.slots m'.capacity ≡ total f m.slots m.capacity + f (placed r order)

module _ (m : FlatOrderMap) (r : ℕ) (order : LiveOrder) (valid : IsValid m)
    (fresh : lookup m r ≡ none) where
  insert_grown-Inserted : m.size < m.capacity → Inserted m r order (insert_grown m r order)
  unfolding insert_grown
  insert_grown-Inserted room = record {
    valid = insert_grown-IsValid m r order valid room (lookup-none→IsFresh m r valid fresh);
    looks = lookup-insert_grown m r order valid room (lookup-none→IsFresh m r valid fresh);
    grows = omega arith;
    weighed = total-insert_grown m r order valid room (lookup-none→IsFresh m r valid fresh);
  }

module _ (m : FlatOrderMap) (r : ℕ) (order : LiveOrder) (valid : IsValid m)
    (small : m.capacity ≤ 2 ^ 60) (fresh : lookup m r ≡ none) where
  -- `insert` of a reference that a valid map of at most 2 ^ 60 slots does not hold: the map stays
  -- valid, `lookup` of the reference gives the order and of any other what it gave, the capacity
  -- at most doubles, and every sum over the orders grows by what the new one counts.
  pub insert-Inserted : Inserted m r order (insert m r order)
  unfolding insert
  insert-Inserted = elim (Bool-cases (leb (mul64 m.capacity 3) (mul64 m.size 4))) [
    | inl crowded ↦
        let (valid', doubled, same) = rehash-IsValid m valid small in
        let inner =
          insert_grown-Inserted (rehash m) r order valid' (lookup-rehash m valid small r ∙ fresh)
            (omega (arith, size-le m valid, capacity_pos m.mask m.capacity valid.sized)) in
        rw crowded (record {
          valid = inner.valid;
          looks = λ q.
              inner.looks q
              ∙ ap (λ o. if q == r then some (placed r order) else o)
                  (lookup-rehash m valid small q);
          grows = omega (arith, capacity-insert_grown (rehash m) r order, doubled);
          weighed = λ f none'.
              inner.weighed f none'
              ∙ ap (λ t. t + f (placed r order)) (total-rehash m valid small f none');
        })
    | inr roomy ↦
        rw roomy (insert_grown-Inserted m r order valid fresh (ground (arith, size-le m valid)))
  ]
