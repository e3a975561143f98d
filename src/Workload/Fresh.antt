-- ===== src/Workload/Fresh.antt =====
-- The table of live orders of include/order_book.h under ascending references, as the generators of
-- src/experiments.cpp and src/main.cpp hand them out.
use simd_nanoring.Common.{
  ℕ, ◌+◌, ◌*◌, ◌≤◌, ◌<◌, ◌≡◌, ◌∙◌, inl, inr, none, leb, ne→==, Bool-cases, arith, refl,
}
use simd_nanoring.Common.Word.{mul64}
use simd_nanoring.OrderMap.{FlatOrderMap, LiveOrder, new_map, lookup, insert, insert_grown, rehash}
use simd_nanoring.OrderMap.Valid.{IsValid, size-le}
use simd_nanoring.OrderMap.Laws.{new_map-IsValid, lookup-new_map, insert-Inserted}
use simd_nanoring.OrderMap.Rehash.{rehash-IsValid}

-- A bound on the references, below which the table stays small enough.
abbrev pub max_ref : ℕ
max_ref = 0x200_0000_0000_0000

-- No reference from `r` on is live, and the table has room for those below.
pub record Fresh (r : ℕ) (m : FlatOrderMap) : Type 0 where
  pub valid : IsValid m
  pub missing : (q : ℕ) → r ≤ q → lookup m q ≡ none
  pub few : m.size ≤ r
  pub capped : m.capacity ≤ 0x10_0000 + 4 * r

pub Fresh-weaken : (r r' : ℕ) (m : FlatOrderMap) → r ≤ r' → Fresh r m → Fresh r' m
Fresh-weaken r r' m le fresh = record {
  valid = fresh.valid;
  missing = λ q from. fresh.missing q (omega arith);
  few = omega (arith, fresh.few);
  capped = omega (arith, fresh.capped);
}

pub new_map-Fresh : Fresh 1 new_map
unfolding new_map
new_map-Fresh = record {
  valid = new_map-IsValid;
  missing = λ q from. lookup-new_map q;
  few = omega arith;
  capped = omega arith;
}

size-insert_grown :
    (m : FlatOrderMap) (r : ℕ) (order : LiveOrder) → (insert_grown m r order).size ≤ m.size + 1
unfolding insert_grown
size-insert_grown m r order = ground arith

capacity-insert_grown_same :
    (m : FlatOrderMap) (r : ℕ) (order : LiveOrder) → (insert_grown m r order).capacity ≡ m.capacity
unfolding insert_grown
capacity-insert_grown_same m r order = refl

-- An insert adds one order at most, and the table grows only when three quarters of it are taken.
insert-grows :
    (m : FlatOrderMap) (k : ℕ) (order : LiveOrder) (n : ℕ)
    → IsValid m
    → m.size ≤ n
    → n < max_ref
    → m.capacity ≤ 0x10_0000 + 4 * n
    → ((insert m k order).size ≤ n + 1) × ((insert m k order).capacity ≤ 0x10_0000 + 4 * n)
unfolding insert
insert-grows m k order n valid few low capped =
    elim (Bool-cases (leb (mul64 m.capacity 3) (mul64 m.size 4))) [
      | inl crowded ↦
          let (_, doubled, same) = rehash-IsValid m valid (omega arith) in
          let full : m.capacity * 3 ≤ m.size * 4 = ground (arith, size-le m valid) in
          rw crowded (
            omega (arith, size-insert_grown (rehash m) k order, same),
            omega (arith, capacity-insert_grown_same (rehash m) k order, doubled, full),
          )
      | inr roomy ↦ rw roomy (
        omega (arith, size-insert_grown m k order),
        omega (arith, capacity-insert_grown_same m k order),
      )
    ]

pub insert-Fresh :
    (r k : ℕ) (order : LiveOrder) (m : FlatOrderMap)
    → r ≤ k
    → k < max_ref
    → Fresh r m
    → Fresh (k + 1) (insert m k order)
insert-Fresh r k order m le low fresh =
    let inserted =
      insert-Inserted m k order fresh.valid (omega (arith, fresh.capped)) (fresh.missing k le) in
    let (few', capped') =
      insert-grows m k order k fresh.valid (omega (arith, fresh.few)) low
        (omega (arith, fresh.capped)) in
    record {
      valid = inserted.valid;
      missing =
          λ q from. inserted.looks q ∙ rw (ne→== q k (omega arith)) (fresh.missing q (omega arith));
      few = few';
      capped = omega (arith, capped');
    }
