-- ===== src/OrderMap/Rehash.antt =====
-- `rehash` moves every order to a table of twice the size, and loses none.
use native.Mathlib.Nat.{pow-suc}
use native.Mathlib.Numerals.{add-one}
use simd_nanoring.Common.{
  ℕ, zero, suc, ◌+◌, ◌*◌, ◌^◌, ◌<◌, ◌≡◌, ◌≢◌, ◌∙◌, ◌≤◌, inl, inr, Bool, true, false, some, arith,
  ap, sym, subst, set, set_self, set_other, if◌then◌else◌, Bool-cases, eq_cases, refl,
}
use simd_nanoring.Common.Word.{mul64, sub64}
use simd_nanoring.OrderMap.{
  FlatOrderMap, LiveOrder, home, insert_from, free_from, rehash_slot, rehash_from, rehash, blank,
  lookup, found,
}
use simd_nanoring.OrderMap.Probe.{IsSized, Stops, free_from-insert_from, home-lt, capacity_pos}
use simd_nanoring.OrderMap.Table.{
  Holds, Table, occupied_count-blank, blank-Table, occupied_count, occupied_count-set,
  occupied_count-le, found-cases, found_held, found-none,
}
use simd_nanoring.OrderMap.Total.{total, Vanishes, total_next, total-set, total-blank}
use simd_nanoring.OrderMap.Update.{filled-Table, filled_free, filled_inside}
use simd_nanoring.OrderMap.Valid.{IsValid, insert_from-home-Stops}

occupied_count_next :
    (slots : ℕ → LiveOrder) (i : ℕ)
    → occupied_count slots (i + 1) ≡ (if (slots i).occupied then 1 else 0) + occupied_count slots i
unfolding occupied_count
occupied_count_next slots i = rw add-one

-- The new table holds just the orders of the first `i` old slots.
pub record Moved (old : ℕ → LiveOrder) (mask capacity i : ℕ) (new : ℕ → LiveOrder) : Type 0 where
  pub table : Table new mask capacity
  pub kept : (j : ℕ) → j < i → (old j).occupied ≡ true → (k : ℕ) × (k < capacity) × (new k ≡ old j)
  pub only : (k : ℕ) → k < capacity → (new k).occupied ≡ true → (j : ℕ) × (j < i) × (old j ≡ new k)
  pub counted : occupied_count new capacity ≡ occupied_count old i
  pub weighed : (f : LiveOrder → ℕ) → Vanishes f → total f new capacity ≡ total f old i

module _ (old : ℕ → LiveOrder) (old_mask old_cap mask capacity : ℕ) (sized : IsSized mask capacity)
    (table : Table old old_mask old_cap) (larger : old_cap ≤ capacity) where
  module _ (i : ℕ) (new : ℕ → LiveOrder) (lt : i < old_cap) (moved : Moved old mask capacity i new)
      (busy : (old i).occupied ≡ true) where
    abbrev r : ℕ
    r = (old i).order_ref

    fresh : (k : ℕ) → ¬ Holds new capacity r k
    fresh k (hk, occ, e) =
        let (j, hj, same) = moved.only k hk occ in
        let one : j ≡ i =
          table.unique j i r
            (omega arith, ap LiveOrder.occupied same ∙ occ, ap LiveOrder.order_ref same ∙ e)
            (lt, busy, refl) in
        absurd (omega arith)

    abbrev idx : ℕ
    idx = insert_from new mask r capacity (home mask r)

    same_slot : free_from new mask capacity (home mask r) ≡ idx
    same_slot =
        free_from-insert_from mask capacity sized new r capacity (home mask r)
          (λ k hk occ e. fresh k (hk, occ, e)) (home-lt mask capacity sized r)

    stops : Stops mask capacity sized new r (home mask r) 0 idx
    stops =
        insert_from-home-Stops new mask capacity r sized
          (omega (arith, moved.counted, occupied_count-le old i))

    inside : idx < capacity
    inside = filled_inside new mask capacity sized moved.table r idx stops fresh (old i) busy refl

    free : (new idx).occupied ≡ false
    free = filled_free new mask capacity sized moved.table r idx stops fresh (old i) busy refl

    Moved-more : Moved old mask capacity (i + 1) (set new idx (old i))
    Moved-more = record {
      table = filled-Table new mask capacity sized moved.table r idx stops fresh (old i) busy refl;
      kept = λ j hj occ. elim (eq_cases j i) [
        | inl same ↦ (idx, inside, set_self new idx (old i) ∙ ap old (sym same))
        | inr other ↦
            let (k, hk, e) = moved.kept j (omega arith) occ in
            let away : k ≢ idx = (λ e'. cc (free, occ)) in
            (k, hk, set_other new idx k (old i) away ∙ e)
      ];
      only = λ k hk occ. elim (eq_cases k idx) [
        | inl same ↦
            (i, omega arith, sym (ap (set new idx (old i)) same ∙ set_self new idx (old i)))
        | inr other ↦
            let left = set_other new idx k (old i) other in
            let (j, hj, e) = moved.only k hk (sym (ap LiveOrder.occupied left) ∙ occ) in
            (j, omega arith, e ∙ sym left)
      ];
      counted = ground (
        arith,
        occupied_count_next old i,
        occupied_count-set new capacity idx (old i) inside,
        moved.counted,
        free,
      );
      weighed = λ f none'. omega (
        arith,
        total_next f old i,
        total-set f new capacity idx (old i) inside,
        moved.weighed f none',
        none' (new idx) free,
      );
    }

  slot_busy :
      (i : ℕ) (new : ℕ → LiveOrder)
      → (old i).occupied ≡ true
      → rehash_slot capacity mask (old i) new
        ≡ set new (free_from new mask capacity (home mask (old i).order_ref)) (old i)
  unfolding rehash_slot
  slot_busy i new busy =
      ap
        (λ (b : Bool).
          if b
          then set new (free_from new mask capacity (home mask (old i).order_ref)) (old i)
          else new)
        busy

  rehash_slot-Moved :
      (i : ℕ) (new : ℕ → LiveOrder)
      → i < old_cap
      → Moved old mask capacity i new
      → Moved old mask capacity (i + 1) (rehash_slot capacity mask (old i) new)
  unfolding rehash_slot
  rehash_slot-Moved i new lt moved = elim (Bool-cases (old i).occupied) [
    | inl busy ↦
        subst (Moved old mask capacity (i + 1))
          (ap (λ k. set new k (old i)) (sym (same_slot i new lt moved busy))
            ∙ sym (slot_busy i new busy))
          (Moved-more i new lt moved busy)
    | inr none' ↦ rw none' (record {
      table = moved.table;
      kept = λ j hj occ. elim (eq_cases j i) [
        | inl same ↦ cc (occ, none')
        | inr other ↦ moved.kept j (omega arith) occ
      ];
      only = λ k hk occ. let (j, hj, e) = moved.only k hk occ in (j, omega arith, e);
      counted = ground (arith, occupied_count_next old i, moved.counted, none');
      weighed =
          λ f zero'. omega (arith, total_next f old i, zero' (old i) none', moved.weighed f zero');
    })
  ]

  rehash_from-Moved :
      (n i : ℕ) (new : ℕ → LiveOrder)
      → i + n ≡ old_cap
      → Moved old mask capacity i new
      → Moved old mask capacity old_cap (rehash_from old capacity mask n i new)
  unfolding rehash_from
  rehash_from-Moved zero i new e moved =
      subst (λ k. Moved old mask capacity k new) (omega arith) moved
  rehash_from-Moved (suc n) i new e moved =
      rehash_from-Moved n (i + 1) _ (omega arith) (rehash_slot-Moved i new (omega arith) moved)

  blank-Moved : Moved old mask capacity 0 (λ k. blank)
  unfolding occupied_count total
  blank-Moved = record {
    table = blank-Table mask capacity;
    kept = λ j hj. absurd (omega arith);
    only = λ k hk occ. cc;
    counted = occupied_count-blank capacity;
    weighed = λ f none'. total-blank f capacity none';
  }

  pub rehashed-Moved :
      Moved old mask capacity old_cap (rehash_from old capacity mask old_cap 0 (λ k. blank))
  rehashed-Moved = rehash_from-Moved old_cap 0 (λ k. blank) (omega arith) blank-Moved

  -- The new table says of every reference what the old one said.
  Moved-found :
      (old_sized : IsSized old_mask old_cap) (new : ℕ → LiveOrder) (q : ℕ)
      → Moved old mask capacity old_cap new
      → found new mask capacity q ≡ found old old_mask old_cap q
  Moved-found old_sized new q moved = elim (found-cases old_mask old_cap old_sized old q table) [
    | inl (miss, absent) ↦
        found-none mask capacity sized new q (λ k (hk, occ, e).
          let (j, hj, same) = moved.only k hk occ in
          absent j (hj, ap LiveOrder.occupied same ∙ occ, ap LiveOrder.order_ref same ∙ e))
        ∙ sym miss
    | inr (i, held, hit) ↦
        let (k, hk, e) = moved.kept i held.0 held.1 in
        found_held mask capacity sized new q k moved.table
          (hk, ap LiveOrder.occupied e ∙ held.1, ap LiveOrder.order_ref e ∙ held.2)
        ∙ (ap some e ∙ sym hit)
  ]

module _ (m : FlatOrderMap) (valid : IsValid m) (small : m.capacity ≤ 2 ^ 60) where
  abbrev doubled : ℕ
  doubled = mul64 m.capacity 2

  doubled-eq : doubled ≡ m.capacity * 2
  doubled-eq = omega arith

  new-IsSized : IsSized (sub64 doubled 1) doubled
  new-IsSized = record {
    bits = suc valid.sized.bits;
    power = rw (doubled-eq, valid.sized.power, pow-suc);
    ones = omega (arith, capacity_pos m.mask m.capacity valid.sized);
    small = omega arith;
  }

  moved :
      Moved m.slots
        (sub64 doubled 1)
        doubled
        m.capacity
        (rehash_from m.slots doubled (sub64 doubled 1) m.capacity 0 (λ k. blank))
  moved =
      rehashed-Moved m.slots m.mask m.capacity (sub64 doubled 1) doubled new-IsSized valid.table
        (omega arith)

  -- `rehash` of a valid map of at most 2 ^ 60 slots keeps it valid, doubles the capacity and keeps
  -- the number of orders.
  pub rehash-IsValid :
      IsValid (rehash m) × ((rehash m).capacity ≡ m.capacity * 2) × ((rehash m).size ≡ m.size)
  unfolding rehash
  rehash-IsValid = (
    record {
      sized = new-IsSized;
      table = moved.table;
      counted = valid.counted ∙ sym moved.counted;
    },
    doubled-eq,
    refl,
  )

  -- `rehash` of a valid map of at most 2 ^ 60 slots keeps the order of every reference.
  pub lookup-rehash : (q : ℕ) → lookup (rehash m) q ≡ lookup m q
  unfolding lookup rehash
  lookup-rehash q =
      Moved-found m.slots m.mask m.capacity (sub64 doubled 1) doubled new-IsSized valid.table
        (omega arith) valid.sized _ q moved

  -- `rehash` keeps every sum over the orders.
  pub total-rehash :
      (f : LiveOrder → ℕ)
      → Vanishes f
      → total f (rehash m).slots (rehash m).capacity ≡ total f m.slots m.capacity
  unfolding rehash
  total-rehash f none' = moved.weighed f none'
