-- ===== src/OrderMap/Probe.antt =====
-- The slots that the loops of `FlatOrderMap` visit: from the home of a reference on, round the table.
use Prim.Native.Nat.{bit_and}
use native.Mathlib.Nat.{mod-add-mod, add-mod-mod, add-mod_right, mod-eq_of_lt, add-zero, mod-lt}
use simd_nanoring.Common.{
  ℕ, zero, suc, ◌+◌, ◌-◌, ◌%◌, ◌^◌, ◌≤◌, ◌<◌, ◌≡◌, ◌≢◌, ◌⊎◌, ◌∙◌, inl, inr, true, false, some,
  arith, ap, ◌==◌, Bool-cases, ==_iff, ==→ne, ne→==, some_eq, eq_cases, sym, refl, subst,
}
use simd_nanoring.Common.Bits.{bit_and_mask, two_pow_pos}
use simd_nanoring.OrderMap.{
  LiveOrder, home, next, hash, is_vacant, holds, find_from, insert_from, free_from,
}

-- A power of two slots, with the mask of its ones.
pub record IsSized (mask capacity : ℕ) : Type 0 where
  pub bits : ℕ
  pub power : capacity ≡ 2 ^ bits
  pub ones : mask ≡ capacity - 1
  pub small : capacity ≤ 2 ^ 61

-- The slot after `d` steps from `h`.
abbrev pub probe : ℕ → ℕ → ℕ → ℕ
probe capacity h d = (h + d) % capacity

pub vacant_of_holds : (r : ℕ) (slot : LiveOrder) → holds r slot ≡ true → is_vacant slot ≡ false
vacant_of_holds r slot h = ground arith

module _ (mask capacity : ℕ) (sized : IsSized mask capacity) where
  pub capacity_pos : 0 < capacity
  capacity_pos = rw sized.power (two_pow_pos sized.bits)

  bit_and-mask : (x : ℕ) → bit_and x mask ≡ x % capacity
  bit_and-mask x = rw (sized.ones, sized.power) (bit_and_mask sized.bits x)

  pub home-eq : (r : ℕ) → home mask r ≡ hash r % capacity
  unfolding home
  home-eq r = bit_and-mask (hash r)

  pub home-lt : (r : ℕ) → home mask r < capacity
  home-lt r = rw (home-eq r) (mod-lt (hash r) capacity_pos)

  pub probe-lt : (h d : ℕ) → probe capacity h d < capacity
  probe-lt h d = mod-lt (h + d) capacity_pos

  pub probe-home : (r : ℕ) → probe capacity (home mask r) 0 ≡ home mask r
  probe-home r = rw (add-zero, mod-eq_of_lt (home-lt r))

  pub next-probe : (h d : ℕ) → next mask (probe capacity h d) ≡ probe capacity h (d + 1)
  unfolding next
  next-probe h d =
      let p = probe capacity h d in
      let inside : p < capacity = probe-lt h d in
      let no_wrap : (p + 1) % 0x1_0000_0000_0000_0000 ≡ p + 1 = omega (arith, sized.small) in
      rw (no_wrap, bit_and-mask, mod-add-mod) (ap (λ x. x % capacity) (omega arith))

  -- A loop index that is in range stays so.
  pub next-lt : (idx : ℕ) → next mask idx < capacity
  unfolding next
  next-lt idx = rw bit_and-mask (mod-lt _ capacity_pos)

  -- Every slot is visited.
  pub probe_onto :
      (h j : ℕ) → h < capacity → j < capacity → (d : ℕ) × (d < capacity) × (probe capacity h d ≡ j)
  probe_onto h j hh hj = ((j + capacity - h) % capacity, mod-lt _ capacity_pos, round)
    where
      round : probe capacity h ((j + capacity - h) % capacity) ≡ j
      round =
          rw (add-mod-mod)
            (ap (λ x. x % capacity) (omega arith) ∙ (add-mod_right j capacity ∙ mod-eq_of_lt hj))

  module _ (slots : ℕ → LiveOrder) (r h : ℕ) where
    abbrev here : ℕ → LiveOrder
    here d = slots (probe capacity h d)

    -- The loop of `find` returns slot `i` when, before a slot that holds the reference, no slot is
    -- vacant and slot `i` alone holds it.
    pub find_from-hit :
        (fuel e d i : ℕ)
        → e ≤ d
        → d < e + fuel
        → holds r (here d) ≡ true
        → ((x : ℕ) → e ≤ x → x < d → is_vacant (here x) ≡ false)
        → ((x : ℕ) → holds r (here x) ≡ true → probe capacity h x ≡ i)
        → find_from slots mask r fuel (probe capacity h e) ≡ some i
    unfolding find_from
    find_from-hit zero e d i le lt hit full only = absurd (omega arith)
    find_from-hit (suc fuel) e d i le lt hit full only = elim (Bool-cases (holds r (here e))) [
      | inl now ↦ rw (vacant_of_holds r (here e) now, now) (ap some (only e now))
      | inr later ↦
          let ne : e ≢ d = (λ same. cc (hit, later, ap (λ x. holds r (here x)) same)) in
          rw (full e (omega arith) (omega arith), later, next-probe)
            (find_from-hit fuel (e + 1) d i (omega arith) (omega arith) hit
              (λ x hx. full x (omega arith)) only)
    ]

    pub find_from_sound :
        (fuel e i : ℕ)
        → find_from slots mask r fuel (probe capacity h e) ≡ some i
        → (i < capacity) × (holds r (slots i) ≡ true)
    unfolding find_from
    find_from_sound zero e i q = cc
    find_from_sound (suc fuel) e i q = elim (Bool-cases (is_vacant (here e))) [
      | inl stop ↦ cc (rw stop at q)
      | inr go ↦ elim (Bool-cases (holds r (here e))) [
        | inl now ↦
            subst (λ k. (k < capacity) × (holds r (slots k) ≡ true)) (some_eq (rw (go, now) at q))
              (probe-lt h e, now)
        | inr later ↦ find_from_sound fuel (e + 1) i (rw (go, later, next-probe) at q)
      ]
    ]

    -- Where the loop of `insert` leaves: at the first slot from the start that is free or holds the
    -- reference.
    pub record Stops (e idx : ℕ) : Type 0 where
      pub at : ℕ
      pub from : e ≤ at
      pub within : at < capacity
      pub here_is : idx ≡ probe capacity h at
      pub busy : (x : ℕ) → e ≤ x → x < at → (here x).occupied ≡ true
      pub other : (x : ℕ) → e ≤ x → x < at → (here x).order_ref ≢ r
      pub stop : ((slots idx).occupied ≡ false) ⊎ ((slots idx).order_ref ≡ r)

    Stops-now :
        (e : ℕ)
        → ((here e).occupied ≡ false) ⊎ ((here e).order_ref ≡ r)
        → e < capacity
        → Stops e (probe capacity h e)
    Stops-now e why lt' = record {
      at = e;
      from = omega arith;
      within = lt';
      here_is = refl;
      busy = λ x le lt. absurd (omega arith);
      other = λ x le lt. absurd (omega arith);
      stop = why;
    }

    Stops-later :
        (e idx : ℕ)
        → (here e).occupied ≡ true
        → (here e).order_ref ≢ r
        → Stops (e + 1) idx
        → Stops e idx
    Stops-later e idx occ ne s = record {
      at = s.at;
      from = omega (arith, s.from);
      within = s.within;
      here_is = s.here_is;
      busy = λ x le lt. elim (eq_cases x e) [
        | inl same ↦ ap (λ y. (here y).occupied) same ∙ occ
        | inr later ↦ s.busy x (omega arith) lt
      ];
      other = λ x le lt e'. elim (eq_cases x e) [
        | inl same ↦ ne (sym (ap (λ y. (here y).order_ref) same) ∙ e')
        | inr later ↦ s.other x (omega arith) lt e'
      ];
      stop = s.stop;
    }

    -- With a free slot ahead within its rounds, the loop of `insert` does leave.
    pub insert_from-Stops :
        (fuel e d : ℕ)
        → e ≤ d
        → d < e + fuel
        → d < capacity
        → (here d).occupied ≡ false
        → Stops e (insert_from slots mask r fuel (probe capacity h e))
    unfolding insert_from
    insert_from-Stops zero e d le lt bound free = absurd (omega arith)
    insert_from-Stops (suc fuel) e d le lt bound free = elim (Bool-cases (here e).occupied) [
      | inr now ↦ rw now (Stops-now e (inl now) (omega arith))
      | inl occ ↦ elim (Bool-cases ((here e).order_ref == r)) [
        | inl same ↦ rw (occ, same) (Stops-now e (inr ((==_iff _ _).0 same)) (omega arith))
        | inr other ↦
            let ne : e ≢ d = (λ same. cc (occ, free, ap (λ x. (here x).occupied) same)) in
            rw (occ, other, next-probe)
              (Stops-later e _ occ (==→ne _ _ other)
                (insert_from-Stops fuel (e + 1) d (omega arith) (omega arith) bound free))
      ]
    ]

  -- For a reference that no slot holds, the loop of `rehash` is that of `insert`.
  pub free_from-insert_from :
      (slots : ℕ → LiveOrder) (r fuel idx : ℕ)
      → ((i : ℕ) → i < capacity → (slots i).occupied ≡ true → (slots i).order_ref ≢ r)
      → idx < capacity
      → free_from slots mask fuel idx ≡ insert_from slots mask r fuel idx
  unfolding free_from insert_from
  free_from-insert_from slots r zero idx fresh lt = refl
  free_from-insert_from slots r (suc fuel) idx fresh lt = elim (Bool-cases (slots idx).occupied) [
    | inr free ↦ rw free
    | inl occ ↦
        rw (occ, ne→== _ _ (fresh idx lt occ))
          (free_from-insert_from slots r fuel (next mask idx) fresh (next-lt idx))
  ]
