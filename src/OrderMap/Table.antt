-- ===== src/OrderMap/Table.antt =====
-- A table in which every order can be found again, and how its slots may change.
use simd_nanoring.Common.{
  ℕ, zero, suc, ◌+◌, ◌≤◌, ◌<◌, ◌≡◌, ◌⊎◌, ◌∙◌, inl, inr, true, false, none, some, arith, ap,
  if◌then◌else◌, set, set_self, set_other, Bool-cases, Option-cases, eq_cases, sym, refl, subst,
}
use simd_nanoring.OrderMap.{LiveOrder, found, home, is_vacant, holds, find_from, blank}
use simd_nanoring.OrderMap.Probe.{
  IsSized, probe, probe-lt, find_from-hit, find_from_sound, probe-home,
}

-- Slot `i` holds the reference.
abbrev pub Holds : (ℕ → LiveOrder) → ℕ → ℕ → ℕ → Type 0
Holds slots capacity r i = (i < capacity) × ((slots i).occupied ≡ true) × ((slots i).order_ref ≡ r)

-- The slot is on the way from the home of the reference, with no vacant slot before it.
abbrev pub Reaches : (ℕ → LiveOrder) → ℕ → ℕ → ℕ → ℕ → Type 0
Reaches slots mask capacity r i =
    (d : ℕ) × (d < capacity)
    × (probe capacity (home mask r) d ≡ i)
    × ((x : ℕ) → x < d → is_vacant (slots (probe capacity (home mask r) x)) ≡ false)

pub record Table (slots : ℕ → LiveOrder) (mask capacity : ℕ) : Type 0 where
  pub reached :
      (i : ℕ)
      → i < capacity
      → (slots i).occupied ≡ true
      → Reaches slots mask capacity (slots i).order_ref i
  pub unique : (i j r : ℕ) → Holds slots capacity r i → Holds slots capacity r j → i ≡ j

-- The number of occupied slots among the first `n`.
unfoldable pub occupied_count : (ℕ → LiveOrder) → ℕ → ℕ
occupied_count slots zero = 0
occupied_count slots (suc n) = (if (slots n).occupied then 1 else 0) + occupied_count slots n

pub occupied_count-le : (slots : ℕ → LiveOrder) (n : ℕ) → occupied_count slots n ≤ n
unfolding occupied_count
occupied_count-le slots zero = omega arith
occupied_count-le slots (suc n) = ground (arith, occupied_count-le slots n)

pub occupied_count-blank : (n : ℕ) → occupied_count (λ i. blank) n ≡ 0
unfolding occupied_count
occupied_count-blank zero = refl
occupied_count-blank (suc n) = omega (arith, occupied_count-blank n)

pub blank-Table : (mask capacity : ℕ) → Table (λ i. blank) mask capacity
blank-Table mask capacity = record { reached = λ i lt occ. cc; unique = λ i j r hi hj. cc (hi.1) }

pub free_slot :
    (slots : ℕ → LiveOrder) (n : ℕ)
    → occupied_count slots n < n
    → (j : ℕ) × (j < n) × ((slots j).occupied ≡ false)
unfolding occupied_count
free_slot slots zero h = absurd (omega arith)
free_slot slots (suc n) h = elim (Bool-cases (slots n).occupied) [
  | inr free ↦ (n, omega arith, free)
  | inl occ ↦ let (j, lt, free) = free_slot slots n (ground arith) in (j, omega arith, free)
]

occupied_count-set_above :
    (slots : ℕ → LiveOrder) (n i : ℕ) (v : LiveOrder)
    → n ≤ i
    → occupied_count (set slots i v) n ≡ occupied_count slots n
unfolding occupied_count
occupied_count-set_above slots zero i v h = refl
occupied_count-set_above slots (suc n) i v h =
    rw (set_other slots i n v (omega arith), occupied_count-set_above slots n i v (omega arith))

pub occupied_count-set :
    (slots : ℕ → LiveOrder) (n i : ℕ) (v : LiveOrder)
    → i < n
    → occupied_count (set slots i v) n + (if (slots i).occupied then 1 else 0)
      ≡ occupied_count slots n + (if v.occupied then 1 else 0)
unfolding occupied_count
occupied_count-set slots zero i v h = absurd (omega arith)
occupied_count-set slots (suc n) i v h = elim (eq_cases i n) [
  | inl same ↦ ground (arith, set_self slots i v, occupied_count-set_above slots n i v)
  | inr below ↦
      rw (set_other slots i n v (λ e. below (sym e)))
        (omega (arith, occupied_count-set slots n i v (omega arith)))
]

module _ (mask capacity : ℕ) (sized : IsSized mask capacity) where
  -- On such a table the loop of `find` returns the slot that holds the reference.
  pub Holds→find :
      (slots : ℕ → LiveOrder) (r i : ℕ)
      → Table slots mask capacity
      → Holds slots capacity r i
      → find_from slots mask r capacity (home mask r) ≡ some i
  Holds→find slots r i table held = subst Finds held.2 finds
    where
      own : ℕ
      own = (slots i).order_ref

      Finds : ℕ → Type 0
      Finds q = find_from slots mask q capacity (home mask q) ≡ some i

      way : Reaches slots mask capacity own i
      way = table.reached i held.0 held.1

      only :
          (x : ℕ)
          → holds own (slots (probe capacity (home mask own) x)) ≡ true
          → probe capacity (home mask own) x ≡ i
      only x h =
          table.unique _ i own (probe-lt mask capacity sized _ x, ground arith, ground arith)
            (held.0, held.1, refl)

      finds : Finds own
      finds =
          ap (find_from slots mask own capacity) (sym (probe-home mask capacity sized own))
          ∙ find_from-hit mask capacity sized slots own (home mask own) capacity 0 way.0 i
              (omega arith) (omega (arith, way.1))
              (ap (λ k. holds own (slots k)) way.2 ∙ ground (arith, held.1)) (λ x le. way.3 x) only

  pub find→Holds :
      (slots : ℕ → LiveOrder) (r i : ℕ)
      → find_from slots mask r capacity (home mask r) ≡ some i
      → Holds slots capacity r i
  find→Holds slots r i q =
      let (inside, hit) =
        find_from_sound mask capacity sized slots r (home mask r) capacity 0 i
          (ap (find_from slots mask r capacity) (probe-home mask capacity sized r) ∙ q) in
      (inside, ground arith, ground arith)

  -- What `find` gives is the order held for the reference, or none if no slot holds it.
  pub found-cases :
      (slots : ℕ → LiveOrder) (r : ℕ)
      → Table slots mask capacity
      → ((found slots mask capacity r ≡ none) × ((i : ℕ) → ¬ Holds slots capacity r i))
        ⊎ ((i : ℕ) × Holds slots capacity r i × (found slots mask capacity r ≡ some (slots i)))
  unfolding found
  found-cases slots r table = elim (Option-cases (find_from slots mask r capacity (home mask r))) [
    | inl miss ↦ inl (rw (miss, found), λ i held. cc (miss, Holds→find slots r i table held))
    | inr (i, hit) ↦ inr (i, find→Holds slots r i hit, rw (hit, found))
  ]

  pub found_held :
      (slots : ℕ → LiveOrder) (r i : ℕ)
      → Table slots mask capacity
      → Holds slots capacity r i
      → found slots mask capacity r ≡ some (slots i)
  unfolding found
  found_held slots r i table held = rw (Holds→find slots r i table held, found)

  pub found-none :
      (slots : ℕ → LiveOrder) (r : ℕ)
      → ((i : ℕ) → ¬ Holds slots capacity r i)
      → found slots mask capacity r ≡ none
  unfolding found
  found-none slots r absent = elim (Option-cases (find_from slots mask r capacity (home mask r))) [
    | inl miss ↦ rw (miss, found)
    | inr (i, hit) ↦ absurd (absent i (find→Holds slots r i hit))
  ]
