-- ===== src/BookManager/Locate.antt =====
-- The probing loop of the symbol table, before and after a symbol is written into an empty slot.
use Prim.Native.Nat.{bit_and}
use simd_nanoring.Common.{
  ℕ, zero, suc, ◌-◌, ◌≡◌, ◌≢◌, ◌∙◌, inl, inr, Bool, true, false, some, ◌==◌, ◌||◌, Bool-cases,
  some_eq, set, set_self, set_other, arith, ap, ap₂, sym, refl,
}
use simd_nanoring.Common.Word.{add64}
use simd_nanoring.BookManager.{empty_val, symbol_map_capacity, locate_from}

-- The two ways out of a round.
abbrev pub stops_at : (ℕ → ℕ) → (ℕ → ℕ) → ℕ → ℕ → Bool
stops_at keys vals key idx = vals idx == empty_val || keys idx == key

pub locate_from_stop :
    (keys vals : ℕ → ℕ) (key probes idx : ℕ)
    → stops_at keys vals key idx ≡ true
    → locate_from keys vals key (suc probes) idx ≡ some idx
unfolding locate_from
locate_from_stop keys vals key probes idx stop = rw stop refl

pub locate_from_go :
    (keys vals : ℕ → ℕ) (key probes idx : ℕ)
    → stops_at keys vals key idx ≡ false
    → locate_from keys vals key (suc probes) idx
      ≡ locate_from keys vals key probes (bit_and (add64 idx 1) (symbol_map_capacity - 1))
unfolding locate_from
locate_from_go keys vals key probes idx go = rw go refl

module _ (keys vals : ℕ → ℕ) where
  same :
      (key k v i idx : ℕ)
      → idx ≢ i
      → stops_at (set keys i k) (set vals i v) key idx ≡ stops_at keys vals key idx
  same key k v i idx ne =
      ap₂ (λ a b. a == empty_val || b == key) (set_other vals i idx v ne)
        (set_other keys i idx k ne)

  written : (key v i : ℕ) → stops_at (set keys i key) (set vals i v) key i ≡ true
  written key v i =
      ap₂ (λ a b. a == empty_val || b == key) (set_self vals i v) (set_self keys i key)
      ∙ ground arith

  empty_stops : (key i idx : ℕ) → vals i ≡ empty_val → idx ≡ i → stops_at keys vals key idx ≢ false
  empty_stops key i idx free e go =
      cc (ap (λ a. a == empty_val || keys idx == key) (ap vals e ∙ free), go)

  -- The loop stops at a slot that is empty or has the key.
  pub locate_from-stops :
      (key probes idx i : ℕ)
      → locate_from keys vals key probes idx ≡ some i
      → stops_at keys vals key i ≡ true
  unfolding locate_from
  locate_from-stops key zero idx i e = cc (e)
  locate_from-stops key (suc probes) idx i e = elim (Bool-cases (stops_at keys vals key idx)) [
    | inl stop ↦
        let here : idx ≡ i = some_eq (sym (locate_from_stop keys vals key probes idx stop) ∙ e) in
        ap (stops_at keys vals key) (sym here) ∙ stop
    | inr go ↦
        locate_from-stops key probes _ i (sym (locate_from_go keys vals key probes idx go) ∙ e)
  ]

  -- A symbol written into an empty slot, where the loop does not stop, changes nothing.
  pub locate_from-set_other :
      (key k v i probes idx j : ℕ)
      → vals i ≡ empty_val
      → j ≢ i
      → locate_from keys vals key probes idx ≡ some j
      → locate_from (set keys i k) (set vals i v) key probes idx ≡ some j
  unfolding locate_from
  locate_from-set_other key k v i zero idx j free ne e = e
  locate_from-set_other key k v i (suc probes) idx j free ne e =
      elim (Bool-cases (stops_at keys vals key idx)) [
        | inl stop ↦
            let here : idx ≡ j =
              some_eq (sym (locate_from_stop keys vals key probes idx stop) ∙ e) in
            locate_from_stop (set keys i k) (set vals i v) key probes idx
              (same key k v i idx (λ q. ne (sym here ∙ q)) ∙ stop)
            ∙ ap some here
        | inr go ↦
            let apart : idx ≢ i = (λ q. empty_stops key i idx free q go) in
            locate_from_go (set keys i k) (set vals i v) key probes idx
              (same key k v i idx apart ∙ go)
            ∙ locate_from-set_other key k v i probes _ j free ne
                (sym (locate_from_go keys vals key probes idx go) ∙ e)
      ]

  -- The loop of the symbol itself stops where it is written.
  pub locate_from-set_self :
      (key v i probes idx : ℕ)
      → vals i ≡ empty_val
      → locate_from keys vals key probes idx ≡ some i
      → locate_from (set keys i key) (set vals i v) key probes idx ≡ some i
  unfolding locate_from
  locate_from-set_self key v i zero idx free e = e
  locate_from-set_self key v i (suc probes) idx free e =
      elim (Bool-cases (stops_at keys vals key idx)) [
        | inl stop ↦
            let here : idx ≡ i =
              some_eq (sym (locate_from_stop keys vals key probes idx stop) ∙ e) in
            locate_from_stop (set keys i key) (set vals i v) key probes idx
              (ap (stops_at (set keys i key) (set vals i v) key) here ∙ written key v i)
            ∙ ap some here
        | inr go ↦
            let apart : idx ≢ i = (λ q. empty_stops key i idx free q go) in
            locate_from_go (set keys i key) (set vals i v) key probes idx
              (same key key v i idx apart ∙ go)
            ∙ locate_from-set_self key v i probes _ free
                (sym (locate_from_go keys vals key probes idx go) ∙ e)
      ]
