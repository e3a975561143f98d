-- ===== src/Ring/Contents.antt =====
-- What a window of positions holds, in order, and how writes change it.
use native.Mathlib.Nat.{pow-le-pow_right, div-add-mod, mul-le-mul_left, mul-suc}
use simd_nanoring.Common.{
  le_cases, inl, inr, ℕ, zero, suc, ◌+◌, ◌/◌, ◌%◌, ◌≤◌, ◌<◌, ◌≡◌, ◌≢◌, ◌∙◌, List, [], ◌∷◌, ◌++◌,
  arith, ap, ap₂, sym, refl, set, set_other,
}
use simd_nanoring.Common.Bits.{bit_and_mask, two_pow_pos}
use simd_nanoring.Common.Word.{u64}
use simd_nanoring.Ring.{IsCapacity, slot_of}

mod-apart : (c i j : ℕ) → i < j → j < i + c → i % c ≢ j % c
mod-apart c i j h k e = elim (le_cases (i / c) (j / c)) [
  | inl less ↦ omega (
    arith,
    div-add-mod i c,
    div-add-mod j c,
    mul-le-mul_left {m = suc (i / c)} {n = j / c} c (omega (arith, less)),
    mul-suc c (i / c),
  )
  | inr more ↦
      omega
        (arith, div-add-mod i c, div-add-mod j c, mul-le-mul_left {m = j / c} {n = i / c} c more)
]

module _ (c : ℕ) (cap : IsCapacity c) where
  pub capacity_pos : 0 < c
  capacity_pos = omega (arith, two_pow_pos cap.bits, cap.power)

  pub slot-mod : (n : ℕ) → slot_of c n ≡ n % c
  slot-mod n = rw cap.power (bit_and_mask cap.bits n)

  pub capacity-le : c < u64
  capacity-le = omega (
    arith,
    cap.power,
    pow-le-pow_right {n = 2} (omega arith) {i = cap.bits} {j = 63} (omega (arith, cap.word)),
  )

  -- Two positions less than the capacity apart stand in two slots.
  pub slot-ne : (i j : ℕ) → i < j → j < i + c → slot_of c i ≢ slot_of c j
  slot-ne i j h k e = mod-apart c i j h k (sym (slot-mod i) ∙ e ∙ slot-mod j)

module _ {ℓ} {A : Type ℓ} where
  -- The `n` items from position `from` on.
  abbrev pub contents : ℕ → (ℕ → A) → ℕ → ℕ → List A
  contents c slots from zero = []
  contents c slots from (suc n) = slots (slot_of c from) ∷ contents c slots (from + 1) n

  pub contents-append :
      (c : ℕ) (slots : ℕ → A) (from n : ℕ)
      → contents c slots from (suc n)
        ≡ contents c slots from n ++ (slots (slot_of c (from + n)) ∷ [])
  contents-append c slots from zero = ap (λ k. slots (slot_of c k) ∷ []) (omega arith)
  contents-append c slots from (suc n) =
      ap (λ xs. slots (slot_of c from) ∷ xs)
        (contents-append c slots (from + 1) n
          ∙ ap (λ k. contents c slots (from + 1) n ++ (slots (slot_of c k) ∷ [])) (omega arith))

  pub contents-set :
      (c : ℕ) (cap : IsCapacity c) (slots : ℕ → A) (from n j : ℕ) (x : A)
      → from + n ≤ j
      → j < from + c
      → contents c (set slots (slot_of c j) x) from n ≡ contents c slots from n
  contents-set c cap slots from zero j x h k = refl
  contents-set c cap slots from (suc n) j x h k =
      ap₂ (λ y xs. y ∷ xs)
        (set_other slots (slot_of c j) (slot_of c from) x (slot-ne c cap from j (omega arith) k))
        (contents-set c cap slots (from + 1) n j x (omega arith) (omega arith))
