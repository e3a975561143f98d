-- ===== src/Decoder/Wire/Held.antt =====
-- Bytes that stand somewhere in a stream of include/simd_decoder.h, and the parts of them.
use simd_nanoring.Common.{ℕ, zero, suc, ◌+◌, ◌<◌, ◌≡◌, ◌∙◌, List, [], ◌∷◌, ◌++◌, arith, ap, refl}
use simd_nanoring.Decoder.Batch.{entry}
use simd_nanoring.Decoder.Wire.Words.{length}

-- The stream holds these bytes from an offset on.
abbrev pub Holds : (ℕ → ℕ) → ℕ → List ℕ → Type 0
Holds s at bytes = (k : ℕ) → k < length bytes → s (at + k) ≡ entry bytes k

pub length-append : (xs ys : List ℕ) → length (xs ++ ys) ≡ length xs + length ys
length-append [] ys = omega arith
length-append (x ∷ xs) ys = omega (arith, length-append xs ys)

entry_left : (xs ys : List ℕ) (k : ℕ) → k < length xs → entry (xs ++ ys) k ≡ entry xs k
entry_left [] ys k h = absurd (omega arith)
entry_left (x ∷ xs) ys zero h = refl
entry_left (x ∷ xs) ys (suc k) h = entry_left xs ys k (omega arith)

entry_right : (xs ys : List ℕ) (k : ℕ) → entry (xs ++ ys) (length xs + k) ≡ entry ys k
entry_right [] ys k = ap (entry ys) {x = 0 + k} {y = k} (omega arith)
entry_right (x ∷ xs) ys k =
    ap (entry (x ∷ xs ++ ys)) {x = suc (length xs) + k} {y = suc (length xs + k)} (omega arith)
    ∙ entry_right xs ys k

module _ (s : ℕ → ℕ) (at : ℕ) (xs ys : List ℕ) (holds : Holds s at (xs ++ ys)) where
  pub Holds_left : Holds s at xs
  Holds_left k h = holds k (omega (arith, length-append xs ys)) ∙ entry_left xs ys k h

  pub Holds_right : Holds s (at + length xs) ys
  Holds_right k h =
      ap s {x = at + length xs + k} {y = at + (length xs + k)} (omega arith)
      ∙ holds (length xs + k) (omega (arith, length-append xs ys))
      ∙ entry_right xs ys k
