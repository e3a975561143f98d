-- ===== src/Common/Arrays.antt =====
-- C arrays and vectors as functions of the index. The length is kept by the owner, which proves
-- that every index it uses is in range.
use Prim.Native.Nat.{ℕ}
use mathlib.Core.Path.{◌≡◌, refl}
use mathlib.Core.Logic.{◌≢◌}
use simd_nanoring.Common.Tests.{◌==◌, if◌then◌else◌, ==_iff, ne→==}

module _ {ℓ} {A : Type ℓ} where
  -- `a[i] = v`
  abbrev pub set : (ℕ → A) → ℕ → A → ℕ → A
  set a i v j = if j == i then v else a j

  pub set_self : (a : ℕ → A) (i : ℕ) (v : A) → set a i v i ≡ v
  set_self a i v = rw ((==_iff i i).1 refl)

  pub set_other : (a : ℕ → A) (i j : ℕ) (v : A) → j ≢ i → set a i v j ≡ a j
  set_other a i j v ne = rw (ne→== j i ne)
