-- ===== src/Decoder/Wire/Words.antt =====
-- Words as bytes, low byte first as the host stores them, or high byte first as the feed has them.
use simd_nanoring.Common.{ℕ, suc, ◌+◌, ◌*◌, ◌/◌, ◌%◌, ◌<◌, ◌≡◌, List, [], ◌∷◌, arith}
use simd_nanoring.Common.Word.{u32, u64}
use simd_nanoring.Decoder.{swap32}

abbrev pub length : List ℕ → ℕ
length [] = 0
length (x ∷ xs) = suc (length xs)

-- The bytes of a word before `rest`.
abbrev pub le16 : ℕ → List ℕ → List ℕ
le16 v rest = v % 256 ∷ v / 256 % 256 ∷ rest

abbrev pub le32 : ℕ → List ℕ → List ℕ
le32 v rest = le16 (v % 65536) (le16 (v / 65536) rest)

abbrev pub le64 : ℕ → List ℕ → List ℕ
le64 v rest = le32 (v % u32) (le32 (v / u32) rest)

abbrev pub be32 : ℕ → List ℕ → List ℕ
be32 v rest = v / 0x1_000000 % 256 ∷ v / 0x1_0000 % 256 ∷ v / 256 % 256 ∷ v % 256 ∷ rest

-- The number that the host makes of four bytes and of eight.
abbrev pub host32 : ℕ → ℕ → ℕ → ℕ → ℕ
host32 a b c d = a + 256 * b + 65536 * (c + 256 * d)

pub load32-le32 :
    (v : ℕ)
    → v < u32
    → host32 (v % 65536 % 256) (v % 65536 / 256 % 256) (v / 65536 % 256) (v / 65536 / 256 % 256) ≡ v
load32-le32 v h = omega arith

pub load64-le64 :
    (v : ℕ)
    → v < u64
    → host32
          (v % u32 % 65536 % 256)
          (v % u32 % 65536 / 256 % 256)
          (v % u32 / 65536 % 256)
          (v % u32 / 65536 / 256 % 256)
        + 0x1_0000_0000
          * host32
              (v / u32 % 65536 % 256)
              (v / u32 % 65536 / 256 % 256)
              (v / u32 / 65536 % 256)
              (v / u32 / 65536 / 256 % 256)
      ≡ v
load64-le64 v h =
    omega (arith, load32-le32 (v % u32) (omega arith), load32-le32 (v / u32) (omega arith))

pub swap32-be32 :
    (v : ℕ)
    → v < u32
    → swap32 (host32 (v / 0x1_000000 % 256) (v / 0x1_0000 % 256) (v / 256 % 256) (v % 256)) ≡ v
unfolding swap32
swap32-be32 v h = omega arith
