-- ===== src/Common/Word.antt =====
-- Unsigned machine words as native numbers: the operations of `uint32_t`, `uint64_t` and `size_t`
-- that can wrap.
use Prim.Native.Nat.{ℕ, ◌+◌, ◌-◌, ◌*◌, ◌/◌, ◌%◌, ◌^◌, bit_xor}

abbrev pub u32 : ℕ
u32 = 0x1_0000_0000

abbrev pub u64 : ℕ
u64 = 0x1_0000_0000_0000_0000

abbrev pub add32 : ℕ → ℕ → ℕ
add32 a b = (a + b) % u32

abbrev pub sub32 : ℕ → ℕ → ℕ
sub32 a b = (a + u32 - b) % u32

abbrev pub add64 : ℕ → ℕ → ℕ
add64 a b = (a + b) % u64

abbrev pub sub64 : ℕ → ℕ → ℕ
sub64 a b = (a + u64 - b) % u64

abbrev pub mul64 : ℕ → ℕ → ℕ
mul64 a b = (a * b) % u64

-- `key ^= key >> k`
abbrev pub xor_shift : ℕ → ℕ → ℕ
xor_shift key k = bit_xor key (key / 2 ^ k)
