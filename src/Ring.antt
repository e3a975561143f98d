-- ===== src/Ring.antt =====
-- The slots of include/spsc_queue.h and include/broadcast_journal.h: `Capacity` of them, a power of
-- two, with the position `n` in the slot `n & Mask`.
pub mod Contents
use Prim.Native.Nat.{bit_and}
use simd_nanoring.Common.{ℕ, ◌-◌, ◌^◌, ◌<◌, ◌≡◌}

-- What the `static_assert` says of the capacity, which is a `size_t`.
pub record IsCapacity (capacity : ℕ) : Type 0 where
  pub bits : ℕ
  pub power : capacity ≡ 2 ^ bits
  pub word : bits < 64

abbrev pub slot_of : ℕ → ℕ → ℕ
slot_of capacity n = bit_and n (capacity - 1)
