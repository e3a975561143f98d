-- ===== src/OrderMap.antt =====
-- include/order_book.h, `LiveOrder` and `FlatOrderMap`: an open-addressing hash map with linear
-- probing, tombstones and doubling.
pub mod Probe
pub mod Table
pub mod Total
pub mod Update
pub mod Valid
pub mod Insert
pub mod Erase
pub mod Write
pub mod Rehash
pub mod Laws
use Prim.Native.Nat.{bit_and}
use simd_nanoring.Common.{
  ℕ, zero, suc, ◌+◌, ◌-◌, Bool, true, false, not, ◌&&◌, Option, none, some, leb, ◌==◌,
  if◌then◌else◌, set,
}
use simd_nanoring.Common.Word.{add64, sub64, mul64, xor_shift}

pub record LiveOrder : Type 0 where
  pub order_ref : ℕ
  pub price : ℕ
  pub remaining_shares : ℕ
  pub side : ℕ
  pub occupied : Bool

pub record FlatOrderMap : Type 0 where
  pub slots : ℕ → LiveOrder
  pub capacity : ℕ
  pub mask : ℕ
  pub size : ℕ

-- `EMPTY`, `TOMBSTONE` and `DEFAULT_CAPACITY`
abbrev pub empty : ℕ
empty = 0

abbrev pub tombstone : ℕ
tombstone = 0xffff_ffff_ffff_ffff

abbrev pub default_capacity : ℕ
default_capacity = 1_048_576

-- A slot of `std::vector<LiveOrder>(n)`.
abbrev pub blank : LiveOrder
blank = record { order_ref = 0; price = 0; remaining_shares = 0; side = 0; occupied = false }

-- The constructor.
unfoldable pub new_map : FlatOrderMap
new_map = record {
  slots = λ i. blank;
  capacity = default_capacity;
  mask = default_capacity - 1;
  size = 0;
}

unfoldable pub hash : ℕ → ℕ
hash key =
    let a = xor_shift key 33 in
    let b = xor_shift (mul64 a 0xff51_afd7_ed55_8ccd) 33 in
    xor_shift (mul64 b 0xc4ce_b9fe_1a85_ec53) 33

-- `hash(order_ref) & mask`, and `(idx + 1) & mask`
unfoldable pub home : ℕ → ℕ → ℕ
home mask order_ref = bit_and (hash order_ref) mask

unfoldable pub next : ℕ → ℕ → ℕ
next mask idx = bit_and (add64 idx 1) mask

-- `!slot.occupied && slot.order_ref == EMPTY`
abbrev pub is_vacant : LiveOrder → Bool
is_vacant slot = not slot.occupied && slot.order_ref == empty

-- `slot.occupied && slot.order_ref == order_ref`
abbrev pub holds : ℕ → LiveOrder → Bool
holds order_ref slot = slot.occupied && slot.order_ref == order_ref

-- The probing loop of `find` and of `erase`, with `probes` rounds left; the index of the slot that
-- the loop leaves with.
unfoldable pub find_from : (ℕ → LiveOrder) → ℕ → ℕ → ℕ → ℕ → Option ℕ
find_from slots mask order_ref zero idx = none
find_from slots mask order_ref (suc probes) idx =
    let rest = find_from slots mask order_ref probes (next mask idx) in
    if is_vacant (slots idx) then none else if holds order_ref (slots idx) then some idx else rest

-- The pointer that `find` returns, as the index of its slot.
unfoldable pub find : FlatOrderMap → ℕ → Option ℕ
unfolding find_from
find m order_ref = find_from m.slots m.mask order_ref m.capacity (home m.mask order_ref)

-- The loop of `insert`: the index of the first slot that is free or holds the reference. It has no
-- bound in the source; the callers give it `capacity` rounds.
unfoldable pub insert_from : (ℕ → LiveOrder) → ℕ → ℕ → ℕ → ℕ → ℕ
insert_from slots mask order_ref zero idx = idx
insert_from slots mask order_ref (suc rounds) idx =
    let rest = insert_from slots mask order_ref rounds (next mask idx) in
    if not (slots idx).occupied
    then idx
    else if (slots idx).order_ref == order_ref
    then idx
    else rest

-- `while (new_slots[idx].occupied) idx = (idx + 1) & new_mask;`
unfoldable pub free_from : (ℕ → LiveOrder) → ℕ → ℕ → ℕ → ℕ
free_from slots mask zero idx = idx
free_from slots mask (suc rounds) idx =
    let rest = free_from slots mask rounds (next mask idx) in
    if (slots idx).occupied then rest else idx

-- One round of the loop of `rehash`, on the old slot.
unfoldable pub rehash_slot : ℕ → ℕ → LiveOrder → (ℕ → LiveOrder) → ℕ → LiveOrder
unfolding free_from
rehash_slot new_cap new_mask old new_slots =
    if old.occupied
    then set new_slots (free_from new_slots new_mask new_cap (home new_mask old.order_ref)) old
    else new_slots

-- `for (i = 0; i < capacity_; i++)`, with `n` rounds left.
unfoldable pub rehash_from : (ℕ → LiveOrder) → ℕ → ℕ → ℕ → ℕ → (ℕ → LiveOrder) → ℕ → LiveOrder
rehash_from slots new_cap new_mask zero i new_slots = new_slots
rehash_from slots new_cap new_mask (suc n) i new_slots =
    rehash_from slots new_cap new_mask n (i + 1) (rehash_slot new_cap new_mask (slots i) new_slots)

unfoldable pub rehash : FlatOrderMap → FlatOrderMap
unfolding rehash_from rehash_slot
rehash m =
    let new_cap = mul64 m.capacity 2 in
    let new_mask = sub64 new_cap 1 in
    record m {
      slots = rehash_from m.slots new_cap new_mask m.capacity 0 (λ i. blank);
      capacity = new_cap;
      mask = new_mask;
    }

-- `slot = order; slot.order_ref = order_ref; slot.occupied = true;`
abbrev pub placed : ℕ → LiveOrder → LiveOrder
placed order_ref order = record order { order_ref = order_ref; occupied = true }

-- `insert` from the point where the table has room.
unfoldable pub insert_grown : FlatOrderMap → ℕ → LiveOrder → FlatOrderMap
unfolding insert_from
insert_grown m order_ref order =
    let idx = insert_from m.slots m.mask order_ref m.capacity (home m.mask order_ref) in
    record m {
      slots = set m.slots idx (placed order_ref order);
      size = if (m.slots idx).occupied then m.size else add64 m.size 1;
    }

unfoldable pub insert : FlatOrderMap → ℕ → LiveOrder → FlatOrderMap
unfolding insert_grown rehash
insert m order_ref order =
    insert_grown (if leb (mul64 m.capacity 3) (mul64 m.size 4) then rehash m else m) order_ref order

-- `erase`: its loop is that of `find`.
unfoldable pub erase : FlatOrderMap → ℕ → FlatOrderMap
unfolding find
erase m order_ref = elim (find m order_ref) [
  | none ↦ m
  | some idx ↦ record m {
    slots = set m.slots idx (record (m.slots idx) { order_ref = tombstone; occupied = false });
    size = sub64 m.size 1;
  }
]

-- The order that `*find(order_ref)` reads.
unfoldable pub found : (ℕ → LiveOrder) → ℕ → ℕ → ℕ → Option LiveOrder
found slots mask capacity order_ref =
    elim (find_from slots mask order_ref capacity (home mask order_ref)) [
      | none ↦ none
      | some idx ↦ some (slots idx)
    ]

unfoldable pub lookup : FlatOrderMap → ℕ → Option LiveOrder
unfolding found
lookup m order_ref = found m.slots m.mask m.capacity order_ref
