-- ===== src/BookManager.antt =====
-- include/order_book.h, `ShardedBookManager`: the books of a shard, found by symbol through an
-- open-addressed table.
pub mod Locate
pub mod Valid
pub mod Held
pub mod Added
pub mod Refines
pub mod Room
use Prim.Native.Nat.{bit_and}
use simd_nanoring.Common.{
  ℕ, zero, suc, ◌+◌, ◌-◌, Bool, Option, none, some, leb, ◌==◌, ◌||◌, if◌then◌else◌, set,
}
use simd_nanoring.Common.Word.{add64, mul64, xor_shift}
use simd_nanoring.Itch.{DecodedOrder}
use simd_nanoring.OrderBook
use simd_nanoring.OrderBook.{OrderBook, new_book}

pub record ShardedBookManager : Type 0 where
  pub symbol_keys : ℕ → ℕ
  pub symbol_vals : ℕ → ℕ
  pub books : ℕ → OrderBook
  pub book_count : ℕ
  pub total_messages : ℕ

abbrev pub max_symbols_per_shard : ℕ
max_symbols_per_shard = 512

abbrev pub symbol_map_capacity : ℕ
symbol_map_capacity = 1024

-- `EMPTY_VAL` and `FULL`
abbrev pub empty_val : ℕ
empty_val = 0xffff_ffff_ffff_ffff

abbrev pub full : ℕ
full = 0xffff_ffff_ffff_ffff

-- The constructor.
unfoldable pub new_manager : ShardedBookManager
unfolding new_book
new_manager = record {
  symbol_keys = λ i. 0;
  symbol_vals = λ i. empty_val;
  books = λ i. new_book;
  book_count = 0;
  total_messages = 0;
}

unfoldable pub symbol_hash : ℕ → ℕ
symbol_hash key = xor_shift (mul64 (xor_shift key 33) 0xff51_afd7_ed55_8ccd) 33

-- The probing loop of `get_book` and of `find_or_insert_symbol`: the index of the first slot that
-- is empty or has the key, which is where both loops return, with `probes` rounds left.
unfoldable pub locate_from : (ℕ → ℕ) → (ℕ → ℕ) → ℕ → ℕ → ℕ → Option ℕ
locate_from keys vals key zero idx = none
locate_from keys vals key (suc probes) idx =
    let rest = locate_from keys vals key probes (bit_and (add64 idx 1) (symbol_map_capacity - 1)) in
    if vals idx == empty_val || keys idx == key then some idx else rest

unfoldable pub locate : ShardedBookManager → ℕ → Option ℕ
unfolding locate_from symbol_hash
locate m key =
    locate_from m.symbol_keys m.symbol_vals key symbol_map_capacity
      (bit_and (symbol_hash key) (symbol_map_capacity - 1))

unfoldable pub get_book : ShardedBookManager → ℕ → Option OrderBook
unfolding locate
get_book m ticker_key = elim (locate m ticker_key) [
  | none ↦ none
  | some idx ↦ if m.symbol_vals idx == empty_val then none else some (m.books (m.symbol_vals idx))
]

-- `find_or_insert_symbol` from the slot where its loop stops.
unfoldable pub settle : ℕ → ShardedBookManager → ℕ → ℕ × ShardedBookManager
settle ticker_key m idx =
    if m.symbol_vals idx == empty_val
    then if leb max_symbols_per_shard m.book_count then (full, m) else (
      m.book_count,
      record m {
        symbol_keys = set m.symbol_keys idx ticker_key;
        symbol_vals = set m.symbol_vals idx m.book_count;
        book_count = add64 m.book_count 1;
      },
    )
    else (m.symbol_vals idx, m)

unfoldable pub find_or_insert_symbol : ℕ → ShardedBookManager → ℕ × ShardedBookManager
unfolding locate settle
find_or_insert_symbol ticker_key m = elim (locate m ticker_key) [
  | none ↦ (full, m)
  | some idx ↦ settle ticker_key m idx
]

-- `apply` with the index that `find_or_insert_symbol` returned.
unfoldable pub apply_at : DecodedOrder → ℕ → ShardedBookManager → ShardedBookManager
unfolding OrderBook.apply
apply_at order book_idx m = if book_idx == full then m else record m {
  books = set m.books book_idx (OrderBook.apply order (m.books book_idx));
  total_messages = add64 m.total_messages 1;
}

unfoldable pub apply : DecodedOrder → ShardedBookManager → ShardedBookManager
unfolding find_or_insert_symbol apply_at
apply order m =
    let (book_idx, m') = find_or_insert_symbol order.ticker_key m in apply_at order book_idx m'
