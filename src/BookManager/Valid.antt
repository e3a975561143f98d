-- ===== src/BookManager/Valid.antt =====
-- The invariant of the manager, and what `get_book` reads off where the probing ends.
use Prim.Native.Nat.{bit_and}
use simd_nanoring.Common.{
  ℕ, ◌-◌, ◌≤◌, ◌<◌, ◌≡◌, ◌≢◌, ◌∙◌, inl, inr, Option, none, some, ◌==◌, ◌||◌, Option-cases, eq_cases,
  ◌⊎◌, ==_iff, ne→==, arith, ap, sym, refl,
}
use simd_nanoring.OrderBook.{OrderBook, new_book}
use simd_nanoring.BookManager.{
  ShardedBookManager, empty_val, max_symbols_per_shard, symbol_map_capacity, locate, get_book,
  new_manager, symbol_hash,
}
use simd_nanoring.BookManager.Locate.{locate_from-stops}

-- Every symbol in the table is where its own probing stops, its book is one of the first
-- `book_count`, no two symbols share a book, and the other books are untouched.
pub record IsValid (m : ShardedBookManager) : Type 0 where
  pub reach : (i : ℕ) → m.symbol_vals i ≢ empty_val → locate m (m.symbol_keys i) ≡ some i
  pub below : (i : ℕ) → m.symbol_vals i ≢ empty_val → m.symbol_vals i < m.book_count
  pub apart : (i j : ℕ) → m.symbol_vals i ≢ empty_val → m.symbol_vals i ≡ m.symbol_vals j → i ≡ j
  pub unused : (n : ℕ) → m.book_count ≤ n → m.books n ≡ new_book
  pub room : m.book_count ≤ max_symbols_per_shard

-- The book of a symbol, the untouched one when it has none yet.
abbrev pub or_new : Option OrderBook → OrderBook
or_new none = new_book
or_new (some b) = b

pub new_manager-IsValid : IsValid new_manager
unfolding new_manager
new_manager-IsValid = record {
  reach = λ i ne. absurd (ne refl);
  below = λ i ne. absurd (ne refl);
  apart = λ i j ne e. absurd (ne refl);
  unused = λ n h. refl;
  room = omega arith;
}

module _ (m : ShardedBookManager) (key : ℕ) where
  pub get_book-none : locate m key ≡ none → get_book m key ≡ none
  unfolding get_book
  get_book-none e = rw (e, get_book) refl

  pub get_book_empty :
      (i : ℕ) → locate m key ≡ some i → m.symbol_vals i ≡ empty_val → get_book m key ≡ none
  unfolding get_book
  get_book_empty i e free = rw (e, get_book) (rw ((==_iff _ _).1 free) refl)

  pub get_book_held :
      (i : ℕ)
      → locate m key ≡ some i
      → m.symbol_vals i ≢ empty_val
      → get_book m key ≡ some (m.books (m.symbol_vals i))
  unfolding get_book
  get_book_held i e ne = rw (e, get_book) (rw (ne→== _ _ ne) refl)

  pub stops_key :
      (i : ℕ) → locate m key ≡ some i → m.symbol_vals i ≢ empty_val → m.symbol_keys i ≡ key
  unfolding locate
  stops_key i e ne = (==_iff _ _).0 (
      sym (ap (λ b. b || m.symbol_keys i == key) (ne→== _ _ ne))
      ∙ locate_from-stops m.symbol_keys m.symbol_vals key symbol_map_capacity
          (bit_and (symbol_hash key) (symbol_map_capacity - 1)) i e)

-- Where a symbol's probing ends.
module _ (m : ShardedBookManager) (key : ℕ) where
  abbrev pub IsHeld : ℕ → Type 0
  IsHeld i = (locate m key ≡ some i) × (m.symbol_vals i ≢ empty_val)

  pub IsHeld-cases : (get_book m key ≡ none) ⊎ ((i : ℕ) × IsHeld i)
  IsHeld-cases = elim (Option-cases (locate m key)) [
    | inl miss ↦ inl (get_book-none m key miss)
    | inr (i, hit) ↦ elim (eq_cases (m.symbol_vals i) empty_val) [
      | inl free ↦ inl (get_book_empty m key i hit free)
      | inr held ↦ inr (i, (hit, held))
    ]
  ]
