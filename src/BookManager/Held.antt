-- ===== src/BookManager/Held.antt =====
-- An order for a symbol that has its book.
use simd_nanoring.Common.{
  ℕ, ◌≡◌, ◌≢◌, ◌∙◌, inl, inr, false, some, ◌==◌, if◌then◌else◌, Option-cases, eq_cases, ==_iff,
  ne→==, some_eq, set, set_self, set_other, arith, ap, sym, refl,
}
use simd_nanoring.Common.Word.{add64}
use simd_nanoring.Itch.{DecodedOrder}
use simd_nanoring.OrderBook
use simd_nanoring.OrderBook.{OrderBook, new_book}
use simd_nanoring.BookManager.{ShardedBookManager, empty_val, full, locate, get_book, apply_at}
use simd_nanoring.BookManager.Valid.{
  IsValid, get_book-none, get_book_empty, get_book_held, stops_key,
}

module _ (m : ShardedBookManager) (valid : IsValid m) (order : DecodedOrder) (i : ℕ)
    (at : locate m order.ticker_key ≡ some i) (ne : m.symbol_vals i ≢ empty_val) where
  abbrev key : ℕ
  key = order.ticker_key

  abbrev v : ℕ
  v = m.symbol_vals i

  abbrev pub applied : ShardedBookManager
  applied = record m {
    books = set m.books v (OrderBook.apply order (m.books v));
    total_messages = add64 m.total_messages 1;
  }

  pub apply_at-applied : apply_at order v m ≡ applied
  unfolding apply_at
  apply_at-applied = rw (ne→== v full ne) refl

  locate-applied : (q : ℕ) → locate applied q ≡ locate m q
  unfolding locate
  locate-applied q = refl

  pub applied-IsValid : IsValid applied
  applied-IsValid = record {
    reach = λ j held. locate-applied _ ∙ valid.reach j held;
    below = valid.below;
    apart = valid.apart;
    unused =
        λ n h. set_other m.books v n _ (λ e. omega (arith, valid.below i ne)) ∙ valid.unused n h;
    room = valid.room;
  }

  not_key : (q : ℕ) → locate m q ≢ some i → (q == key) ≡ false
  not_key q h = ne→== q key (λ e. h (ap (locate m) e ∙ at))

  pub get_book-applied :
      (q : ℕ)
      → get_book applied q
        ≡ (if q == key then some (OrderBook.apply order (m.books v)) else get_book m q)
  get_book-applied q = elim (Option-cases (locate m q)) [
    | inl miss ↦
        rw (not_key q (λ e. cc (miss, e)))
          (get_book-none applied q (locate-applied q ∙ miss) ∙ sym (get_book-none m q miss))
    | inr (j, hit) ↦ elim (eq_cases (m.symbol_vals j) empty_val) [
      | inl free ↦ rw (not_key q (λ e. ne (ap m.symbol_vals (some_eq (sym e ∙ hit)) ∙ free))) (
          get_book_empty applied q j (locate-applied q ∙ hit) free
          ∙ sym (get_book_empty m q j hit free))
      | inr held ↦ get_book_held applied q j (locate-applied q ∙ hit) held ∙ (elim (eq_cases j i) [
        | inl same ↦
            let is_key : q ≡ key =
              sym (stops_key m q j hit held) ∙ ap m.symbol_keys same ∙ stops_key m key i at ne in
            rw ((==_iff q key).1 is_key) (
              ap (λ k. some (set m.books v (OrderBook.apply order (m.books v)) (m.symbol_vals k)))
                same
              ∙ ap some (set_self m.books v _))
        | inr other ↦ rw (not_key q (λ e. other (some_eq (sym hit ∙ e)))) (
            ap some (set_other m.books v (m.symbol_vals j) _ (λ e. other (valid.apart j i held e)))
            ∙ sym (get_book_held m q j hit held))
      ])
    ]
  ]
