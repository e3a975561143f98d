-- ===== src/BookManager/Refines.antt =====
-- The manager is a map from symbols to books.
use native.Mathlib.Nat.{le_refl}
use simd_nanoring.Common.{
  ℕ, ◌≤◌, ◌<◌, ◌≡◌, ◌≢◌, ◌∙◌, inl, inr, true, none, some, leb, ◌==◌, if◌then◌else◌, Bool-cases,
  Option-cases, eq_cases, le_cases, ◌⊎◌, ==_iff, ==→ne, ne→==, arith, ap, sym, refl, subst,
}
use simd_nanoring.Itch.{DecodedOrder}
use simd_nanoring.OrderBook
use simd_nanoring.OrderBook.{OrderBook, new_book}
use simd_nanoring.BookManager.{
  ShardedBookManager, empty_val, full, max_symbols_per_shard, locate, get_book, settle,
  find_or_insert_symbol, apply_at, apply,
}
use simd_nanoring.BookManager.Valid.{IsValid, or_new, get_book_empty, get_book_held}
use simd_nanoring.BookManager.Held.{applied, apply_at-applied, applied-IsValid, get_book-applied}
use simd_nanoring.BookManager.Added.{
  added, settle-added, locate-added_self, added_self, added_held, added-IsValid, get_book-added,
}

module _ (m : ShardedBookManager) (order : DecodedOrder) where
  -- The table stays valid; the book of the order's symbol, a new one if it had none, takes the
  -- order, and every other symbol keeps the book that it had.
  abbrev pub Applied : ShardedBookManager → Type 0
  Applied m2 =
      IsValid m2
      × ((q : ℕ)
          → get_book m2 q ≡ (
              if q == order.ticker_key
              then some (OrderBook.apply order (or_new (get_book m order.ticker_key)))
              else get_book m q))

  pub apply_none :
      locate m order.ticker_key ≡ none → find_or_insert_symbol order.ticker_key m ≡ (full, m)
  unfolding find_or_insert_symbol
  apply_none miss = rw (miss, find_or_insert_symbol) refl

  pub find_settles :
      (i : ℕ)
      → locate m order.ticker_key ≡ some i
      → find_or_insert_symbol order.ticker_key m ≡ settle order.ticker_key m i
  unfolding find_or_insert_symbol
  find_settles i hit = rw (hit, find_or_insert_symbol) refl

  pub apply_by :
      (v : ℕ) (m1 : ShardedBookManager)
      → find_or_insert_symbol order.ticker_key m ≡ (v, m1)
      → apply order m ≡ apply_at order v m1
  unfolding apply
  apply_by v m1 e = ap (λ (p : ℕ × ShardedBookManager). apply_at order p.0 p.1) e

  pub settle_held :
      (i : ℕ) → m.symbol_vals i ≢ empty_val → settle order.ticker_key m i ≡ (m.symbol_vals i, m)
  unfolding settle
  settle_held i held = rw (ne→== _ _ held) refl

  pub settle-full :
      (i : ℕ)
      → m.symbol_vals i ≡ empty_val
      → max_symbols_per_shard ≤ m.book_count
      → settle order.ticker_key m i ≡ (full, m)
  unfolding settle
  settle-full i free much = rw ((==_iff _ _).1 free, much') refl
    where
      much' : leb max_symbols_per_shard m.book_count ≡ true
      much' = ground arith

  apply_at-full : apply_at order full m ≡ m
  unfolding apply_at
  apply_at-full = refl

  -- On a valid manager, either `find_or_insert_symbol` returns `FULL` and leaves the manager as it
  -- is, and so does `apply`; or `apply` keeps the manager valid, gives the order to the book of
  -- its symbol, a new one if it had none, and leaves every other symbol the book that it had.
  pub apply_lem :
      IsValid m
      → ((find_or_insert_symbol order.ticker_key m ≡ (full, m)) × (apply order m ≡ m))
        ⊎ Applied (apply order m)
  apply_lem valid = elim (Option-cases (locate m order.ticker_key)) [
    | inl miss ↦ inl (apply_none miss, apply_by full m (apply_none miss) ∙ apply_at-full)
    | inr (i, hit) ↦ elim (eq_cases (m.symbol_vals i) empty_val) [
      | inr held ↦ inr (
          subst Applied
            (sym (
              apply_by _ m (find_settles i hit ∙ settle_held i held)
              ∙ apply_at-applied m valid order i hit held))
            (
              applied-IsValid m valid order i hit held,
              λ q.
                  get_book-applied m valid order i hit held q
                  ∙ ap
                      (λ o.
                        if q == order.ticker_key
                        then some (OrderBook.apply order (or_new o))
                        else get_book m q)
                      (sym (get_book_held m order.ticker_key i hit held)),
            ))
      | inl free ↦ elim (le_cases m.book_count max_symbols_per_shard) [
        | inr much ↦
            let e = find_settles i hit ∙ settle-full i free much in
            inl (e, apply_by full m e ∙ apply_at-full)
        | inl roomy ↦
            let m1 = added m valid order.ticker_key i hit free roomy in
            let valid1 = added-IsValid m valid order.ticker_key i hit free roomy in
            let hit1 = locate-added_self m valid order.ticker_key i hit free roomy in
            let self = added_self m valid order.ticker_key i hit free roomy in
            let held1 = added_held m valid order.ticker_key i hit free roomy in
            inr (
              subst Applied
                (sym (
                  apply_by m.book_count m1
                    (find_settles i hit ∙ settle-added m valid order.ticker_key i hit free roomy)
                  ∙ ap (λ v. apply_at order v m1) (sym self)
                  ∙ apply_at-applied m1 valid1 order i hit1 held1))
                (applied-IsValid m1 valid1 order i hit1 held1, λ q. law i hit free roomy q))
      ]
    ]
  ]
    where
      law :
          (i : ℕ) (hit : locate m order.ticker_key ≡ some i) (free : m.symbol_vals i ≡ empty_val)
          (roomy : m.book_count < max_symbols_per_shard) (q : ℕ)
          → get_book
              (applied
                (added m valid order.ticker_key i hit free roomy)
                (added-IsValid m valid order.ticker_key i hit free roomy)
                order
                i
                (locate-added_self m valid order.ticker_key i hit free roomy)
                (added_held m valid order.ticker_key i hit free roomy))
              q
            ≡ (if q == order.ticker_key
                then some (OrderBook.apply order (or_new (get_book m order.ticker_key)))
                else get_book m q)
      law i hit free roomy q =
          let m1 = added m valid order.ticker_key i hit free roomy in
          let fresh : m1.books (m1.symbol_vals i) ≡ or_new (get_book m order.ticker_key) =
            ap m.books (added_self m valid order.ticker_key i hit free roomy)
            ∙ valid.unused m.book_count (le_refl _)
            ∙ ap or_new (sym (get_book_empty m order.ticker_key i hit free)) in
          get_book-applied m1 (added-IsValid m valid order.ticker_key i hit free roomy) order i
            (locate-added_self m valid order.ticker_key i hit free roomy)
            (added_held m valid order.ticker_key i hit free roomy) q
          ∙ elim (Bool-cases (q == order.ticker_key)) [
            | inl same ↦ rw same (ap (λ b. some (OrderBook.apply order b)) fresh)
            | inr other ↦
                rw other
                  (get_book-added m valid order.ticker_key i hit free roomy q (==→ne q _ other))
          ]
