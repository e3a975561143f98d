-- ===== src/BookManager/Room.antt =====
-- When `ShardedBookManager` of include/order_book.h turns a symbol away.
use Prim.Native.Nat.{bit_and}
use simd_nanoring.Common.{
  ℕ, zero, suc, ◌+◌, ◌-◌, ◌%◌, ◌≤◌, ◌<◌, ◌≡◌, ◌≢◌, ◌∙◌, inl, inr, ◌↔◌, false, none, some, ◌==◌,
  Bool-cases, Option-cases, eq_cases, le_cases, arith, ap, sym, refl, subst,
}
use simd_nanoring.Common.Bits.{bit_and_mask}
use simd_nanoring.Common.Pigeonhole.{pigeonhole}
use simd_nanoring.Common.Word.{add64}
use simd_nanoring.Itch.{DecodedOrder}
use simd_nanoring.BookManager.{
  ShardedBookManager, empty_val, full, max_symbols_per_shard, symbol_map_capacity, locate_from,
  locate, get_book, find_or_insert_symbol, apply_at, apply, symbol_hash,
}
use simd_nanoring.BookManager.Locate.{stops_at, locate_from_stop, locate_from_go}
use simd_nanoring.BookManager.Valid.{IsValid, get_book_empty, get_book_held}
use simd_nanoring.BookManager.Refines.{
  Applied, apply_lem, find_settles, settle_held, settle-full, apply_by,
}
use simd_nanoring.BookManager.Added.{settle-added}

masked : (x : ℕ) → bit_and x (symbol_map_capacity - 1) ≡ x % 1024
masked x = bit_and_mask 10 x

module _ (keys vals : ℕ → ℕ) (key : ℕ) where
  go_taken : (idx : ℕ) → stops_at keys vals key idx ≡ false → vals idx ≢ empty_val
  go_taken idx go = ground arith

  -- A loop that runs out of probes has seen no empty slot.
  locate_from-none :
      (probes idx k : ℕ)
      → idx < 1024
      → k < probes
      → locate_from keys vals key probes idx ≡ none
      → vals ((idx + k) % 1024) ≢ empty_val
  locate_from-none zero idx k low below miss = absurd (omega arith)
  locate_from-none (suc probes) idx k low below miss =
      elim (Bool-cases (stops_at keys vals key idx)) [
        | inl stop ↦ cc (locate_from_stop keys vals key probes idx stop, miss)
        | inr go ↦
            let next : bit_and (add64 idx 1) (symbol_map_capacity - 1) ≡ (idx + 1) % 1024 =
              masked (add64 idx 1) ∙ omega arith in
            let rest : locate_from keys vals key probes ((idx + 1) % 1024) ≡ none =
              ap (locate_from keys vals key probes) (sym next)
              ∙ sym (locate_from_go keys vals key probes idx go)
              ∙ miss in
            onward probes idx k low below go
              (λ k' h. locate_from-none probes ((idx + 1) % 1024) k' (omega arith) h rest)
      ]
    where
      onward :
          (probes idx k : ℕ)
          → idx < 1024
          → k < suc probes
          → stops_at keys vals key idx ≡ false
          → ((k' : ℕ) → k' < probes → vals (((idx + 1) % 1024 + k') % 1024) ≢ empty_val)
          → vals ((idx + k) % 1024) ≢ empty_val
      onward probes idx zero low below go rest =
          subst (λ i. vals i ≢ empty_val) {x = idx} {y = (idx + 0) % 1024} (omega arith)
            (go_taken idx go)
      onward probes idx (suc k) low below go rest =
          subst (λ i. vals i ≢ empty_val) {x = ((idx + 1) % 1024 + k) % 1024}
            {y = (idx + suc k) % 1024} (omega arith) (rest k (omega arith))

module _ (m : ShardedBookManager) (valid : IsValid m) where
  -- The probing of a valid table ends, since 512 books cannot fill 1024 slots.
  pub locate-ne-none : (key : ℕ) → locate m key ≢ none
  unfolding locate
  locate-ne-none key miss =
      let home = bit_and (symbol_hash key) (symbol_map_capacity - 1) in
      let low : home < 1024 = omega (arith, masked (symbol_hash key)) in
      let taken : (j : ℕ) → j < 1024 → m.symbol_vals j ≢ empty_val = λ j h.
        subst (λ i. m.symbol_vals i ≢ empty_val) {x = (home + (j + 1024 - home) % 1024) % 1024}
          {y = j} (omega arith)
          (locate_from-none m.symbol_keys m.symbol_vals key 1024 home ((j + 1024 - home) % 1024) low
            (omega arith) miss) in
      let small =
        pigeonhole 512 1024 m.symbol_vals
          (λ j h. omega (arith, valid.below j (taken j h), valid.room))
          (λ i j hi hj e. valid.apart i j (taken i hi) e) in
      omega arith

  module _ (order : DecodedOrder) where
    abbrev found : ℕ
    found = (find_or_insert_symbol order.ticker_key m).0

    -- The symbol has a book, the table has room for it, or neither.
    pub data Outcome : Type 0 where
      held : (i : ℕ) → locate m order.ticker_key ≡ some i → m.symbol_vals i ≢ empty_val → Outcome
      added :
          (i : ℕ)
          → locate m order.ticker_key ≡ some i
          → m.symbol_vals i ≡ empty_val
          → m.book_count < max_symbols_per_shard
          → Outcome
      refused :
          (i : ℕ)
          → locate m order.ticker_key ≡ some i
          → m.symbol_vals i ≡ empty_val
          → m.book_count ≡ max_symbols_per_shard
          → Outcome

    outcome : Outcome
    outcome = elim (Option-cases (locate m order.ticker_key)) [
      | inl miss ↦ absurd (locate-ne-none order.ticker_key miss)
      | inr (i, hit) ↦ elim (eq_cases (m.symbol_vals i) empty_val) [
        | inr taken ↦ held i hit taken
        | inl free ↦ elim (le_cases m.book_count max_symbols_per_shard) [
          | inl room ↦ added i hit free room
          | inr much ↦ refused i hit free (omega (arith, valid.room))
        ]
      ]
    ]

    found_by :
        (v : ℕ) (m1 : ShardedBookManager)
        → find_or_insert_symbol order.ticker_key m ≡ (v, m1)
        → found ≡ v
    found_by v m1 e = ap (λ (p : ℕ × ShardedBookManager). p.0) e

    -- `find_or_insert_symbol` returns `FULL` exactly when the symbol has no book and all 512 books are
    -- taken.
    pub full_iff :
        ((find_or_insert_symbol order.ticker_key m).0 ≡ full)
        ↔ ((get_book m order.ticker_key ≡ none) × (m.book_count ≡ max_symbols_per_shard))
    full_iff = elim outcome [
      | held i hit taken ↦
          let e =
            found_by (m.symbol_vals i) m
              (find_settles m order i hit ∙ settle_held m order i taken) in
          (
            λ q. absurd (omega (arith, e, q, valid.below i taken, valid.room)),
            λ (no_book, _). cc (get_book_held m order.ticker_key i hit taken, no_book),
          )
      | added i hit free room ↦
          let e =
            found_by m.book_count _ (
              find_settles m order i hit ∙ settle-added m valid order.ticker_key i hit free room) in
          (λ q. absurd (omega (arith, e, q)), λ (_, many). absurd (omega (arith, many)))
      | refused i hit free many ↦
          let e =
            found_by full m
              (find_settles m order i hit ∙ settle-full m order i free (omega (arith, many))) in
          (λ q. (get_book_empty m order.ticker_key i hit free, many), λ both. e)
    ]

    -- With a free book, an order is applied.
    pub apply-Applied : m.book_count < max_symbols_per_shard → Applied m order (apply order m)
    apply-Applied room = elim (apply_lem m order valid) [
      | inr applied ↦ applied
      | inl (refusal, same) ↦
          let (no_book, many) = full_iff.0 (found_by full m refusal) in absurd (omega (arith, many))
    ]

    book_count-apply_at :
        (v : ℕ) (m1 : ShardedBookManager) → (apply_at order v m1).book_count ≡ m1.book_count
    unfolding apply_at
    book_count-apply_at v m1 = elim (Bool-cases (v == full)) [
      | inl none_left ↦ rw none_left refl
      | inr some_left ↦ rw some_left refl
    ]

    count_by :
        (v : ℕ) (m1 : ShardedBookManager)
        → find_or_insert_symbol order.ticker_key m ≡ (v, m1)
        → (apply order m).book_count ≡ m1.book_count
    count_by v m1 e =
        ap (λ (n : ShardedBookManager). n.book_count) (apply_by m order v m1 e)
        ∙ book_count-apply_at v m1

    -- Books are never given back.
    pub book_count-apply : m.book_count ≤ (apply order m).book_count
    book_count-apply = elim outcome [
      | held i hit taken ↦ omega (
        arith,
        count_by (m.symbol_vals i) m (find_settles m order i hit ∙ settle_held m order i taken),
      )
      | added i hit free room ↦ omega (
        arith,
        count_by m.book_count _
            (find_settles m order i hit ∙ settle-added m valid order.ticker_key i hit free room),
      )
      | refused i hit free many ↦ omega (
        arith,
        count_by full m
            (find_settles m order i hit ∙ settle-full m order i free (omega (arith, many))),
      )
    ]
