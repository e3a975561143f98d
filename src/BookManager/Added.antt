-- ===== src/BookManager/Added.antt =====
-- A symbol that gets its slot.
use Prim.Native.Nat.{bit_and}
use simd_nanoring.Common.{
  ℕ, ◌-◌, ◌<◌, ◌≡◌, ◌≢◌, ◌∙◌, inl, inr, false, some, leb, eq_cases, ==_iff, set, set_self,
  set_other, arith, ap, sym, refl,
}
use simd_nanoring.Common.Word.{add64}
use simd_nanoring.BookManager.{
  ShardedBookManager, empty_val, max_symbols_per_shard, symbol_map_capacity, locate, get_book,
  settle, symbol_hash,
}
use simd_nanoring.BookManager.Locate.{locate_from-set_other, locate_from-set_self}
use simd_nanoring.BookManager.Valid.{IsValid, get_book_held, stops_key, IsHeld-cases}

module _ (m : ShardedBookManager) (valid : IsValid m) (key i : ℕ) (at : locate m key ≡ some i)
    (free : m.symbol_vals i ≡ empty_val) (roomy : m.book_count < max_symbols_per_shard) where
  abbrev pub added : ShardedBookManager
  added = record m {
    symbol_keys = set m.symbol_keys i key;
    symbol_vals = set m.symbol_vals i m.book_count;
    book_count = add64 m.book_count 1;
  }

  pub settle-added : settle key m i ≡ (m.book_count, added)
  unfolding settle
  settle-added = rw ((==_iff _ _).1 free, roomy') refl
    where
      roomy' : leb max_symbols_per_shard m.book_count ≡ false
      roomy' = ground arith

  pub locate-added_self : locate added key ≡ some i
  unfolding locate
  locate-added_self =
      locate_from-set_self m.symbol_keys m.symbol_vals key m.book_count i symbol_map_capacity
        (bit_and (symbol_hash key) (symbol_map_capacity - 1)) free at

  locate-added_other : (q j : ℕ) → j ≢ i → locate m q ≡ some j → locate added q ≡ some j
  unfolding locate
  locate-added_other q j ne hit =
      locate_from-set_other m.symbol_keys m.symbol_vals q key m.book_count i symbol_map_capacity
        (bit_and (symbol_hash q) (symbol_map_capacity - 1)) j free ne hit

  pub added_self : added.symbol_vals i ≡ m.book_count
  added_self = set_self m.symbol_vals i m.book_count

  pub added_held : added.symbol_vals i ≢ empty_val
  added_held e = omega (arith, e, added_self)

  added_other : (j : ℕ) → j ≢ i → added.symbol_vals j ≡ m.symbol_vals j
  added_other j ne = set_other m.symbol_vals i j m.book_count ne

  old : (j : ℕ) → j ≢ i → added.symbol_vals j ≢ empty_val → m.symbol_vals j ≢ empty_val
  old j ne held e = held (added_other j ne ∙ e)

  pub added-IsValid : IsValid added
  added-IsValid = record {
    reach = λ j held. elim (eq_cases j i) [
      | inl same ↦
          ap (λ k. locate added (added.symbol_keys k)) same
          ∙ ap (locate added) (set_self m.symbol_keys i key)
          ∙ locate-added_self
          ∙ ap some (sym same)
      | inr other ↦
          ap (locate added) (set_other m.symbol_keys i j key other)
          ∙ locate-added_other _ j other (valid.reach j (old j other held))
    ];
    below = λ j held. elim (eq_cases j i) [
      | inl same ↦ omega (arith, ap added.symbol_vals same ∙ added_self)
      | inr other ↦ omega (arith, added_other j other, valid.below j (old j other held))
    ];
    apart = λ j k held e. elim (eq_cases j i) [
      | inl same ↦ elim (eq_cases k i) [
        | inl same' ↦ same ∙ sym same'
        | inr other ↦
            absurd (crossed k other (sym (sym added_self ∙ ap added.symbol_vals (sym same) ∙ e)))
      ]
      | inr other ↦ elim (eq_cases k i) [
        | inl same' ↦ absurd (crossed j other (e ∙ ap added.symbol_vals same' ∙ added_self))
        | inr other' ↦
            valid.apart j k (old j other held)
              (sym (added_other j other) ∙ e ∙ added_other k other')
      ]
    ];
    unused = λ n h. valid.unused n (omega arith);
    room = omega arith;
  }
    where
      crossed : (k : ℕ) → k ≢ i → added.symbol_vals k ≡ m.book_count → ⊥
      crossed k other e = omega (
        arith,
        e,
        added_other k other,
        valid.below k (λ f. omega (arith, f, sym (added_other k other) ∙ e)),
      )

module _ (m : ShardedBookManager) (valid : IsValid m) (key i : ℕ) (at : locate m key ≡ some i)
    (free : m.symbol_vals i ≡ empty_val) (roomy : m.book_count < max_symbols_per_shard) where
  abbrev m' : ShardedBookManager
  m' = added m valid key i at free roomy

  pub get_book-added : (q : ℕ) → q ≢ key → get_book m' q ≡ get_book m q
  get_book-added q ne = elim (IsHeld-cases m q) [
    | inr (j, (hit, held)) ↦
        let other : j ≢ i = (λ e. held (ap m.symbol_vals e ∙ free)) in
        let kept = added_other m valid key i at free roomy j other in
        get_book_held m' q j (locate-added_other m valid key i at free roomy q j other hit)
          (λ e. held (sym kept ∙ e))
        ∙ ap (λ n. some (m.books n)) kept
        ∙ sym (get_book_held m q j hit held)
    | inl miss ↦ elim (IsHeld-cases m' q) [
      | inl miss' ↦ miss' ∙ sym miss
      | inr (k, (hit, held)) ↦
          let is_q : m'.symbol_keys k ≡ q = stops_key m' q k hit held in
          let other : k ≢ i =
            (λ e. ne (sym is_q ∙ ap m'.symbol_keys e ∙ set_self m.symbol_keys i key)) in
          let was = old m valid key i at free roomy k other held in
          let was_q : m.symbol_keys k ≡ q = sym (set_other m.symbol_keys i k key other) ∙ is_q in
          cc (miss, get_book_held m q k (ap (locate m) (sym was_q) ∙ valid.reach k was) was)
    ]
  ]
