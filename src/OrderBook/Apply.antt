-- ===== src/OrderBook/Apply.antt =====
-- `apply` keeps the invariant of the book, and the book that the program starts from has it.
use simd_nanoring.Common.{ℕ, ◌≡◌, inl, inr, Bool, true, false, Bool-cases, arith, refl}
use simd_nanoring.Itch.{DecodedOrder, OrderType}
use simd_nanoring.Levels.View.{level_at-empty}
use simd_nanoring.OrderMap.Total.{total-blank}
use simd_nanoring.OrderMap.{new_map}
use simd_nanoring.OrderMap.Laws.{new_map-IsValid, lookup-new_map}
use simd_nanoring.OrderBook.{OrderBook, new_book, no_levels, apply_type, apply}
use simd_nanoring.OrderBook.Sides.{sides}
use simd_nanoring.OrderBook.Core.{weight, weight-Vanishes, live_shares}
use simd_nanoring.OrderBook.Valid.{IsValid, Accepts}
use simd_nanoring.OrderBook.Add.{handle_add-IsValid}
use simd_nanoring.OrderBook.Execute.{handle_execute-IsValid}
use simd_nanoring.OrderBook.Delete.{handle_delete-IsValid}
use simd_nanoring.OrderBook.Replace.{Replaceable, handle_replace-IsValid}

-- What the book needs of an order, by its type.
abbrev pub AcceptableType : OrderType → DecodedOrder → (b : OrderBook) → IsValid b → Type 0
AcceptableType OrderType.add order b valid =
    Accepts b order.order_ref order.side order.price order.shares
AcceptableType OrderType.execute order b valid = Unit
AcceptableType OrderType.delete order b valid = Unit
AcceptableType OrderType.replace order b valid = Replaceable order b valid

abbrev pub Acceptable : DecodedOrder → (b : OrderBook) → IsValid b → Type 0
Acceptable order = AcceptableType order.type order

apply_type-IsValid :
    (t : OrderType) (order : DecodedOrder) (b : OrderBook) (valid : IsValid b)
    → AcceptableType t order b valid
    → IsValid (apply_type t order b)
unfolding apply_type
apply_type-IsValid OrderType.add order b valid ok = handle_add-IsValid order b valid ok
apply_type-IsValid OrderType.execute order b valid ok = handle_execute-IsValid order b valid
apply_type-IsValid OrderType.delete order b valid ok = handle_delete-IsValid order b valid
apply_type-IsValid OrderType.replace order b valid ok = handle_replace-IsValid order b valid ok

-- `apply` keeps the invariant of the book: an add needs what `Accepts` says, a replace of a live
-- order needs it of the book without that order, an execute and a delete need nothing.
pub apply-IsValid :
    (order : DecodedOrder) (b : OrderBook) (valid : IsValid b)
    → Acceptable order b valid
    → IsValid (apply order b)
unfolding apply
apply-IsValid order b valid ok = apply_type-IsValid order.type order b valid ok

live_shares-new_map : (d : Bool) (p : ℕ) → live_shares new_map d p ≡ 0
unfolding new_map
live_shares-new_map d p = total-blank (weight d p) _ (weight-Vanishes d p)

sides-new_book : (d : Bool) → sides new_book d ≡ no_levels
unfolding new_book
sides-new_book true = refl
sides-new_book false = refl

-- The book that the program starts from is valid.
pub new_book-IsValid : IsValid new_book
unfolding new_book
new_book-IsValid = record {
  core = record {
    levels = λ d.
        rw (sides-new_book d)
          (record { within = omega arith; sorted = λ i j h k. absurd (omega arith) });
    orders = new_map-IsValid;
    sided = λ r l h. cc (lookup-new_map r, h);
    priced = level_at-empty _ 0;
    words = λ d p. rw (sides-new_book d, level_at-empty _ p) (omega arith);
    backed = λ d p. rw (sides-new_book d, level_at-empty _ p, live_shares-new_map d p) refl;
  };
  best = λ d. elim (Bool-cases d) [
    | inl bid ↦ rw bid (inr (refl, λ q. level_at-empty _ q))
    | inr ask ↦ rw ask (inr (refl, λ q. level_at-empty _ q))
  ];
}
