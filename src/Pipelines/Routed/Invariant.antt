-- ===== src/Pipelines/Routed/Invariant.antt =====
-- What holds of the producer and a consumer of include/routed_pipeline.h in every interleaving, and what
-- an access of either does to the items sent and popped.
use mathlib.Core.List.{append_assoc}
use simd_nanoring.Common.{
  ℕ, suc, ◌≡◌, ◌∙◌, inl, inr, true, false, List, [], ◌∷◌, ◌++◌, leb, Bool-cases, arith, ap, sym,
  refl,
}
use simd_nanoring.Common.Word.{sub64}
use simd_nanoring.SpscQueue.{System, Producer, Consumer, produce, consume}
use simd_nanoring.SpscQueue.Threads.{IsFifo}
use simd_nanoring.Pipelines.Routed.{Place, Thread, Move, pending_after, place_after, work_after}

abbrev pub count : List Move → ℕ
count [] = 0
count (x ∷ moves) = suc (count moves)

module _ {A : Type 0} where
  -- In a `push`, the producer has the next order.
  abbrev pub PushKnows : Producer A → List A → Type 0
  PushKnows Producer.idle pending = Unit
  PushKnows (Producer.has_head x h) pending = (rest : List A) × (pending ≡ x ∷ rest)
  PushKnows (Producer.has_room x h) pending = (rest : List A) × (pending ≡ x ∷ rest)
  PushKnows (Producer.wrote x h) pending = (rest : List A) × (pending ≡ x ∷ rest)

  abbrev pub PlaceKnows : List A → List A → List A → Place → Type 0
  PlaceKnows all pending got Place.popping = Unit
  PlaceKnows all pending got Place.failed = Unit
  PlaceKnows all pending got Place.checking = pending ≡ []
  PlaceKnows all pending got Place.exited = got ≡ all

module _ {A M : Type 0} where
  -- What the orders make of the work, one after the other.
  abbrev pub worked : (A → M → M) → List A → M → M
  worked handle [] m = m
  worked handle (x ∷ xs) m = worked handle xs (handle x m)

  pub worked_next :
      (handle : A → M → M) (xs : List A) (x : A) (m : M)
      → worked handle (xs ++ (x ∷ [])) m ≡ handle x (worked handle xs m)
  worked_next handle [] x m = refl
  worked_next handle (y ∷ xs) x m = worked_next handle xs x (handle y m)

  pub record Inv (c : ℕ) (handle : A → M → M) (all : List A) (m : M) (t : Thread A M) : Type 0 where
    pub fifo : IsFifo c t.system
    pub split : t.system.sent ++ t.pending ≡ all
    pub so_far : t.work ≡ worked handle t.system.got m
    pub over : t.producer_done ≡ true → t.pending ≡ []
    pub push_knows : PushKnows t.system.producer t.pending
    pub place_knows : PlaceKnows all t.pending t.system.got t.place

module _ {A : Type 0} (c : ℕ) where
  pub got-produce : (x : A) (p : Producer A) (s : System A) → (produce c false x p s).got ≡ s.got
  unfolding produce
  got-produce x Producer.idle s = refl
  got-produce x (Producer.has_head y h) s = ground arith
  got-produce x (Producer.has_room y h) s = refl
  got-produce x (Producer.wrote y h) s = refl

  pub sent-consume : (k : Consumer A) (s : System A) → (consume c k s).sent ≡ s.sent
  unfolding consume
  sent-consume Consumer.idle s = refl
  sent-consume (Consumer.has_tail t) s = ground arith
  sent-consume (Consumer.has_item t) s = refl
  sent-consume (Consumer.copied x t) s = refl

  pub producer-consume : (k : Consumer A) (s : System A) → (consume c k s).producer ≡ s.producer
  unfolding consume
  producer-consume Consumer.idle s = refl
  producer-consume (Consumer.has_tail t) s = ground arith
  producer-consume (Consumer.has_item t) s = refl
  producer-consume (Consumer.copied x t) s = refl

  -- An access of a `push` of the next order: what is sent and pending, and what the producer has.
  pub sent-produce :
      (p : Producer A) (s : System A) (x : A) (rest : List A)
      → PushKnows p (x ∷ rest)
      → (produce c false x p s).sent ++ pending_after p x rest ≡ s.sent ++ (x ∷ rest)
  unfolding produce
  sent-produce Producer.idle s x rest knows = refl
  sent-produce (Producer.has_head y h) s x rest knows = ap (λ xs. xs ++ (x ∷ rest)) (ground arith)
  sent-produce (Producer.has_room y h) s x rest knows = refl
  sent-produce (Producer.wrote y h) s x rest (r, e) =
      append_assoc s.sent (y ∷ []) rest ∙ ap (λ z. s.sent ++ (z ∷ rest)) (sym (head_eq e))
    where
      head_eq : {a b : A} {xs ys : List A} → a ∷ xs ≡ b ∷ ys → a ≡ b
      head_eq h = cc (h)

  pub PushKnows-produce :
      (p : Producer A) (s : System A) (x : A) (rest : List A)
      → s.producer ≡ p
      → PushKnows p (x ∷ rest)
      → PushKnows (produce c false x p s).producer (pending_after p x rest)
  unfolding produce
  PushKnows-produce Producer.idle s x rest at knows = (rest, refl)
  PushKnows-produce (Producer.has_head y h) s x rest at knows =
      elim (Bool-cases (leb c (sub64 h s.queue.tail))) [
        | inl full ↦ rw full (rw at knows)
        | inr room ↦ rw room knows
      ]
  PushKnows-produce (Producer.has_room y h) s x rest at knows = knows
  PushKnows-produce (Producer.wrote y h) s x rest at knows = tt

pub PlaceKnows-push :
    {A : Type 0} (all : List A) (x : A) (rest pending got got' : List A) (place : Place)
    → PlaceKnows all (x ∷ rest) got place
    → got' ≡ got
    → PlaceKnows all pending got' place
PlaceKnows-push all x rest pending got got' Place.popping knows e = tt
PlaceKnows-push all x rest pending got got' Place.failed knows e = tt
PlaceKnows-push all x rest pending got got' Place.checking knows e = cc (knows)
PlaceKnows-push all x rest pending got got' Place.exited knows e = e ∙ knows

-- After an access of `try_pop`, the loop is at its head or has seen it fail.
pub place_after-knows :
    {A : Type 0} (all pending got : List A) (head : ℕ) (k : Consumer A)
    → PlaceKnows all pending got (place_after head k)
place_after-knows all pending got head Consumer.idle = tt
place_after-knows all pending got head (Consumer.has_tail t) = elim (Bool-cases (leb head t)) [
  | inl empty ↦ rw empty tt
  | inr more ↦ rw more tt
]
place_after-knows all pending got head (Consumer.has_item t) = tt
place_after-knows all pending got head (Consumer.copied x t) = tt

pub work_after-consume :
    {A M : Type 0} (c : ℕ) (handle : A → M → M) (m : M) (k : Consumer A) (s : System A)
    → work_after handle k (worked handle s.got m) ≡ worked handle (consume c k s).got m
unfolding consume
work_after-consume c handle m Consumer.idle s = refl
work_after-consume c handle m (Consumer.has_tail t) s = elim (Bool-cases (leb s.queue.head t)) [
  | inl empty ↦ rw empty refl
  | inr more ↦ rw more refl
]
work_after-consume c handle m (Consumer.has_item t) s = refl
work_after-consume c handle m (Consumer.copied x t) s = sym (worked_next handle s.got x m)
