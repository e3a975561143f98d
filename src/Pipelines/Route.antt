-- ===== src/Pipelines/Route.antt =====
-- The two pipelines give each thread the same orders in the same order.
use mathlib.Core.List.{append_assoc, append-nil}
use simd_nanoring.Common.{
  ℕ, zero, suc, ◌+◌, ◌≤◌, ◌<◌, ◌≡◌, ◌≢◌, ◌∙◌, inl, inr, List, [], ◌∷◌, ◌++◌, leb, ◌==◌,
  if◌then◌else◌, Bool-cases, eq_cases, ==_iff, ne→==, set, set_self, set_other, arith, ap, ap₂, sym,
  refl,
}
use simd_nanoring.Itch.{DecodedOrder}
use simd_nanoring.BookManager
use simd_nanoring.BookManager.{ShardedBookManager}
use simd_nanoring.Pipelines.{
  Routes, no_routes, batch_size, length, get_shard, push_batch, route_to, route_one, route_all,
  flush_from, route, consume_routed, consume_broadcast,
}

-- The orders of a shard, in their order.
abbrev pub of_shard : ℕ → ℕ → List DecodedOrder → List DecodedOrder
of_shard n t [] = []
of_shard n t (o ∷ orders) =
    if get_shard n o.ticker_key == t then o ∷ of_shard n t orders else of_shard n t orders

-- What a queue has, and will have when its batch is pushed.
abbrev routed : Routes → ℕ → List DecodedOrder
routed r t = r.queues t ++ r.batches t

module _ (shard : ℕ) (o : DecodedOrder) (r : Routes) where
  abbrev grown : ℕ → List DecodedOrder
  grown = set r.batches shard (r.batches shard ++ (o ∷ []))

  grown_self : grown shard ≡ r.batches shard ++ (o ∷ [])
  grown_self = set_self r.batches shard (r.batches shard ++ (o ∷ []))

  routed-own : routed (route_to shard o r) shard ≡ routed r shard ++ (o ∷ [])
  unfolding route_to push_batch
  routed-own = elim (Bool-cases (leb batch_size (length (grown shard)))) [
    | inl full ↦ rw full (
        ap₂ (λ a b. a ++ b)
          (set_self r.queues shard (r.queues shard ++ grown shard)
            ∙ ap (λ b. r.queues shard ++ b) grown_self
            ∙ sym (append_assoc (r.queues shard) (r.batches shard) (o ∷ [])))
          (set_self grown shard [])
        ∙ append-nil _)
    | inr small ↦ rw small (
        ap (λ b. r.queues shard ++ b) grown_self
        ∙ sym (append_assoc (r.queues shard) (r.batches shard) (o ∷ [])))
  ]

  routed-other : (t : ℕ) → t ≢ shard → routed (route_to shard o r) t ≡ routed r t
  unfolding route_to push_batch
  routed-other t ne =
      let kept : grown t ≡ r.batches t = set_other r.batches shard t _ ne in
      elim (Bool-cases (leb batch_size (length (grown shard)))) [
        | inl full ↦ rw full (
            ap₂ (λ a b. a ++ b) (set_other r.queues shard t _ ne)
              (set_other grown shard t _ ne ∙ kept))
        | inr small ↦ rw small (ap (λ b. r.queues t ++ b) kept)
      ]

module _ (n t : ℕ) where
  routed-route_one :
      (o : DecodedOrder) (r : Routes) (orders : List DecodedOrder)
      → routed (route_one n o r) t ++ of_shard n t orders ≡ routed r t ++ of_shard n t (o ∷ orders)
  unfolding route_one
  routed-route_one o r orders = elim (eq_cases (get_shard n o.ticker_key) t) [
    | inl mine ↦
        ap (λ xs. xs ++ of_shard n t orders)
          (ap (routed (route_to (get_shard n o.ticker_key) o r)) (sym mine)
            ∙ routed-own (get_shard n o.ticker_key) o r
            ∙ ap (λ s. routed r s ++ (o ∷ [])) mine)
        ∙ append_assoc (routed r t) (o ∷ []) (of_shard n t orders)
        ∙ ap (λ b. routed r t ++ (if b then o ∷ of_shard n t orders else of_shard n t orders))
            (sym ((==_iff (get_shard n o.ticker_key) t).1 mine))
    | inr other ↦
        ap (λ xs. xs ++ of_shard n t orders)
          (routed-other (get_shard n o.ticker_key) o r t (λ e. other (sym e)))
        ∙ ap (λ b. routed r t ++ (if b then o ∷ of_shard n t orders else of_shard n t orders))
            (sym (ne→== (get_shard n o.ticker_key) t other))
  ]

  routed-route_all :
      (orders : List DecodedOrder) (r : Routes)
      → routed (route_all n orders r) t ≡ routed r t ++ of_shard n t orders
  unfolding route_all
  routed-route_all [] r = sym (append-nil _)
  routed-route_all (o ∷ orders) r =
      routed-route_all orders (route_one n o r) ∙ routed-route_one o r orders

  -- A flush that has passed the queue, or has yet to reach it.
  flushed_past : (rounds s : ℕ) (r : Routes) → t < s → (flush_from rounds s r).queues t ≡ r.queues t
  unfolding flush_from push_batch
  flushed_past zero s r past = refl
  flushed_past (suc rounds) s r past =
      flushed_past rounds (s + 1) _ (omega arith) ∙ set_other r.queues s t _ (λ e. omega arith)

  flushed :
      (rounds s : ℕ) (r : Routes)
      → s ≤ t
      → t < s + rounds
      → (flush_from rounds s r).queues t ≡ routed r t
  unfolding flush_from push_batch
  flushed zero s r from upto = absurd (omega arith)
  flushed (suc rounds) s r from upto = elim (eq_cases t s) [
    | inl now ↦
        flushed_past rounds (s + 1) (push_batch s r) (omega arith)
        ∙ ap (set r.queues s (routed r s)) now
        ∙ set_self r.queues s (routed r s)
        ∙ ap (routed r) (sym now)
    | inr later ↦
        flushed rounds (s + 1) (push_batch s r) (omega arith) (omega arith)
        ∙ ap (λ xs. xs ++ r.batches t) (set_other r.queues s t (routed r s) later)
  ]

  pub queues-route :
      (orders : List DecodedOrder) → t < n → (route n orders).queues t ≡ of_shard n t orders
  unfolding route
  queues-route orders below =
      flushed n 0 (route_all n orders no_routes) (omega arith) (omega arith)
      ∙ routed-route_all orders no_routes

  pub broadcast-of_shard :
      (orders : List DecodedOrder) (m : ShardedBookManager)
      → consume_broadcast n t orders m ≡ consume_routed (of_shard n t orders) m
  unfolding consume_broadcast consume_routed
  broadcast-of_shard [] m = refl
  broadcast-of_shard (o ∷ orders) m = elim (Bool-cases (get_shard n o.ticker_key == t)) [
    | inl mine ↦ rw mine (broadcast-of_shard orders (BookManager.apply o m))
    | inr other ↦ rw other (broadcast-of_shard orders m)
  ]

-- Each thread of the routed pipeline, which applies what is pushed to its queue, ends with the books
-- that the thread of the broadcast pipeline ends with, which reads every order and skips those of
-- other shards: the batches of 64 and the last flush lose, double and reorder nothing.
pub routed-broadcast :
    (n t : ℕ) (orders : List DecodedOrder) (m : ShardedBookManager)
    → t < n
    → consume_routed ((route n orders).queues t) m ≡ consume_broadcast n t orders m
routed-broadcast n t orders m below =
    ap (λ xs. consume_routed xs m) (queues-route n t orders below)
    ∙ sym (broadcast-of_shard n t orders m)
