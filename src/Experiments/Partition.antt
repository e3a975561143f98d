-- ===== src/Experiments/Partition.antt =====
-- The partitions of src/experiments.cpp are what the routed pipeline gives its threads.
use simd_nanoring.Common.{
  ℕ, ◌<◌, ◌≡◌, ◌∙◌, inl, inr, List, [], ◌∷◌, ◌++◌, if◌then◌else◌, eq_cases, ==_iff, ne→==, set,
  set_self, set_other, ap, sym,
}
use mathlib.Core.List.{append_assoc, append-nil}
use simd_nanoring.Itch.{DecodedOrder}
use simd_nanoring.Pipelines.{get_shard, route}
use simd_nanoring.Pipelines.Route.{of_shard, queues-route}
use simd_nanoring.Experiments.{partition}

partition-of_shard :
    (n t : ℕ) (orders : List DecodedOrder) (partitions : ℕ → List DecodedOrder)
    → partition n orders partitions t ≡ partitions t ++ of_shard n t orders
unfolding partition get_shard
partition-of_shard n t [] partitions = sym (append-nil _)
partition-of_shard n t (o ∷ orders) partitions =
    let shard = get_shard n o.ticker_key in
    let grown = partitions shard ++ (o ∷ []) in
    partition-of_shard n t orders (set partitions shard grown) ∙ elim (eq_cases shard t) [
      | inl mine ↦
          ap (λ xs. xs ++ of_shard n t orders)
            (ap (set partitions shard grown) (sym mine)
              ∙ set_self partitions shard grown
              ∙ ap (λ s. partitions s ++ (o ∷ [])) mine)
          ∙ append_assoc (partitions t) (o ∷ []) (of_shard n t orders)
          ∙ ap (λ b. partitions t ++ (if b then o ∷ of_shard n t orders else of_shard n t orders))
              (sym ((==_iff shard t).1 mine))
      | inr other ↦
          ap (λ xs. xs ++ of_shard n t orders)
            (set_other partitions shard t grown (λ e. other (sym e)))
          ∙ ap (λ b. partitions t ++ (if b then o ∷ of_shard n t orders else of_shard n t orders))
              (sym (ne→== shard t other))
    ]

-- The partition of each shard in `experiment_book_throughput` has the orders, in the same order, that
-- the producer of the routed pipeline pushes to that shard's queue.
pub partition-route :
    (n t : ℕ) (orders : List DecodedOrder)
    → t < n
    → partition n orders (λ s. []) t ≡ (route n orders).queues t
partition-route n t orders below =
    partition-of_shard n t orders (λ s. []) ∙ sym (queues-route n t orders below)
