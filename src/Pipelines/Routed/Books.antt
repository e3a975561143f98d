-- ===== src/Pipelines/Routed/Books.antt =====
-- The book threads of include/routed_pipeline.h, `RoutedPipeline::run`, and the books that they end with.
use Prim.Native.Nat.{min}
use simd_nanoring.Common.{
  ◌-◌, ◌*◌, ◌%◌, Bool, ◌&&◌, ◌==◌, if◌then◌else◌, ℕ, ◌+◌, ◌<◌, ◌≡◌, ◌∙◌, List, [], ◌∷◌, arith, ap,
  refl,
}
use simd_nanoring.Common.Word.{u64}
use simd_nanoring.Itch.{DecodedOrder}
use simd_nanoring.BookManager
use simd_nanoring.BookManager.{new_manager}
use simd_nanoring.Ring.{IsCapacity}
use simd_nanoring.Pipelines.{length, route, consume_routed, consume_broadcast}
use simd_nanoring.Pipelines.Route.{routed-broadcast}
use simd_nanoring.Pipelines.Broadcast.Books.{Worker, new_worker, sample}
use simd_nanoring.Pipelines.Routed.{Place, Move, run_moves, launch_thread}
use simd_nanoring.Pipelines.Routed.Invariant.{count, worked}
use simd_nanoring.Pipelines.Routed.Safety.{run_moves-worked}

-- What thread `t` does with an order that it pops: the apply, the count, and every thousandth time a
-- latency sample. `stamp i` is what the load of `publish_ts[i]` finds, which the producer may not have
-- written yet, and `clock` the time of the sample at a count.
unfoldable pub pop_order : Bool → (ℕ → ℕ) → (ℕ → ℕ) → ℕ → ℕ → ℕ → DecodedOrder → Worker → Worker
unfolding BookManager.apply sample
pop_order measure_latency clock stamp n t num_orders order w =
    let local_count = w.local_count + 1 in
    record {
      manager = BookManager.apply order w.manager;
      local_count = local_count;
      latency =
          if measure_latency && (t == 0 && local_count % 1000 == 0)
          then sample (clock local_count) (stamp (min (local_count * n) (num_orders - 1))) w.latency
          else w.latency;
    }

module _ (measure_latency : Bool) (clock stamp : ℕ → ℕ) (n t num_orders : ℕ) where
  abbrev handle : DecodedOrder → Worker → Worker
  handle = pop_order measure_latency clock stamp n t num_orders

  worked-manager :
      (orders : List DecodedOrder) (w : Worker)
      → (worked handle orders w).manager ≡ consume_routed orders w.manager
  unfolding consume_routed pop_order
  worked-manager [] w = refl
  worked-manager (o ∷ orders) w = worked-manager orders (handle o w)

  worked-local_count :
      (orders : List DecodedOrder) (w : Worker)
      → (worked handle orders w).local_count ≡ w.local_count + length orders
  unfolding pop_order
  worked-local_count [] w = omega arith
  worked-local_count (o ∷ orders) w = omega (arith, worked-local_count orders (handle o w))

-- A book thread of `RoutedPipeline::run` that has left its loop, whatever the interleaving of its
-- pops with the pushes of the producer, has the books that the same thread of `Pipeline::run` makes of
-- all the orders, and has counted the orders of its queue, whatever the clocks.
pub run_moves-books :
    (measure_latency : Bool) (clock stamp : ℕ → ℕ) (c n t : ℕ) (orders : List DecodedOrder)
    (slots : ℕ → DecodedOrder) (moves : List Move)
    → IsCapacity c
    → t < n
    → count moves < u64
    → (run_moves c
        (pop_order measure_latency clock stamp n t (length orders))
        moves
        (launch_thread slots ((route n orders).queues t) new_worker)).place
      ≡ Place.exited
    → ((run_moves c
          (pop_order measure_latency clock stamp n t (length orders))
          moves
          (launch_thread slots ((route n orders).queues t) new_worker)).work.manager
        ≡ consume_broadcast n t orders new_manager)
      × ((run_moves c
            (pop_order measure_latency clock stamp n t (length orders))
            moves
            (launch_thread slots ((route n orders).queues t) new_worker)).work.local_count
          ≡ length ((route n orders).queues t))
run_moves-books measure_latency clock stamp c n t orders slots moves cap below low left =
    let queue = (route n orders).queues t in
    let handle = pop_order measure_latency clock stamp n t (length orders) in
    let whole = run_moves-worked c cap handle queue new_worker slots moves low left in
    (
      ap (λ w. w.manager) whole
          ∙ worked-manager measure_latency clock stamp n t (length orders) queue new_worker
          ∙ routed-broadcast n t orders new_manager below,
      ap (λ w. w.local_count) whole
          ∙ worked-local_count measure_latency clock stamp n t (length orders) queue new_worker
          ∙ omega arith,
    )
