-- ===== src/Tests/Market.antt =====
-- Runs of the generators of src/experiments.cpp, src/main.cpp and tools/generator.cpp, and of the scans.
use simd_nanoring.Common.{
  ℕ, ◌+◌, ◌*◌, ◌≡◌, Bool, true, false, not, ◌&&◌, ◌||◌, ◌==◌, List, [], ◌∷◌, map, arith, refl,
}
use simd_nanoring.Itch.{DecodedOrder, OrderType}
use simd_nanoring.OrderBook.{new_book}
use simd_nanoring.Decoder.Batch.{decode_add_orders_neon, decode_add_orders_avx2, entry}
use simd_nanoring.BookManager.{new_manager}
use simd_nanoring.Pipelines.{route}
use simd_nanoring.Pipelines.Route.{of_shard}
use simd_nanoring.Workload.{Draw, generate_test_data, make_orders, nth, mock_file, key_of}
use simd_nanoring.Workload.Tickers.{codes, experiment_tickers, main_tickers}
use simd_nanoring.Workload.Decodes.{as_adds, decode_add_orders-generate}
use simd_nanoring.Workload.Refs.{all_refs, new_refs}
use simd_nanoring.Workload.File.{read_records, mock_orders, read_records-file}
use simd_nanoring.Workload.Misses.{Misses, AllMiss, generate-Misses, make_orders-AllMiss}
use simd_nanoring.Experiments.{
  fill_columns, new_columns, scan_scalar, scan_orders, scan_neon, scan_avx2, partition,
}
use simd_nanoring.Experiments.Scans.{scan_neon-orders, scan_avx2-orders}
use simd_nanoring.Experiments.Partition.{partition-route}

abbrev draw : ℕ → Draw
draw roll = record {
  ticker = codes "AAPL    ";
  price = 400000;
  shares = 50;
  side_roll = 1;
  type_roll = roll;
}

-- An add, an execute and a replace.
abbrev draws : List Draw
draws = draw 0 ∷ draw 6 ∷ draw 9 ∷ []

decode_add_orders-generate_example :
    (decode_add_orders_neon (nth (generate_test_data draws).raw_add_orders) 3
      ≡ as_adds (generate_test_data draws).orders)
    × (decode_add_orders_avx2 (nth (generate_test_data draws).raw_add_orders) 3
        ≡ as_adds (generate_test_data draws).orders)
decode_add_orders-generate_example = decode_add_orders-generate draws (omega arith)

four_refs : all_refs (generate_test_data draws).orders ≡ 1 ∷ 2 ∷ 3 ∷ 4 ∷ []
unfolding generate_test_data
four_refs = refl

three_new_refs : new_refs (make_orders draws (λ i. 9)) ≡ 4 ∷ 5 ∷ 6 ∷ []
unfolding make_orders
three_new_refs = refl

read_records-file_example : read_records (entry (mock_file draws 0)) 3 0 ≡ mock_orders draws 0
read_records-file_example = read_records-file draws (omega arith) (omega arith)

generate-Misses_example : Misses (generate_test_data draws).orders new_book
generate-Misses_example = generate-Misses draws (omega arith)

-- Whatever `main` draws for the types, with the orders in one shard.
make_orders-AllMiss_example : AllMiss (of_shard 1 0 (make_orders draws (λ i. 6))) new_manager
make_orders-AllMiss_example = make_orders-AllMiss draws (λ i. 6) 1 0 (omega arith)

-- Of six orders, those from the third on have a price above 300000.
abbrev output : ℕ → DecodedOrder
output i = record {
  type = OrderType.add;
  order_ref = i;
  ticker_key = 7;
  price = 100000 + i * 70000;
  shares = 50;
  side = b'B';
  new_order_ref = 0;
}

scan_neon-orders_example :
    (scan_scalar 7 300000 (fill_columns output 6 0 new_columns) 6 0 0
      ≡ scan_orders 7 300000 output 6 0 0)
    × (scan_neon 7 300000 (fill_columns output 6 0 new_columns) 6 6 0 0
        ≡ scan_orders 7 300000 output 6 0 0)
scan_neon-orders_example = scan_neon-orders 7 300000 output 6

scan_avx2-orders_example :
    scan_avx2 7 300000 (fill_columns output 6 0 new_columns) 6 6 0 0
    ≡ scan_orders 7 300000 output 6 0 0
scan_avx2-orders_example = scan_avx2-orders 7 300000 output 6 (omega arith) (λ i below. omega arith)

three_above : scan_avx2 7 300000 (fill_columns output 6 0 new_columns) 6 6 0 0 ≡ 3
unfolding scan_avx2 fill_columns
three_above = refl

-- A price of 2 ^ 31 is above the threshold for the scalar scan and below it for the AVX2 scan.
abbrev dear : ℕ → DecodedOrder
dear i = record (output i) { price = 0x8000_0000 }

dear_scalar : scan_orders 7 300000 dear 4 0 0 ≡ 4
unfolding scan_orders
dear_scalar = refl

dear_avx2 : scan_avx2 7 300000 (fill_columns dear 4 0 new_columns) 4 4 0 0 ≡ 0
unfolding scan_avx2 fill_columns
dear_avx2 = refl

partition-route_example :
    partition 2 (output 0 ∷ output 1 ∷ []) (λ s. []) 1
    ≡ (route 2 (output 0 ∷ output 1 ∷ [])).queues 1
partition-route_example = partition-route 2 1 (output 0 ∷ output 1 ∷ []) (omega arith)

abbrev is_one_of : ℕ → List ℕ → Bool
is_one_of x [] = false
is_one_of x (y ∷ ys) = x == y || is_one_of x ys

abbrev all_apart : List ℕ → Bool
all_apart [] = true
all_apart (x ∷ xs) = not (is_one_of x xs) && all_apart xs

-- The tickers of src/main.cpp have different keys; those of src/experiments.cpp name NFLX twice.
main_apart : all_apart (map key_of main_tickers) ≡ true
unfolding key_of
main_apart = refl

experiment_repeats : all_apart (map key_of experiment_tickers) ≡ false
unfolding key_of
experiment_repeats = refl
