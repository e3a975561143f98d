-- ===== src/Tests.antt =====
-- Runs of the model on concrete inputs, and the theorems applied there.
mod Books
mod Maps
mod Sides
mod Rings
mod Decoding
mod Routing
mod Threads
mod Market
mod Latencies
