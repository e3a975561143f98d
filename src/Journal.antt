-- ===== src/Journal.antt =====
-- include/broadcast_journal.h: the broadcast ring that one producer fills and that consumers read
-- in place.
pub mod Intact
pub mod Reports
use simd_nanoring.Common.{ℕ, ◌+◌, Bool, true, false, List, [], ◌∷◌, ltb, leb, if◌then◌else◌, set}
use simd_nanoring.Common.Word.{add64, sub64}
use simd_nanoring.Ring.{slot_of}

pub record Journal {ℓ} (A : Type ℓ) : Type ℓ where
  pub journal : ℕ → A
  pub published_index : ℕ
  pub min_consumer_seq : ℕ

module _ {ℓ} {A : Type ℓ} where
  unfoldable pub publish : ℕ → ℕ → A → Journal A → Journal A
  publish capacity sequence item j = record j {
    journal = set j.journal (slot_of capacity sequence) item;
    published_index = add64 sequence 1;
  }

  unfoldable pub try_publish : ℕ → ℕ → A → Journal A → Bool × Journal A
  unfolding publish
  try_publish capacity sequence item j =
      if leb capacity (sub64 sequence j.min_consumer_seq)
      then (false, j)
      else (true, publish capacity sequence item j)

  unfoldable pub get_published_index : Journal A → ℕ
  get_published_index j = j.published_index

  -- The loop of `report_consumer_progress` when its exchange succeeds.
  unfoldable pub report_consumer_progress : ℕ → Journal A → Journal A
  report_consumer_progress consumer_seq j =
      if ltb j.min_consumer_seq consumer_seq
      then record j { min_consumer_seq = consumer_seq }
      else j

  unfoldable pub get_payload : ℕ → ℕ → Journal A → A
  get_payload capacity sequence j = j.journal (slot_of capacity sequence)

  unfoldable pub backlog : Journal A → ℕ
  backlog j = sub64 j.published_index j.min_consumer_seq

-- What the threads do: the producer tries to publish an item at its next sequence number, which is
-- the published index, and a consumer reports its own. A call of `try_publish` with another sequence
-- number is no event.
pub data Event {ℓ} (A : Type ℓ) : Type ℓ where
  offer : A → Event A
  report : ℕ → Event A

module _ {ℓ} {A : Type ℓ} where
  unfoldable pub happen : ℕ → Event A → Journal A → Journal A
  unfolding try_publish report_consumer_progress
  happen capacity (Event.offer x) j = (try_publish capacity j.published_index x j).1
  happen capacity (Event.report k) j = report_consumer_progress k j

  unfoldable pub happen_all : ℕ → List (Event A) → Journal A → Journal A
  unfolding happen
  happen_all capacity [] j = j
  happen_all capacity (e ∷ events) j = happen_all capacity events (happen capacity e j)
