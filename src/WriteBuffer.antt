-- ===== src/WriteBuffer.antt =====
-- `WriteBuffer` (src/detail2/buffered_sender.hpp and buffered_sender.cpp): a buffer with a capacity
-- and a time limit in front of a flush callback.
-- The callback is not code of the class: a flush either hands the buffered bytes over, and they
-- join `sent`, or throws, as `flush_cb` says of each call by its number; with a null callback the
-- bytes are dropped. `clock` is what the k-th reading of the steady clock gives.
pub mod Content
pub mod Destructor
pub mod Fits
mod Examples
use sora_transport.Prelude.{
  ℕ, zero, suc, ◌+◌, ◌-◌, ◌*◌, Bool, true, false, not, ◌&&◌, ◌||◌, Option, none, some, List, [],
  ◌∷◌, ◌++◌, ltb, leb, ◌==◌, if◌then◌else◌, length, take, drop, min, max, is_empty,
}

pub record WriteBuffer : Type 0 where
  pub capacity : ℕ
  pub max_delay : ℕ
  -- the first `buffered_size_` bytes of `buffer_`
  pub buffered : List ℕ
  pub fill_started_at : Option ℕ
  pub flushed_in_dtor : Bool
  -- the spans that the callback took, the calls made to it, and the clock readings
  pub sent : List (List ℕ)
  pub calls : ℕ
  pub readings : ℕ

-- How a method ends. `out_of_fuel` is no behaviour of the program.
pub data Outcome : Type 0 where
  returned threw out_of_fuel : Outcome

unfoldable pub init : ℕ → ℕ → WriteBuffer
init capacity_bytes max_buffered_delay = record {
  capacity = max 1 capacity_bytes;
  max_delay = max_buffered_delay;
  buffered = [];
  fill_started_at = none;
  flushed_in_dtor = false;
  sent = [];
  calls = 0;
  readings = 0;
}

pub discard : WriteBuffer → WriteBuffer
discard b = record b { buffered = []; fill_started_at = none }

-- `fill_started_at_.has_value() && now - *fill_started_at_ >= max_delay_`
abbrev overdue : ℕ → ℕ → Option ℕ → Bool
overdue max_delay now none = false
overdue max_delay now (some start) = leb max_delay (now - start)

module _ (flush_cb : Option (ℕ → List ℕ → Bool)) (clock : ℕ → ℕ) where
  abbrev pub after_flush : WriteBuffer → WriteBuffer
  after_flush b = record b { buffered = []; fill_started_at = none; flushed_in_dtor = true }

  abbrev pub call_back : Option (ℕ → List ℕ → Bool) → WriteBuffer → WriteBuffer × Outcome
  call_back none b = (after_flush b, returned)
  call_back (some throws) b =
      if throws b.calls b.buffered then (record b { calls = b.calls + 1 }, threw) else (
        record (after_flush b) { sent = b.sent ++ (b.buffered ∷ []); calls = b.calls + 1 },
        returned,
      )

  unfoldable pub do_flush : WriteBuffer → WriteBuffer × Outcome
  do_flush b = if is_empty b.buffered then (b, returned) else call_back flush_cb b

  unfoldable pub flush : WriteBuffer → WriteBuffer × Outcome
  flush b = if is_empty b.buffered then (b, returned) else do_flush b

  -- The destructor swallows what the flush throws.
  unfoldable pub destroy : WriteBuffer → WriteBuffer
  destroy b = if not b.flushed_in_dtor && not (is_empty b.buffered) then (do_flush b).0 else b

  -- Copies as much as fits; the clock is read before the copy.
  unfoldable pub fill : WriteBuffer → ℕ → List ℕ → WriteBuffer
  fill b now chunk = record b {
    buffered = b.buffered ++ chunk;
    fill_started_at = if is_empty b.buffered then some now else b.fill_started_at;
    readings = b.readings + 1;
  }

  unfoldable pub flush_if_due : WriteBuffer → ℕ → WriteBuffer × Outcome
  flush_if_due b now =
      if length b.buffered == b.capacity || overdue b.max_delay now b.fill_started_at
      then do_flush b
      else (b, returned)

  -- One round of the loop in `write`, and the bytes that it leaves.
  unfoldable pub write_round : WriteBuffer → List ℕ → (WriteBuffer × Outcome) × List ℕ
  write_round b bytes = if b.capacity - length b.buffered == 0 then (do_flush b, bytes) else (
    flush_if_due
        (fill b (clock b.readings)
          (take (min (b.capacity - length b.buffered) (length bytes)) bytes))
        (clock b.readings),
    drop (min (b.capacity - length b.buffered) (length bytes)) bytes,
  )

  abbrev pub go_on :
      (WriteBuffer → List ℕ → WriteBuffer × Outcome)
      → (WriteBuffer × Outcome) × List ℕ
      → WriteBuffer × Outcome
  go_on loop ((b, returned), rest) = loop b rest
  go_on loop ((b, threw), rest) = (b, threw)
  go_on loop ((b, out_of_fuel), rest) = (b, out_of_fuel)

  unfoldable pub write_loop : ℕ → WriteBuffer → List ℕ → WriteBuffer × Outcome
  write_loop fuel b [] = (b, returned)
  write_loop zero b (x ∷ bytes) = (b, out_of_fuel)
  write_loop (suc fuel) b (x ∷ bytes) = go_on (write_loop fuel) (write_round b (x ∷ bytes))

  -- A round copies a byte or makes room, so two rounds a byte are enough.
  unfoldable pub write : WriteBuffer → List ℕ → WriteBuffer × Outcome
  write b bytes = write_loop (2 * length bytes) b bytes
