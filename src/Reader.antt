-- ===== src/Reader.antt =====
-- `OverlappedFileReader` (src/detail/io.hpp and io.cpp): reads a file in order through a ring of
-- eight overlapped reads. What the operating system and the buffer pool answer is a parameter, by
-- the offset and length of a read. A method returns the state also where it throws. A reader that
-- was closed or moved from has no state, and every method of it that reads throws at once.
pub mod Ring
pub mod Consume
pub mod Reading
pub mod Prefetch
pub mod Healthy
pub mod Primed
pub mod WholeFile
mod Examples
use sora_transport.Prelude.{
  ℕ, zero, suc, ◌+◌, ◌-◌, ◌%◌, ◌^◌, Bool, true, false, not, ◌&&◌, ◌||◌, Option, none, some, List,
  [], ◌∷◌, ltb, leb, ◌==◌, ◌!=◌, if◌then◌else◌, min, max, get_or, set,
}
use sora_transport.Prelude.Result.{Result, ok, err}

abbrev pub queue_depth : ℕ
queue_depth = 8

-- A `ReadSlot`; of its buffer only whether it has one.
pub record Slot : Type 0 where
  pub offset : ℕ
  pub requested_length : ℕ
  pub in_flight : Bool
  pub has_buffer : Bool

abbrev pub empty_slot : Slot
empty_slot = record { offset = 0; requested_length = 0; in_flight = false; has_buffer = false }

pub record Reader : Type 0 where
  pub offset : ℕ
  pub size : ℕ
  pub next_issue_offset : ℕ
  pub chunk_size : ℕ
  pub handle_valid : Bool
  pub slots : List Slot
  pub next_slot_to_issue : ℕ
  pub next_slot_to_consume : ℕ
  pub in_flight_reads : ℕ
  pub prefetch_started : Bool
  pub cancel_requested : Bool

pub record Chunk : Type 0 where
  pub offset : ℕ
  pub length : ℕ
  pub is_eof : Bool

pub data ReadError : Type 0 where
  cancelled not_open read_failed short_read slot_not_in_flight out_of_memory : ReadError

-- How `GetOverlappedResult` ends: with the bytes read, or an error, which tells of an abort or not.
pub data Completion : Type 0 where
  completed : ℕ → Completion
  failed : Bool → Completion

-- The answers for a read of some length at some offset.
pub record Env : Type 0 where
  pub alloc_fails : ℕ → ℕ → Bool
  pub issue_fails : ℕ → ℕ → Bool
  pub complete : ℕ → ℕ → Completion

abbrev pub no_slots : List Slot
no_slots =
    empty_slot ∷ empty_slot ∷ empty_slot ∷ empty_slot ∷ empty_slot ∷ empty_slot ∷ empty_slot
    ∷ empty_slot ∷ []

-- The constructor and `initialize_open_state`, with a valid handle.
unfoldable pub init : ℕ → ℕ → Reader
init size buffer_size = record {
  offset = 0;
  size = size;
  next_issue_offset = 0;
  chunk_size = max 1 buffer_size;
  handle_valid = true;
  slots = no_slots;
  next_slot_to_issue = 0;
  next_slot_to_consume = 0;
  in_flight_reads = 0;
  prefetch_started = false;
  cancel_requested = false;
}

abbrev pub slot_at : List Slot → ℕ → Slot
slot_at slots i = get_or slots i empty_slot

-- The probes of `issue_next_read`, from the `probe`-th on: the first slot that is free.
unfoldable pub find_slot : ℕ → ℕ → List Slot → ℕ → Option ℕ
find_slot zero probe slots next = none
find_slot (suc rounds) probe slots next =
    let slot = slot_at slots ((next + probe) % queue_depth) in
    let later = find_slot rounds (probe + 1) slots next in
    if not slot.in_flight && not slot.has_buffer then some ((next + probe) % queue_depth) else later

-- `static_cast<DWORD>`.
abbrev pub dword : ℕ → ℕ
dword n = n % 2 ^ 32

module _ (env : Env) where
  unfoldable pub issue_at : ℕ → ℕ → Reader → Reader × Result ReadError Bool
  issue_at i request_length r =
      if env.alloc_fails r.next_issue_offset request_length
      then (
        record r {
          slots = set r.slots i (record (slot_at r.slots i) { offset = 0; requested_length = 0 });
        },
        err out_of_memory,
      )
      else if env.issue_fails r.next_issue_offset (dword request_length)
      then (record r { slots = set r.slots i empty_slot }, err read_failed)
      else (
        record r {
          slots = set r.slots i (record {
            offset = r.next_issue_offset;
            requested_length = request_length;
            in_flight = true;
            has_buffer = true;
          });
          next_slot_to_issue = (i + 1) % queue_depth;
          next_issue_offset = r.next_issue_offset + request_length;
          in_flight_reads = r.in_flight_reads + 1;
        },
        ok true,
      )

  unfoldable pub issue_next_read : Reader → Reader × Result ReadError Bool
  issue_next_read r =
      if r.cancel_requested
      then (r, err cancelled)
      else if leb r.size r.next_issue_offset || leb queue_depth r.in_flight_reads
      then (r, ok false)
      else elim (find_slot queue_depth 0 r.slots r.next_slot_to_issue) [
        | none ↦ (r, ok false)
        | some i ↦ issue_at i (min r.chunk_size (r.size - r.next_issue_offset)) r
      ]

  -- After a read was issued or not; `more` is the rest of the loop.
  abbrev pub primed :
      (Reader → Reader × Result ReadError (Unit {0}))
      → Bool
      → Reader × Result ReadError Bool
      → Reader × Result ReadError (Unit {0})
  primed more enough (r, err e) = (r, err e)
  primed more enough (r, ok false) = (r, ok tt)
  primed more true (r, ok true) = (r, ok tt)
  primed more false (r, ok true) = more r

  -- The loop of `prime_prefetch_window`. Each round issues a read, and at most eight are in flight,
  -- so eight rounds are enough.
  unfoldable pub prime_loop : ℕ → ℕ → ℕ → Reader → Reader × Result ReadError (Unit {0})
  prime_loop zero issued_bytes max_bytes r = (r, ok tt)
  prime_loop (suc fuel) issued_bytes max_bytes r =
      let next = issue_next_read r in
      let issued = issued_bytes + (next.0.next_issue_offset - r.next_issue_offset) in
      if leb queue_depth r.in_flight_reads
      then (r, ok tt)
      else primed (prime_loop fuel issued max_bytes) (leb max_bytes issued) next

  unfoldable pub prime_prefetch_window : ℕ → Reader → Reader × Result ReadError (Unit {0})
  prime_prefetch_window max_bytes r =
      if r.size == 0 || max_bytes == 0
      then (r, ok tt)
      else if r.cancel_requested
      then (r, err cancelled)
      else prime_loop queue_depth 0 max_bytes r

  unfoldable pub start_prefetch : ℕ → Reader → Reader × Result ReadError (Unit {0})
  start_prefetch max_bytes r =
      if r.cancel_requested
      then (r, err cancelled)
      else if not r.handle_valid
      then (r, err not_open)
      else if r.prefetch_started
      then (r, ok tt)
      else prime_prefetch_window max_bytes (record r { prefetch_started = true })

  abbrev pub eof_chunk : Reader → Chunk
  eof_chunk r = record { offset = r.offset; length = 0; is_eof = true }

  -- The end of `read_next_chunk`: one more read is issued unless the file has been read.
  abbrev pub hand_out : Chunk → Reader × Result ReadError Bool → Reader × Result ReadError Chunk
  hand_out chunk (r, err e) = (r, err e)
  hand_out chunk (r, ok b) = (r, ok chunk)

  unfoldable pub accept : Slot → Reader → Reader × Result ReadError Chunk
  accept slot r =
      let chunk : Chunk = record {
        offset = slot.offset;
        length = slot.requested_length;
        is_eof = leb r.size r.offset;
      } in
      if ltb r.offset r.size then hand_out chunk (issue_next_read r) else (r, ok chunk)

  -- The completion of the read in slot `i`. A failed one leaves the count of reads in flight.
  unfoldable pub finish : ℕ → Completion → Reader → Reader × Result ReadError Chunk
  finish i (failed aborted) r = (
    record r { slots = set r.slots i empty_slot },
    err (if r.cancel_requested && aborted then cancelled else read_failed),
  )
  finish i (completed bytes_read) r =
      let slot = slot_at r.slots i in
      let after = record r {
        slots = set r.slots i empty_slot;
        next_slot_to_consume = (i + 1) % queue_depth;
        in_flight_reads = r.in_flight_reads - 1;
      } in
      if bytes_read != slot.requested_length
      then (after, err short_read)
      else accept slot (record after { offset = slot.offset + bytes_read })

  unfoldable pub consume : Reader → Reader × Result ReadError Chunk
  consume r =
      let slot = slot_at r.slots r.next_slot_to_consume in
      if not slot.in_flight
      then (r, err slot_not_in_flight)
      else finish r.next_slot_to_consume (env.complete slot.offset (dword slot.requested_length)) r

  abbrev pub consume_issued : Reader × Result ReadError Bool → Reader × Result ReadError Chunk
  consume_issued (r, err e) = (r, err e)
  consume_issued (r, ok b) = if r.in_flight_reads == 0 then (r, ok (eof_chunk r)) else consume r

  unfoldable pub read_next_chunk : Reader → Reader × Result ReadError Chunk
  read_next_chunk r =
      if r.cancel_requested
      then (r, err cancelled)
      else if not r.handle_valid
      then (r, err not_open)
      else if leb r.size r.offset
      then (r, ok (eof_chunk r))
      else consume_issued (if r.in_flight_reads == 0 then issue_next_read r else (r, ok false))

unfoldable pub eof : Reader → Bool
eof r = leb r.size r.offset

unfoldable pub cancel_pending_work : Reader → Reader
cancel_pending_work r = record r { cancel_requested = true }
