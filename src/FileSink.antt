-- ===== src/FileSink.antt =====
-- `FileByteSink` (src/detail/io.hpp and io.cpp): writes a file in order through a few slots, whose
-- overlapped writes run while the next slot fills. What the system answers is a parameter, by the
-- number of the call made to it. `issued` and `landed` record the writes that were started and
-- those that were seen to complete. The sink has state unless it was moved from, and a move is not
-- modelled.
pub mod Slots
pub mod Wait
pub mod Submit
pub mod Copy
pub mod Written
pub mod Close
pub mod Image
pub mod Save
mod Examples
use sora_transport.Prelude.{
  ℕ, zero, suc, ◌+◌, ◌-◌, ◌*◌, Bool, true, false, not, ◌&&◌, ◌||◌, Option, none, some, List, [],
  ◌∷◌, ◌++◌, leb, ◌==◌, ◌!=◌, if◌then◌else◌, length, take, drop, min, max, is_empty, get_or, set,
}
use sora_transport.Prelude.Run.{Run, returned, threw, out_of_fuel, ◌andthen◌}

-- A `WriteSlot`: the bytes are the first `size` of its buffer.
pub record Slot : Type 0 where
  pub bytes : List ℕ
  pub offset : ℕ
  pub in_flight : Bool

pub record FileWrite : Type 0 where
  pub offset : ℕ
  pub bytes : List ℕ

pub record Sink : Type 0 where
  pub handle_open : Bool
  pub closed : Bool
  pub write_buffer_capacity : ℕ
  pub max_in_flight_write_ops : ℕ
  pub physical_size : ℕ
  pub write_slots : List Slot
  pub available_slots : List ℕ
  pub in_flight_slots : List ℕ
  pub active_slot_index : ℕ
  pub fill_started_at : Option ℕ
  pub calls : ℕ
  pub issued : List FileWrite
  pub landed : List FileWrite

pub data SinkError : Type 0 where
  output_closed write_cancelled open_failed slot_in_flight no_slot : SinkError
  start_failed completion_failed short_write flush_failed close_failed : SinkError

-- How `GetOverlappedResult` ends: with the bytes written, or an error, which tells of an abort or
-- not.
pub data Completion : Type 0 where
  completed : ℕ → Completion
  failed : Bool → Completion

-- The answers of the system by the number of the call, that to a write of `n` bytes also by `n`, and
-- whether the sink is cancelled by then.
pub record Env : Type 0 where
  pub clock : ℕ → ℕ
  pub cancel_requested : ℕ → Bool
  pub start_fails : ℕ → Bool
  pub complete : ℕ → ℕ → Completion
  pub flush_fails : ℕ → Bool
  pub close_fails : ℕ → Bool

abbrev pub empty_slot : Slot
empty_slot = record { bytes = []; offset = 0; in_flight = false }

abbrev pub slot_at : List Slot → ℕ → Slot
slot_at slots i = get_or slots i empty_slot

abbrev pub empty_slots : ℕ → List Slot
empty_slots zero = []
empty_slots (suc n) = empty_slot ∷ empty_slots n

-- The indices from `i` on, `n` of them.
abbrev pub indices : ℕ → ℕ → List ℕ
indices i zero = []
indices i (suc n) = i ∷ indices (suc i) n

abbrev pub buffered_write_batch_size : ℕ
buffered_write_batch_size = 8388608

abbrev pub max_buffered_send_delay : ℕ
max_buffered_send_delay = 100

abbrev pub active_slot : Sink → Slot
active_slot f = slot_at f.write_slots f.active_slot_index

-- The constructor, where the file could be opened. Slots are as large as `capacity`.
unfoldable pub open_sink : ℕ → ℕ → Sink
open_sink capacity max_ops = record {
  handle_open = true;
  closed = false;
  write_buffer_capacity = capacity;
  max_in_flight_write_ops = max 1 max_ops;
  physical_size = 0;
  write_slots = empty_slots (max 1 max_ops + 1);
  available_slots = indices 1 (max 1 max_ops);
  in_flight_slots = [];
  active_slot_index = 0;
  fill_started_at = none;
  calls = 0;
  issued = [];
  landed = [];
}

abbrev pub overdue : ℕ → Option ℕ → Bool
overdue now none = false
overdue now (some start) = leb max_buffered_send_delay (now - start)

module _ (env : Env) where
  abbrev pub drop_slot : ℕ → Sink → Sink
  drop_slot i f = record f {
    write_slots =
        set f.write_slots i (record (slot_at f.write_slots i) { in_flight = false; bytes = [] });
  }

  abbrev pub release_slot : ℕ → Sink → Sink
  release_slot i f = record f {
    write_slots = set f.write_slots i empty_slot;
    available_slots = f.available_slots ++ (i ∷ []);
    landed =
        f.landed
        ++ (record {
          offset = (slot_at f.write_slots i).offset;
          bytes = (slot_at f.write_slots i).bytes;
        }
            ∷ []);
  }

  unfoldable pub finish_write : ℕ → Completion → Sink → Run Sink SinkError
  finish_write i (failed aborted) f = (
    drop_slot i f,
    threw (if env.cancel_requested f.calls && aborted then write_cancelled else completion_failed),
  )
  finish_write i (completed bytes_written) f =
      if bytes_written != length (slot_at f.write_slots i).bytes
      then (drop_slot i f, threw short_write)
      else (release_slot i f, returned)

  abbrev pub wait_front : List ℕ → Sink → Run Sink SinkError
  wait_front [] f = (f, returned)
  wait_front (i ∷ rest) f =
      finish_write i (env.complete f.calls (length (slot_at f.write_slots i).bytes))
        (record f { in_flight_slots = rest; calls = f.calls + 1 })

  unfoldable pub wait_for_one_write : Sink → Run Sink SinkError
  wait_for_one_write f = wait_front f.in_flight_slots f

  -- The loop ends where no write is in flight.
  unfoldable pub wait_all_loop : ℕ → Sink → Run Sink SinkError
  wait_all_loop zero f = if is_empty f.in_flight_slots then (f, returned) else (f, out_of_fuel)
  wait_all_loop (suc fuel) f =
      if is_empty f.in_flight_slots
      then (f, returned)
      else wait_for_one_write f andthen wait_all_loop fuel

  unfoldable pub wait_for_all_writes : Sink → Run Sink SinkError
  wait_for_all_writes f = wait_all_loop (length f.in_flight_slots) f

  unfoldable pub make_room : Sink → Run Sink SinkError
  make_room f =
      if leb f.max_in_flight_write_ops (length f.in_flight_slots)
      then wait_for_one_write f
      else (f, returned)

  -- The slot gets its offset, and keeps it where `WriteFile` fails.
  abbrev pub place_active : Sink → Sink
  place_active f = record f {
    write_slots =
        set f.write_slots f.active_slot_index (record (active_slot f) { offset = f.physical_size });
    calls = f.calls + 1;
  }

  abbrev pub started : Sink → Sink
  started f = record f {
    write_slots =
        set f.write_slots f.active_slot_index
          (record (active_slot f) { offset = f.physical_size; in_flight = true });
    physical_size = f.physical_size + length (active_slot f).bytes;
    in_flight_slots = f.in_flight_slots ++ (f.active_slot_index ∷ []);
    calls = f.calls + 1;
    issued = f.issued ++ (record { offset = f.physical_size; bytes = (active_slot f).bytes } ∷ []);
  }

  unfoldable pub start_write : Sink → Run Sink SinkError
  start_write f =
      if env.start_fails f.calls
      then (
        place_active f,
        threw (if env.cancel_requested (f.calls + 1) then write_cancelled else start_failed),
      )
      else (started f, returned)

  abbrev pub activate : List ℕ → Sink → Run Sink SinkError
  activate [] f = (f, threw no_slot)
  activate (i ∷ rest) f = (
    record f {
      active_slot_index = i;
      available_slots = rest;
      write_slots =
          set f.write_slots i (record (slot_at f.write_slots i) { bytes = []; offset = 0 });
      fill_started_at = none;
    },
    returned,
  )

  unfoldable pub next_slot : Sink → Run Sink SinkError
  next_slot f =
      (if is_empty f.available_slots then wait_for_one_write f else (f, returned))
      andthen (λ g. activate g.available_slots g)

  unfoldable pub submit_active_write : Sink → Run Sink SinkError
  submit_active_write f =
      if env.cancel_requested f.calls
      then (f, threw write_cancelled)
      else if is_empty (active_slot f).bytes
      then (f, returned)
      else if (active_slot f).in_flight
      then (f, threw slot_in_flight)
      else make_room f andthen start_write andthen next_slot

  -- Whether slot `i` is full decides; what is submitted is the slot that is active by then.
  unfoldable pub submit_if_full : ℕ → Sink → Run Sink SinkError
  submit_if_full i f =
      if length (slot_at f.write_slots i).bytes == f.write_buffer_capacity
      then submit_active_write f
      else (f, returned)

  -- The clock was read at `now`, before the copy.
  unfoldable pub copy : ℕ → ℕ → List ℕ → Sink → Sink
  copy i now chunk f = record f {
    write_slots =
        set f.write_slots i
          (record (slot_at f.write_slots i) { bytes = (slot_at f.write_slots i).bytes ++ chunk });
    fill_started_at =
        if is_empty (slot_at f.write_slots i).bytes then some now else f.fill_started_at;
  }

  abbrev pub room : ℕ → Sink → List ℕ → ℕ
  room i f bytes =
      min (f.write_buffer_capacity - length (slot_at f.write_slots i).bytes) (length bytes)

  -- A run, with the bytes that it leaves to write.
  abbrev pub leaving : List ℕ → Run Sink SinkError → Run (Sink × List ℕ) SinkError
  leaving rest r = ((r.0, rest), r.1)

  unfoldable pub copy_round : ℕ → ℕ → Sink × List ℕ → Run (Sink × List ℕ) SinkError
  copy_round i now (f, bytes) =
      leaving (drop (room i f bytes) bytes)
        (submit_if_full i (copy i now (take (room i f bytes) bytes) f))

  -- One round of the loop in `write`: `f` has its clock read at `now`. The slot that is active when
  -- the round starts is the one that it looks at and fills, also after a submission.
  unfoldable pub write_round : ℕ → Sink → List ℕ → Run (Sink × List ℕ) SinkError
  write_round now f bytes =
      if not (is_empty (active_slot f).bytes) && overdue now f.fill_started_at
      then leaving bytes (submit_active_write f)
      else leaving bytes (submit_if_full f.active_slot_index f)
        andthen copy_round f.active_slot_index now

  unfoldable pub write_loop : ℕ → Sink × List ℕ → Run (Sink × List ℕ) SinkError
  write_loop fuel (f, []) = ((f, []), returned)
  write_loop zero (f, x ∷ bytes) = ((f, x ∷ bytes), out_of_fuel)
  write_loop (suc fuel) (f, x ∷ bytes) =
      write_round (env.clock f.calls) (record f { calls = f.calls + 1 }) (x ∷ bytes)
      andthen write_loop fuel

  -- A round copies a byte or empties a slot, so two rounds a byte are enough.
  unfoldable pub write : Sink → List ℕ → Run (Sink × List ℕ) SinkError
  write f bytes =
      if f.closed || not f.handle_open
      then ((f, bytes), threw output_closed)
      else if env.cancel_requested f.calls
      then ((f, bytes), threw write_cancelled)
      else write_loop (2 * length bytes) (f, bytes)

  -- Whatever comes of it, the handle is gone.
  unfoldable pub finish_close : Sink → Run Sink SinkError
  finish_close f = (
    record f { closed = true; handle_open = false; calls = f.calls + 1 },
    if env.flush_fails f.calls
        then threw flush_failed
        else if env.close_fails f.calls
        then threw close_failed
        else returned,
  )

  unfoldable pub close : Sink → Run Sink SinkError
  close f =
      if f.closed
      then (f, returned)
      else if env.cancel_requested f.calls
      then (f, threw write_cancelled)
      else submit_active_write f andthen wait_for_all_writes andthen finish_close
