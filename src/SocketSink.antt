-- ===== src/SocketSink.antt =====
-- `SocketByteSink` (src/detail/io.cpp): data and control frames over one websocket. `wire` records
-- the frames that the websocket took, in order. The lock on sending makes each call one step. What
-- the websocket, the thread that keeps the connection alive and a cancellation do to a call is a
-- parameter by the number of the look at them, and by that of the call of the flush callback for
-- the buffer of control messages. The JSON texts of the two events are parameters.
pub mod Flushes
pub mod Calls
pub mod Sending
pub mod Messages
pub mod Stream
pub mod Session
mod Examples
use sora_transport.Prelude.{
  ℕ, zero, suc, ◌+◌, ◌-◌, ◌*◌, Bool, true, false, not, ◌&&◌, ◌||◌, Option, none, some, List, [],
  ◌∷◌, ◌++◌, map, leb, ltb, ◌==◌, if◌then◌else◌, length, take, drop, min, is_empty,
}
use sora_transport.Prelude.Result.{Result, ok, err}
use sora_transport.Prelude.Run.{Run, Ending, returned, threw, out_of_fuel, ◌andthen◌}
use sora_transport.Protocol.Header.{Channel, data_channel, control_channel, FrameError}
use sora_transport.Protocol.Record.{append_record}
use sora_transport.WriteBuffer as Buffer
use sora_transport.WriteBuffer.{WriteBuffer, Outcome}

abbrev pub socket_io_buffer_size : ℕ
socket_io_buffer_size = 1048576

abbrev pub control_buffer_capacity : ℕ
control_buffer_capacity = 262144

abbrev pub max_buffered_send_delay : ℕ
max_buffered_send_delay = 100

pub record Socket : Type 0 where
  -- the size of `data_buffer`, and its first `data_buffered_size` bytes
  pub data_capacity : ℕ
  pub data_buffer : List ℕ
  pub data_fill_started_at : Option ℕ
  pub transport_active : Bool
  pub control_writer : WriteBuffer
  pub looks : ℕ
  pub wire : List (Channel × List ℕ)

pub data SocketError : Type 0 where
  connection_failed send_cancelled data_write_failed control_write_failed : SocketError
  already_begun not_begun message_too_large : SocketError

pub record Env : Type 0 where
  -- `rethrow_async_error` throws, `cancel_requested` is set, a write to the websocket fails
  pub async_error : ℕ → Bool
  pub cancelled : ℕ → Bool
  -- and then with an error that tells of an abort or not
  pub write_fails : ℕ → Option Bool
  -- the flush callback throws
  pub callback_throws : ℕ → List ℕ → Bool
  pub clock : ℕ → ℕ
  pub control_clock : ℕ → ℕ
  pub begin_payload : Bool → List ℕ
  pub end_payload : List ℕ

unfoldable pub init : ℕ → Socket
init data_capacity = record {
  data_capacity = data_capacity;
  data_buffer = [];
  data_fill_started_at = none;
  transport_active = false;
  control_writer = Buffer.init control_buffer_capacity max_buffered_send_delay;
  looks = 0;
  wire = [];
}

abbrev pub overdue : ℕ → Option ℕ → Bool
overdue now none = false
overdue now (some start) = leb max_buffered_send_delay (now - start)

module _ (env : Env) where
  -- The two tests that begin every call.
  unfoldable pub check : Socket → Run Socket SocketError
  check s = (
    record s { looks = s.looks + 1 },
    if env.async_error s.looks
        then threw connection_failed
        else if env.cancelled s.looks
        then threw send_cancelled
        else returned,
  )

  abbrev pub frame_written :
      Channel → SocketError → List ℕ → Socket → Option Bool → Run Socket SocketError
  frame_written channel error payload s (some aborted) = (
    record s { looks = s.looks + 1 },
    threw (if env.cancelled (s.looks + 1) && aborted then send_cancelled else error),
  )
  frame_written channel error payload s none =
      (record s { looks = s.looks + 1; wire = s.wire ++ ((channel, payload) ∷ []) }, returned)

  -- The frame gets its header on the way to the websocket; Protocol.Frame is about that.
  unfoldable pub send_frame : Channel → SocketError → List ℕ → Socket → Run Socket SocketError
  send_frame channel error payload s =
      frame_written channel error payload s (env.write_fails s.looks)

  unfoldable pub do_send_control_frame : List ℕ → Socket → Run Socket SocketError
  do_send_control_frame payload s =
      check s andthen send_frame control_channel control_write_failed payload

  abbrev pub emptied : Socket → Socket
  emptied s = record s { data_buffer = []; data_fill_started_at = none }

  unfoldable pub flush_data_buffer : Socket → Run Socket SocketError
  flush_data_buffer s =
      if is_empty s.data_buffer
      then (s, returned)
      else check s
        andthen send_frame data_channel data_write_failed s.data_buffer
        andthen (λ t. (emptied t, returned))

  abbrev control_ending : Outcome → Ending SocketError
  control_ending Buffer.returned = returned
  control_ending Buffer.threw = threw control_write_failed
  control_ending Buffer.out_of_fuel = out_of_fuel

  -- A call of the control writer: the spans that its callback sent become control frames.
  abbrev pub with_writer : Socket → WriteBuffer × Outcome → Run Socket SocketError
  with_writer s (c, o) = (
    record s {
      control_writer = c;
      wire =
          s.wire
          ++ map (λ span. (control_channel, span)) (drop (length s.control_writer.sent) c.sent);
    },
    control_ending o,
  )

  unfoldable pub flush_control : Socket → Run Socket SocketError
  flush_control s =
      with_writer s (Buffer.flush (some env.callback_throws) env.control_clock s.control_writer)

  unfoldable pub write_control : List ℕ → Socket → Run Socket SocketError
  write_control bytes s =
      with_writer s
        (Buffer.write (some env.callback_throws) env.control_clock s.control_writer bytes)

  unfoldable pub flush_both : Socket → Run Socket SocketError
  flush_both s = flush_data_buffer s andthen flush_control

  abbrev activated : Bool → Socket → Run Socket SocketError
  activated active s = (record s { transport_active = active }, returned)

  unfoldable pub send_transport_begin : Bool → Socket → Run Socket SocketError
  send_transport_begin file_comparison s = check s andthen (λ t.
      if t.transport_active
      then (t, threw already_begun)
      else flush_both t
        andthen do_send_control_frame (env.begin_payload file_comparison)
        andthen activated true)

  unfoldable pub send_transport_end : Socket → Run Socket SocketError
  send_transport_end s = check s andthen (λ t.
      if not t.transport_active
      then (t, threw not_begun)
      else flush_both t andthen do_send_control_frame env.end_payload andthen activated false)

  unfoldable pub close : Socket → Run Socket SocketError
  close s = check s andthen flush_both

  unfoldable pub flush_control_buffer : Socket → Run Socket SocketError
  flush_control_buffer s = check s andthen flush_control

  abbrev pub send_record : Result FrameError (List ℕ) → Socket → Run Socket SocketError
  send_record (err e) s = (s, threw message_too_large)
  send_record (ok bytes) s =
      if ltb control_buffer_capacity (length bytes)
      then flush_control s andthen do_send_control_frame bytes
      else (if ltb control_buffer_capacity (length s.control_writer.buffered + length bytes)
          then flush_control s
          else (s, returned))
        andthen write_control bytes

  unfoldable pub send_control_message : List ℕ → Socket → Run Socket SocketError
  send_control_message json_payload s =
      check s andthen flush_data_buffer andthen send_record (append_record [] json_payload)

  -- A copy into the data buffer; the clock was read before it.
  abbrev pub copy : List ℕ → Socket → Socket
  copy chunk s = record s {
    data_buffer = s.data_buffer ++ chunk;
    data_fill_started_at =
        if is_empty s.data_buffer then some (env.clock s.looks) else s.data_fill_started_at;
    looks = s.looks + 1;
  }

  unfoldable pub flush_if_due : ℕ → Socket → Run Socket SocketError
  flush_if_due now s =
      if length s.data_buffer == s.data_capacity || overdue now s.data_fill_started_at
      then flush_data_buffer s
      else (s, returned)

  abbrev pub room : Socket → List ℕ → ℕ
  room s bytes = min (s.data_capacity - length s.data_buffer) (length bytes)

  abbrev pub leaving : List ℕ → Run Socket SocketError → Run (Socket × List ℕ) SocketError
  leaving rest r = ((r.0, rest), r.1)

  -- One round of the loop in `write`, and the bytes that it leaves.
  unfoldable pub write_round : Socket → List ℕ → Run (Socket × List ℕ) SocketError
  write_round s bytes =
      if s.data_capacity - length s.data_buffer == 0
      then leaving bytes (flush_data_buffer s)
      else leaving (drop (room s bytes) bytes)
          (flush_if_due (env.clock s.looks) (copy (take (room s bytes) bytes) s))

  unfoldable pub write_loop : ℕ → Socket × List ℕ → Run (Socket × List ℕ) SocketError
  write_loop fuel (s, []) = ((s, []), returned)
  write_loop zero (s, x ∷ bytes) = ((s, x ∷ bytes), out_of_fuel)
  write_loop (suc fuel) (s, x ∷ bytes) = write_round s (x ∷ bytes) andthen write_loop fuel

  -- A round copies a byte or makes room, so two rounds a byte are enough.
  unfoldable pub write : List ℕ → Socket → Run (Socket × List ℕ) SocketError
  write bytes s = leaving bytes (check s) andthen (λ q.
      if not q.0.transport_active
      then (q, threw not_begun)
      else leaving bytes (flush_control q.0) andthen write_loop (2 * length bytes))
