-- ===== src/SocketSource.antt =====
-- `SocketByteSource` (src/detail/io.cpp): what the receiver makes of the messages of the websocket.
-- `incoming` are the answers that its reads will give. The JSON library is a parameter: `kind` says
-- what a text is. The handler of control messages between the data is one, too: whether there is
-- one, and on which texts it throws; `handled` records the texts it was called with.
pub mod Stream
pub mod Waiting
mod Examples
use sora_transport.Prelude.{
  ℕ, zero, suc, ◌+◌, ◌-◌, Bool, true, false, not, ◌&&◌, ◌||◌, Option, none, some, List, [], ◌∷◌,
  ◌++◌, ltb, leb, ◌==◌, ◌!=◌, if◌then◌else◌, length, take, drop, min, is_empty,
}
use sora_transport.Prelude.Result.{Result, ok, err}
use sora_transport.Prelude.Run.{Run, returned, threw, out_of_fuel, ◌andthen◌}
use sora_transport.Protocol.Header.{Header, FrameError, channel_byte, control_channel}
use sora_transport.Protocol.Frame.{parse_frame}
use sora_transport.Protocol.Record.{decode}

-- What one read of the websocket gives: a message, the end of the connection, or an error, which
-- tells of an abort or not.
pub data Incoming : Type 0 where
  message : List ℕ → Incoming
  closed : Incoming
  failed : Bool → Incoming

-- What the JSON library and the reading of events make of a text.
pub data Kind : Type 0 where
  unparsable not_object bad_event begin_event end_event other_event plain : Kind

pub record Source : Type 0 where
  pub active_message : List ℕ
  pub active_offset : ℕ
  pub pending_control_messages : List (List ℕ)
  pub transport_active : Bool
  pub transport_finished : Bool
  pub file_comparison_enabled : Bool
  pub cancel_requested : Bool
  pub socket_closed : Bool
  pub incoming : List Incoming
  pub handled : List (List ℕ)

pub data ReceiveError : Type 0 where
  receive_cancelled read_failed connection_closed not_begun : ReceiveError
  bad_frame : FrameError → ReceiveError
  unexpected_data unexpected_begin unexpected_end unexpected_event unexpected_message : ReceiveError
  bad_json handler_failed end_with_others : ReceiveError

pub record Env : Type 0 where
  pub kind : List ℕ → Kind
  -- the optional mark of a begin event
  pub compares_files : List ℕ → Bool
  pub has_handler : Bool
  pub handler_throws : List ℕ → Bool

-- A read of the websocket after which the connection is closed gives its end again.
abbrev pub next_incoming : List Incoming → Incoming
next_incoming [] = closed
next_incoming (i ∷ is) = i

abbrev pub later : List Incoming → List Incoming
later [] = []
later (i ∷ is) = is

-- A frame, or that the connection is at its end.
pub data Frame : Type 0 where
  got : Bool → List ℕ → Frame
  no_frame : Frame

module _ (env : Env) where
  abbrev pub frame_parsed :
      {R : Type 0}
      → Source
      → Result FrameError (Header × List ℕ)
      → (Frame → Source → Run (Source × R) ReceiveError)
      → R
      → Run (Source × R) ReceiveError
  frame_parsed s (err e) next so_far = ((s, so_far), threw (bad_frame e))
  frame_parsed s (ok (header, payload)) next so_far =
      next (got (header.channel == channel_byte control_channel) payload) s

  abbrev pub received :
      {R : Type 0}
      → Source
      → Incoming
      → (Frame → Source → Run (Source × R) ReceiveError)
      → R
      → Run (Source × R) ReceiveError
  received s closed next so_far = next no_frame (record s { socket_closed = true })
  received s (failed aborted) next so_far = (
    (s, so_far),
    threw (if s.cancel_requested && aborted then receive_cancelled else read_failed),
  )
  received s (message raw) next so_far = frame_parsed s (parse_frame raw) next so_far

  -- `next` is what the caller does with the frame, and `so_far` what it has got when this throws.
  unfoldable pub read_next_frame :
      {R : Type 0}
      → Source
      → (Frame → Source → Run (Source × R) ReceiveError)
      → R
      → Run (Source × R) ReceiveError
  read_next_frame s next so_far =
      received (record s { incoming = later s.incoming }) (next_incoming s.incoming) next so_far

  -- The messages of a control frame between the data; the Boolean tells of the end event so far.
  pub data Handled : Type 0 where
    done : Source → Bool → Handled
    broken : Source → ReceiveError → Handled

  abbrev pub handle_message : List ℕ → Source → Bool → (Source → Bool → Handled) → Kind → Handled
  handle_message text s ended next unparsable = broken s bad_json
  handle_message text s ended next bad_event = broken s bad_json
  handle_message text s ended next begin_event = broken s unexpected_begin
  handle_message text s ended next other_event = broken s unexpected_event
  handle_message text s ended next end_event = next s true
  handle_message text s ended next _ =
      if not env.has_handler
      then broken s unexpected_message
      else if env.handler_throws text
      then broken (record s { handled = s.handled ++ (text ∷ []) }) handler_failed
      else next (record s { handled = s.handled ++ (text ∷ []) }) ended

  unfoldable pub handle_all : List (List ℕ) → Source → Bool → Handled
  handle_all [] s ended = done s ended
  handle_all (text ∷ texts) s ended = handle_message text s ended (handle_all texts) (env.kind text)

  abbrev pub finished : Source → Source
  finished s = record s { transport_active = false; transport_finished = true }

  -- The end of a control frame between the data; `more` goes on with the loop.
  abbrev pub frame_handled :
      List (List ℕ)
      → List ℕ
      → (Source → List ℕ → Run (Source × List ℕ) ReceiveError)
      → Handled
      → Run (Source × List ℕ) ReceiveError
  frame_handled messages copied more (broken s e) = ((s, copied), threw e)
  frame_handled messages copied more (done s false) = more s copied
  frame_handled messages copied more (done s true) =
      if ltb 1 (length messages)
      then ((s, copied), threw end_with_others)
      else ((finished s, copied), returned)

  abbrev pub on_data_frame :
      List ℕ
      → (Source → List ℕ → Run (Source × List ℕ) ReceiveError)
      → Frame
      → Source
      → Run (Source × List ℕ) ReceiveError
  on_data_frame copied more no_frame s =
      ((s, copied), if is_empty copied then threw connection_closed else returned)
  on_data_frame copied more (got true payload) s =
      frame_handled (decode payload) copied more (handle_all (decode payload) s false)
  on_data_frame copied more (got false payload) s =
      more (record s { active_message = payload }) copied

  abbrev pub unconsumed : Source → List ℕ
  unconsumed s = drop s.active_offset s.active_message

  abbrev pub without_message : Source → Source
  without_message s = record s { active_message = []; active_offset = 0 }

  -- A round copies what the message has. Only a message that is not used up ends the call here: one
  -- that ends with the last byte wanted is followed by the read of the next frame.
  unfoldable pub read_loop : ℕ → ℕ → Source → List ℕ → Run (Source × List ℕ) ReceiveError
  read_loop zero want s copied = ((s, copied), out_of_fuel)
  read_loop (suc fuel) want s copied =
      let n = min (length (unconsumed s)) (want - length copied) in
      let out = copied ++ take n (unconsumed s) in
      let next =
        read_next_frame (without_message s) (on_data_frame out (read_loop fuel want)) out in
      if leb want (length copied)
      then ((s, copied), returned)
      else if ltb (s.active_offset + n) (length s.active_message)
      then ((record s { active_offset = s.active_offset + n }, out), returned)
      else next

  -- A round takes a message of the websocket, or ends at the end of the connection.
  unfoldable pub read : Source → ℕ → Run (Source × List ℕ) ReceiveError
  read s want =
      if want == 0
      then ((s, []), returned)
      else if s.cancel_requested
      then ((s, []), threw receive_cancelled)
      else if not s.transport_active
      then ((s, []), if s.transport_finished then returned else threw not_begun)
      else read_loop (length s.incoming + 2) want s []

  -- What the wait for the begin does with the text of a control frame.
  abbrev pub on_begin :
      List ℕ
      → (Source → Run (Source × Bool) ReceiveError)
      → Source
      → Kind
      → Run (Source × Bool) ReceiveError
  on_begin text more s begin_event = (
    (
      record s {
        transport_active = true;
        file_comparison_enabled = s.file_comparison_enabled || env.compares_files text;
      },
      true,
    ),
    returned,
  )
  on_begin text more s end_event = ((s, false), threw unexpected_end)
  on_begin text more s other_event = more s
  on_begin text more s _ = ((s, false), threw bad_json)

  abbrev pub on_first_frame :
      (Source → Run (Source × Bool) ReceiveError)
      → Frame
      → Source
      → Run (Source × Bool) ReceiveError
  on_first_frame more no_frame s = ((s, false), returned)
  on_first_frame more (got false payload) s = ((s, false), threw unexpected_data)
  on_first_frame more (got true payload) s = on_begin payload more s (env.kind payload)

  unfoldable pub await_begin_loop : ℕ → Source → Run (Source × Bool) ReceiveError
  await_begin_loop zero s = ((s, false), out_of_fuel)
  await_begin_loop (suc fuel) s = read_next_frame s (on_first_frame (await_begin_loop fuel)) false

  unfoldable pub await_transport_begin : Source → Run (Source × Bool) ReceiveError
  await_transport_begin s =
      if s.cancel_requested
      then ((s, false), threw receive_cancelled)
      else await_begin_loop (length s.incoming + 1) (record (without_message s) {
        transport_finished = false;
        file_comparison_enabled = false;
      })

  -- The first message of a control frame; the others wait.
  abbrev pub on_message : List ℕ → Source → Kind → Run (Source × Option (List ℕ)) ReceiveError
  on_message text s unparsable = ((s, none), threw bad_json)
  on_message text s not_object = ((s, none), threw bad_json)
  on_message text s bad_event = ((s, none), threw bad_json)
  on_message text s begin_event = ((s, none), threw unexpected_begin)
  on_message text s _ = ((s, some text), returned)

  abbrev pub on_messages :
      (Source → Run (Source × Option (List ℕ)) ReceiveError)
      → Source
      → List (List ℕ)
      → Run (Source × Option (List ℕ)) ReceiveError
  on_messages more s [] = more s
  on_messages more s (text ∷ texts) =
      on_message text (record s { pending_control_messages = s.pending_control_messages ++ texts })
        (env.kind text)

  abbrev pub on_control_frame :
      (Source → Run (Source × Option (List ℕ)) ReceiveError)
      → Frame
      → Source
      → Run (Source × Option (List ℕ)) ReceiveError
  on_control_frame more no_frame s = ((s, none), returned)
  on_control_frame more (got false payload) s = ((s, none), threw unexpected_data)
  on_control_frame more (got true payload) s = on_messages more s (decode payload)

  abbrev pub pending_or :
      Source
      → List (List ℕ)
      → Run (Source × Option (List ℕ)) ReceiveError
      → Run (Source × Option (List ℕ)) ReceiveError
  pending_or s [] otherwise = otherwise
  pending_or s (text ∷ texts) otherwise =
      ((record s { pending_control_messages = texts }, some text), returned)

  unfoldable pub await_message_loop : ℕ → Source → Run (Source × Option (List ℕ)) ReceiveError
  await_message_loop zero s = ((s, none), out_of_fuel)
  await_message_loop (suc fuel) s =
      pending_or s s.pending_control_messages
        (read_next_frame s (on_control_frame (await_message_loop fuel)) none)

  unfoldable pub await_control_message : Source → Run (Source × Option (List ℕ)) ReceiveError
  await_control_message s =
      if s.cancel_requested
      then ((s, none), threw receive_cancelled)
      else await_message_loop (length s.incoming + 1) s
