-- ===== src/SocketSource/Examples.antt =====
-- A run of the theorem on the socket source at a concrete input.
use sora_transport.Prelude.{
  ◌<◌, refl, false, true, ◌==◌, if◌then◌else◌, length, List, [], ◌∷◌, inl, arith,
}
use sora_transport.Prelude.Run.{Ends}
use sora_transport.Protocol.Header.{Header, data_channel, control_channel}
use sora_transport.Protocol.Frame.{frame}
use sora_transport.Protocol.Record.{decode}
use sora_transport.Protocol.Frame.RoundTrip.{parse_frame-frame}
use sora_transport.SocketSource.{Env, Source, Incoming, message, end_event, plain, read}
use sora_transport.SocketSource.Stream.{
  Feeds, Open, Got, data_frame, control_frame, ending, read-Got,
}
use sora_transport.SocketSource.{await_control_message}
use sora_transport.SocketSource.Waiting.{
  Awaits, Gave, frame_of, nothing_more, await_control_message-Gave,
}

-- A text of three bytes is the end event, any other is for the handler.
abbrev listening : Env
listening = record {
  kind = λ text. if length text == 3 then end_event else plain;
  compares_files = λ text. false;
  has_handler = true;
  handler_throws = λ text. false;
}

abbrev frames : List Incoming
frames =
    message (frame control_channel (80 ∷ []))
    ∷ message (frame data_channel (3 ∷ 4 ∷ []))
    ∷ message (frame control_channel (123 ∷ 101 ∷ 125 ∷ []))
    ∷ []

abbrev reading : Source
reading = record {
  active_message = 9 ∷ 1 ∷ 2 ∷ [];
  active_offset = 1;
  pending_control_messages = [];
  transport_active = true;
  transport_finished = false;
  file_comparison_enabled = false;
  cancel_requested = false;
  socket_closed = false;
  incoming = frames;
  handled = [];
}

frames_feed : Feeds listening frames (3 ∷ 4 ∷ [])
unfolding decode sora_transport.Protocol.Header.make
frames_feed =
    control_frame _ _ _ (parse_frame-frame control_channel (80 ∷ []) (omega arith)) refl
      ((inl refl, refl, refl), tt)
      (data_frame _ _ _ (parse_frame-frame data_channel (3 ∷ 4 ∷ []) (omega arith)) refl (
        ending _ _ _ _ (parse_frame-frame control_channel (123 ∷ 101 ∷ 125 ∷ []) (omega arith)) refl
          refl refl))

reading-Open : Open listening (1 ∷ 2 ∷ 3 ∷ 4 ∷ []) reading
reading-Open = record {
  active = refl;
  calm = refl;
  more = 3 ∷ 4 ∷ [];
  feeds = frames_feed;
  comes = refl;
}

three : 0 < 3
three = omega arith

read-Got_example : Ends (Got listening 3 (1 ∷ 2 ∷ 3 ∷ 4 ∷ [])) (λ q. ⊥) (read listening reading 3)
read-Got_example = read-Got listening (1 ∷ 2 ∷ 3 ∷ 4 ∷ []) reading 3 three reading-Open

-- A message waits, and a control frame brings another.
abbrev waiting : Source
waiting = record reading { pending_control_messages = (81 ∷ []) ∷ [] }

waiting-Awaits : Awaits ((81 ∷ []) ∷ (80 ∷ []) ∷ []) waiting
unfolding decode sora_transport.Protocol.Header.make
waiting-Awaits = record {
  brought = (80 ∷ []) ∷ [];
  brings =
      frame_of _ _ _ (parse_frame-frame control_channel (80 ∷ []) (omega arith)) refl nothing_more;
  in_turn = refl;
}

await_control_message-Gave_example :
    Ends (Gave (81 ∷ []) ((80 ∷ []) ∷ [])) (λ q. ⊥) (await_control_message listening waiting)
await_control_message-Gave_example =
    await_control_message-Gave listening waiting (81 ∷ []) ((80 ∷ []) ∷ []) refl waiting-Awaits
      (inl refl)
