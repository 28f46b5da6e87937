-- ===== src/SocketSink/Session.antt =====
-- Any sequence of calls of a `SocketByteSink`: what the websocket gets of them.
use sora_transport.Prelude.{
  ℕ, ◌<◌, ◌≡◌, refl, sym, ap, ◌∙◌, subst, Bool, true, false, List, [], ◌∷◌, ◌++◌, length, arith,
  append-nil, append_assoc, All, inl,
}
use sora_transport.Prelude.Run.{
  Run, returned, threw, out_of_fuel, Ends, andthen-Ends, Ends-weaken, ◌andthen◌,
}
use sora_transport.Protocol.Header.{Channel, data_channel, control_channel}
use sora_transport.WriteBuffer as Buffer
use sora_transport.SocketSink.{
  Socket, SocketError, Env, init, send_transport_begin, send_transport_end, write,
  send_control_message, flush_control_buffer, close, control_buffer_capacity,
  max_buffered_send_delay,
}
use sora_transport.SocketSink.Calls.{Cut-longer, IsWhole, tagged, wire_bytes, At, Cut}
use sora_transport.SocketSink.Sending.{Waits, nothing-IsWhole}
use sora_transport.SocketSink.Messages.{
  message_bytes, Turned, send_control_message-Adds, send_transport_begin-Adds,
  send_transport_end-Adds, close-Waits, flush_control_buffer-At,
}
use sora_transport.SocketSink.Stream.{Written, Lost, write-Adds}

pub data Call : Type 0 where
  begin_call : Bool → Call
  end_call : Call
  data_call : List ℕ → Call
  message_call : List ℕ → Call
  flush_call close_call : Call

-- Calls in turn from a transport that is on or off: it begins only where it is off, and carries
-- data and ends only where it is on.
pub data Session : Bool → List Call → Bool → Type 0 where
  start : {from : Bool} → Session from [] from
  begun :
      {from to : Bool} {calls : List Call} (b : Bool)
      → from ≡ false
      → Session true calls to
      → Session from (begin_call b ∷ calls) to
  ended :
      {from to : Bool} {calls : List Call}
      → from ≡ true
      → Session false calls to
      → Session from (end_call ∷ calls) to
  written :
      {from to : Bool} {calls : List Call} (bytes : List ℕ)
      → from ≡ true
      → Session from calls to
      → Session from (data_call bytes ∷ calls) to
  told :
      {from to : Bool} {calls : List Call} (json : List ℕ)
      → Session from calls to
      → Session from (message_call json ∷ calls) to
  flushed :
      {from to : Bool} {calls : List Call}
      → Session from calls to
      → Session from (flush_call ∷ calls) to
  closed :
      {from to : Bool} {calls : List Call}
      → Session from calls to
      → Session from (close_call ∷ calls) to

init_shape :
    ((Buffer.init control_buffer_capacity max_buffered_send_delay).capacity
      ≡ control_buffer_capacity)
    × ((Buffer.init control_buffer_capacity max_buffered_send_delay).buffered ≡ [])
unfolding Buffer.init
init_shape = (refl, refl)

abbrev pub IsSendable : Call → Type 0
IsSendable (message_call json) = 0 < length json
IsSendable call = Unit {0}

module _ (env : Env) where
  abbrev pub run_call : Call → Socket → Run Socket SocketError
  run_call (begin_call b) s = send_transport_begin env b s
  run_call end_call s = send_transport_end env s
  run_call (data_call bytes) s = ((write env bytes s).0.0, (write env bytes s).1)
  run_call (message_call json) s = send_control_message env json s
  run_call flush_call s = flush_control_buffer env s
  run_call close_call s = close env s

  pub run : List Call → Socket → Run Socket SocketError
  run [] s = (s, returned)
  run (call ∷ calls) s = run_call call s andthen run calls

  -- The bytes of a call and their channels.
  abbrev pub submitted : Call → List (Channel × ℕ)
  submitted (begin_call b) = tagged control_channel (env.begin_payload b)
  submitted end_call = tagged control_channel env.end_payload
  submitted (data_call bytes) = tagged data_channel bytes
  submitted (message_call json) = message_bytes json
  submitted flush_call = []
  submitted close_call = []

  abbrev pub all_submitted : List Call → List (Channel × ℕ)
  all_submitted [] = []
  all_submitted (call ∷ calls) = submitted call ++ all_submitted calls

  module _ (capacity : ℕ) (positive : 0 < capacity) where
    -- One call from a transport that is `from`: it can be put before any session that follows it.
    record Called (x : List (Channel × ℕ)) (from : Bool) (call : Call) (t : Socket) : Type 0 where
      turn : Bool
      at : At env capacity (x ++ submitted call) turn t
      before :
          {calls : List Call} {to : Bool} → Session turn calls to → Session from (call ∷ calls) to

    as_call :
        (x : List (Channel × ℕ)) (from : Bool) (call : Call) (Good : Socket → Type 0)
        (r : Run Socket SocketError)
        → Ends Good (Cut env capacity (x ++ submitted call)) r
        → ((t : Socket) → Good t → Called x from call t)
        → Ends (Called x from call) (Cut env capacity (x ++ submitted call)) r
    as_call x from call Good r h f =
        Ends-weaken Good (Cut env capacity (x ++ submitted call)) (Called x from call)
          (Cut env capacity (x ++ submitted call)) r h f (λ t c. c)

    run_call-Called :
        (x : List (Channel × ℕ)) (from : Bool) (call : Call) (s : Socket)
        → At env capacity x from s
        → IsSendable call
        → Ends (Called x from call) (Cut env capacity (x ++ submitted call)) (run_call call s)
    run_call-Called x from (begin_call b) s a h =
        as_call x from (begin_call b)
          (Turned env capacity x from (submitted (begin_call b)) false true)
          (send_transport_begin env b s) (send_transport_begin-Adds env capacity x from b s a)
          (λ t v. record { turn = true; at = v.0; before = λ q. begun b v.1 q })
    run_call-Called x from end_call s a h =
        as_call x from end_call (Turned env capacity x from (submitted end_call) true false)
          (send_transport_end env s) (send_transport_end-Adds env capacity x from s a)
          (λ t v. record { turn = false; at = v.0; before = λ q. ended v.1 q })
    run_call-Called x from (data_call bytes) s a h =
        Ends_of_pair (write env bytes s) (write-Adds env capacity positive x from bytes s a)
      where
        Ends_of_pair :
            (r : Run (Socket × List ℕ) SocketError)
            → Ends
                (Written env capacity positive x from bytes)
                (Lost env capacity positive x bytes)
                r
            → Ends
                (Called x from (data_call bytes))
                (Cut env capacity (x ++ tagged data_channel bytes))
                (r.0.0, r.1)
        Ends_of_pair (q, returned) v = record {
          turn = from;
          at = v.0;
          before = λ p. written bytes v.1 p;
        }
        Ends_of_pair (q, threw e) c = c
        Ends_of_pair (q, out_of_fuel) c = c
    run_call-Called x from (message_call json) s a h =
        as_call x from (message_call json) (At env capacity (x ++ message_bytes json) from)
          (send_control_message env json s)
          (send_control_message-Adds env capacity x from json s a h)
          (λ t v. record { turn = from; at = v; before = λ q. told json q })
    run_call-Called x from flush_call s a h =
        Ends-weaken (At env capacity x from) (Cut env capacity x) (Called x from flush_call)
          (Cut env capacity (x ++ [])) (flush_control_buffer env s)
          (flush_control_buffer-At env capacity x from s a)
          (λ t v. record {
            turn = from;
            at = subst (λ y. At env capacity y from t) (sym (append-nil x)) v;
            before = λ q. flushed q;
          })
          (λ t c. subst (λ y. Cut env capacity y t) (sym (append-nil x)) c)
    run_call-Called x from close_call s a h =
        Ends-weaken (Waits env capacity x from [] []) (Cut env capacity x)
          (Called x from close_call) (Cut env capacity (x ++ [])) (close env s)
          (close-Waits env capacity x from s a)
          (λ t v. record {
            turn = from;
            at = subst (λ y. At env capacity y from t) (sym (append-nil x)) v.at;
            before = λ q. closed q;
          })
          (λ t c. subst (λ y. Cut env capacity y t) (sym (append-nil x)) c)

    -- A run that returned: it was a session, and all bytes of its calls went through in order.
    pub record Ran (x : List (Channel × ℕ)) (from : Bool) (calls : List Call) (t : Socket)
        : Type 0 where
      pub turn : Bool
      pub session : Session from calls turn
      pub at : At env capacity (x ++ all_submitted calls) turn t

    run-Ran :
        (x : List (Channel × ℕ)) (from : Bool) (calls : List Call) (s : Socket)
        → At env capacity x from s
        → All IsSendable calls
        → Ends (Ran x from calls) (Cut env capacity (x ++ all_submitted calls)) (run calls s)
    unfolding run
    run-Ran x from [] s a h = record {
      turn = from;
      session = start;
      at = subst (λ y. At env capacity y from s) (sym (append-nil x)) a;
    }
    run-Ran x from (call ∷ calls) s a h =
        andthen-Ends (Called x from call) (Cut env capacity (x ++ submitted call))
          (Ran x from (call ∷ calls)) (Cut env capacity (x ++ all_submitted (call ∷ calls))) _
          (run calls) (run_call-Called x from call s a h.0)
          (λ t c.
            subst (λ y. Cut env capacity y t)
              (append_assoc x (submitted call) (all_submitted calls))
              (Cut-longer env capacity (x ++ submitted call) (all_submitted calls) t c))
          (λ t c.
            Ends-weaken (Ran (x ++ submitted call) c.turn calls)
              (Cut env capacity ((x ++ submitted call) ++ all_submitted calls))
              (Ran x from (call ∷ calls)) (Cut env capacity (x ++ all_submitted (call ∷ calls))) _
              (run-Ran (x ++ submitted call) c.turn calls t c.at h.1)
              (λ u r. record {
                turn = r.turn;
                session = c.before r.session;
                at =
                    subst (λ y. At env capacity y r.turn u)
                      (append_assoc x (submitted call) (all_submitted calls)) r.at;
              })
              (λ u r.
                subst (λ y. Cut env capacity y u)
                  (append_assoc x (submitted call) (all_submitted calls)) r))

    init-At : At env capacity [] false (init capacity)
    unfolding init
    init-At = record {
      fine = record {
        data_capacity_is = refl;
        control_capacity_is = init_shape.0;
        data_room = omega arith;
        control_room = omega (arith, ap length init_shape.1);
        one_side = inl refl;
        whole = subst IsWhole (sym init_shape.1) nothing-IsWhole;
        frames = tt;
      };
      all = ap (tagged control_channel) init_shape.1;
      active_is = refl;
    }

  -- Any calls on a new socket sink, with messages that are not empty, come to an end. If none throws,
  -- they were a session: a begin only where the transport was off, data and an end only where it
  -- was on. Then all their bytes, each with the channel it belongs to, are in the frames sent,
  -- followed by the buffers, in the order of the calls, though they go through two buffers. If one
  -- throws, what is in the frames and buffers is the first part of these bytes. In both cases a data
  -- frame has between one byte and the size of the buffer, and a control frame holds one of the
  -- events or whole records.
  pub run_calls_in_order :
      (capacity : ℕ) (calls : List Call) (positive : 0 < capacity)
      → All IsSendable calls
      → Ends
          (Ran capacity positive [] false calls)
          (Cut env capacity (all_submitted calls))
          (run calls (init capacity))
  run_calls_in_order capacity calls positive h =
      run-Ran capacity positive [] false calls (init capacity) (init-At capacity positive) h

  -- All bytes of the calls are on the wire, in their order.
  pub record Delivered (calls : List Call) (t : Socket) : Type 0 where
    pub turn : Bool
    pub session : Session false calls turn
    pub delivered : wire_bytes t.wire ≡ all_submitted calls

  -- If calls on a new socket sink, and a `close` after them, all return, then the frames sent hold the
  -- bytes of the calls, each on its channel, in the order of the calls, and no byte waits.
  pub run_closed :
      (capacity : ℕ) (calls : List Call)
      → 0 < capacity
      → All IsSendable calls
      → Ends
          (Delivered calls)
          (Cut env capacity (all_submitted calls))
          (run calls (init capacity) andthen close env)
  run_closed capacity calls positive h =
      andthen-Ends (Ran capacity positive [] false calls) (Cut env capacity (all_submitted calls))
        (Delivered calls) (Cut env capacity (all_submitted calls)) _ (close env)
        (run_calls_in_order capacity calls positive h) (λ t c. c)
        (λ t r.
          Ends-weaken (Waits env capacity (all_submitted calls) r.turn [] [])
            (Cut env capacity (all_submitted calls)) (Delivered calls)
            (Cut env capacity (all_submitted calls)) (close env t)
            (close-Waits env capacity (all_submitted calls) r.turn t r.at)
            (λ u w. record {
              turn = r.turn;
              session = r.session;
              delivered =
                  sym (append-nil (wire_bytes u.wire))
                  ∙ sym (
                      ap
                        (λ bs.
                          wire_bytes u.wire
                          ++ (tagged data_channel u.data_buffer ++ tagged control_channel bs))
                        w.control_waits
                      ∙ ap (λ bs. wire_bytes u.wire ++ (tagged data_channel bs ++ [])) w.bytes_wait)
                  ∙ w.at.all;
            })
            (λ u c. c))
