-- ===== src/SocketSink/Examples.antt =====
-- Runs of the theorems on the socket sink at concrete inputs.
use sora_transport.Prelude.{◌<◌, false, none, List, [], ◌∷◌, All, arith}
use sora_transport.Prelude.Run.{Ends, ◌andthen◌}
use sora_transport.SocketSink.{Env, init, close}
use sora_transport.SocketSink.Calls.{Cut}
use sora_transport.SocketSink.Session.{
  Call, begin_call, end_call, data_call, message_call, IsSendable, run, all_submitted, Ran,
  Delivered, run_calls_in_order, run_closed,
}

-- A connection that serves everything.
abbrev served : Env
served = record {
  async_error = λ k. false;
  cancelled = λ k. false;
  write_fails = λ k. none;
  callback_throws = λ k bytes. false;
  clock = λ k. k;
  control_clock = λ k. k;
  begin_payload = λ b. 123 ∷ 98 ∷ 125 ∷ [];
  end_payload = 123 ∷ 101 ∷ 125 ∷ [];
}

abbrev calls : List Call
calls =
    begin_call false
    ∷ data_call (1 ∷ 2 ∷ 3 ∷ [])
    ∷ message_call (123 ∷ 125 ∷ [])
    ∷ data_call (4 ∷ [])
    ∷ end_call
    ∷ []

abbrev sendable : All IsSendable calls
sendable = (tt, (tt, (omega arith, (tt, (tt, tt)))))

roomy : 0 < 2
roomy = omega arith

run_calls_in_order_example :
    Ends
      (Ran served 2 roomy [] false calls)
      (Cut served 2 (all_submitted served calls))
      (run served calls (init 2))
run_calls_in_order_example = run_calls_in_order served 2 calls roomy sendable

run_closed_example :
    Ends
      (Delivered served calls)
      (Cut served 2 (all_submitted served calls))
      (run served calls (init 2) andthen close served)
run_closed_example = run_closed served 2 calls roomy sendable
