-- ===== src/FileSink/Examples.antt =====
-- Runs of the theorems on the file sink at concrete inputs.
use sora_transport.Prelude.{ℕ, false, List, [], ◌∷◌, arith, flat}
use sora_transport.Prelude.Run.{Ends}
use sora_transport.FileSink.{Env, completed, open_sink, write, close}
use sora_transport.FileSink.Slots.{open_sink-Inv, open_sink_roomy, open_sink-opened}
use sora_transport.FileSink.Wait.{Stopped}
use sora_transport.FileSink.Copy.{Broke}
use sora_transport.FileSink.Written.{Took, write-Took}
use sora_transport.FileSink.Close.{Saved, close-Saved}
use sora_transport.FileSink.Save.{Stored, Partial, save, save-Stored}

-- A system that serves everything, with a second between two readings of the clock.
abbrev served : Env
served = record {
  clock = λ k. k;
  cancel_requested = λ k. false;
  start_fails = λ k. false;
  complete = λ k n. completed n;
  flush_fails = λ k. false;
  close_fails = λ k. false;
}

abbrev five : List ℕ
five = 1 ∷ 2 ∷ 3 ∷ 4 ∷ 5 ∷ []

write-Took_example :
    Ends
      (Took served (open_sink 2 1, five))
      (Broke served (open_sink 2 1, five))
      (write served (open_sink 2 1) five)
write-Took_example =
    write-Took served (open_sink 2 1) five (open_sink-Inv 2 1 (omega arith))
      (open_sink_roomy 2 1 (omega arith)) (open_sink-opened 2 1).0 (open_sink-opened 2 1).1

close-Saved_example :
    Ends (Saved (open_sink 2 1)) (Stopped served (open_sink 2 1)) (close served (open_sink 2 1))
close-Saved_example =
    close-Saved served (open_sink 2 1) (open_sink-Inv 2 1 (omega arith)) (open_sink-opened 2 1).0

save-Stored_example :
    Ends
      (Stored (flat (five ∷ five ∷ [])))
      (Partial served (flat (five ∷ five ∷ [])))
      (save served 2 3 (five ∷ five ∷ []))
save-Stored_example = save-Stored served 2 3 (five ∷ five ∷ []) (omega arith)
