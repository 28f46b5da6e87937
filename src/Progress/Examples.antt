-- ===== src/Progress/Examples.antt =====
-- A run of the theorem on transfer progress at a concrete input.
use sora_transport.Prelude.{◌≡◌, refl, false, List, [], ◌∷◌}
use sora_transport.Prelude.Text.{codes}
use sora_transport.Progress.{StatusText, Progress, snapshot}
use sora_transport.Progress.Flags.{Call, bytes, fails, Log, running, run, log, shown, run-shown}

abbrev idle : StatusText
idle = record { english = codes "idle"; chinese = [] }

abbrev fresh : Progress
fresh = record {
  processed_bytes = 0;
  processed_files = 0;
  completed = false;
  failed = false;
  cancelled = false;
  status_text = idle;
}

abbrev fresh_log : Log
fresh_log = record { total_bytes = 0; total_files = 0; stage = running; text = idle }

abbrev calls : List Call
calls = bytes 18446744073709551615 ∷ bytes 3 ∷ fails idle ∷ []

run-shown_example : snapshot (run calls fresh) ≡ shown (log calls fresh_log)
unfolding snapshot shown
run-shown_example = run-shown calls fresh fresh_log refl
