-- ===== src/Progress.antt =====
-- `TransferProgress` (src/core.hpp and core.cpp): the counters and flags that a transfer reports.
-- Each method is one step; the counters are 64 bits wide.
pub mod Flags
mod Examples
use sora_transport.Prelude.{ℕ, ◌+◌, ◌%◌, ◌^◌, Bool, true, false}
use sora_transport.Prelude.Text.{Text, codes}

-- The same text in two languages.
pub record StatusText : Type 0 where
  pub english : Text
  pub chinese : Text

pub record Snapshot : Type 0 where
  pub processed_bytes : ℕ
  pub processed_files : ℕ
  pub completed : Bool
  pub failed : Bool
  pub cancelled : Bool
  pub status_text : StatusText

pub record Progress : Type 0 where
  pub processed_bytes : ℕ
  pub processed_files : ℕ
  pub completed : Bool
  pub failed : Bool
  pub cancelled : Bool
  pub status_text : StatusText

-- `fetch_add` on a 64-bit counter.
abbrev pub fetch_add : ℕ → ℕ → ℕ
fetch_add counter n = (counter + n) % 2 ^ 64

unfoldable pub add_processed_bytes : ℕ → Progress → Progress
add_processed_bytes bytes p = record p { processed_bytes = fetch_add p.processed_bytes bytes }

unfoldable pub add_processed_files : ℕ → Progress → Progress
add_processed_files files p = record p { processed_files = fetch_add p.processed_files files }

unfoldable pub reset : StatusText → Progress → Progress
reset text p = record {
  processed_bytes = 0;
  processed_files = 0;
  completed = false;
  failed = false;
  cancelled = false;
  status_text = text;
}

unfoldable pub set_status : StatusText → Progress → Progress
set_status text p = record p { status_text = text }

unfoldable pub set_completed : StatusText → Progress → Progress
set_completed text p = record p {
  status_text = text;
  completed = true;
  failed = false;
  cancelled = false;
}

unfoldable pub set_failed : StatusText → Progress → Progress
set_failed text p = record p {
  status_text = text;
  failed = true;
  completed = true;
  cancelled = false;
}

unfoldable pub set_cancelled : StatusText → Progress → Progress
set_cancelled text p = record p {
  status_text = text;
  cancelled = true;
  failed = false;
  completed = true;
}

unfoldable pub snapshot : Progress → Snapshot
snapshot p = record {
  processed_bytes = p.processed_bytes;
  processed_files = p.processed_files;
  completed = p.completed;
  failed = p.failed;
  cancelled = p.cancelled;
  status_text = p.status_text;
}
