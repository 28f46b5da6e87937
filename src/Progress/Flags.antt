-- ===== src/Progress/Flags.antt =====
-- What a snapshot tells after any sequence of calls.
use sora_transport.Prelude.{ℕ, ◌+◌, ◌%◌, ◌^◌, ◌≡◌, refl, true, false, List, [], ◌∷◌, arith}
use sora_transport.Progress.{
  StatusText, Progress, Snapshot, add_processed_bytes, add_processed_files, reset, set_status,
  set_completed, set_failed, set_cancelled, snapshot,
}

pub data Call : Type 0 where
  bytes files : ℕ → Call
  resets status completes fails cancels : StatusText → Call

unfoldable pub apply : Call → Progress → Progress
apply (bytes n) p = add_processed_bytes n p
apply (files n) p = add_processed_files n p
apply (resets t) p = reset t p
apply (status t) p = set_status t p
apply (completes t) p = set_completed t p
apply (fails t) p = set_failed t p
apply (cancels t) p = set_cancelled t p

unfoldable pub run : List Call → Progress → Progress
run [] p = p
run (c ∷ cs) p = run cs (apply c p)

-- How a transfer stands.
pub data Stage : Type 0 where
  running completed failed cancelled : Stage

-- The transfer as its calls tell it, with counters that never wrap.
pub record Log : Type 0 where
  pub total_bytes : ℕ
  pub total_files : ℕ
  pub stage : Stage
  pub text : StatusText

unfoldable pub logged : Call → Log → Log
logged (bytes n) l = record l { total_bytes = l.total_bytes + n }
logged (files n) l = record l { total_files = l.total_files + n }
logged (resets t) l = record { total_bytes = 0; total_files = 0; stage = running; text = t }
logged (status t) l = record l { text = t }
logged (completes t) l = record l { stage = completed; text = t }
logged (fails t) l = record l { stage = failed; text = t }
logged (cancels t) l = record l { stage = cancelled; text = t }

unfoldable pub log : List Call → Log → Log
log [] l = l
log (c ∷ cs) l = log cs (logged c l)

-- The snapshot of a log.
unfoldable pub shown : Log → Snapshot
shown l = record {
  processed_bytes = l.total_bytes % 2 ^ 64;
  processed_files = l.total_files % 2 ^ 64;
  completed = elim l.stage [ running ↦ false | _ ↦ true ];
  failed = elim l.stage [ failed ↦ true | _ ↦ false ];
  cancelled = elim l.stage [ cancelled ↦ true | _ ↦ false ];
  status_text = l.text;
}

wrap : (a n : ℕ) → (a % 2 ^ 64 + n) % 2 ^ 64 ≡ (a + n) % 2 ^ 64
wrap a n = omega arith

apply-shown :
    (c : Call) (p : Progress) (l : Log)
    → snapshot p ≡ shown l
    → snapshot (apply c p) ≡ shown (logged c l)
unfolding snapshot apply shown logged add_processed_bytes add_processed_files reset set_status
    set_completed set_failed set_cancelled
apply-shown (bytes n) p l e = ground (arith, e, wrap l.total_bytes n)
apply-shown (files n) p l e = ground (arith, e, wrap l.total_files n)
apply-shown (resets t) p l e = refl
apply-shown (status t) p l e = ground (arith, e)
apply-shown (completes t) p l e = ground (arith, e)
apply-shown (fails t) p l e = ground (arith, e)
apply-shown (cancels t) p l e = ground (arith, e)

-- If a snapshot shows what a log tells, it does so after any sequence of calls: the sums of bytes
-- and files since the last reset, modulo 2^64, the last text, and the flags of the last stage, of
-- which failed and cancelled are never both set and each comes with completed.
pub run-shown :
    (cs : List Call) (p : Progress) (l : Log)
    → snapshot p ≡ shown l
    → snapshot (run cs p) ≡ shown (log cs l)
unfolding run log
run-shown [] p l e = e
run-shown (c ∷ cs) p l e = run-shown cs (apply c p) (logged c l) (apply-shown c p l e)
