-- ===== src/FileSource/Examples.antt =====
-- Runs of the theorems on the file source at concrete inputs.
use sora_transport.Prelude.{ℕ, ◌+◌, refl, false, none, List, [], ◌∷◌}
use sora_transport.Prelude.Run.{Ends}
use sora_transport.Reader.{Env, completed, init}
use sora_transport.Reader.Ring.{Inv}
use sora_transport.Reader.Healthy.{init-Inv}
use sora_transport.FileSource.{FileSource, read}
use sora_transport.FileSource.Stream.{Holds, Read}
use sora_transport.FileSource.Reads.{any_answers, read_any, FirstOf, read_file, read_file_whole}

-- A system that serves every read.
abbrev served : Env
served = record {
  alloc_fails = λ o n. false;
  issue_fails = λ o n. false;
  complete = λ o n. completed n;
}

abbrev four : List ℕ
four = 5 ∷ 6 ∷ 7 ∷ 8 ∷ []

-- A source that reads chunks of two bytes.
abbrev pairs : FileSource
pairs = record { reader = init 4 2; current_chunk = none; current_chunk_offset = 0 }

pairs-Holds : Holds served Inv (Unit {0}) (λ r v. v) (any_answers served) four pairs
unfolding init
pairs-Holds = record { reads = init-Inv 4 2; size_known = refl; placed = tt }

read_any_example :
    Ends
      (Read served Inv (Unit {0}) (λ r v. v) (any_answers served) four 3 pairs [])
      (λ q. Unit {0})
      (read served four pairs 3)
unfolding init
read_any_example = read_any served four pairs 3 pairs-Holds refl

read_file_whole_example :
    Ends (FirstOf four (3 + (9 + 0))) (λ q. ⊥) (read_file served four (3 ∷ 9 ∷ []))
read_file_whole_example =
    read_file_whole served four (3 ∷ 9 ∷ [])
      (record { allocates = λ o n. refl; issues = λ o n. refl; completes = λ o n. refl })
