-- ===== src/Reader/Examples.antt =====
-- Runs of the theorems on the reader at concrete inputs.
use sora_transport.Prelude.{◌+◌, ◌≡◌, refl, false, some, List, arith}
use sora_transport.Prelude.Result.{ok}
use sora_transport.Reader.{
  Reader, Env, Chunk, completed, init, read_next_chunk, start_prefetch, prime_prefetch_window,
  prime_loop, issue_next_read, issue_at, find_slot,
}
use sora_transport.Reader.Prefetch.{Prefetched, start_prefetch-Prefetched}
use sora_transport.Reader.Reading.{next_chunk, Advanced, read_next_chunk_sound}
use sora_transport.Reader.Healthy.{IsHealthy, IsOpen, init-Inv, read_next_chunk_total}
use sora_transport.Reader.WholeFile.{
  Tiles, read_rest, init-IsOpen, init_before_end, read_file-Tiles,
}

abbrev healthy : Env
healthy = record {
  alloc_fails = λ o n. false;
  issue_fails = λ o n. false;
  complete = λ o n. completed n;
}

abbrev healthy_IsHealthy : IsHealthy healthy
healthy_IsHealthy = record {
  allocates = λ o n. refl;
  issues = λ o n. refl;
  completes = λ o n. refl;
}

read_file-Tiles_example :
    (cs : List Chunk) × (read_rest healthy (10 + 1) (init 10 4) ≡ some cs) × Tiles 0 10 cs
read_file-Tiles_example = read_file-Tiles healthy 10 4 healthy_IsHealthy (omega arith)

-- The first chunk of ten bytes, in chunks of four.
abbrev first :
    (t : Reader) × (read_next_chunk healthy (init 10 4) ≡ (t, ok (next_chunk (init 10 4))))
    × IsOpen t
    × Advanced (init 10 4) t
first =
    read_next_chunk_total healthy (init 10 4) healthy_IsHealthy (init-IsOpen 10 4 (omega arith))
      (init_before_end 10 4 (omega arith))

read_next_chunk_sound_example :
    (next_chunk (init 10 4) ≡ next_chunk (init 10 4)) × Advanced (init 10 4) first.0
read_next_chunk_sound_example =
    read_next_chunk_sound healthy (init 10 4) first.0 (next_chunk (init 10 4)) (init-Inv 10 4)
      (init_before_end 10 4 (omega arith)) first.1

-- Ten bytes in chunks of four: three reads are in flight after this.
abbrev begun : Reader
begun = (start_prefetch healthy 16 (init 10 4)).0

start_prefetch-Prefetched_example : Prefetched (init 10 4) begun
unfolding start_prefetch prime_prefetch_window prime_loop issue_next_read issue_at find_slot init
start_prefetch-Prefetched_example =
    start_prefetch-Prefetched healthy 16 (init 10 4) begun (init-Inv 10 4) refl
