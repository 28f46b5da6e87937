-- ===== src/WriteBuffer/Examples.antt =====
-- Runs of the theorems on the write buffer at concrete inputs.
use sora_transport.Prelude.{ℕ, ◌≡◌, refl, Bool, false, some, List, [], ◌∷◌, arith}
use sora_transport.WriteBuffer.{WriteBuffer, init, write, flush, destroy, do_flush}
use sora_transport.WriteBuffer.Content.{Written, init-Inv, write-Written}
use sora_transport.WriteBuffer.Destructor.{destroy_after_flush}

-- A callback that takes everything, and a clock that stands still.
abbrev never : ℕ → List ℕ → Bool
never n bytes = false

abbrev still : ℕ → ℕ
still n = 0

abbrev three : List ℕ
three = 1 ∷ 2 ∷ 3 ∷ []

write-Written_example :
    Written never still (init 2 10) three (write (some never) still (init 2 10) three)
write-Written_example = write-Written never still (init 2 10) three (init-Inv 2 10)

abbrev holding : WriteBuffer
holding = record (init 4 10) { buffered = 9 ∷ [] }

destroy_after_flush_example :
    let c = (write (some never) still (flush (some never) still holding).0 three).0 in
    destroy (some never) still c ≡ c
unfolding init flush do_flush
destroy_after_flush_example = destroy_after_flush never still holding three (omega arith) refl
