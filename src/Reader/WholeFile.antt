-- ===== src/Reader/WholeFile.antt =====
-- Reading a whole file: a system that serves every read gives all of the file, chunk by chunk.
use sora_transport.Prelude.{
  ℕ, zero, suc, ◌+◌, ◌-◌, ◌^◌, ◌<◌, ◌≡◌, refl, false, Option, some, none, List, [], ◌∷◌, arith, min,
  Bool-cases, inl, inr, leb, if◌then◌else◌,
}
use sora_transport.Prelude.Result.{Result, ok, err}
use sora_transport.Reader.{Reader, Chunk, Env, ReadError, init, read_next_chunk, eof}
use sora_transport.Reader.Reading.{next_chunk}
use sora_transport.Reader.Healthy.{init-Inv, IsHealthy, IsOpen, read_next_chunk_total}

abbrev after_chunk : Chunk → Option (List Chunk) → Option (List Chunk)
after_chunk c none = none
after_chunk c (some cs) = some (c ∷ cs)

module _ (env : Env) where
  abbrev pub collect :
      (Reader → Option (List Chunk)) → Reader × Result ReadError Chunk → Option (List Chunk)
  collect more (r, err e) = none
  collect more (r, ok chunk) = after_chunk chunk (more r)

  -- The chunks up to the end of the file: the loop of those who read one, with `fuel` rounds.
  unfoldable pub read_rest : ℕ → Reader → Option (List Chunk)
  read_rest zero r = none
  read_rest (suc fuel) r =
      if eof r then some [] else collect (read_rest fuel) (read_next_chunk env r)

-- The chunks lie one after the other, none is empty, from `offset` on to the end `size`.
abbrev pub Tiles : ℕ → ℕ → List Chunk → Type 0
Tiles offset size [] = offset ≡ size
Tiles offset size (c ∷ cs) =
    (c.offset ≡ offset) × (0 < c.length) × Tiles (offset + c.length) size cs

read_rest_step :
    (env : Env) (fuel : ℕ) (r t : Reader) (c : Chunk) (cs : List Chunk)
    → leb r.size r.offset ≡ false
    → read_next_chunk env r ≡ (t, ok c)
    → read_rest env fuel t ≡ some cs
    → read_rest env (suc fuel) r ≡ some (c ∷ cs)
unfolding read_rest eof
read_rest_step env fuel r t c cs more e f = rw more (rw e (rw f refl))

Tiles-along : (a b s t : ℕ) (cs : List Chunk) → a ≡ b → s ≡ t → Tiles a s cs → Tiles b t cs
Tiles-along a b s t cs e f v = rw⁻¹ e (rw⁻¹ f v)

read_rest-Tiles :
    (env : Env) (fuel : ℕ) (r : Reader)
    → IsHealthy env
    → IsOpen r
    → r.size < r.offset + fuel
    → (cs : List Chunk) × (read_rest env fuel r ≡ some cs) × Tiles r.offset r.size cs
unfolding read_rest eof
read_rest-Tiles env zero r w v h = absurd (omega (arith, v.inv.within))
read_rest-Tiles env (suc fuel) r w v h = elim (Bool-cases (leb r.size r.offset)) [
  | inl done ↦ ([], rw done refl, ground (arith, v.inv.within, done))
  | inr more ↦
      let a = read_next_chunk_total env r w v (ground arith) in
      let b = read_rest-Tiles env fuel a.0 w a.2 (ground (arith, v.inv.chunked, h, more, a.3)) in
      (
        next_chunk r ∷ b.0,
        read_rest_step env fuel r a.0 (next_chunk r) b.0 more a.1 b.1,
        (
          refl,
          ground (arith, v.inv.chunked, more),
          Tiles-along a.0.offset (r.offset + min r.chunk_size (r.size - r.offset)) a.0.size r.size
              b.0 a.3.advanced a.3.same_size b.2,
        ),
      )
]

pub init-IsOpen : (size buffer_size : ℕ) → buffer_size < 2 ^ 32 → IsOpen (init size buffer_size)
unfolding init
init-IsOpen size buffer_size h = record {
  inv = init-Inv size buffer_size;
  not_cancelled = refl;
  valid = refl;
  small_chunks = omega (arith, h);
}

pub init_before_end :
    (size buffer_size : ℕ)
    → 0 < size
    → (init size buffer_size).offset < (init size buffer_size).size
unfolding init
init_before_end size buffer_size h = h

-- When every read is served, reading a file of any size to its end, in chunks of any size below
-- 2^32, ends after at most a chunk for each byte, and its chunks cover the file from the first byte
-- to the last, without gap or overlap.
pub read_file-Tiles :
    (env : Env) (size buffer_size : ℕ)
    → IsHealthy env
    → buffer_size < 2 ^ 32
    → (cs : List Chunk) × (read_rest env (size + 1) (init size buffer_size) ≡ some cs)
      × Tiles 0 size cs
unfolding init
read_file-Tiles env size buffer_size w h =
    read_rest-Tiles env (size + 1) (init size buffer_size) w (init-IsOpen size buffer_size h)
      (omega arith)
