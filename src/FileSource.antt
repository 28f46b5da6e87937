-- ===== src/FileSource.antt =====
-- `FileByteSource` (src/detail/io.hpp and io.cpp): a byte stream over the chunks of the overlapped
-- reader. The chunks of the reader's model have no bytes; here those of a chunk are the bytes of the
-- file from its offset on, as the file is a parameter. The source has state unless it was moved
-- from, and a move is not modelled.
pub mod Stream
pub mod Reads
mod Examples
use sora_transport.Prelude.{
  ℕ, zero, suc, ◌+◌, ◌-◌, ◌*◌, Bool, true, false, not, ◌||◌, Option, none, some, List, [], ◌∷◌,
  ◌++◌, leb, ltb, ◌==◌, if◌then◌else◌, length, take, drop, min,
}
use sora_transport.Prelude.Result.{Result, ok, err}
use sora_transport.Prelude.Run.{Run, returned, threw, out_of_fuel, ◌andthen◌}
use sora_transport.Reader.{
  Reader, Chunk, Env, ReadError, init, start_prefetch, read_next_chunk, queue_depth,
}

pub record FileSource : Type 0 where
  pub reader : Reader
  pub current_chunk : Option Chunk
  pub current_chunk_offset : ℕ

pub data SourceError : Type 0 where
  source_closed : SourceError
  reader_threw : ReadError → SourceError

abbrev pub file_byte_source_chunk_size : ℕ
file_byte_source_chunk_size = 4194304

-- Bytes of a chunk from the index `i` on.
abbrev pub chunk_bytes : List ℕ → Chunk → ℕ → ℕ → List ℕ
chunk_bytes file c i n = take n (drop (c.offset + i) file)

module _ (env : Env) where
  abbrev pub started : Reader × Result ReadError (Unit {0}) → Run FileSource SourceError
  started (r, err e) = (
    record { reader = r; current_chunk = none; current_chunk_offset = 0 },
    threw (reader_threw e),
  )
  started (r, ok u) =
      (record { reader = r; current_chunk = none; current_chunk_offset = 0 }, returned)

  -- The constructor, where the file could be opened: eight chunks are asked for ahead.
  unfoldable pub open_source : ℕ → Run FileSource SourceError
  open_source input_size = started (
      start_prefetch env (file_byte_source_chunk_size * queue_depth)
        (init input_size file_byte_source_chunk_size))

  abbrev pub take_chunk : FileSource → Reader × Result ReadError Chunk → Run FileSource SourceError
  take_chunk s (r, err e) = (record s { reader = r }, threw (reader_threw e))
  take_chunk s (r, ok c) =
      (record { reader = r; current_chunk = some c; current_chunk_offset = 0 }, returned)

  abbrev pub used_up : Option Chunk → ℕ → Bool
  used_up none offset = true
  used_up (some c) offset = leb c.length offset

  unfoldable pub refill : FileSource → Run FileSource SourceError
  refill s =
      if used_up s.current_chunk s.current_chunk_offset
      then take_chunk s (read_next_chunk env s.reader)
      else (s, returned)

  -- The source after `n` bytes were copied, which gives up a chunk that is used up.
  abbrev pub advance : FileSource → Chunk → ℕ → FileSource
  advance s c n =
      if leb c.length (s.current_chunk_offset + n)
      then record s { current_chunk = none; current_chunk_offset = 0 }
      else record s { current_chunk_offset = s.current_chunk_offset + n }

  module _ (file : List ℕ) where
    -- A source and the bytes copied so far.
    abbrev pub Copying : Type 0
    Copying = FileSource × List ℕ

    abbrev pub copy_from :
        (Copying → Run Copying SourceError)
        → ℕ
        → FileSource
        → List ℕ
        → Option Chunk
        → Run Copying SourceError
    copy_from more want s copied none = ((s, copied), returned)
    copy_from more want s copied (some c) =
        let n = min (c.length - s.current_chunk_offset) (want - length copied) in
        let rest = more (advance s c n, copied ++ chunk_bytes file c s.current_chunk_offset n) in
        if c.length == 0 then ((s, copied), returned) else rest

    abbrev pub copying : List ℕ → Run FileSource SourceError → Run Copying SourceError
    copying copied r = ((r.0, copied), r.1)

    -- A round copies a byte or ends the loop.
    unfoldable pub read_loop : ℕ → ℕ → Copying → Run Copying SourceError
    read_loop zero want (s, copied) =
        if ltb (length copied) want then ((s, copied), out_of_fuel) else ((s, copied), returned)
    read_loop (suc fuel) want (s, copied) =
        if ltb (length copied) want
        then copying copied (refill s)
          andthen (λ q. copy_from (read_loop fuel want) want q.0 q.1 q.0.current_chunk)
        else ((s, copied), returned)

    unfoldable pub read : FileSource → ℕ → Run Copying SourceError
    read s length =
        if not s.reader.handle_valid
        then ((s, []), threw source_closed)
        else read_loop length length (s, [])
