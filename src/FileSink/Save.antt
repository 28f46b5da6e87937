-- ===== src/FileSink/Save.antt =====
-- A file written through a `FileByteSink` from its opening to its closing.
use sora_transport.Prelude.{
  ℕ, ◌<◌, ◌≡◌, sym, ap, ◌∙◌, subst, true, false, List, [], ◌∷◌, ◌++◌, some, flat, append-nil,
  append_assoc,
}
use sora_transport.Prelude.Run.{
  Run, returned, threw, out_of_fuel, ◌andthen◌, Ends, andthen-Ends, Ends-weaken,
}
use mathlib.Core.List.{Memᴰ, Permᴰ}
use sora_transport.FileSink.{FileWrite, Sink, SinkError, Env, active_slot, open_sink, write, close}
use sora_transport.FileSink.Slots.{
  bytes_of, Tiles, content, Inv, open_sink-Inv, open_sink_roomy, open_sink-content,
  open_sink-opened,
}
use sora_transport.FileSink.Wait.{Fault, Stopped}
use sora_transport.FileSink.Copy.{Broke, HasRoom}
use sora_transport.FileSink.Written.{Took, write-Took}
use sora_transport.FileSink.Close.{Saved, close-Saved}
use sora_transport.FileSink.Image.{
  get_elem?, image, image_any_order, image_agrees, get_elem?-append_left,
}

-- The file is closed, and has exactly these bytes however the writes were carried out.
pub record Stored (bytes : List ℕ) (g : Sink) : Type 0 where
  pub shut : g.closed ≡ true
  pub exact :
      (done : List FileWrite) → Permᴰ done g.landed → (i : ℕ) → image done i ≡ get_elem? bytes i

-- Whichever of the writes were carried out, and in whichever order, each byte that is in the file
-- is the one of `bytes` at its place.
pub record Partial (env : Env) (bytes : List ℕ) (g : Sink) : Type 0 where
  pub fault : Fault env
  pub right :
      (done : List FileWrite)
      → ((w : FileWrite) → Memᴰ w done → Memᴰ w g.issued)
      → (i b : ℕ) → image done i ≡ some b
      → get_elem? bytes i ≡ some b

module _ (env : Env) where
  abbrev pub write_all : List (List ℕ) → Sink → Run Sink SinkError
  write_all [] f = (f, returned)
  write_all (chunk ∷ chunks) f =
      ((write env f chunk).0.0, (write env f chunk).1) andthen write_all chunks

  -- The calls that write a file chunk by chunk.
  unfoldable pub save : ℕ → ℕ → List (List ℕ) → Run Sink SinkError
  save capacity max_ops chunks = write_all chunks (open_sink capacity max_ops) andthen close env

  record Taken (f : Sink) (bytes : List ℕ) (g : Sink) : Type 0 where
    inv : Inv g
    same : content g ≡ content f ++ bytes
    room_left : HasRoom g
    opened : g.closed ≡ false
    valid : g.handle_open ≡ true

  record Cut (f : Sink) (bytes : List ℕ) (g : Sink) : Type 0 where
    fault : Fault env
    rest : List ℕ
    same : content g ++ rest ≡ content f ++ bytes
    placed : Tiles 0 g.issued g.physical_size

  forget-Ends :
      (Good Bad : Sink × List ℕ → Type 0) (Good' Bad' : Sink → Type 0)
      (r : Run (Sink × List ℕ) SinkError)
      → Ends Good Bad r
      → ((q : Sink × List ℕ) → Good q → Good' q.0)
      → ((q : Sink × List ℕ) → Bad q → Bad' q.0)
      → Ends Good' Bad' (r.0.0, r.1)
  forget-Ends Good Bad Good' Bad' (q, returned) h good bad = good q h
  forget-Ends Good Bad Good' Bad' (q, threw e) h good bad = bad q h
  forget-Ends Good Bad Good' Bad' (q, out_of_fuel) h good bad = absurd h

  write_all-Taken :
      (chunks : List (List ℕ)) (f : Sink)
      → Inv f
      → HasRoom f
      → f.closed ≡ false
      → f.handle_open ≡ true
      → Ends (Taken f (flat chunks)) (Cut f (flat chunks)) (write_all chunks f)
  write_all-Taken [] f v r o h = record {
    inv = v;
    room_left = r;
    same = sym (append-nil (content f));
    opened = o;
    valid = h;
  }
  write_all-Taken (chunk ∷ chunks) f v r o h =
      andthen-Ends (Taken f chunk) (Cut f (chunk ++ flat chunks)) (Taken f (chunk ++ flat chunks))
        (Cut f (chunk ++ flat chunks)) _ _
        (forget-Ends (Took env (f, chunk)) (Broke env (f, chunk)) (Taken f chunk)
          (Cut f (chunk ++ flat chunks)) (write env f chunk) (write-Took env f chunk v r o h)
          (λ q w. record {
            inv = w.went.inv;
            room_left = w.room_left;
            same =
                sym (append-nil (content q.0))
                ∙ sym (ap (◌++◌ (content q.0)) w.all_taken)
                ∙ w.went.same;
            opened = w.went.closed_same ∙ o;
            valid = w.went.handle_same ∙ h;
          })
          (λ q b. record {
            fault = b.fault;
            rest = q.1 ++ flat chunks;
            same =
                sym (append_assoc (content q.0) q.1 (flat chunks))
                ∙ ap (λ xs. xs ++ flat chunks) b.same
                ∙ append_assoc (content f) chunk (flat chunks);
            placed = b.placed;
          }))
        (λ g c. c)
        (λ g t.
          Ends-weaken (Taken g (flat chunks)) (Cut g (flat chunks)) (Taken f (chunk ++ flat chunks))
            (Cut f (chunk ++ flat chunks)) _
            (write_all-Taken chunks g t.inv t.room_left t.opened t.valid)
            (λ k u. record {
              inv = u.inv;
              room_left = u.room_left;
              same =
                  u.same
                  ∙ ap (λ xs. xs ++ flat chunks) t.same
                  ∙ append_assoc (content f) chunk (flat chunks);
              opened = u.opened;
              valid = u.valid;
            })
            (λ k c. record {
              fault = c.fault;
              rest = c.rest;
              same =
                  c.same
                  ∙ ap (λ xs. xs ++ flat chunks) t.same
                  ∙ append_assoc (content f) chunk (flat chunks);
              placed = c.placed;
            }))

  -- A sink with slots of at least one byte that is opened, given chunks in turn and closed always
  -- comes to an end. If nothing is thrown, the file is closed and has exactly the bytes of the
  -- chunks in order, whichever order its overlapped writes were carried out in. An exception leaves
  -- it only where the sink is cancelled or the system fails a write, the flush or the close; then
  -- every byte that any of its writes put into the file is the byte of the chunks at that place.
  pub save-Stored :
      (capacity max_ops : ℕ) (chunks : List (List ℕ))
      → 0 < capacity
      → Ends (Stored (flat chunks)) (Partial env (flat chunks)) (save capacity max_ops chunks)
  unfolding save
  save-Stored capacity max_ops chunks h =
      andthen-Ends (Taken first (flat chunks)) (Cut first (flat chunks)) (Stored (flat chunks))
        (Partial env (flat chunks)) _ _
        (write_all-Taken chunks first (open_sink-Inv capacity max_ops h)
          (open_sink_roomy capacity max_ops h) (open_sink-opened capacity max_ops).0
          (open_sink-opened capacity max_ops).1)
        (λ g c. partly g c.fault c.rest (c.same ∙ ap (λ xs. xs ++ flat chunks) empty) c.placed)
        (λ g t.
          Ends-weaken (Saved g) (Stopped env g) (Stored (flat chunks)) (Partial env (flat chunks)) _
            (close-Saved env g t.inv t.opened)
            (λ k s. record {
              shut = s.shut;
              exact = λ done p i.
                  image_any_order k.landed done k.physical_size s.placed p i
                  ∙ ap (λ xs. get_elem? xs i)
                      (s.whole ∙ t.same ∙ ap (λ xs. xs ++ flat chunks) empty);
            })
            (λ k s.
              partly k s.fault []
                (append-nil (content k) ∙ s.same ∙ t.same ∙ ap (λ xs. xs ++ flat chunks) empty)
                s.placed))
    where
      first : Sink
      first = open_sink capacity max_ops

      empty : content first ≡ []
      empty = open_sink-content capacity max_ops

      partly :
          (g : Sink)
          → Fault env
          → (rest : List ℕ) → content g ++ rest ≡ flat chunks
          → Tiles 0 g.issued g.physical_size
          → Partial env (flat chunks) g
      partly g fault rest same placed = record {
        fault = fault;
        right = λ done among i b e.
            subst (λ xs. get_elem? xs i ≡ some b)
              (sym (append_assoc (bytes_of g.issued) (active_slot g).bytes rest) ∙ same)
              (get_elem?-append_left (bytes_of g.issued) ((active_slot g).bytes ++ rest) i b
                (image_agrees g.issued done g.physical_size placed among i b e));
      }
