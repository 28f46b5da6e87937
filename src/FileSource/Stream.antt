-- ===== src/FileSource/Stream.antt =====
-- Reading through a `FileByteSource` gives the bytes of the file in order.
use sora_transport.Prelude.{
  drop_at, drop-drop, ℕ, zero, suc, ◌+◌, ◌-◌, ◌≤◌, ◌<◌, ◌≡◌, refl, sym, ap, ◌∙◌, subst, true, false,
  Option, none, some, List, [], ◌∷◌, ◌++◌, leb, ltb, ◌==◌, length, drop, min, arith, Bool-cases,
  inl, inr, append_assoc, length-append, length-take, length-drop, take-append-drop, not,
}
use sora_transport.Prelude.Result.{Result, ok, err}
use sora_transport.Prelude.Run.{
  Run, returned, threw, Ends, andthen-Ends, Ends-weaken, if-Ends, out_of_fuel,
}
use sora_transport.Reader.{Reader, Chunk, Env, ReadError, read_next_chunk}
use sora_transport.Reader.Ring.{Inv}
use sora_transport.FileSource.{
  FileSource, SourceError, chunk_bytes, take_chunk, used_up, refill, advance, copy_from, read_loop,
  read,
}

-- Where in the file the next byte comes from.
abbrev position : Option Chunk → ℕ → Reader → ℕ
position none i r = r.offset
position (some c) i r = c.offset + i

-- The bytes of the file that were not read yet.
abbrev pub unread : List ℕ → FileSource → List ℕ
unread file s = drop (position s.current_chunk s.current_chunk_offset s.reader) file

abbrev Placed : Option Chunk → ℕ → Reader → Type 0
Placed none i r = Unit {0}
Placed (some c) i r = (c.offset + c.length ≡ r.offset) × (i ≤ c.length)

drop_past : (n : ℕ) (xs : List ℕ) → length xs ≤ n → drop n xs ≡ []
drop_past zero [] h = refl
drop_past zero (x ∷ xs) h = absurd (omega arith)
drop_past (suc n) [] h = refl
drop_past (suc n) (x ∷ xs) h = drop_past n xs (omega arith)

-- How a reader in some order of its own answers: with the next chunk of the file, or `Bad` holds.
abbrev pub Answer : (Reader → Type 0) → Type 0 → Reader → Reader × Result ReadError Chunk → Type 0
Answer P Bad r (t, err e) = Bad
Answer P Bad r (t, ok c) =
    P t
    × (c.offset ≡ r.offset)
    × (c.length ≡ min r.chunk_size (r.size - r.offset))
    × (t.offset ≡ r.offset + c.length)
    × (t.size ≡ r.size)

module _ (env : Env) (P : Reader → Type 0) (Bad : Type 0) (ordered : (r : Reader) → P r → Inv r)
    (answers : (r : Reader) → P r → Answer P Bad r (read_next_chunk env r)) (file : List ℕ) where
  pub record Holds (s : FileSource) : Type 0 where
    pub reads : P s.reader
    pub size_known : s.reader.size ≡ length file
    pub placed : Placed s.current_chunk s.current_chunk_offset s.reader

  -- After a refill there is a chunk, and it has a byte left unless the file has none.
  record Refilled (s q : FileSource) : Type 0 where
    holds : Holds q
    same : unread file q ≡ unread file s
    chunk : Chunk
    there : q.current_chunk ≡ some chunk
    left :
        (chunk.length ≡ 0 → unread file q ≡ [])
        × (0 < chunk.length → q.current_chunk_offset < chunk.length)

  take_chunk-Refilled :
      (s : FileSource) (x : Reader × Result ReadError Chunk)
      → Holds s
      → used_up env s.current_chunk s.current_chunk_offset ≡ true
      → Answer P Bad s.reader x
      → Ends (Refilled s) (λ q. Bad) (take_chunk env s x)
  take_chunk-Refilled s (r, err e) v u a = a
  take_chunk-Refilled s (r, ok c) v u (p, o, l, n, z) = record {
    holds = record { reads = p; size_known = z ∙ v.size_known; placed = omega (arith, o, n) };
    same = ap (λ k. drop k file) (omega (arith, o) ∙ sym (at_end s.current_chunk v.placed u));
    chunk = c;
    there = refl;
    left = (
      λ e.
          drop_past (c.offset + 0) file
            (omega (arith, e, l, o, v.size_known, (ordered s.reader v.reads).chunked)),
      λ h. h,
    );
  }
    where
      at_end :
          (o : Option Chunk)
          → Placed o s.current_chunk_offset s.reader
          → used_up env o s.current_chunk_offset ≡ true
          → position o s.current_chunk_offset s.reader ≡ s.reader.offset
      at_end none p u = refl
      at_end (some d) p u = ground arith

  refill-Refilled : (s : FileSource) → Holds s → Ends (Refilled s) (λ q. Bad) (refill env s)
  unfolding refill
  refill-Refilled s v = elim (Bool-cases (used_up env s.current_chunk s.current_chunk_offset)) [
    | inl u ↦
        rw u (take_chunk-Refilled s (read_next_chunk env s.reader) v u (answers s.reader v.reads))
    | inr u ↦ rw u (kept s.current_chunk refl u)
  ]
    where
      kept :
          (o : Option Chunk)
          → s.current_chunk ≡ o
          → used_up env o s.current_chunk_offset ≡ false
          → Refilled s s
      kept none e u = cc
      kept (some c) e u = record {
        holds = v;
        same = refl;
        chunk = c;
        there = e;
        left = ((λ z. ground arith), (λ h. ground arith));
      }

  copied_bytes :
      (c : Chunk) (i n : ℕ)
      → chunk_bytes file c i n ++ drop (c.offset + (i + n)) file ≡ drop (c.offset + i) file
  copied_bytes c i n =
      ap (λ xs. chunk_bytes file c i n ++ xs)
        (drop_at (c.offset + (i + n)) (c.offset + i + n) file (omega arith)
          ∙ sym (drop-drop n (c.offset + i) file))
      ∙ take-append-drop n (drop (c.offset + i) file)

  -- The source after a copy.
  advance-Holds :
      (s : FileSource) (c : Chunk) (n : ℕ)
      → Holds s
      → s.current_chunk ≡ some c
      → s.current_chunk_offset + n ≤ c.length
      → Holds (advance env s c n)
        × (unread file (advance env s c n) ≡ drop (c.offset + (s.current_chunk_offset + n)) file)
  advance-Holds s c n v e h = elim (Bool-cases (leb c.length (s.current_chunk_offset + n))) [
    | inl full ↦ rw full (
      record { reads = v.reads; size_known = v.size_known; placed = tt },
      drop_at s.reader.offset (c.offset + (s.current_chunk_offset + n)) file
          (ground (arith, here.0, h)),
    )
    | inr more ↦ rw more (
      record {
        reads = v.reads;
        size_known = v.size_known;
        placed = subst (λ o. Placed o (s.current_chunk_offset + n) s.reader) (sym e) (here.0, h);
      },
      ap (λ o. drop (position o (s.current_chunk_offset + n) s.reader) file) e,
    )
  ]
    where
      here : Placed (some c) s.current_chunk_offset s.reader
      here = subst (λ o. Placed o s.current_chunk_offset s.reader) e v.placed

  -- How the loop goes on from some bytes copied.
  pub record Read (want : ℕ) (s : FileSource) (copied : List ℕ) (q : FileSource × List ℕ)
      : Type 0 where
    pub holds : Holds q.0
    pub in_order : q.1 ++ unread file q.0 ≡ copied ++ unread file s
    pub all : length q.1 ≡ min want (length copied + length (unread file s))

  copy_from-Read :
      (more : FileSource × List ℕ → Run (FileSource × List ℕ) SourceError) (want : ℕ)
      (s : FileSource) (copied : List ℕ) (c : Chunk)
      → Holds s
      → s.current_chunk ≡ some c
      → (c.length ≡ 0 → unread file s ≡ [])
      → (0 < c.length → s.current_chunk_offset < c.length)
      → length copied < want
      → ((t : FileSource) (taken : List ℕ)
          → Holds t
          → length copied < length taken
          → length taken ≤ want
          → Ends (Read want t taken) (λ q. Bad) (more (t, taken)))
      → Ends (Read want s copied) (λ q. Bad) (copy_from env file more want s copied (some c))
  copy_from-Read more want s copied c v e none_left left short ih =
      elim (Bool-cases (c.length == 0)) [
        | inl empty ↦ rw empty (record {
          holds = v;
          in_order = refl;
          all = ground (arith, ap length (none_left (ground (arith, empty))));
        })
        | inr some_left ↦ rw some_left (
            Ends-weaken (Read want after taken) (λ q. Bad) (Read want s copied) (λ q. Bad) _
              (ih after taken adv.0 (omega (arith, lengths, positive (ground (arith, some_left))))
                (omega (arith, lengths)))
              (λ q r. record {
                holds = r.holds;
                in_order = r.in_order ∙ rejoined;
                all =
                    r.all
                    ∙ ap (min want) (
                        sym (length-append taken (unread file after))
                        ∙ ap length rejoined
                        ∙ length-append copied (unread file s));
              })
              (λ q b. b))
      ]
    where
      here : Placed (some c) s.current_chunk_offset s.reader
      here = subst (λ o. Placed o s.current_chunk_offset s.reader) e v.placed

      i : ℕ
      i = s.current_chunk_offset

      n : ℕ
      n = min (c.length - i) (want - length copied)

      after : FileSource
      after = advance env s c n

      taken : List ℕ
      taken = copied ++ chunk_bytes file c i n

      adv : Holds after × (unread file after ≡ drop (c.offset + (i + n)) file)
      adv = advance-Holds s c n v e (omega (arith, here.1))

      rejoined : taken ++ unread file after ≡ copied ++ unread file s
      rejoined =
          append_assoc copied (chunk_bytes file c i n) (unread file after)
          ∙ ap (λ xs. copied ++ (chunk_bytes file c i n ++ xs)) adv.1
          ∙ ap (◌++◌ copied)
              (copied_bytes c i n ∙ ap (λ o. drop (position o i s.reader) file) (sym e))

      lengths : length taken ≡ length copied + n
      lengths = omega (
        arith,
        here,
        (ordered s.reader v.reads).within,
        v.size_known,
        length-append copied (chunk_bytes file c i n),
        length-take n (drop (c.offset + i) file),
        length-drop (c.offset + i) file,
      )

      positive : 0 < c.length → 0 < n
      positive h = omega (arith, left h, short)

  abbrev Kept : FileSource → List ℕ → FileSource × List ℕ → Type 0
  Kept s copied (q, out) = Refilled s q × (out ≡ copied)

  step :
      (fuel want : ℕ) (s : FileSource) (copied : List ℕ)
      → Holds s
      → ltb (length copied) want ≡ true
      → want ≤ length copied + suc fuel
      → (q : FileSource) (out : List ℕ) → Refilled s q
      → out ≡ copied
      → (o : Option Chunk) → q.current_chunk ≡ o
      → ((t : FileSource) (taken : List ℕ)
          → Holds t
          → length copied < length taken
          → length taken ≤ want
          → Ends (Read want t taken) (λ q. Bad) (read_loop env file fuel want (t, taken)))
      → Ends
          (Read want s copied)
          (λ q. Bad)
          (copy_from env file (read_loop env file fuel want) want q out o)
  step fuel want s copied v h k q out r e none f ih = absurd (some_none r.chunk (sym r.there ∙ f))
    where
      some_none : (c : Chunk) → some c ≡ none → ⊥
      some_none c p = cc
  step fuel want s copied v h k q out r e (some c) f ih =
      Ends-weaken (Read want q out) (λ b. Bad) (Read want s copied) (λ b. Bad) _
        (copy_from-Read (read_loop env file fuel want) want q out c r.holds f
          (subst (λ d. d.length ≡ 0 → unread file q ≡ []) same_chunk r.left.0)
          (subst (λ d. 0 < d.length → q.current_chunk_offset < d.length) same_chunk r.left.1)
          (ground (arith, ap length e))
          (λ t taken w g l. ih t taken w (omega (arith, g, ap length e)) l))
        (λ p w. record {
          holds = w.holds;
          in_order = w.in_order ∙ ap (λ xs. xs ++ unread file q) e ∙ ap (◌++◌ copied) r.same;
          all = w.all ∙ ap (λ m. min want m) (omega (arith, ap length e, ap length r.same));
        })
        (λ p b. b)
    where
      chunk_of : (d : Chunk) → some r.chunk ≡ some d → r.chunk ≡ d
      chunk_of d p = cc

      same_chunk : r.chunk ≡ c
      same_chunk = chunk_of c (sym r.there ∙ f)

  read_loop-Read :
      (fuel want : ℕ) (s : FileSource) (copied : List ℕ)
      → Holds s
      → length copied ≤ want
      → want ≤ length copied + fuel
      → Ends (Read want s copied) (λ q. Bad) (read_loop env file fuel want (s, copied))
  unfolding read_loop
  read_loop-Read zero want s copied v h k =
      let enough : ltb (length copied) want ≡ false = ground arith in
      rw enough (record { holds = v; in_order = refl; all = omega arith })
  read_loop-Read (suc fuel) want s copied v h k = elim (Bool-cases (ltb (length copied) want)) [
    | inr full ↦ rw full (record { holds = v; in_order = refl; all = ground (arith, full) })
    | inl short ↦ rw short (
        andthen-Ends (Kept s copied) (λ q. Bad) (Read want s copied) (λ q. Bad) _ _
          (copied_along (refill env s) (refill-Refilled s v)) (λ q b. b)
          (λ q r.
            step fuel want s copied v short k q.0 q.1 r.0 r.1 q.0.current_chunk refl
              (λ t taken w g l. read_loop-Read fuel want t taken w l (omega (arith, g, k)))))
  ]
    where
      copied_along :
          (r : Run FileSource SourceError)
          → Ends (Refilled s) (λ q. Bad) r
          → Ends (Kept s copied) (λ q. Bad) ((r.0, copied), r.1)
      copied_along (q, returned) r = (r, refl)
      copied_along (q, threw e) b = b
      copied_along (q, out_of_fuel) b = b

  pub read-Read :
      (s : FileSource) (want : ℕ)
      → Holds s
      → s.reader.handle_valid ≡ true
      → Ends (Read want s []) (λ q. Bad) (read env file s want)
  unfolding read
  read-Read s want v h =
      if-Ends (Read want s []) (λ q. Bad) (not s.reader.handle_valid) _ _
        (λ shut. absurd (ground (arith, h)))
        (λ _. read_loop-Read want want s [] v (omega arith) (omega arith))
