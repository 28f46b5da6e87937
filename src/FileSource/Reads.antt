-- ===== src/FileSource/Reads.antt =====
-- What the reads of a `FileByteSource` give, with any system and with one that serves every read.
use sora_transport.Prelude.{
  ℕ, ◌+◌, ◌<◌, ◌≡◌, refl, sym, ap, ◌∙◌, subst, Bool, true, false, List, [], ◌∷◌, ◌++◌, leb, length,
  drop, min, arith, if◌then◌else◌, Bool-cases, inl, inr, append_assoc, not, length-append, ◌*◌,
}
use sora_transport.Prelude.Result.{Result, ok, err}
use sora_transport.Prelude.Run.{
  Run, returned, threw, out_of_fuel, Ends, andthen-Ends, Ends-weaken, ◌andthen◌,
}
use sora_transport.Reader.{Reader, Chunk, Env, ReadError, init, read_next_chunk, queue_depth}
use sora_transport.Reader.Ring.{Inv}
use sora_transport.Reader.Reading.{read_next_chunk_sound}
use sora_transport.Reader.Healthy.{IsHealthy, IsOpen, read_next_chunk_total}
use sora_transport.Reader.WholeFile.{init-IsOpen}
use sora_transport.Reader.Primed.{Open, start_prefetch-Open}
use sora_transport.FileSource.{
  FileSource, SourceError, read, open_source, started, file_byte_source_chunk_size,
}
use sora_transport.FileSource.Stream.{Answer, Holds, Read, read-Read, unread}

if-Answer :
    (P : Reader → Type 0) (Bad : Type 0) (r : Reader) (b : Bool)
    (x y : Reader × Result ReadError Chunk)
    → (b ≡ true → Answer P Bad r x)
    → (b ≡ false → Answer P Bad r y)
    → Answer P Bad r (if b then x else y)
if-Answer P Bad r true x y h k = h refl
if-Answer P Bad r false x y h k = k refl

abbrev pub sum : List ℕ → ℕ
sum [] = 0
sum (n ∷ ns) = n + sum ns

-- At the end of the file a reader gives an empty chunk, unless it was cancelled or closed.
at_end :
    (env : Env) (P : Reader → Type 0) (Bad : Type 0) (r : Reader)
    → Inv r
    → P r
    → (r.cancel_requested ≡ true → Bad)
    → (r.handle_valid ≡ false → Bad)
    → leb r.size r.offset ≡ true
    → Answer P Bad r (read_next_chunk env r)
unfolding read_next_chunk
at_end env P Bad r v p cancelled shut done =
    if-Answer P Bad r r.cancel_requested _ _ cancelled (λ _.
      if-Answer P Bad r (not r.handle_valid) _ _ (λ h. shut (ground arith))
        (λ _.
          if-Answer P Bad r (leb r.size r.offset) _ _
            (λ _. (p, refl, ground (arith, done), omega arith, refl))
            (λ more. absurd (ground (arith, more, done)))))

init_shape :
    (size : ℕ)
    → ((init size file_byte_source_chunk_size).offset ≡ 0)
      × ((init size file_byte_source_chunk_size).size ≡ size)
unfolding init
init_shape size = (refl, refl)

-- The first of the file's bytes, as many as were asked for, or all of it.
abbrev pub FirstOf : List ℕ → ℕ → FileSource × List ℕ → Type 0
FirstOf file asked q =
    (rest : List ℕ) × (q.1 ++ rest ≡ file) × (length q.1 ≡ min asked (length file))

module _ (env : Env) where
  -- With any system, a reader in order throws or gives the next chunk.
  pub any_answers : (r : Reader) → Inv r → Answer Inv (Unit {0}) r (read_next_chunk env r)
  any_answers r v = elim (Bool-cases (leb r.size r.offset)) [
    | inl done ↦ at_end env Inv (Unit {0}) r v v (λ _. tt) (λ _. tt) done
    | inr more ↦ before_end (read_next_chunk env r) refl (ground arith)
  ]
    where
      before_end :
          (x : Reader × Result ReadError Chunk)
          → read_next_chunk env r ≡ x
          → r.offset < r.size
          → Answer Inv (Unit {0}) r x
      before_end (t, err e) p h = tt
      before_end (t, ok c) p h =
          let a = read_next_chunk_sound env r t c v h p in
          (
            a.1.inv,
            ap (λ d. d.offset) a.0,
            ap (λ d. d.length) a.0,
            a.1.advanced ∙ ap (λ n. r.offset + n) (sym (ap (λ d. d.length) a.0)),
            a.1.same_size,
          )

  pub healthy_answers :
      IsHealthy env → (r : Reader) → IsOpen r → Answer IsOpen ⊥ r (read_next_chunk env r)
  healthy_answers w r v = elim (Bool-cases (leb r.size r.offset)) [
    | inl done ↦
        at_end env IsOpen ⊥ r v.inv v (λ c. ground (arith, c, v.not_cancelled))
          (λ h. ground (arith, h, v.valid)) done
    | inr more ↦
        let a = read_next_chunk_total env r w v (ground arith) in
        subst (Answer IsOpen ⊥ r) (sym a.1) (a.2, refl, refl, a.3.advanced, a.3.same_size)
  ]

  -- On a source whose reader is in order, a call of `read` ends, whatever the operating system
  -- answers. If it returns, it gives the next bytes of the file, as many as it was asked for or as
  -- the file still has, and the next call goes on after them.
  pub read_any :
      (file : List ℕ) (s : FileSource) (want : ℕ)
      → Holds env Inv (Unit {0}) (λ r v. v) any_answers file s
      → s.reader.handle_valid ≡ true
      → Ends
          (Read env Inv (Unit {0}) (λ r v. v) any_answers file want s [])
          (λ q. Unit {0})
          (read env file s want)
  read_any file s want v h = read-Read env Inv (Unit {0}) (λ r v. v) any_answers file s want v h

  abbrev pub appended :
      List ℕ → Run (FileSource × List ℕ) SourceError → Run (FileSource × List ℕ) SourceError
  appended out r = ((r.0.0, out ++ r.0.1), r.1)

  -- Reads one after the other, and all the bytes that they gave.
  abbrev pub reads : List ℕ → List ℕ → FileSource × List ℕ → Run (FileSource × List ℕ) SourceError
  reads file [] (s, out) = ((s, out), returned)
  reads file (want ∷ wants) (s, out) = appended out (read env file s want) andthen reads file wants

  -- A source is opened on the file and read.
  unfoldable pub read_file : List ℕ → List ℕ → Run (FileSource × List ℕ) SourceError
  read_file file wants =
      (((open_source env (length file)).0, []), (open_source env (length file)).1)
      andthen reads file wants

  module _ (healthy : IsHealthy env) (file : List ℕ) where
    abbrev HoldsOpen : FileSource → Type 0
    HoldsOpen s = Holds env IsOpen ⊥ (λ r v. v.inv) (healthy_answers healthy) file s

    -- The bytes so far, and those unread, are the file's, and the file ended before a read got less
    -- than it wanted.
    record Reading (total : ℕ) (q : FileSource × List ℕ) : Type 0 where
      holds : HoldsOpen q.0
      whole : q.1 ++ unread file q.0 ≡ file
      amount : length q.1 ≡ min total (length file)

    appended-Reading :
        (total want : ℕ) (s : FileSource) (out : List ℕ)
        → Reading total (s, out)
        → Ends (Reading (total + want)) (λ q. ⊥) (appended out (read env file s want))
    appended-Reading total want s out v = along (read env file s want) (
        read-Read env IsOpen ⊥ (λ r v. v.inv) (healthy_answers healthy) file s want v.holds
          v.holds.reads.valid)
      where
        Got : FileSource × List ℕ → Type 0
        Got = Read env IsOpen ⊥ (λ r v. v.inv) (healthy_answers healthy) file want s []

        along :
            (r : Run (FileSource × List ℕ) SourceError)
            → Ends Got (λ q. ⊥) r
            → Ends (Reading (total + want)) (λ q. ⊥) (appended out r)
        along (q, returned) g = record {
          holds = g.holds;
          whole = append_assoc out q.1 (unread file q.0) ∙ ap (◌++◌ out) g.in_order ∙ v.whole;
          amount = omega (
            arith,
            length-append out q.1,
            g.all,
            v.amount,
            length-append out (unread file s),
            ap length v.whole,
          );
        }
        along (q, threw e) g = g
        along (q, out_of_fuel) g = g

    reads-Reading :
        (total : ℕ) (wants : List ℕ) (q : FileSource × List ℕ)
        → Reading total q
        → Ends (Reading (total + sum wants)) (λ q. ⊥) (reads file wants q)
    reads-Reading total [] (s, out) v = subst (λ n. Reading n (s, out)) (omega arith) v
    reads-Reading total (want ∷ wants) (s, out) v =
        andthen-Ends (Reading (total + want)) (λ q. ⊥) (Reading (total + (want + sum wants)))
          (λ q. ⊥) _ _ (appended-Reading total want s out v) (λ q b. b)
          (λ q w.
            subst (λ n. Ends (Reading n) (λ q. ⊥) (reads file wants q)) (omega arith)
              (reads-Reading (total + want) wants q w))

    opened-Reading :
        (x : Reader × Result ReadError (Unit {0}))
        → Open (init (length file) file_byte_source_chunk_size) x
        → Ends (Reading 0) (λ q. ⊥) (((started env x).0, []), (started env x).1)
    opened-Reading (r, err e) h = h
    opened-Reading (r, ok u) h = record {
      holds = record { reads = h.0; size_known = h.2 ∙ (init_shape (length file)).1; placed = tt };
      whole = ap (λ n. drop n file) (h.1 ∙ (init_shape (length file)).0);
      amount = omega arith;
    }

  -- When every read is served, opening a source on a file and reading it any number of times, with
  -- any lengths, throws nothing and ends. The bytes read, one read after the other, are the first
  -- of the file, as many as were asked for, or all of it.
  pub read_file_whole :
      (file wants : List ℕ)
      → IsHealthy env
      → Ends (FirstOf file (sum wants)) (λ q. ⊥) (read_file file wants)
  unfolding read_file open_source
  read_file_whole file wants healthy =
      andthen-Ends (Reading healthy file 0) (λ q. ⊥) (FirstOf file (sum wants)) (λ q. ⊥) _ _
        (opened-Reading healthy file _ (
          start_prefetch-Open env healthy (file_byte_source_chunk_size * queue_depth)
            (init (length file) file_byte_source_chunk_size)
            (init-IsOpen (length file) file_byte_source_chunk_size (omega arith))))
        (λ q b. b)
        (λ q v.
          Ends-weaken (Reading healthy file (0 + sum wants)) (λ q. ⊥) (FirstOf file (sum wants))
            (λ q. ⊥) _ (reads-Reading healthy file 0 wants q v)
            (λ p w. (unread file p.0, w.whole, omega (arith, w.amount))) (λ p b. b))
