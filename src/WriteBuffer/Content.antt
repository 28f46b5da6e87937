-- ===== src/WriteBuffer/Content.antt =====
-- No byte is lost, added or moved on the way through the buffer, whatever the callback throws.
use sora_transport.Prelude.{
  ◌∙◌, ◌⊎◌, ltb, ◌==◌, if◌then◌else◌, Bool-cases, inl, inr, ℕ, zero, suc, ◌+◌, ◌*◌, ◌-◌, ◌≤◌, ◌<◌,
  ◌≡◌, ◌≢◌, refl, sym, ap, Bool, true, some, List, [], ◌∷◌, ◌++◌, length, All, flat, arith,
  append-nil, append_assoc, flat-append, length-append, length-take, length-drop, take-append-drop,
  min, take, drop, All-append, is_empty, false,
}
use sora_transport.WriteBuffer.{
  WriteBuffer, Outcome, returned, threw, out_of_fuel, do_flush, fill, flush_if_due, write_round,
  go_on, write_loop, write, init,
}

-- What has gone out and what waits, in order.
abbrev pub content : WriteBuffer → List ℕ
content b = flat b.sent ++ b.buffered

abbrev IsSpan : ℕ → List ℕ → Type 0
IsSpan capacity bytes = (0 < length bytes) × (length bytes ≤ capacity)

pub record Inv (b : WriteBuffer) : Type 0 where
  pub has_room : 0 < b.capacity
  pub fits : length b.buffered ≤ b.capacity
  pub spans : All (IsSpan b.capacity) b.sent

pub init-Inv : (capacity delay : ℕ) → Inv (init capacity delay)
unfolding init
init-Inv capacity delay = record { has_room = omega arith; fits = omega arith; spans = tt }

nonempty : (xs : List ℕ) → is_empty xs ≡ false → 0 < length xs
nonempty [] h = cc
nonempty (x ∷ xs) h = omega arith

module _ (throws : ℕ → List ℕ → Bool) (clock : ℕ → ℕ) where
  -- The last call of the callback threw, and the bytes that it was given still wait.
  pub record Refused (c : WriteBuffer) : Type 0 where
    pub called : 0 < c.calls
    pub not_taken : throws (c.calls - 1) c.buffered ≡ true
    pub some_wait : 0 < length c.buffered

  -- What a flush does, also one that throws.
  record Flushed (b c : WriteBuffer) (o : Outcome) : Type 0 where
    inv : Inv c
    same : content c ≡ content b
    capacity_same : c.capacity ≡ b.capacity
    roomy : o ≡ returned → length c.buffered < c.capacity
    no_fuel : o ≢ out_of_fuel
    refused : o ≡ threw → Refused c

  do_flush-Flushed :
      (b : WriteBuffer)
      → Inv b
      → Flushed b (do_flush (some throws) clock b).0 (do_flush (some throws) clock b).1
  unfolding do_flush
  do_flush-Flushed b v = ground (
    arith,
    nonempty b.buffered,
    flat-append b.sent (b.buffered ∷ []),
    append-nil b.buffered,
    append-nil (flat b.sent ++ b.buffered),
    All-append (IsSpan b.capacity) b.sent (b.buffered ∷ []) v.spans,
  )

  fill_capacity :
      (b : WriteBuffer) (now : ℕ) (chunk : List ℕ)
      → (fill (some throws) clock b now chunk).capacity ≡ b.capacity
  unfolding fill
  fill_capacity b now chunk = refl

  fill-Inv :
      (b : WriteBuffer) (now : ℕ) (chunk : List ℕ)
      → Inv b
      → length chunk + length b.buffered ≤ b.capacity
      → Inv (fill (some throws) clock b now chunk)
  unfolding fill
  fill-Inv b now chunk v h = ground (arith, length-append b.buffered chunk)

  fill-content :
      (b : WriteBuffer) (now : ℕ) (chunk : List ℕ)
      → content (fill (some throws) clock b now chunk) ≡ content b ++ chunk
  unfolding fill
  fill-content b now chunk = sym (append_assoc (flat b.sent) b.buffered chunk)

  flush_if_due-Flushed :
      (b : WriteBuffer) (now : ℕ)
      → Inv b
      → Flushed b
          (flush_if_due (some throws) clock b now).0
          (flush_if_due (some throws) clock b now).1
  unfolding flush_if_due
  flush_if_due-Flushed b now v = ground (arith, do_flush-Flushed b v)

  -- The rounds that a write still needs.
  abbrev rounds : WriteBuffer → List ℕ → ℕ
  rounds b bytes = length bytes + (if ltb (length b.buffered) b.capacity then 0 else 1)

  -- A round of `write` keeps all bytes, and comes closer to the end if nothing was thrown.
  record Round (b : WriteBuffer) (bytes : List ℕ) (r : (WriteBuffer × Outcome) × List ℕ)
      : Type 0 where
    pub inv : Inv r.0.0
    copied : List ℕ
    split : copied ++ r.1 ≡ bytes
    same : content r.0.0 ≡ content b ++ copied
    capacity_same : r.0.0.capacity ≡ b.capacity
    roomy : r.0.1 ≡ returned → length r.0.0.buffered < r.0.0.capacity
    closer : r.0.1 ≡ returned → rounds r.0.0 r.1 < rounds b bytes
    no_fuel : r.0.1 ≢ out_of_fuel
    refused : r.0.1 ≡ threw → Refused r.0.0

  write_round-Round :
      (b : WriteBuffer) (x : ℕ) (bytes : List ℕ)
      → Inv b
      → Round b (x ∷ bytes) (write_round (some throws) clock b (x ∷ bytes))
  unfolding write_round
  write_round-Round b x bytes v = elim (Bool-cases (b.capacity - length b.buffered == 0)) [
    | inl full ↦ rw full (
        let f = do_flush-Flushed b v in
        record {
          inv = f.inv;
          copied = [];
          split = refl;
          same = f.same ∙ sym (append-nil (content b));
          capacity_same = f.capacity_same;
          roomy = f.roomy;
          closer = λ e. ground (arith, f.roomy e, full);
          no_fuel = f.no_fuel;
          refused = f.refused;
        })
    | inr room ↦ rw room (
        copying (min (b.capacity - length b.buffered) (length (x ∷ bytes))) (ground arith)
          (ground arith) (ground arith))
  ]
    where
      copying :
          (n : ℕ)
          → 0 < n
          → n ≤ b.capacity - length b.buffered
          → n ≤ length (x ∷ bytes)
          → Round b (x ∷ bytes) (
            flush_if_due
                (some throws)
                clock
                (fill (some throws) clock b (clock b.readings) (take n (x ∷ bytes)))
                (clock b.readings),
            drop n (x ∷ bytes),
          )
      copying n pos fits short =
          let c = fill (some throws) clock b (clock b.readings) (take n (x ∷ bytes)) in
          let f : Flushed c (flush_if_due (some throws) clock c (clock b.readings)).0
              (flush_if_due (some throws) clock c (clock b.readings)).1 =
            flush_if_due-Flushed c (clock b.readings) (
              fill-Inv b (clock b.readings) (take n (x ∷ bytes)) v
                (omega (arith, length-take n (x ∷ bytes)))) in
          record {
            inv = f.inv;
            copied = take n (x ∷ bytes);
            split = take-append-drop n (x ∷ bytes);
            same = f.same ∙ fill-content b (clock b.readings) (take n (x ∷ bytes));
            capacity_same =
                f.capacity_same ∙ fill_capacity b (clock b.readings) (take n (x ∷ bytes));
            roomy = f.roomy;
            closer = λ e. ground (arith, f.roomy e, length-drop n (x ∷ bytes), pos);
            no_fuel = f.no_fuel;
            refused = f.refused;
          }

  -- How a write ends: `taken` are the bytes that it took, and `rest` those that it did not.
  pub record Written (b : WriteBuffer) (bytes : List ℕ) (r : WriteBuffer × Outcome) : Type 0 where
    pub taken : List ℕ
    pub rest : List ℕ
    pub inv : Inv r.0
    pub split : taken ++ rest ≡ bytes
    pub same : content r.0 ≡ content b ++ taken
    pub capacity_same : r.0.capacity ≡ b.capacity
    pub all_taken : r.1 ≡ returned → rest ≡ []
    pub roomy : r.1 ≡ returned → length b.buffered < b.capacity → length r.0.buffered < r.0.capacity
    pub no_fuel : r.1 ≢ out_of_fuel
    pub refused : r.1 ≡ threw → Refused r.0

  go_on-Written :
      (fuel : ℕ) (b : WriteBuffer) (bytes : List ℕ) (r : (WriteBuffer × Outcome) × List ℕ)
      → Round b bytes r
      → rounds b bytes ≤ suc fuel
      → ((c : WriteBuffer) (rest : List ℕ)
          → Inv c
          → rounds c rest ≤ fuel
          → Written c rest (write_loop (some throws) clock fuel c rest))
      → Written b bytes (go_on (some throws) clock (write_loop (some throws) clock fuel) r)
  go_on-Written fuel b bytes ((c, returned), more) r h ih =
      let w : Written c more (write_loop (some throws) clock fuel c more) =
        ih c more r.inv (omega (arith, r.closer refl)) in
      record {
        taken = r.copied ++ w.taken;
        rest = w.rest;
        inv = w.inv;
        split = append_assoc r.copied w.taken w.rest ∙ ap (◌++◌ r.copied) w.split ∙ r.split;
        same = w.same ∙ ap (λ xs. xs ++ w.taken) r.same ∙ append_assoc (content b) r.copied w.taken;
        capacity_same = w.capacity_same ∙ r.capacity_same;
        all_taken = w.all_taken;
        roomy = λ e _. w.roomy e (r.roomy refl);
        no_fuel = w.no_fuel;
        refused = w.refused;
      }
  go_on-Written fuel b bytes ((c, threw), more) r h ih = record {
    taken = r.copied;
    rest = more;
    inv = r.inv;
    split = r.split;
    same = r.same;
    capacity_same = r.capacity_same;
    all_taken = λ e. cc;
    roomy = λ e _. cc;
    no_fuel = r.no_fuel;
    refused = r.refused;
  }
  go_on-Written fuel b bytes ((c, out_of_fuel), more) r h ih = absurd (r.no_fuel refl)

  write_loop-Written :
      (fuel : ℕ) (b : WriteBuffer) (bytes : List ℕ)
      → Inv b
      → rounds b bytes ≤ fuel ⊎ (bytes ≡ [])
      → Written b bytes (write_loop (some throws) clock fuel b bytes)
  unfolding write_loop
  write_loop-Written fuel b [] v h = record {
    taken = [];
    rest = [];
    inv = v;
    split = refl;
    same = sym (append-nil (content b));
    capacity_same = refl;
    all_taken = λ _. refl;
    roomy = λ _ r. r;
    no_fuel = λ e. cc;
    refused = λ e. cc;
  }
  write_loop-Written zero b (x ∷ bytes) v h = absurd (ground arith)
  write_loop-Written (suc fuel) b (x ∷ bytes) v h =
      go_on-Written fuel b (x ∷ bytes) (write_round (some throws) clock b (x ∷ bytes))
        (write_round-Round b x bytes v) (ground arith)
        (λ c rest w k. write_loop-Written fuel c rest w (inl k))

  -- On a buffer that holds at most its capacity and has sent such spans, `write` always ends, also
  -- with a callback that throws. Its bytes are those that it took, followed by those that it did
  -- not, and what has been sent and is buffered after it is what was before it, followed by the
  -- bytes taken, in order. If it returns it took all, and a buffer that had room has room. If it
  -- throws, its last call of the callback threw, and the bytes handed to that call are exactly those
  -- buffered now, at least one. Each span sent has between one byte and `capacity` bytes.
  pub write-Written :
      (b : WriteBuffer) (bytes : List ℕ)
      → Inv b
      → Written b bytes (write (some throws) clock b bytes)
  unfolding write
  write-Written b [] v = write_loop-Written (2 * length {A = ℕ} []) b [] v (inr refl)
  write-Written b (x ∷ bytes) v =
      write_loop-Written (2 * length (x ∷ bytes)) b (x ∷ bytes) v (inl (ground arith))
