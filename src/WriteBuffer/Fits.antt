-- ===== src/WriteBuffer/Fits.antt =====
-- A write that fits into the buffer, and a flush, each as one step.
use sora_transport.Prelude.{
  ℕ, zero, suc, ◌-◌, ◌*◌, ◌≤◌, ◌<◌, ◌≡◌, refl, sym, ap, ◌∙◌, subst, Bool, true, false, some, List,
  [], ◌∷◌, ◌++◌, length, take, drop, min, arith, ◌==◌, if◌then◌else◌, is_empty, ◌||◌, length-append,
  append-nil,
}
use sora_transport.WriteBuffer.{
  WriteBuffer, Outcome, returned, threw, out_of_fuel, do_flush, flush, fill, flush_if_due, go_on,
  write_round, write_loop, write, overdue,
}

-- What a step leaves: what waits, what was sent by it, and how it ended.
pub record Left (b c : WriteBuffer) (buffered : List ℕ) (spans : List (List ℕ)) : Type 0 where
  pub capacity_same : c.capacity ≡ b.capacity
  pub waits : c.buffered ≡ buffered
  pub gone : c.sent ≡ b.sent ++ spans

-- The ends of a flush of `bytes`: all was sent as one span, or the callback threw and all waits.
pub data Drain (b : WriteBuffer) (bytes : List ℕ) : WriteBuffer × Outcome → Type 0 where
  sent : {c : WriteBuffer} → Left b c [] (bytes ∷ []) → Drain b bytes (c, returned)
  stuck : {c : WriteBuffer} → Left b c bytes [] → Drain b bytes (c, threw)

-- The ends of a step on a buffer that then holds `bytes`: all waits and there is room, or a flush.
pub data Step (b : WriteBuffer) (bytes : List ℕ) : WriteBuffer × Outcome → Type 0 where
  waiting :
      {c : WriteBuffer} → Left b c bytes [] → length bytes < b.capacity → Step b bytes (c, returned)
  through : {r : WriteBuffer × Outcome} → Drain b bytes r → Step b bytes r

if-Drain :
    (b : WriteBuffer) (bytes : List ℕ) (t : Bool) (x y : WriteBuffer × Outcome)
    → (t ≡ true → Drain b bytes x)
    → (t ≡ false → Drain b bytes y)
    → Drain b bytes (if t then x else y)
if-Drain b bytes true x y h j = h refl
if-Drain b bytes false x y h j = j refl

if-Step :
    (b : WriteBuffer) (bytes : List ℕ) (t : Bool) (x y : WriteBuffer × Outcome)
    → (t ≡ true → Step b bytes x)
    → (t ≡ false → Step b bytes y)
    → Step b bytes (if t then x else y)
if-Step b bytes true x y h j = h refl
if-Step b bytes false x y h j = j refl

append_nonempty : (xs : List ℕ) (y : ℕ) (ys : List ℕ) → is_empty (xs ++ (y ∷ ys)) ≡ false
append_nonempty [] y ys = refl
append_nonempty (x ∷ xs) y ys = refl

take_all : (n : ℕ) (xs : List ℕ) → length xs ≤ n → take n xs ≡ xs
take_all zero [] h = refl
take_all zero (x ∷ xs) h = absurd (omega arith)
take_all (suc n) [] h = refl
take_all (suc n) (x ∷ xs) h = ap (◌∷◌ x) (take_all n xs (omega arith))

drop_all : (n : ℕ) (xs : List ℕ) → length xs ≤ n → drop n xs ≡ []
drop_all zero [] h = refl
drop_all zero (x ∷ xs) h = absurd (omega arith)
drop_all (suc n) [] h = refl
drop_all (suc n) (x ∷ xs) h = drop_all n xs (omega arith)

module _ (throws : ℕ → List ℕ → Bool) (clock : ℕ → ℕ) where
  do_flush-Drain :
      (b c : WriteBuffer)
      → c.capacity ≡ b.capacity
      → c.sent ≡ b.sent
      → is_empty c.buffered ≡ false
      → Drain b c.buffered (do_flush (some throws) clock c)
  unfolding do_flush
  do_flush-Drain b c k g e =
      if-Drain b c.buffered (is_empty c.buffered) _ _ (λ f. absurd (ground (arith, e, f)))
        (λ _.
          if-Drain b c.buffered (throws c.calls c.buffered) _ _
            (λ _.
              stuck
                (record { capacity_same = k; waits = refl; gone = g ∙ sym (append-nil b.sent) }))
            (λ _. sent (record {
              capacity_same = k;
              waits = refl;
              gone = ap (λ ss. ss ++ (c.buffered ∷ [])) g;
            })))

  -- A flush of an empty buffer does nothing.
  pub flush_empty :
      (b : WriteBuffer) → b.buffered ≡ [] → flush (some throws) clock b ≡ (b, returned)
  unfolding flush
  flush_empty b e =
      ap (λ bs. if is_empty bs then (b, returned) else do_flush (some throws) clock b) e

  pub flush-Drain :
      (b : WriteBuffer)
      → is_empty b.buffered ≡ false
      → Drain b b.buffered (flush (some throws) clock b)
  unfolding flush
  flush-Drain b e =
      subst (λ t. Drain b b.buffered (if t then (b, returned) else do_flush (some throws) clock b))
        (sym e) (do_flush-Drain b b refl refl e)

  filled-Step :
      (b : WriteBuffer) (x : ℕ) (bytes : List ℕ)
      → length (b.buffered ++ (x ∷ bytes)) ≤ b.capacity
      → Step b (b.buffered ++ (x ∷ bytes)) (
          flush_if_due
            (some throws)
            clock
            (fill (some throws) clock b (clock b.readings) (x ∷ bytes))
            (clock b.readings))
  unfolding flush_if_due fill
  filled-Step b x bytes h =
      if-Step b (b.buffered ++ (x ∷ bytes))
        (length (b.buffered ++ (x ∷ bytes)) == b.capacity
          || overdue b.max_delay (clock b.readings)
              (if is_empty b.buffered then some (clock b.readings) else b.fill_started_at))
        _ _
        (λ _. through (
          do_flush-Drain b (fill (some throws) clock b (clock b.readings) (x ∷ bytes)) refl refl (
            ground
              (arith, length-append b.buffered (x ∷ bytes), append_nonempty b.buffered x bytes))))
        (λ more.
          waiting (record { capacity_same = refl; waits = refl; gone = sym (append-nil b.sent) })
            (ground (arith, h)))

  loop_done :
      (fuel : ℕ) (b : WriteBuffer) (bytes rest : List ℕ) (r : WriteBuffer × Outcome)
      → rest ≡ []
      → Step b bytes r
      → Step b bytes (go_on (some throws) clock (write_loop (some throws) clock fuel) (r, rest))
  unfolding write_loop
  loop_done fuel b bytes rest (c, returned) e s =
      subst (λ xs. Step b bytes (write_loop (some throws) clock fuel c xs)) (sym e) s
  loop_done fuel b bytes rest (c, threw) e s = s
  loop_done fuel b bytes rest (c, out_of_fuel) e s = s

  write_loop-Step :
      (fuel : ℕ) (b : WriteBuffer) (x : ℕ) (bytes : List ℕ)
      → 0 < fuel
      → length (b.buffered ++ (x ∷ bytes)) ≤ b.capacity
      → Step b (b.buffered ++ (x ∷ bytes)) (write_loop (some throws) clock fuel b (x ∷ bytes))
  unfolding write_loop write_round
  write_loop-Step zero b x bytes f h = absurd (omega arith)
  write_loop-Step (suc fuel) b x bytes f h =
      let room : (b.capacity - length b.buffered == 0) ≡ false =
        ground (arith, h, length-append b.buffered (x ∷ bytes)) in
      let n : ℕ = min (b.capacity - length b.buffered) (length (x ∷ bytes)) in
      let all : length (x ∷ bytes) ≤ n = omega (arith, h, length-append b.buffered (x ∷ bytes)) in
      rw room (
        loop_done fuel b (b.buffered ++ (x ∷ bytes)) (drop n (x ∷ bytes)) _
          (drop_all n (x ∷ bytes) all)
          (subst
            (λ xs. Step b (b.buffered ++ (x ∷ bytes)) (
              flush_if_due (some throws) clock (fill (some throws) clock b (clock b.readings) xs)
                (clock b.readings)))
            (sym (take_all n (x ∷ bytes) all)) (filled-Step b x bytes h)))

  -- A write that fits is one copy.
  pub write-Step :
      (b : WriteBuffer) (x : ℕ) (bytes : List ℕ)
      → length (b.buffered ++ (x ∷ bytes)) ≤ b.capacity
      → Step b (b.buffered ++ (x ∷ bytes)) (write (some throws) clock b (x ∷ bytes))
  unfolding write
  write-Step b x bytes h = write_loop-Step (2 * length (x ∷ bytes)) b x bytes (omega arith) h
