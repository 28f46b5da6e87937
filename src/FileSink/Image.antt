-- ===== src/FileSink/Image.antt =====
-- The file that a `FileByteSink` leaves, in whichever order the system carries its overlapped
-- writes out.
use sora_transport.Prelude.{
  ℕ, zero, suc, ◌+◌, ◌-◌, ◌≤◌, ◌<◌, ◌≡◌, ◌≢◌, refl, sym, ap, ◌∙◌, true, false, List, [], ◌∷◌, ◌++◌,
  length, arith, Option, none, some, Option-cases, Bool-cases, inl, inr, if◌then◌else◌, ltb,
}
use mathlib.Core.List.{Memᴰ, Permᴰ}
use mathlib.Core.List.Memᴰ.{head, tail, not-nil}
use mathlib.Core.List.Permᴰ.{nil, cons, swap, trans, symm}
use sora_transport.FileSink.{FileWrite}
use sora_transport.FileSink.Slots.{bytes_of, Tiles}

abbrev pub get_elem? {ℓ} : {A : Type ℓ} → List A → ℕ → Option A
get_elem? [] i = none
get_elem? (x ∷ xs) zero = some x
get_elem? (x ∷ xs) (suc i) = get_elem? xs i

-- What a write puts at a position of the file.
abbrev pub byte_at : FileWrite → ℕ → Option ℕ
byte_at w i = if ltb i w.offset then none else get_elem? w.bytes (i - w.offset)

abbrev pub or_else {ℓ} : {A : Type ℓ} → Option A → Option A → Option A
or_else none o = o
or_else (some a) o = some a

-- The file after the writes, the last one first in the list; `none` where nothing was written.
abbrev pub image : List FileWrite → ℕ → Option ℕ
image [] i = none
image (w ∷ ws) i = or_else (byte_at w i) (image ws i)

byte_before : (w : FileWrite) (i : ℕ) → ltb i w.offset ≡ true → byte_at w i ≡ none
byte_before w i h = ap (λ t. if t then none else get_elem? w.bytes (i - w.offset)) h

byte_within :
    (w : FileWrite) (i : ℕ)
    → ltb i w.offset ≡ false
    → byte_at w i ≡ get_elem? w.bytes (i - w.offset)
byte_within w i h = ap (λ t. if t then none else get_elem? w.bytes (i - w.offset)) h

some_not_none : {b : ℕ} {o : Option ℕ} → o ≡ some b → o ≡ none → ⊥
some_not_none p q = cc

pub get_elem?-append_left :
    (xs ys : List ℕ) (i : ℕ) (b : ℕ) → get_elem? xs i ≡ some b → get_elem? (xs ++ ys) i ≡ some b
get_elem?-append_left [] ys i b h = cc
get_elem?-append_left (x ∷ xs) ys zero b h = h
get_elem?-append_left (x ∷ xs) ys (suc i) b h = get_elem?-append_left xs ys i b h

get_elem?-append_right :
    (xs ys : List ℕ) (i : ℕ) → length xs ≤ i → get_elem? (xs ++ ys) i ≡ get_elem? ys (i - length xs)
get_elem?-append_right [] ys i h = ap (get_elem? ys) (omega arith)
get_elem?-append_right (x ∷ xs) ys zero h = absurd (omega arith)
get_elem?-append_right (x ∷ xs) ys (suc i) h =
    get_elem?-append_right xs ys i (omega arith) ∙ ap (get_elem? ys) (omega arith)

get_elem?-append_before :
    (xs ys : List ℕ) (i : ℕ) → i < length xs → get_elem? (xs ++ ys) i ≡ get_elem? xs i
get_elem?-append_before [] ys i h = absurd (omega arith)
get_elem?-append_before (x ∷ xs) ys zero h = refl
get_elem?-append_before (x ∷ xs) ys (suc i) h = get_elem?-append_before xs ys i (omega arith)

-- A write that has a byte for the position has the one that the bytes in order have there.
byte_at_agrees :
    (start end : ℕ) (ws : List FileWrite) (w : FileWrite) (i b : ℕ)
    → Tiles start ws end
    → Memᴰ w ws
    → byte_at w i ≡ some b
    → (start ≤ i) × (get_elem? (bytes_of ws) (i - start) ≡ some b)
byte_at_agrees start end [] w i b h m e = absurd (not-nil m)
byte_at_agrees start end (v ∷ ws) w i b h (head p) e = elim (Bool-cases (ltb i v.offset)) [
  | inl before ↦ absurd (some_not_none at_v (byte_before v i before))
  | inr after ↦ (
    ground (arith, h.0),
    get_elem?-append_left v.bytes (bytes_of ws) (i - start) b
        (ap (λ o. get_elem? v.bytes (i - o)) (sym h.0) ∙ sym (byte_within v i after) ∙ at_v),
  )
]
  where
    at_v : byte_at v i ≡ some b
    at_v = ap (λ u. byte_at u i) (sym p) ∙ e
byte_at_agrees start end (v ∷ ws) w i b h (tail m) e =
    let r : (start + length v.bytes ≤ i)
        × (get_elem? (bytes_of ws) (i - (start + length v.bytes)) ≡ some b) =
      byte_at_agrees (start + length v.bytes) end ws w i b h.1 m e in
    (
      omega (arith, r.0),
      get_elem?-append_right v.bytes (bytes_of ws) (i - start) (omega (arith, r.0))
          ∙ ap (get_elem? (bytes_of ws)) (omega arith)
          ∙ r.1,
    )

byte_at_found :
    (start end : ℕ) (ws : List FileWrite) (i b : ℕ)
    → Tiles start ws end
    → start ≤ i
    → get_elem? (bytes_of ws) (i - start) ≡ some b
    → (w : FileWrite) × Memᴰ w ws × (byte_at w i ≡ some b)
byte_at_found start end [] i b h k e = cc
byte_at_found start end (v ∷ ws) i b h k e = elim (Bool-cases (ltb (i - start) (length v.bytes))) [
  | inl within ↦ (
    v,
    head refl,
    at_offset (sym (get_elem?-append_before v.bytes (bytes_of ws) (i - start) (ground arith)) ∙ e),
  )
  | inr past ↦
      let r : (w : FileWrite) × Memᴰ w ws × (byte_at w i ≡ some b) =
        byte_at_found (start + length v.bytes) end ws i b h.1 (ground arith) (
          ap (get_elem? (bytes_of ws)) (omega arith)
          ∙ sym (get_elem?-append_right v.bytes (bytes_of ws) (i - start) (ground arith))
          ∙ e) in
      (r.0, tail r.1, r.2)
]
  where
    at_offset : get_elem? v.bytes (i - start) ≡ some b → byte_at v i ≡ some b
    at_offset q =
        byte_within v i (ground (arith, h.0)) ∙ ap (λ o. get_elem? v.bytes (i - o)) h.0 ∙ q

image-some :
    (ws : List FileWrite) (i b : ℕ)
    → image ws i ≡ some b
    → (w : FileWrite) × Memᴰ w ws × (byte_at w i ≡ some b)
image-some [] i b h = cc
image-some (w ∷ ws) i b h = elim (Option-cases (byte_at w i)) [
  | inl e ↦
      let r : (v : FileWrite) × Memᴰ v ws × (byte_at v i ≡ some b) =
        image-some ws i b (sym (ap (λ o. or_else o (image ws i)) e) ∙ h) in
      (r.0, tail r.1, r.2)
  | inr (c, e) ↦ (w, head refl, e ∙ sym (ap (λ o. or_else o (image ws i)) e) ∙ h)
]

image-none :
    (ws : List FileWrite) (i b : ℕ) (w : FileWrite)
    → Memᴰ w ws
    → byte_at w i ≡ some b
    → image ws i ≢ none
image-none [] i b w m e h = not-nil m
image-none (v ∷ ws) i b w (head p) e h =
    some_not_none refl
      (sym (ap (λ o. or_else o (image ws i)) (ap (λ u. byte_at u i) (sym p) ∙ e)) ∙ h)
image-none (v ∷ ws) i b w (tail m) e h = elim (Option-cases (byte_at v i)) [
  | inl q ↦ image-none ws i b w m e (sym (ap (λ o. or_else o (image ws i)) q) ∙ h)
  | inr (c, q) ↦ some_not_none refl (sym (ap (λ o. or_else o (image ws i)) q) ∙ h)
]

Mem_permuted : {w : FileWrite} {vs ws : List FileWrite} → Permᴰ vs ws → Memᴰ w vs → Memᴰ w ws
Mem_permuted nil m = m
Mem_permuted (cons e p) (head q) = head (q ∙ e)
Mem_permuted (cons e p) (tail m) = tail (Mem_permuted p m)
Mem_permuted (swap e f) (head q) = tail (head (q ∙ e))
Mem_permuted (swap e f) (tail (head q)) = head (q ∙ f)
Mem_permuted (swap e f) (tail (tail m)) = tail (tail m)
Mem_permuted (trans p q) m = Mem_permuted q (Mem_permuted p m)

-- If writes follow each other from the start of the file, then carrying them out in any order, each
-- once, leaves the file with their bytes in order, and with no byte after them.
pub image_any_order :
    (ws done : List FileWrite) (end : ℕ)
    → Tiles 0 ws end
    → Permᴰ done ws
    → (i : ℕ) → image done i ≡ get_elem? (bytes_of ws) i
image_any_order ws done end h p i = elim (Option-cases (image done i)) [
  | inr (b, e) ↦
      let r : (w : FileWrite) × Memᴰ w done × (byte_at w i ≡ some b) = image-some done i b e in
      e
      ∙ sym (byte_at_agrees 0 end ws r.0 i b h (Mem_permuted p r.1) r.2).1
      ∙ ap (get_elem? (bytes_of ws)) (omega arith)
  | inl e ↦ elim (Option-cases (get_elem? (bytes_of ws) (i - 0))) [
    | inl q ↦ e ∙ sym q ∙ ap (get_elem? (bytes_of ws)) (omega arith)
    | inr (b, q) ↦
        let r : (w : FileWrite) × Memᴰ w ws × (byte_at w i ≡ some b) =
          byte_at_found 0 end ws i b h (omega arith) q in
        absurd (image-none done i b r.0 (Mem_permuted (symm p) r.1) r.2 e)
  ]
]

-- Of writes that follow each other from the start of the file, any that were carried out, in any
-- order, put only bytes where the bytes in order have them.
pub image_agrees :
    (ws done : List FileWrite) (end : ℕ)
    → Tiles 0 ws end
    → ((w : FileWrite) → Memᴰ w done → Memᴰ w ws)
    → (i b : ℕ) → image done i ≡ some b
    → get_elem? (bytes_of ws) i ≡ some b
image_agrees ws done end h among i b e =
    let r : (w : FileWrite) × Memᴰ w done × (byte_at w i ≡ some b) = image-some done i b e in
    ap (get_elem? (bytes_of ws)) (omega arith)
    ∙ (byte_at_agrees 0 end ws r.0 i b h (among r.0 r.1) r.2).1
