-- ===== src/FileCompare/Batches/Numbered.antt =====
-- The entries that a comparison forwards carry consecutive numbers.
use sora_transport.Prelude.{
  ℕ, ◌+◌, ◌≡◌, refl, sym, subst, Bool, true, false, not, List, [], ◌∷◌, ◌++◌, arith, length,
  Bool-cases, inl, inr, ◌||◌,
}
use sora_transport.Prelude.Result.{Result, ok, err}
use sora_transport.Prelude.Text.{Text}
use sora_transport.FileCompare.Json.{Codec, MessageError}
use sora_transport.FileCompare.Message.{FileInfoEntry}
use sora_transport.FileCompare.Batches.{
  TraversalEntry, PoppedBatch, batch_pop_threw, gave_batch, forward_entry, forwarded, ask,
  forward_entries, forward_batch, contains_path, send_batches_and_forward_diffs,
}

-- The sequence numbers are `n`, `n + 1` and so on.
abbrev pub Numbered : ℕ → List TraversalEntry → Type 0
Numbered n [] = Unit {0}
Numbered n (e ∷ es) = (e.sequence ≡ n) × Numbered (n + 1) es

append-Numbered :
    (n : ℕ) (xs ys : List TraversalEntry)
    → Numbered n xs
    → Numbered (n + length xs) ys
    → Numbered n (xs ++ ys)
append-Numbered n [] ys v w = subst (λ k. Numbered k ys) (omega arith) w
append-Numbered n (x ∷ xs) ys v w =
    (v.0, append-Numbered (n + 1) xs ys v.1 (subst (λ k. Numbered k ys) (omega arith) w))

-- The entries forwarded carry the numbers from `n` on, and the next number is the one after them.
abbrev Forwarded : ℕ → List TraversalEntry × Result MessageError ℕ → Type 0
Forwarded n r = Numbered n r.0 × ((next : ℕ) → r.1 ≡ ok next → n + length r.0 ≡ next)

forward_entry-Forwarded :
    (push_throws : ℕ → Bool) (e : TraversalEntry) (n : ℕ)
    (r : List TraversalEntry × Result MessageError ℕ)
    → Forwarded (n + 1) r
    → Forwarded n (forward_entry push_throws e n r)
forward_entry-Forwarded push_throws e n (es, end) f = elim (Bool-cases (push_throws n)) [
  | inl thrown ↦ rw thrown (tt, λ next h. cc)
  | inr fine ↦ rw fine ((refl, f.0), λ next h. omega (arith, f.1 next h))
]

forward_entries-Forwarded :
    (push_throws : ℕ → Bool) (diffs : List FileInfoEntry) (n : ℕ) (es : List TraversalEntry)
    → Forwarded n (forward_entries push_throws diffs n es)
unfolding forward_entries
forward_entries-Forwarded push_throws diffs n [] = (tt, λ next h. ground (arith, h))
forward_entries-Forwarded push_throws diffs n (e ∷ es) =
    elim (Bool-cases (not e.regular_file || contains_path diffs e.relative_path_in_tar)) [
      | inl taken ↦ rw taken (
          forward_entry-Forwarded push_throws e n (forward_entries push_throws diffs (n + 1) es)
            (forward_entries-Forwarded push_throws diffs (n + 1) es))
      | inr left ↦ rw left (forward_entries-Forwarded push_throws diffs n es)
    ]

module _ (codec : Codec) (exchange : Text → Result MessageError Text) (push_throws : ℕ → Bool) where
  forwarded-Numbered :
      (more : ℕ → List TraversalEntry × Result MessageError Text) (n : ℕ)
      (r : List TraversalEntry × Result MessageError ℕ)
      → Forwarded n r
      → ((k : ℕ) → Numbered k (more k).0)
      → Numbered n (forwarded codec exchange more r).0
  forwarded-Numbered more n (es, err e) f h = f.0
  forwarded-Numbered more n (es, ok next) f h =
      append-Numbered n es (more next).0 f.0
        (subst (λ k. Numbered k (more next).0) (sym (f.1 next refl)) (h next))

  forward_batch-Numbered :
      (more : ℕ → List TraversalEntry × Result MessageError Text) (es : List TraversalEntry) (n : ℕ)
      (r : Result MessageError (List FileInfoEntry))
      → ((k : ℕ) → Numbered k (more k).0)
      → Numbered n (forward_batch codec exchange push_throws more es n r).0
  forward_batch-Numbered more es n (err e) h = tt
  forward_batch-Numbered more es n (ok diffs) h =
      forwarded-Numbered more n (forward_entries push_throws diffs n es)
        (forward_entries-Forwarded push_throws diffs n es) h

  -- Whatever the receiver answers, and however the loop ends, the entries that it forwards carry
  -- consecutive sequence numbers from `next` on, also across batches.
  pub send_batches_and_forward_diffs-Numbered :
      (batches : List PoppedBatch) (next : ℕ)
      → Numbered next (send_batches_and_forward_diffs codec exchange push_throws batches next).0
  unfolding send_batches_and_forward_diffs
  send_batches_and_forward_diffs-Numbered [] next = tt
  send_batches_and_forward_diffs-Numbered (batch_pop_threw ∷ batches) next = tt
  send_batches_and_forward_diffs-Numbered (gave_batch true b ∷ batches) next = tt
  send_batches_and_forward_diffs-Numbered (gave_batch false b ∷ batches) next =
      forward_batch-Numbered (send_batches_and_forward_diffs codec exchange push_throws batches)
        b.entries next (ask codec exchange b.file_infos)
        (send_batches_and_forward_diffs-Numbered batches)
