-- ===== src/FileCompare/Batches/Sound.antt =====
-- What the producer batches.
use sora_transport.Prelude.{
  ℕ, ◌+◌, ap, ◌≤◌, ◌<◌, ◌≡◌, refl, ◌∙◌, sym, Bool, true, false, List, [], ◌∷◌, ◌++◌, All, arith,
  is_empty, length, length-append, append-nil, append_assoc, if◌then◌else◌, Bool-cases, inl, inr,
}
use sora_transport.Prelude.Result.{Result, ok, err, ◌>>=◌}
use sora_transport.Prelude.Text.{Text}
use sora_transport.FileCompare.Json.{MessageError}
use sora_transport.FileCompare.Message.{FileInfoEntry}
use sora_transport.FileCompare.Local.{LocalFile}
use sora_transport.FileCompare.Batches.{
  TraversalEntry, PendingTraversalBatch, empty_batch, add_to_batch, is_full,
  produce_comparison_batches, file_info_for_entry, Popped, pop_threw, gave, push_batch, batch_added,
}

module _ (sender_files : Text → LocalFile) where
  -- The entry as it is forwarded: a regular file has its metadata filled in.
  abbrev pub filled_in :
      TraversalEntry → Result MessageError (TraversalEntry × FileInfoEntry) → TraversalEntry
  filled_in entry (err e) = entry
  filled_in entry (ok (filled, info)) = filled

  abbrev pub filled : TraversalEntry → TraversalEntry
  filled entry =
      if entry.regular_file
      then filled_in entry (file_info_for_entry (sender_files entry.relative_path_in_tar) entry)
      else entry

  abbrev pub popped : List Popped → List TraversalEntry
  popped [] = []
  popped (pop_threw ∷ rest) = []
  popped (gave c entry ∷ rest) = filled entry ∷ popped rest

  abbrev pub batched : List PendingTraversalBatch → List TraversalEntry
  batched [] = []
  batched (b ∷ bs) = b.entries ++ batched bs

  -- At least one entry, and at most 256 files and 512 entries.
  pub record IsBatch (b : PendingTraversalBatch) : Type 0 where
    pub some_entry : 0 < length b.entries
    pub few_files : length b.file_infos ≤ 256
    pub few_entries : length b.entries ≤ 512

  -- A batch that is not full.
  pub record IsOpen (b : PendingTraversalBatch) : Type 0 where
    pub files_left : length b.file_infos < 256
    pub entries_left : length b.entries < 512

  empty_is : (es : List TraversalEntry) → is_empty es ≡ true → es ≡ []
  empty_is [] h = refl
  empty_is (e ∷ es) h = absurd (ground (arith, h))

  not_empty : (es : List TraversalEntry) → is_empty es ≡ false → 0 < length es
  not_empty [] h = absurd (ground (arith, h))
  not_empty (e ∷ es) h = omega arith

  -- A batch that an entry was added to.
  record Grown (e : TraversalEntry) (b next : PendingTraversalBatch) : Type 0 where
    entries_are : next.entries ≡ b.entries ++ (filled e ∷ [])
    files_are : length next.file_infos ≤ length b.file_infos + 1

  grows :
      (regular : Bool) (r : Result MessageError (TraversalEntry × FileInfoEntry))
      (e : TraversalEntry) (b next : PendingTraversalBatch)
      → (if regular
          then (r >>= λ r. ok (record {
            file_infos = b.file_infos ++ (r.1 ∷ []);
            entries = b.entries ++ (r.0 ∷ []);
          }))
          else ok (record b { entries = b.entries ++ (e ∷ []) }))
        ≡ ok next
      → (next.entries ≡ b.entries ++ ((if regular then filled_in e r else e) ∷ []))
        × (length next.file_infos ≤ length b.file_infos + 1)
  grows true (err x) e b next h = cc
  grows true (ok (f, i)) e b next h = ground (arith, h, length-append b.file_infos (i ∷ []))
  grows false r e b next h = ground (arith, h)

  add_to_batch-Grown :
      (e : TraversalEntry) (b next : PendingTraversalBatch)
      → add_to_batch sender_files e b ≡ ok next
      → Grown e b next
  unfolding add_to_batch
  add_to_batch-Grown e b next h =
      let (entries_are, files_are) =
        grows e.regular_file (file_info_for_entry (sender_files e.relative_path_in_tar) e) e b next
          h in
      record { entries_are = entries_are; files_are = files_are }

  Grown-IsBatch :
      (e : TraversalEntry) (b next : PendingTraversalBatch)
      → IsOpen b
      → Grown e b next
      → IsBatch next
  Grown-IsBatch e b next v g =
      let size : length next.entries ≡ length b.entries + 1 =
        ap length g.entries_are ∙ length-append b.entries (filled e ∷ []) in
      record {
        some_entry = omega (arith, size);
        few_files = omega (arith, g.files_are, v.files_left);
        few_entries = omega (arith, size, v.entries_left);
      }

  IsOpen-empty : IsOpen empty_batch
  IsOpen-empty = record { files_left = omega arith; entries_left = omega arith }

  module _ (push_throws : ℕ → Bool) where
    abbrev produced :
        List Popped
        → PendingTraversalBatch
        → ℕ
        → List PendingTraversalBatch × Result MessageError (Unit {0})
    produced = produce_comparison_batches sender_files push_throws

    push_batch-All :
        (k : ℕ) (b : PendingTraversalBatch)
        (r : List PendingTraversalBatch × Result MessageError (Unit {0}))
        → IsBatch b
        → All IsBatch r.0
        → All IsBatch (push_batch sender_files push_throws k b r).0
    push_batch-All k b (bs, end) v w = elim (Bool-cases (push_throws k)) [
      | inl thrown ↦ rw thrown tt
      | inr fine ↦ rw fine (v, w)
    ]

    batch_added-All :
        (e : TraversalEntry) (b : PendingTraversalBatch) (k : ℕ)
        (more : PendingTraversalBatch
          → ℕ
          → List PendingTraversalBatch × Result MessageError (Unit {0}))
        (r : Result MessageError PendingTraversalBatch)
        → add_to_batch sender_files e b ≡ r
        → IsOpen b
        → ((c : PendingTraversalBatch) (l : ℕ) → IsOpen c → All IsBatch (more c l).0)
        → All IsBatch (batch_added sender_files push_throws more k r).0
    batch_added-All e b k more (err x) h v ih = tt
    batch_added-All e b k more (ok next) h v ih = elim (Bool-cases (is_full sender_files next)) [
      | inl full ↦ rw full (
          push_batch-All k next (more empty_batch (k + 1))
            (Grown-IsBatch e b next v (add_to_batch-Grown e b next h))
            (ih empty_batch (k + 1) IsOpen-empty))
      | inr room ↦ rw room (
          ih next k
            (record { files_left = ground (arith, room); entries_left = ground (arith, room) }))
    ]

    produce-IsBatch :
        (es : List Popped) (b : PendingTraversalBatch) (k : ℕ)
        → IsOpen b
        → All IsBatch (produced es b k).0
    unfolding produce_comparison_batches
    produce-IsBatch [] b k v = elim (Bool-cases (is_empty b.entries)) [
      | inl none ↦ rw none tt
      | inr there ↦ rw there (
          push_batch-All k b ([], ok tt)
            (record {
              some_entry = not_empty b.entries there;
              few_files = omega (arith, v.files_left);
              few_entries = omega (arith, v.entries_left);
            })
            tt)
    ]
    produce-IsBatch (pop_threw ∷ es) b k v = tt
    produce-IsBatch (gave true e ∷ es) b k v = tt
    produce-IsBatch (gave false e ∷ es) b k v =
        batch_added-All e b k (produced es) (add_to_batch sender_files e b) refl v
          (produce-IsBatch es)

    push_batch-batched :
        (k : ℕ) (b : PendingTraversalBatch)
        (r : List PendingTraversalBatch × Result MessageError (Unit {0}))
        → (push_batch sender_files push_throws k b r).1 ≡ ok tt
        → (r.1 ≡ ok tt)
          × (batched (push_batch sender_files push_throws k b r).0 ≡ b.entries ++ batched r.0)
    push_batch-batched k b (bs, end) h = ground (arith, h)

    batch_added-batched :
        (e : TraversalEntry) (b : PendingTraversalBatch) (k : ℕ) (entries : List TraversalEntry)
        (more : PendingTraversalBatch
          → ℕ
          → List PendingTraversalBatch × Result MessageError (Unit {0}))
        (r : Result MessageError PendingTraversalBatch)
        → add_to_batch sender_files e b ≡ r
        → (batch_added sender_files push_throws more k r).1 ≡ ok tt
        → ((c : PendingTraversalBatch) (l : ℕ)
            → (more c l).1 ≡ ok tt
            → batched (more c l).0 ≡ c.entries ++ entries)
        → batched (batch_added sender_files push_throws more k r).0
          ≡ b.entries ++ (filled e ∷ entries)
    batch_added-batched e b k entries more (err x) h end ih = cc
    batch_added-batched e b k entries more (ok next) h end ih =
        stepped (is_full sender_files next) end
        ∙ ap (λ xs. xs ++ entries) (add_to_batch-Grown e b next h).entries_are
        ∙ append_assoc b.entries (filled e ∷ []) entries
      where
        stepped :
            (full : Bool)
            → (if full
                then push_batch sender_files push_throws k next (more empty_batch (k + 1))
                else more next k).1
              ≡ ok tt
            → batched
                (if full
                  then push_batch sender_files push_throws k next (more empty_batch (k + 1))
                  else more next k).0
              ≡ next.entries ++ entries
        stepped true end =
            let (ended, pushed) = push_batch-batched k next (more empty_batch (k + 1)) end in
            pushed ∙ ap (◌++◌ next.entries) (ih empty_batch (k + 1) ended)
        stepped false end = ih next k end

    produce_batched :
        (es : List Popped) (b : PendingTraversalBatch) (k : ℕ)
        → (produced es b k).1 ≡ ok tt
        → batched (produced es b k).0 ≡ b.entries ++ popped es
    unfolding produce_comparison_batches
    produce_batched [] b k h = last (is_empty b.entries) refl h
      where
        last :
            (nothing : Bool)
            → is_empty b.entries ≡ nothing
            → (if nothing
                then ([], ok tt)
                else push_batch sender_files push_throws k b ([], ok tt)).1
              ≡ ok tt
            → batched
                (if nothing
                  then ([], ok tt)
                  else push_batch sender_files push_throws k b ([], ok tt)).0
              ≡ b.entries ++ []
        last true none h = sym (append-nil b.entries ∙ empty_is b.entries none)
        last false there h = (push_batch-batched k b ([], ok tt) h).1
    produce_batched (pop_threw ∷ es) b k h = cc
    produce_batched (gave true e ∷ es) b k h = cc
    produce_batched (gave false e ∷ es) b k h =
        batch_added-batched e b k (popped es) (produced es) (add_to_batch sender_files e b) refl h
          (produce_batched es)

    -- From an empty batch, every batch that is pushed has at least one entry and at most 256 files
    -- and 512 entries, also when the loop is cancelled or an exception ends it.
    pub produce_comparison_batches-IsBatch :
        (es : List Popped)
        → All IsBatch (produce_comparison_batches sender_files push_throws es empty_batch 0).0
    produce_comparison_batches-IsBatch es = produce-IsBatch es empty_batch 0 IsOpen-empty

    -- A producer that ends without an exception pushes all the entries that it popped, in order,
    -- each regular file with its metadata filled in.
    pub produce_comparison_batches_complete :
        (es : List Popped)
        → (produce_comparison_batches sender_files push_throws es empty_batch 0).1 ≡ ok tt
        → batched (produce_comparison_batches sender_files push_throws es empty_batch 0).0
          ≡ popped es
    produce_comparison_batches_complete es h = produce_batched es empty_batch 0 h
