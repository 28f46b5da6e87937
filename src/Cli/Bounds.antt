-- ===== src/Cli/Bounds.antt =====
-- What the parsed options are bounded by.
use sora_transport.Prelude.{
  ℕ, zero, suc, ◌*◌, ◌%◌, ◌^◌, ◌≤◌, ◌<◌, ◌≡◌, refl, ap, ◌∙◌, subst, Bool, true, ◌&&◌, ◌||◌, Option,
  none, some, List, [], ◌∷◌, length, arith, Bool-cases, Option-cases, inl, inr,
}
use sora_transport.Prelude.Result.{Result, ok, ◌>>=◌, >>=-ok}
use sora_transport.Prelude.Int.{ℤ, pos, negsuc, ◌≤ℤ◌}
use sora_transport.Prelude.Text.{Text, codes, text_eq}
use sora_transport.Cli.{
  CliError, RuntimeOptions, default_options, Numbers, PackUnpackOptions, parse_mebibytes,
  parse_positive_count, parse_compression_level, parse_fasttar_mode_option,
}
use sora_transport.Cli.Holds.{bind_holds, with_value_holds}
use sora_transport.Cli.Arguments.{
  try_parse_runtime_option, next_pack_argument, parse_pack_unpack_loop, parse_pack_unpack_options,
}

-- A read budget of whole mebibytes, at least 64, in 64 bits.
abbrev pub BoundedBudget : Option ℕ → Type 0
BoundedBudget none = Unit {0}
BoundedBudget (some n) = (64 * 1024 * 1024 ≤ n) × (n < 2 ^ 64) × (n % (1024 * 1024) ≡ 0)

abbrev pub BoundedWrites : Option ℕ → Type 0
BoundedWrites none = Unit {0}
BoundedWrites (some n) = (0 < n) × (n < 2 ^ 64)

abbrev pub BoundedLevel : Option ℤ → Type 0
BoundedLevel none = Unit {0}
BoundedLevel (some z) = (negsuc 131071 ≤ℤ z) × (z ≤ℤ pos 22)

pub record IsBounded (o : RuntimeOptions) : Type 0 where
  pub budget : BoundedBudget o.max_in_flight_read_bytes
  pub writes : BoundedWrites o.max_in_flight_write_ops
  pub level : BoundedLevel o.compression_level

module _ (numbers : Numbers) where
  parse_mebibytes_bounded :
      (t : Text) (n : ℕ)
      → parse_mebibytes numbers t ≡ ok n
      → (64 * 1024 * 1024 ≤ n) × (n < 2 ^ 64) × (n % (1024 * 1024) ≡ 0)
  unfolding parse_mebibytes
  parse_mebibytes_bounded t n e = elim (Option-cases (numbers.stoull t)) [
    | inl a ↦ absurd (ground (arith, e, a))
    | inr a ↦ ground (arith, e, a)
  ]

  parse_positive_count_bounded :
      (t : Text) (n : ℕ) → parse_positive_count numbers t ≡ ok n → (0 < n) × (n < 2 ^ 64)
  unfolding parse_positive_count
  parse_positive_count_bounded t n e = elim (Option-cases (numbers.stoull t)) [
    | inl a ↦ absurd (ground (arith, e, a))
    | inr a ↦ ground (arith, e, a)
  ]

  parse_compression_level_bounded :
      (t : Text) (z : ℤ)
      → parse_compression_level numbers t ≡ ok z
      → (negsuc 131071 ≤ℤ z) × (z ≤ℤ pos 22)
  unfolding parse_compression_level
  parse_compression_level_bounded t z e = elim (Option-cases (numbers.stoi t)) [
    | inl a ↦ absurd (ground (arith, e, a))
    | inr a ↦ ground (arith, e, a)
  ]

  try_parse-IsBounded :
      (o p : RuntimeOptions) (argument : Text) (rest left : List Text)
      → IsBounded o
      → try_parse_runtime_option numbers o argument rest ≡ ok (some (p, left))
      → IsBounded p
  unfolding try_parse_runtime_option
  try_parse-IsBounded o p argument rest left v e =
      elim (Bool-cases (text_eq argument (codes "--log-adaptive"))) [
        | inl a ↦
            let same : record o { log_adaptive_compression = true } ≡ p = ground (arith, e, a) in
            subst (λ x. IsBounded x) same
              (record { budget = v.budget; writes = v.writes; level = v.level })
        | inr a ↦ elim (Bool-cases (text_eq argument (codes "-r"))) [
          | inl b ↦
              with_value_holds numbers IsBounded rest left
                (λ t. parse_mebibytes numbers t >>= λ n.
                  ok (record o { max_in_flight_read_bytes = some n }))
                p
                (λ t q.
                  bind_holds IsBounded (parse_mebibytes numbers t)
                    (λ n. record o { max_in_flight_read_bytes = some n }) q
                    (λ n m. record {
                      budget = parse_mebibytes_bounded t n m;
                      writes = v.writes;
                      level = v.level;
                    }))
                (ground (arith, e, a, b))
          | inr b ↦ elim (Bool-cases (text_eq argument (codes "-w"))) [
            | inl c ↦
                with_value_holds numbers IsBounded rest left
                  (λ t. parse_positive_count numbers t >>= λ n.
                    ok (record o { max_in_flight_write_ops = some n }))
                  p
                  (λ t q.
                    bind_holds IsBounded (parse_positive_count numbers t)
                      (λ n. record o { max_in_flight_write_ops = some n }) q
                      (λ n m. record {
                        budget = v.budget;
                        writes = parse_positive_count_bounded t n m;
                        level = v.level;
                      }))
                  (ground (arith, e, a, b, c))
            | inr c ↦ elim (Bool-cases (text_eq argument (codes "-l"))) [
              | inl d ↦
                  with_value_holds numbers IsBounded rest left
                    (λ t. parse_compression_level numbers t >>= λ n.
                      ok (record o { compression_level = some n }))
                    p
                    (λ t q.
                      bind_holds IsBounded (parse_compression_level numbers t)
                        (λ n. record o { compression_level = some n }) q
                        (λ n m. record {
                          budget = v.budget;
                          writes = v.writes;
                          level = parse_compression_level_bounded t n m;
                        }))
                    (ground (arith, e, a, b, c, d))
              | inr d ↦ absurd (ground (arith, e, a, b, c, d))
            ]
          ]
        ]
      ]

  next_pack-IsBounded :
      (more : List Text → PackUnpackOptions → Result CliError PackUnpackOptions) (argument : Text)
      (rest : List Text) (o q : PackUnpackOptions) (t : Option (RuntimeOptions × List Text))
      → ((args : List Text) (p : PackUnpackOptions)
          → IsBounded p.runtime_options
          → more args p ≡ ok q
          → IsBounded q.runtime_options)
      → IsBounded o.runtime_options
      → ((rt : RuntimeOptions) (left : List Text) → t ≡ some (rt, left) → IsBounded rt)
      → next_pack_argument numbers more argument rest o t ≡ ok q
      → IsBounded q.runtime_options
  next_pack-IsBounded more argument rest o q none h v w e = h rest _ v e
  next_pack-IsBounded more argument rest o q (some (rt, left)) h v w e = h left _ (w rt left refl) e

  pack_loop-IsBounded :
      (fuel : ℕ) (allow : Bool) (args : List Text) (o q : PackUnpackOptions)
      → IsBounded o.runtime_options
      → parse_pack_unpack_loop numbers fuel allow args o ≡ ok q
      → IsBounded q.runtime_options
  unfolding parse_pack_unpack_loop
  pack_loop-IsBounded zero allow [] o q v e = ground (arith, e)
  pack_loop-IsBounded (suc fuel) allow [] o q v e = ground (arith, e)
  pack_loop-IsBounded zero allow (a ∷ args) o q v e = ground (arith, e)
  pack_loop-IsBounded (suc fuel) allow (a ∷ args) o q v e =
      elim (Bool-cases (allow && (text_eq a (codes "-z") || text_eq a (codes "-n")))) [
        | inl c ↦
            let b =
              >>=-ok (parse_fasttar_mode_option a)
                (λ mode.
                  parse_pack_unpack_loop numbers fuel allow args
                    (record o { compression_mode = some mode }))
                (ground (arith, e, c)) in
            pack_loop-IsBounded fuel allow args (record o { compression_mode = some b.0 }) q v b.2
        | inr c ↦
            let b =
              >>=-ok (try_parse_runtime_option numbers o.runtime_options a args)
                (next_pack_argument numbers (parse_pack_unpack_loop numbers fuel allow) a args o)
                (ground (arith, e, c)) in
            next_pack-IsBounded (parse_pack_unpack_loop numbers fuel allow) a args o q b.0
              (λ left p. pack_loop-IsBounded fuel allow left p q) v
              (λ rt left t. try_parse-IsBounded o.runtime_options rt a args left v (b.1 ∙ ap ok t))
              b.2
      ]

  default-IsBounded : IsBounded default_options
  default-IsBounded = record { budget = tt; writes = tt; level = tt }

  -- Options that `parse_pack_unpack_options` accepts: a read budget is a whole number of MiB, of at
  -- least 64 MiB, and fits in 64 bits, a count of writes is positive and fits too, and a
  -- compression level is in -131072..22. This holds whatever numbers the library's parsers return.
  pub parse_pack_unpack_options-IsBounded :
      (args : List Text) (allow : Bool) (o : PackUnpackOptions)
      → parse_pack_unpack_options numbers args allow ≡ ok o
      → IsBounded o.runtime_options
  unfolding parse_pack_unpack_options
  parse_pack_unpack_options-IsBounded args allow o e =
      pack_loop-IsBounded (length args) allow args _ o default-IsBounded e
