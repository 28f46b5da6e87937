-- ===== src/Cli/Listen.antt =====
-- The options of `listen`: what its usage text offers and the parser does not take.
use sora_transport.Prelude.{
  ℕ, zero, suc, ◌≡◌, refl, ap, sym, ◌∙◌, true, false, ◌||◌, Option, none, some, List, [], ◌∷◌, ◌++◌,
  length, arith, Bool-cases, inl, inr,
}
use sora_transport.Prelude.Result.{Result, ok, ◌>>=◌, >>=-ok}
use sora_transport.Prelude.Text.{Text, codes, text_eq, text_eq_sound}
use sora_transport.Cli.{
  CliError, RuntimeOptions, default_options, Numbers, ListenOptions, parse_mebibytes,
  parse_compression_level,
}
use sora_transport.Cli.Holds.{bind_holds, with_value_holds}
use sora_transport.Cli.Arguments.{
  try_parse_runtime_option, next_listen_argument, parse_listen_loop, parse_listen_options,
}

-- What `-r` and `-l` leave as it was.
abbrev pub Keeps : RuntimeOptions → RuntimeOptions → Type 0
Keeps o p =
    (p.log_adaptive_compression ≡ o.log_adaptive_compression)
    × (p.max_in_flight_write_ops ≡ o.max_in_flight_write_ops)

module _ (numbers : Numbers) where
  try_budget-Keeps :
      (o p : RuntimeOptions) (rest left : List Text)
      → try_parse_runtime_option numbers o (codes "-r") rest ≡ ok (some (p, left))
      → Keeps o p
  unfolding try_parse_runtime_option
  try_budget-Keeps o p rest left e =
      with_value_holds numbers (Keeps o) rest left
        (λ t.
          parse_mebibytes numbers t >>= λ n. ok (record o { max_in_flight_read_bytes = some n }))
        p
        (λ t q.
          bind_holds (Keeps o) (parse_mebibytes numbers t)
            (λ n. record o { max_in_flight_read_bytes = some n }) q (λ n m. (refl, refl)))
        e

  try_level-Keeps :
      (o p : RuntimeOptions) (rest left : List Text)
      → try_parse_runtime_option numbers o (codes "-l") rest ≡ ok (some (p, left))
      → Keeps o p
  unfolding try_parse_runtime_option
  try_level-Keeps o p rest left e =
      with_value_holds numbers (Keeps o) rest left
        (λ t.
          parse_compression_level numbers t >>= λ n. ok (record o { compression_level = some n }))
        p
        (λ t q.
          bind_holds (Keeps o) (parse_compression_level numbers t)
            (λ n. record o { compression_level = some n }) q (λ n m. (refl, refl)))
        e

  try-Keeps :
      (argument : Text) (o p : RuntimeOptions) (rest left : List Text)
      → (text_eq argument (codes "-r") || text_eq argument (codes "-l")) ≡ true
      → try_parse_runtime_option numbers o argument rest ≡ ok (some (p, left))
      → Keeps o p
  try-Keeps argument o p rest left c e = elim (Bool-cases (text_eq argument (codes "-r"))) [
    | inl r ↦
        let same = text_eq_sound argument (codes "-r") r in
        try_budget-Keeps o p rest left
          (ap (λ x. try_parse_runtime_option numbers o x rest) (sym same) ∙ e)
    | inr r ↦
        let same = text_eq_sound argument (codes "-l") (ground (arith, c, r)) in
        try_level-Keeps o p rest left
          (ap (λ x. try_parse_runtime_option numbers o x rest) (sym same) ∙ e)
  ]

  -- The options that no argument of `listen` can set.
  abbrev pub AsDefault : RuntimeOptions → Type 0
  AsDefault = Keeps default_options

  next_listen_keeps :
      (more : List Text → ListenOptions → Result CliError ListenOptions) (argument : Text)
      (rest : List Text) (o q : ListenOptions) (t : Option (RuntimeOptions × List Text))
      → ((args : List Text) (p : ListenOptions)
          → AsDefault p.runtime_options
          → more args p ≡ ok q
          → AsDefault q.runtime_options)
      → AsDefault o.runtime_options
      → ((rt : RuntimeOptions) (left : List Text) → t ≡ some (rt, left) → AsDefault rt)
      → next_listen_argument numbers more argument rest o t ≡ ok q
      → AsDefault q.runtime_options
  next_listen_keeps more argument rest o q none h v w e = h rest _ v e
  next_listen_keeps more argument rest o q (some (rt, left)) h v w e = h left _ (w rt left refl) e

  listen_loop_keeps :
      (fuel : ℕ) (args : List Text) (o q : ListenOptions)
      → AsDefault o.runtime_options
      → parse_listen_loop numbers fuel args o ≡ ok q
      → AsDefault q.runtime_options
  unfolding parse_listen_loop
  listen_loop_keeps zero [] o q v e = ground (arith, e)
  listen_loop_keeps (suc fuel) [] o q v e = ground (arith, e)
  listen_loop_keeps zero (a ∷ args) o q v e = ground (arith, e)
  listen_loop_keeps (suc fuel) (a ∷ args) o q v e =
      elim (Bool-cases (text_eq a (codes "--compare"))) [
        | inl c ↦
            listen_loop_keeps fuel args (record o { enable_file_comparison = true }) q v
              (ground (arith, e, c))
        | inr c ↦ elim (Bool-cases (text_eq a (codes "-r") || text_eq a (codes "-l"))) [
          | inl d ↦
              let b =
                >>=-ok (try_parse_runtime_option numbers o.runtime_options a args)
                  (next_listen_argument numbers (parse_listen_loop numbers fuel) a args o)
                  (ground (arith, e, c, d)) in
              next_listen_keeps (parse_listen_loop numbers fuel) a args o q b.0
                (λ left p. listen_loop_keeps fuel left p q) v
                (λ rt left t.
                  let k = try-Keeps a o.runtime_options rt args left d (b.1 ∙ ap ok t) in
                  (k.0 ∙ v.0, k.1 ∙ v.1))
                b.2
          | inr d ↦
              listen_loop_keeps fuel args (record o { positional = o.positional ++ (a ∷ []) }) q v
                (ground (arith, e, c, d))
        ]
      ]

  -- Whatever its arguments are, `listen` runs without the log of adaptive decisions and with no
  -- count of writes of its own: no argument sets them, also not --log-adaptive, which the usage
  -- text offers.
  pub parse_listen_options_keeps :
      (args : List Text) (o : ListenOptions)
      → parse_listen_options numbers args ≡ ok o
      → (o.runtime_options.log_adaptive_compression ≡ false)
        × (o.runtime_options.max_in_flight_write_ops ≡ none)
  unfolding parse_listen_options
  parse_listen_options_keeps args o e = listen_loop_keeps (length args) args _ o (refl, refl) e
