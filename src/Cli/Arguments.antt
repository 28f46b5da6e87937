-- ===== src/Cli/Arguments.antt =====
-- The options and the positional arguments of the commands (src/detail/cli.cpp).
use sora_transport.Prelude.{
  ℕ, zero, suc, Bool, true, false, ◌&&◌, ◌||◌, Option, none, some, List, [], ◌∷◌, ◌++◌, length,
  if◌then◌else◌,
}
use sora_transport.Prelude.Result.{Result, ok, err, ◌>>=◌}
use sora_transport.Prelude.Text.{Text, codes, text_eq}
use sora_transport.Cli.{
  CliError, value_missing, no_runtime_options, RuntimeOptions, default_options, Numbers,
  PackUnpackOptions, ListenOptions, parse_fasttar_mode_option, parse_mebibytes,
  parse_positive_count, parse_compression_level,
}

module _ (numbers : Numbers) where
  -- The value of an option: the next argument, and those after it.
  abbrev pub with_value :
      List Text
      → (Text → Result CliError RuntimeOptions)
      → Result CliError (Option (RuntimeOptions × List Text))
  with_value [] set_option = err value_missing
  with_value (v ∷ rest) set_option = set_option v >>= λ options. ok (some (options, rest))

  -- The options after this argument and the arguments left, or none if it is no such option.
  unfoldable pub try_parse_runtime_option :
      RuntimeOptions → Text → List Text → Result CliError (Option (RuntimeOptions × List Text))
  try_parse_runtime_option rt argument rest =
      if text_eq argument (codes "--log-adaptive")
      then ok (some (record rt { log_adaptive_compression = true }, rest))
      else if text_eq argument (codes "-r")
      then with_value rest (λ v.
        parse_mebibytes numbers v >>= λ n. ok (record rt { max_in_flight_read_bytes = some n }))
      else if text_eq argument (codes "-w")
      then with_value rest (λ v.
        parse_positive_count numbers v >>= λ n. ok (record rt { max_in_flight_write_ops = some n }))
      else if text_eq argument (codes "-l")
      then with_value rest (λ v.
        parse_compression_level numbers v >>= λ n. ok (record rt { compression_level = some n }))
      else ok none

  abbrev pub next_pack_argument :
      (List Text → PackUnpackOptions → Result CliError PackUnpackOptions)
      → Text
      → List Text
      → PackUnpackOptions
      → Option (RuntimeOptions × List Text)
      → Result CliError PackUnpackOptions
  next_pack_argument more argument rest options none =
      more rest (record options { positional = options.positional ++ (argument ∷ []) })
  next_pack_argument more argument rest options (some (rt, left)) =
      more left (record options { runtime_options = rt })

  -- A round takes at least one argument, so as many rounds as arguments are enough.
  unfoldable pub parse_pack_unpack_loop :
      ℕ → Bool → List Text → PackUnpackOptions → Result CliError PackUnpackOptions
  parse_pack_unpack_loop fuel allow [] options = ok options
  parse_pack_unpack_loop zero allow (argument ∷ rest) options = ok options
  parse_pack_unpack_loop (suc fuel) allow (argument ∷ rest) options =
      let more = parse_pack_unpack_loop fuel allow in
      if allow && (text_eq argument (codes "-z") || text_eq argument (codes "-n"))
      then (parse_fasttar_mode_option argument >>= λ mode.
          more rest (record options { compression_mode = some mode }))
      else try_parse_runtime_option options.runtime_options argument rest
        >>= next_pack_argument more argument rest options

  unfoldable pub parse_pack_unpack_options : List Text → Bool → Result CliError PackUnpackOptions
  parse_pack_unpack_options args allow =
      parse_pack_unpack_loop (length args) allow args
        (record { compression_mode = none; runtime_options = default_options; positional = [] })

  abbrev pub next_listen_argument :
      (List Text → ListenOptions → Result CliError ListenOptions)
      → Text
      → List Text
      → ListenOptions
      → Option (RuntimeOptions × List Text)
      → Result CliError ListenOptions
  next_listen_argument more argument rest options none =
      more rest (record options { positional = options.positional ++ (argument ∷ []) })
  next_listen_argument more argument rest options (some (rt, left)) =
      more left (record options { runtime_options = rt })

  unfoldable pub parse_listen_loop : ℕ → List Text → ListenOptions → Result CliError ListenOptions
  parse_listen_loop fuel [] options = ok options
  parse_listen_loop zero (argument ∷ rest) options = ok options
  parse_listen_loop (suc fuel) (argument ∷ rest) options =
      let more = parse_listen_loop fuel in
      if text_eq argument (codes "--compare")
      then more rest (record options { enable_file_comparison = true })
      else if text_eq argument (codes "-r") || text_eq argument (codes "-l")
      then try_parse_runtime_option options.runtime_options argument rest
        >>= next_listen_argument more argument rest options
      else more rest (record options { positional = options.positional ++ (argument ∷ []) })

  unfoldable pub parse_listen_options : List Text → Result CliError ListenOptions
  parse_listen_options args = parse_listen_loop (length args) args (record {
    runtime_options = default_options;
    enable_file_comparison = false;
    positional = [];
  })

  unfoldable pub parse_receive_options : List Text → Result CliError (List Text)
  parse_receive_options [] = ok []
  parse_receive_options (argument ∷ rest) =
      let later = parse_receive_options rest in
      if text_eq argument (codes "-r")
        || text_eq argument (codes "-w")
        || text_eq argument (codes "-l")
      then err no_runtime_options
      else later >>= λ positional. ok (argument ∷ positional)
