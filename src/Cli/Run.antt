-- ===== src/Cli/Run.antt =====
-- The two programs' command lines (src/detail/cli.cpp).
use sora_transport.Prelude.{true, false, Option, none, some, List, [], ◌∷◌, if◌then◌else◌}
use sora_transport.Prelude.Result.{Result, ok, err, ◌>>=◌}
use sora_transport.Prelude.Text.{Text, codes, text_eq}
use sora_transport.Cli.{
  CompressionMode, zstd, CliError, Numbers, PackUnpackOptions, ListenOptions, Command, usage,
  failed, pack_directory, unpack_file, listen_directory, receive_directory, parse_port,
  validate_fasttar_path_mode, infer_fasttar_mode_from_path,
}
use sora_transport.Cli.Arguments.{
  parse_pack_unpack_options, parse_listen_options, parse_receive_options,
}

-- The command on two positional arguments; the usage on any other number.
abbrev pub two_paths {ℓ} : {A : Type ℓ} → List Text → A → (Text → Text → A) → A
two_paths (a ∷ b ∷ []) otherwise command = command a b
two_paths (a ∷ b ∷ c ∷ rest) otherwise command = otherwise
two_paths (a ∷ []) otherwise command = otherwise
two_paths [] otherwise command = otherwise

-- The mode of a fasttar command, and its check where the path has set it.
abbrev pub fasttar_mode : Option CompressionMode → Text → Result CliError CompressionMode
fasttar_mode (some mode) path = ok mode
fasttar_mode none path =
    validate_fasttar_path_mode path (infer_fasttar_mode_from_path path) >>= λ checked.
    ok (infer_fasttar_mode_from_path path)

module _ (numbers : Numbers) where
  abbrev pub or_failed : Result CliError Command → Command
  or_failed (ok command) = command
  or_failed (err e) = failed e

  abbrev pub listen_command : ListenOptions → Result CliError Command
  listen_command options = two_paths options.positional (ok usage) (λ source port_text.
      parse_port numbers port_text >>= λ port.
      ok (listen_directory source port options.runtime_options options.enable_file_comparison))

  abbrev pub receive_command : List Text → Result CliError Command
  receive_command (a ∷ b ∷ c ∷ []) =
      parse_port numbers b >>= λ port. ok (receive_directory a port c)
  receive_command positional = ok usage

  -- The arguments after the program's name.
  unfoldable pub run_soratransport_cli : List Text → Command
  run_soratransport_cli [] = usage
  run_soratransport_cli (command ∷ args) = or_failed (
      if text_eq command (codes "pack")
      then (parse_pack_unpack_options numbers args false >>= λ options. ok (
          two_paths options.positional usage
            (λ a b. pack_directory a b zstd options.runtime_options)))
      else if text_eq command (codes "unpack")
      then (parse_pack_unpack_options numbers args false >>= λ options. ok (
          two_paths options.positional usage (λ a b. unpack_file a b zstd options.runtime_options)))
      else if text_eq command (codes "listen")
      then parse_listen_options numbers args >>= listen_command
      else if text_eq command (codes "receive")
      then parse_receive_options numbers args >>= receive_command
      else ok usage)

  abbrev pub pack_fasttar : PackUnpackOptions → Result CliError Command
  pack_fasttar options = two_paths options.positional (ok usage) (λ source output.
      fasttar_mode options.compression_mode output >>= λ mode.
      ok (pack_directory source output mode options.runtime_options))

  abbrev pub unpack_fasttar : PackUnpackOptions → Result CliError Command
  unpack_fasttar options = two_paths options.positional (ok usage) (λ input destination.
      fasttar_mode options.compression_mode input >>= λ mode.
      ok (unpack_file input destination mode options.runtime_options))

  unfoldable pub run_fasttar_cli : List Text → Command
  run_fasttar_cli [] = usage
  run_fasttar_cli (command ∷ args) = or_failed (
      if text_eq command (codes "pack")
      then parse_pack_unpack_options numbers args true >>= pack_fasttar
      else if text_eq command (codes "unpack")
      then parse_pack_unpack_options numbers args true >>= unpack_fasttar
      else ok usage)
