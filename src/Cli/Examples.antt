-- ===== src/Cli/Examples.antt =====
-- Runs of the theorems on the command lines at concrete inputs.
use sora_transport.Prelude.{◌≡◌, refl, true, false, none, some, [], ◌∷◌}
use sora_transport.Prelude.Int.{pos}
use sora_transport.Prelude.Text.{codes}
use sora_transport.Cli.{Numbers, RuntimeOptions, default_options, ListenOptions, parse_mebibytes}
use sora_transport.Cli.Arguments.{
  parse_pack_unpack_options, parse_pack_unpack_loop, parse_listen_options, parse_listen_loop,
  try_parse_runtime_option,
}
use sora_transport.Cli.Bounds.{IsBounded, parse_pack_unpack_options-IsBounded}
use sora_transport.Cli.Listen.{parse_listen_options_keeps}

-- A parser that reads every text as 128.
abbrev always : Numbers
always = record { stoul = λ t. some 128; stoull = λ t. some 128; stoi = λ t. some (pos 128) }

abbrev parsed : RuntimeOptions
parsed = record default_options { max_in_flight_read_bytes = some 134217728 }

parse_pack_unpack_options_example : IsBounded parsed
unfolding parse_pack_unpack_options parse_pack_unpack_loop try_parse_runtime_option parse_mebibytes
parse_pack_unpack_options_example =
    parse_pack_unpack_options-IsBounded always
      (codes "-r" ∷ codes "128" ∷ codes "a" ∷ codes "b.tar" ∷ []) true
      (record {
        compression_mode = none;
        runtime_options = parsed;
        positional = codes "a" ∷ codes "b.tar" ∷ [];
      })
      refl

abbrev listening : ListenOptions
listening = record {
  runtime_options = default_options;
  enable_file_comparison = true;
  positional = codes "--log-adaptive" ∷ codes "a" ∷ codes "80" ∷ [];
}

parse_listen_options_keeps_example :
    (listening.runtime_options.log_adaptive_compression ≡ false)
    × (listening.runtime_options.max_in_flight_write_ops ≡ none)
unfolding parse_listen_options parse_listen_loop
parse_listen_options_keeps_example =
    parse_listen_options_keeps always
      (codes "--log-adaptive" ∷ codes "--compare" ∷ codes "a" ∷ codes "80" ∷ []) listening refl
