-- ===== src/Cli.antt =====
-- The command lines (src/detail/cli.cpp). An argument is the list of its bytes. The number parsers
-- of the standard library are a parameter; they return none where they throw.
pub mod Arguments
pub mod Run
pub mod Holds
pub mod Bounds
pub mod Modes
pub mod Listen
mod Examples
use sora_transport.Prelude.{
  ℕ, zero, suc, ◌+◌, ◌-◌, ◌*◌, ◌/◌, ◌^◌, Bool, true, false, not, ◌&&◌, ◌||◌, Option, none, some,
  List, [], ◌∷◌, ◌++◌, length, drop, ltb, leb, ◌==◌, ◌!=◌, if◌then◌else◌,
}
use sora_transport.Prelude.Result.{Result, ok, err, ◌>>=◌}
use sora_transport.Prelude.Int.{ℤ, pos, negsuc, ltb_ℤ}
use sora_transport.Prelude.Text.{Text, codes, text_eq}

pub data CompressionMode : Type 0 where
  none_mode zstd : CompressionMode

pub data CliError : Type 0 where
  not_a_number bad_port too_small too_large bad_level unknown_option : CliError
  value_missing no_runtime_options zstd_path_required tar_path_required : CliError

pub record RuntimeOptions : Type 0 where
  pub max_in_flight_read_bytes : Option ℕ
  pub max_in_flight_write_ops : Option ℕ
  pub compression_level : Option ℤ
  pub log_adaptive_compression : Bool

abbrev pub default_options : RuntimeOptions
default_options = record {
  max_in_flight_read_bytes = none;
  max_in_flight_write_ops = none;
  compression_level = none;
  log_adaptive_compression = false;
}

-- `std::stoul`, `std::stoull` and `std::stoi`.
pub record Numbers : Type 0 where
  pub stoul : Text → Option ℕ
  pub stoull : Text → Option ℕ
  pub stoi : Text → Option ℤ

abbrev pub or_throw {ℓ} : {A : Type ℓ} {E : Type ℓ} → E → Option A → Result E A
or_throw e none = err e
or_throw e (some a) = ok a

unfoldable pub ends_with : Text → Text → Bool
ends_with value suffix =
    leb (length suffix) (length value) && text_eq (drop (length value - length suffix) value) suffix

unfoldable pub is_zstd_path : Text → Bool
is_zstd_path path =
    ends_with path (codes ".tar.zst")
    || ends_with path (codes ".tzst")
    || ends_with path (codes ".zst")

unfoldable pub infer_fasttar_mode_from_path : Text → CompressionMode
infer_fasttar_mode_from_path path = if is_zstd_path path then zstd else none_mode

unfoldable pub parse_fasttar_mode_option : Text → Result CliError CompressionMode
parse_fasttar_mode_option option =
    if text_eq option (codes "-z")
    then ok zstd
    else if text_eq option (codes "-n")
    then ok none_mode
    else err unknown_option

unfoldable pub validate_fasttar_path_mode : Text → CompressionMode → Result CliError (Unit {0})
validate_fasttar_path_mode path zstd =
    if not (is_zstd_path path) then err zstd_path_required else ok tt
validate_fasttar_path_mode path none_mode =
    if is_zstd_path path then err tar_path_required else ok tt

pub record PackUnpackOptions : Type 0 where
  pub compression_mode : Option CompressionMode
  pub runtime_options : RuntimeOptions
  pub positional : List Text

pub record ListenOptions : Type 0 where
  pub runtime_options : RuntimeOptions
  pub enable_file_comparison : Bool
  pub positional : List Text

-- What a command line asks for: a usage text, an error, or one of the transfers.
pub data Command : Type 0 where
  usage : Command
  failed : CliError → Command
  pack_directory : Text → Text → CompressionMode → RuntimeOptions → Command
  unpack_file : Text → Text → CompressionMode → RuntimeOptions → Command
  listen_directory : Text → ℕ → RuntimeOptions → Bool → Command
  receive_directory : Text → ℕ → Text → Command

module _ (numbers : Numbers) where
  unfoldable pub parse_port : Text → Result CliError ℕ
  parse_port text = or_throw not_a_number (numbers.stoul text) >>= λ value.
      if value == 0 || ltb (2 ^ 16 - 1) value then err bad_port else ok value

  unfoldable pub parse_mebibytes : Text → Result CliError ℕ
  parse_mebibytes text = or_throw not_a_number (numbers.stoull text) >>= λ value.
      if ltb value 64
      then err too_small
      else if ltb ((2 ^ 64 - 1) / (1024 * 1024)) value
      then err too_large
      else ok (value * (1024 * 1024))

  unfoldable pub parse_positive_count : Text → Result CliError ℕ
  parse_positive_count text = or_throw not_a_number (numbers.stoull text) >>= λ value.
      if value == 0
      then err too_small
      else if ltb (2 ^ 64 - 1) value
      then err too_large
      else ok value

  unfoldable pub parse_compression_level : Text → Result CliError ℤ
  parse_compression_level text = or_throw not_a_number (numbers.stoi text) >>= λ value.
      if ltb_ℤ value (negsuc 131071) || ltb_ℤ (pos 22) value then err bad_level else ok value
