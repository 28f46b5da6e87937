-- ===== src/Cli/Modes.antt =====
-- The compression mode of a fasttar command and its path.
use sora_transport.Prelude.{◌≡◌, refl, Bool-cases, inl, inr, none, some}
use sora_transport.Prelude.Result.{ok}
use sora_transport.Prelude.Text.{Text}
use sora_transport.Cli.{
  CompressionMode, is_zstd_path, validate_fasttar_path_mode, infer_fasttar_mode_from_path,
}
use sora_transport.Cli.Run.{fasttar_mode}

validate-infer :
    (path : Text) → validate_fasttar_path_mode path (infer_fasttar_mode_from_path path) ≡ ok tt
unfolding validate_fasttar_path_mode infer_fasttar_mode_from_path
validate-infer path = elim (Bool-cases (is_zstd_path path)) [
  | inl z ↦ rw z (rw z refl)
  | inr n ↦ rw n (rw n refl)
]

-- No path is ever refused for its mode: without an option the mode is the one the path has, which
-- the check accepts, and with an option the check is not made, whatever the path.
fasttar_mode_accepts :
    (path : Text) (mode : CompressionMode)
    → (fasttar_mode none path ≡ ok (infer_fasttar_mode_from_path path))
      × (fasttar_mode (some mode) path ≡ ok mode)
fasttar_mode_accepts path mode = (rw (validate-infer path) refl, refl)
