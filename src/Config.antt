-- ===== src/Config.antt =====
-- The tuning that options and hardware give: `make_pipeline_tuning` (src/detail2/config.hpp and
-- config.cpp) and `make_runtime_config` (src/detail/internal.hpp and runtime.cpp). The number of
-- hardware threads is a parameter; it is 0 where it is not known.
pub mod Limits
mod Examples
use sora_transport.Prelude.{
  ℕ, ◌+◌, ◌*◌, ◌^◌, ◌%◌, Bool, true, false, Option, none, some, min, max, ltb, ◌==◌, if◌then◌else◌,
}
use sora_transport.Prelude.Int.{ℤ, pos}
use sora_transport.Cli.{RuntimeOptions}

abbrev pub mebibyte : ℕ
mebibyte = 1024 * 1024

pub record SlotTuning : Type 0 where
  pub max_slots : ℕ
  pub max_slot_bytes : ℕ

pub record PipelineTuning : Type 0 where
  pub worker_threads : ℕ
  pub pipeline_chunk_size : ℕ
  pub directory_traversal_concurrency : ℕ
  pub file_open_concurrency : ℕ
  pub file_prefetch_budget_bytes : ℕ
  pub tar_output_budget_bytes : ℕ
  pub zstd_output_budget_bytes : ℕ
  pub opened_queue_capacity : ℕ
  pub prefetched_queue_capacity : ℕ
  pub tar_queue_capacity : ℕ
  pub zstd_queue_capacity : ℕ
  pub max_in_flight_write_ops : ℕ
  pub max_parallel_extract_files : ℕ
  pub default_compression_level : ℤ
  pub reader_slots : SlotTuning
  pub writer_slots : SlotTuning

abbrev pub default_tuning : PipelineTuning
default_tuning = record {
  worker_threads = 1;
  pipeline_chunk_size = 4 * mebibyte;
  directory_traversal_concurrency = 48;
  file_open_concurrency = 48;
  file_prefetch_budget_bytes = 96 * mebibyte;
  tar_output_budget_bytes = 96 * mebibyte;
  zstd_output_budget_bytes = 96 * mebibyte;
  opened_queue_capacity = 64;
  prefetched_queue_capacity = 64;
  tar_queue_capacity = 48;
  zstd_queue_capacity = 48;
  max_in_flight_write_ops = 3;
  max_parallel_extract_files = 48;
  default_compression_level = pos 3;
  reader_slots = record { max_slots = 3; max_slot_bytes = 4 * mebibyte };
  writer_slots = record { max_slots = 3; max_slot_bytes = 4 * mebibyte };
}

-- `std::clamp`.
abbrev pub clamp : ℕ → ℕ → ℕ → ℕ
clamp v low high = if ltb v low then low else if ltb high v then high else v

abbrev pub value_or {ℓ} : {A : Type ℓ} → Option A → A → A
value_or none d = d
value_or (some a) d = a

unfoldable pub detect_worker_threads : ℕ → ℕ
detect_worker_threads detected = clamp (if detected == 0 then 4 else detected) 1 12

unfoldable pub detect_open_concurrency : ℕ → ℕ
detect_open_concurrency worker_threads = clamp (worker_threads * 4) 1 48

unfoldable pub make_pipeline_tuning : ℕ → RuntimeOptions → PipelineTuning
make_pipeline_tuning hardware options =
    let t = default_tuning in
    let worker_threads = detect_worker_threads hardware in
    let file_open_concurrency = detect_open_concurrency worker_threads in
    let tar_queue_capacity : ℕ = 48 in
    let zstd_queue_capacity = tar_queue_capacity in
    record t {
      worker_threads = worker_threads;
      file_open_concurrency = file_open_concurrency;
      directory_traversal_concurrency = file_open_concurrency;
      opened_queue_capacity = max 64 file_open_concurrency;
      tar_queue_capacity = tar_queue_capacity;
      zstd_queue_capacity = zstd_queue_capacity;
      file_prefetch_budget_bytes = value_or options.max_in_flight_read_bytes (96 * mebibyte);
      tar_output_budget_bytes =
          max t.tar_output_budget_bytes (tar_queue_capacity * t.pipeline_chunk_size);
      zstd_output_budget_bytes =
          max t.zstd_output_budget_bytes (zstd_queue_capacity * t.pipeline_chunk_size);
      max_in_flight_write_ops =
          max 1 (value_or options.max_in_flight_write_ops t.max_in_flight_write_ops);
      default_compression_level = value_or options.compression_level t.default_compression_level;
      max_parallel_extract_files = max 48 worker_threads;
    }

pub record RuntimeConfig : Type 0 where
  pub worker_threads : ℕ
  pub file_open_concurrency : ℕ
  pub tar_queue_depth : ℕ
  pub max_in_flight_read_bytes : ℕ
  pub max_in_flight_write_bytes : ℕ
  pub max_in_flight_write_ops : ℕ
  pub max_parallel_extract_files : ℕ

unfoldable pub hardware_threads : ℕ → ℕ
hardware_threads detected = if detected == 0 then 4 else detected

unfoldable pub make_runtime_config : ℕ → RuntimeOptions → RuntimeConfig
make_runtime_config hardware options =
    let worker_threads = clamp (hardware_threads hardware) 1 12 in
    let read_bytes = value_or options.max_in_flight_read_bytes (96 * mebibyte) in
    record {
      worker_threads = worker_threads;
      file_open_concurrency = clamp (worker_threads * 4) 1 48;
      tar_queue_depth = 48;
      max_in_flight_read_bytes = read_bytes;
      max_in_flight_write_bytes = read_bytes;
      max_in_flight_write_ops = max 1 (value_or options.max_in_flight_write_ops 3);
      max_parallel_extract_files = max worker_threads 48;
    }
