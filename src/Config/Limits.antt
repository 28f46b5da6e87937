-- ===== src/Config/Limits.antt =====
-- The limits that the tuning keeps, on any hardware and with any options.
use sora_transport.Prelude.{ℕ, ◌*◌, ◌≤◌, ◌≡◌, refl, arith}
use sora_transport.Cli.{RuntimeOptions}
use sora_transport.Config.{
  PipelineTuning, make_pipeline_tuning, make_runtime_config, detect_worker_threads,
  detect_open_concurrency, hardware_threads,
}

-- The concurrency is within its bounds, every opened file has a place in the queue, at least one
-- write is in flight, and full queues of whole chunks are within the budgets of bytes.
pub record IsTuned (t : PipelineTuning) : Type 0 where
  pub workers : (1 ≤ t.worker_threads) × (t.worker_threads ≤ 12)
  pub openers : (t.worker_threads ≤ t.file_open_concurrency) × (t.file_open_concurrency ≤ 48)
  pub traversal : t.directory_traversal_concurrency ≡ t.file_open_concurrency
  pub opened_fit : t.file_open_concurrency ≤ t.opened_queue_capacity
  pub writes : 1 ≤ t.max_in_flight_write_ops
  pub extracts : t.worker_threads ≤ t.max_parallel_extract_files
  pub tar_fits : t.tar_queue_capacity * t.pipeline_chunk_size ≤ t.tar_output_budget_bytes
  pub zstd_fits : t.zstd_queue_capacity * t.pipeline_chunk_size ≤ t.zstd_output_budget_bytes

detect_worker_threads_bounds :
    (n : ℕ) → (1 ≤ detect_worker_threads n) × (detect_worker_threads n ≤ 12)
unfolding detect_worker_threads
detect_worker_threads_bounds n = ground arith

detect_open_concurrency_bounds :
    (n : ℕ) → n ≤ 12 → (n ≤ detect_open_concurrency n) × (detect_open_concurrency n ≤ 48)
unfolding detect_open_concurrency
detect_open_concurrency_bounds n h = ground arith

-- The tuning is within its limits on any number of hardware threads and with any options: from 1
-- to 12 workers, at most 48 files opened at once, each with its place in the queue, at least one
-- write, and byte budgets that hold full queues of whole chunks.
pub make_pipeline_tuning-IsTuned :
    (hardware : ℕ) (options : RuntimeOptions) → IsTuned (make_pipeline_tuning hardware options)
unfolding make_pipeline_tuning
make_pipeline_tuning-IsTuned hardware options =
    let w = detect_worker_threads_bounds hardware in
    let o = detect_open_concurrency_bounds (detect_worker_threads hardware) w.1 in
    record {
      workers = w;
      openers = o;
      traversal = refl;
      opened_fit = omega arith;
      writes = omega arith;
      extracts = omega arith;
      tar_fits = omega arith;
      zstd_fits = omega arith;
    }

-- The two configurations agree where both have a setting: workers, openers, the depth of the tar
-- queue, the read budget, writes in flight, and parallel extraction.
pub make_runtime_config_agrees :
    (hardware : ℕ) (options : RuntimeOptions)
    → let c = make_runtime_config hardware options in
      let t = make_pipeline_tuning hardware options in
      (c.worker_threads ≡ t.worker_threads)
      × (c.file_open_concurrency ≡ t.file_open_concurrency)
      × (c.tar_queue_depth ≡ t.tar_queue_capacity)
      × (c.max_in_flight_read_bytes ≡ t.file_prefetch_budget_bytes)
      × (c.max_in_flight_write_ops ≡ t.max_in_flight_write_ops)
      × (c.max_parallel_extract_files ≡ t.max_parallel_extract_files)
unfolding make_pipeline_tuning make_runtime_config hardware_threads detect_worker_threads
    detect_open_concurrency
make_runtime_config_agrees hardware options = ground arith
