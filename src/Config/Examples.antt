-- ===== src/Config/Examples.antt =====
-- Runs of the theorems on the tuning at concrete inputs.
use sora_transport.Cli.{default_options}
use sora_transport.Config.{make_pipeline_tuning}
use sora_transport.Config.Limits.{IsTuned, make_pipeline_tuning-IsTuned}

make_pipeline_tuning-IsTuned_example : IsTuned (make_pipeline_tuning 0 default_options)
make_pipeline_tuning-IsTuned_example = make_pipeline_tuning-IsTuned 0 default_options
