-- ===== src/Metrics/Types.antt =====
-- The metrics of src/metrics.h.
use Prim.Native.String.{String}
use pg_what_is_happening.Base.{List, [], ◌∷◌}

pub data MetricType : Type 0 where
  tuples_returned startup_time_us total_time_us loops_executed time_seconds : MetricType
  time_percent cache_hits cache_misses local_cache_hits local_cache_misses : MetricType
  spill_file_reads spill_file_writes rows_filtered_by_joins : MetricType
  rows_filtered_by_expressions : MetricType

-- From `METRIC_START` up to `METRIC_COUNT`.
abbrev pub all_metrics : List MetricType
all_metrics =
    tuples_returned ∷ startup_time_us ∷ total_time_us ∷ loops_executed ∷ time_seconds ∷ time_percent
    ∷ cache_hits ∷ cache_misses ∷ local_cache_hits ∷ local_cache_misses ∷ spill_file_reads
    ∷ spill_file_writes ∷ rows_filtered_by_joins ∷ rows_filtered_by_expressions ∷ []

abbrev pub metric_suffix : MetricType → String
metric_suffix tuples_returned = "tuples_returned"
metric_suffix startup_time_us = "startup_time_us"
metric_suffix total_time_us = "total_time_us"
metric_suffix loops_executed = "loops_executed"
metric_suffix time_seconds = "time_seconds"
metric_suffix time_percent = "time_percent"
metric_suffix cache_hits = "cache_hits"
metric_suffix cache_misses = "cache_misses"
metric_suffix local_cache_hits = "local_cache_hits"
metric_suffix local_cache_misses = "local_cache_misses"
metric_suffix spill_file_reads = "spill_file_reads"
metric_suffix spill_file_writes = "spill_file_writes"
metric_suffix rows_filtered_by_joins = "rows_filtered_by_joins"
metric_suffix rows_filtered_by_expressions = "rows_filtered_by_expressions"

abbrev pub metric_help : MetricType → String
metric_help tuples_returned = "Number of tuples returned by plan node"
metric_help startup_time_us = "Startup time in microseconds"
metric_help total_time_us = "Total execution time in microseconds"
metric_help loops_executed = "Number of times plan node was executed"
metric_help time_seconds = "Execution time for active query plan node in seconds"
metric_help time_percent = "Percentage of total query time spent in this node"
metric_help cache_hits = "Shared buffer cache hits"
metric_help cache_misses = "Shared buffer cache misses"
metric_help local_cache_hits = "Local buffer cache hits"
metric_help local_cache_misses = "Local buffer cache misses"
metric_help spill_file_reads = "Blocks read from spill files"
metric_help spill_file_writes = "Blocks written to spill files"
metric_help rows_filtered_by_joins = "Rows filtered by scan or join conditions"
metric_help rows_filtered_by_expressions = "Rows filtered by other filter expressions"
