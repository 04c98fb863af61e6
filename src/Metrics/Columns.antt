-- ===== src/Metrics/Columns.antt =====
-- The columns of the view `v1_status`: `pwh_create_v1_status_tupdesc` and `pwh_fill_v1_status_tuple`.
use Prim.Native.String.{String}
use text.Mathlib.Text.{◌==◌ as str_eq}
use pg_what_is_happening.Base.{
  ℕ, ◌≡◌, refl, Option, none, some, List, [], ◌∷◌, Bytes, codes, if◌then◌else◌, map,
}
use pg_what_is_happening.Doubles.{Doubles}
use pg_what_is_happening.Tags.{node_tag_to_string}
use pg_what_is_happening.Memory.{BackendEntry, NodeMetrics}
use pg_what_is_happening.Metrics.Types.{
  MetricType, tuples_returned, startup_time_us, total_time_us, loops_executed, time_seconds,
  time_percent, cache_hits, cache_misses, local_cache_hits, local_cache_misses, spill_file_reads,
  spill_file_writes, rows_filtered_by_joins, rows_filtered_by_expressions, metric_suffix,
}

pub data Oid : Type 0 where
  int4_oid int8_oid text_oid float8_oid : Oid

-- A column's value, as the constructor of its type made it.
pub data Datum (F : Type 0) : Type 0 where
  int32_datum : ℕ → Datum F
  int64_datum : ℕ → Datum F
  text_datum : Bytes → Datum F
  float8_datum : F → Datum F

abbrev metric_column : MetricType → Oid → String × Oid
metric_column m oid = (metric_suffix m, oid)

-- Names and types, in the order of the attribute numbers.
unfoldable pub create_v1_status_tupdesc : List (String × Oid)
create_v1_status_tupdesc =
    ("backend_pid", int4_oid)
    ∷ ("query_id", int8_oid)
    ∷ ("query_text", text_oid)
    ∷ ("node_id", int4_oid)
    ∷ ("parent_node_id", int4_oid)
    ∷ ("node_tag", text_oid)
    ∷ metric_column startup_time_us float8_oid
    ∷ metric_column total_time_us float8_oid
    ∷ metric_column loops_executed float8_oid
    ∷ metric_column tuples_returned float8_oid
    ∷ metric_column time_seconds float8_oid
    ∷ metric_column time_percent float8_oid
    ∷ metric_column cache_hits int8_oid
    ∷ metric_column cache_misses int8_oid
    ∷ metric_column local_cache_hits int8_oid
    ∷ metric_column local_cache_misses int8_oid
    ∷ metric_column spill_file_reads int8_oid
    ∷ metric_column spill_file_writes int8_oid
    ∷ metric_column rows_filtered_by_joins float8_oid
    ∷ metric_column rows_filtered_by_expressions float8_oid
    ∷ []

module _ {F : Type 0} (d : Doubles F) where
  abbrev pub node_time_seconds : NodeMetrics F → F
  node_time_seconds node = d.div node.execution.total_time_us (d.of_ℕ 1000000)

  abbrev pub node_percent : NodeMetrics F → F → F
  node_percent node total_query_time =
      if d.lt (d.of_ℕ 0) total_query_time
      then d.mul (d.div node.execution.total_time_us total_query_time) (d.of_ℕ 100)
      else d.of_ℕ 0

  -- The values; no column is null.
  unfoldable pub fill_v1_status_tuple : BackendEntry F → NodeMetrics F → F → List (Datum F)
  fill_v1_status_tuple entry node total_query_time =
      int32_datum entry.backend_pid
      ∷ int64_datum entry.query_id
      ∷ text_datum entry.query_text
      ∷ int32_datum node.node_id
      ∷ int32_datum node.parent_node_id
      ∷ text_datum (codes (node_tag_to_string node.tag))
      ∷ float8_datum node.execution.startup_time_us
      ∷ float8_datum node.execution.total_time_us
      ∷ float8_datum node.execution.loops_executed
      ∷ float8_datum node.execution.tuples_returned
      ∷ float8_datum (node_time_seconds node)
      ∷ float8_datum (node_percent node total_query_time)
      ∷ int64_datum node.buffer_usage.cache_hits
      ∷ int64_datum node.buffer_usage.cache_misses
      ∷ int64_datum node.buffer_usage.local_cache_hits
      ∷ int64_datum node.buffer_usage.local_cache_misses
      ∷ int64_datum node.buffer_usage.spill_file_reads
      ∷ int64_datum node.buffer_usage.spill_file_writes
      ∷ float8_datum node.execution.rows_filtered_by_joins
      ∷ float8_datum node.execution.rows_filtered_by_expressions
      ∷ []

module _ {F : Type 0} where
  abbrev pub oid_of : Datum F → Oid
  oid_of (int32_datum n) = int4_oid
  oid_of (int64_datum n) = int8_oid
  oid_of (text_datum t) = text_oid
  oid_of (float8_datum x) = float8_oid

  -- The value of the first column of a name.
  abbrev pub column : String → List (String × Oid) → List (Datum F) → Option (Datum F)
  column name [] vs = none
  column name (c ∷ cs) [] = none
  column name ((n, oid) ∷ cs) (v ∷ vs) = if str_eq n name then some v else column name cs vs

module _ {F : Type 0} (d : Doubles F) where
  -- Every value has the type of its column, and there are as many as columns.
  pub fill-tupdesc :
      (entry : BackendEntry F) (node : NodeMetrics F) (total : F)
      → map oid_of (fill_v1_status_tuple d entry node total)
        ≡ map (λ c. c.1) create_v1_status_tupdesc
  unfolding create_v1_status_tupdesc fill_v1_status_tuple
  fill-tupdesc entry node total = refl
