-- ===== src/Metrics/Agree.antt =====
-- The SQL view and the HTTP endpoint of src/metrics.c show the same metrics.
use Prim.Native.String.{String}
use text.Mathlib.Text.{◌==◌ as str_eq}
use pg_what_is_happening.Base.{
  ℕ, ◌≡◌, refl, Option, none, some, List, [], ◌∷◌, if◌then◌else◌, Bytes,
}
use pg_what_is_happening.Doubles.{Doubles}
use pg_what_is_happening.Memory.{BackendEntry, NodeMetrics}
use pg_what_is_happening.Metrics.Types.{
  MetricType, tuples_returned, startup_time_us, total_time_us, loops_executed, time_seconds,
  time_percent, cache_hits, cache_misses, local_cache_hits, local_cache_misses, spill_file_reads,
  spill_file_writes, rows_filtered_by_joins, rows_filtered_by_expressions, metric_suffix,
}
use pg_what_is_happening.Metrics.Columns.{
  Datum, float8_datum, int64_datum, text_datum, int32_datum, column, create_v1_status_tupdesc,
  fill_v1_status_tuple, node_time_seconds, node_percent,
}
use pg_what_is_happening.Metrics.Format.{Printf, node_values}

-- The digits behind the point.
abbrev pub precision : MetricType → ℕ
precision time_seconds = 6
precision time_percent = 2
precision _ = 0

-- What is printed under the first metric of a name.
abbrev pub value_of : String → List (MetricType × Bytes) → Option Bytes
value_of name [] = none
value_of name ((t, text) ∷ vs) =
    if str_eq (metric_suffix t) name then some text else value_of name vs

module _ {F : Type 0} (d : Doubles F) (p : Printf) where
  abbrev pub print_datum : ℕ → Datum F → Bytes
  print_datum k (int32_datum n) = p.d n
  print_datum k (int64_datum n) = p.ld n
  print_datum k (text_datum t) = t
  print_datum k (float8_datum x) = d.print_fixed k x

  -- For every metric, the view has a column of the metric's name, and the endpoint prints this
  -- column's value under the same name, with six digits for the seconds, two for the percentage and
  -- none for the other floating point metrics.
  pub view-endpoint :
      (m : MetricType) (entry : BackendEntry F) (node : NodeMetrics F) (total : F)
      → (v : Datum F) × (column
            (metric_suffix m)
            create_v1_status_tupdesc
            (fill_v1_status_tuple d entry node total)
          ≡ some v)
        × (value_of (metric_suffix m) (node_values d p node total)
            ≡ some (print_datum (precision m) v))
  unfolding create_v1_status_tupdesc fill_v1_status_tuple
  view-endpoint tuples_returned entry node total =
      (float8_datum node.execution.tuples_returned, refl, refl)
  view-endpoint startup_time_us entry node total =
      (float8_datum node.execution.startup_time_us, refl, refl)
  view-endpoint total_time_us entry node total =
      (float8_datum node.execution.total_time_us, refl, refl)
  view-endpoint loops_executed entry node total =
      (float8_datum node.execution.loops_executed, refl, refl)
  view-endpoint time_seconds entry node total =
      (float8_datum (node_time_seconds d node), refl, refl)
  view-endpoint time_percent entry node total =
      (float8_datum (node_percent d node total), refl, refl)
  view-endpoint cache_hits entry node total = (int64_datum node.buffer_usage.cache_hits, refl, refl)
  view-endpoint cache_misses entry node total =
      (int64_datum node.buffer_usage.cache_misses, refl, refl)
  view-endpoint local_cache_hits entry node total =
      (int64_datum node.buffer_usage.local_cache_hits, refl, refl)
  view-endpoint local_cache_misses entry node total =
      (int64_datum node.buffer_usage.local_cache_misses, refl, refl)
  view-endpoint spill_file_reads entry node total =
      (int64_datum node.buffer_usage.spill_file_reads, refl, refl)
  view-endpoint spill_file_writes entry node total =
      (int64_datum node.buffer_usage.spill_file_writes, refl, refl)
  view-endpoint rows_filtered_by_joins entry node total =
      (float8_datum node.execution.rows_filtered_by_joins, refl, refl)
  view-endpoint rows_filtered_by_expressions entry node total =
      (float8_datum node.execution.rows_filtered_by_expressions, refl, refl)
