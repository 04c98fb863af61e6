-- ===== src/Tests/Texts.antt =====
-- src/metrics.c, the view and the query ids at concrete inputs.
use pg_what_is_happening.Base.{take, ℕ, ◌≡◌, false, none, some, [], ◌∷◌, ◌++◌, arith, All, codes}
use pg_what_is_happening.Memory.{BackendEntry, Slots}
use pg_what_is_happening.Metrics.Types.{time_seconds, metric_suffix}
use pg_what_is_happening.Metrics.Columns.{
  Datum, column, create_v1_status_tupdesc, fill_v1_status_tuple,
}
use pg_what_is_happening.Metrics.Buffer.{IsTerminated, buffer_init, buffer_append_escaped}
use pg_what_is_happening.Metrics.Unescape.{read_value, read_value-buffer_append_escaped}
use pg_what_is_happening.Metrics.Format.{format_openmetrics, node_values}
use pg_what_is_happening.Metrics.Text.{openmetrics_text, format_openmetrics_lem}
use pg_what_is_happening.Metrics.Agree.{precision, value_of, print_datum, view-endpoint}
use pg_what_is_happening.Status.{first_call, all_calls}
use pg_what_is_happening.Status.Rows.{FitsArray, all_rows, all_calls-all_rows}
use pg_what_is_happening.Walker.{topology_node}
use pg_what_is_happening.Memory.Startup.{zero_node}
use pg_what_is_happening.Tests.Data.{naturals, printf, slot, node}

-- A slot with two nodes and a query text that needs escapes.
abbrev pub busy : BackendEntry ℕ
busy = record (slot 7) {
  query_id = 42;
  count_of_metrics = 2;
  query_text = codes "select \"x\"\n";
  metrics =
      topology_node naturals 0 node none (zero_node naturals)
      ∷ topology_node naturals 1 node (some 0) (zero_node naturals)
      ∷ [];
}

abbrev pub busy_slots : Slots ℕ
busy_slots = slot 0 ∷ busy ∷ []

document_example :
    IsTerminated
      (openmetrics_text naturals printf busy_slots)
      (format_openmetrics naturals printf busy_slots)
document_example = format_openmetrics_lem naturals printf busy_slots

escape_example :
    read_value
      (take
          (buffer_append_escaped buffer_init (codes "a\"b\\n\n")).offset
          (buffer_append_escaped buffer_init (codes "a\"b\\n\n")).mem
        ++ b'"' ∷ codes "} 1")
      false
      []
    ≡ some (codes "a\"b\\n\n", codes "} 1")
escape_example = read_value-buffer_append_escaped (codes "a\"b\\n\n") (codes "} 1")

agree_example :
    (v : Datum ℕ) × (column
        (metric_suffix time_seconds)
        create_v1_status_tupdesc
        (fill_v1_status_tuple naturals busy (zero_node naturals) 5)
      ≡ some v)
    × (value_of (metric_suffix time_seconds) (node_values naturals printf (zero_node naturals) 5)
        ≡ some (print_datum naturals printf (precision time_seconds) v))
agree_example = view-endpoint naturals printf time_seconds busy (zero_node naturals) 5

fits : All FitsArray busy_slots
fits = (omega arith, (omega arith, tt))

rows_example : all_calls naturals 3 busy_slots first_call ≡ some (all_rows naturals busy_slots)
rows_example = all_calls-all_rows naturals 3 busy_slots fits (omega arith)
