-- ===== src/Metrics/Format.antt =====
-- The text of the endpoint: the formatter of src/metrics.c.
use pg_what_is_happening.Base.{
  ℕ, ◌≤◌, List, [], ◌∷◌, ◌++◌, length, take, if◌then◌else◌, Bytes, codes,
}
use pg_what_is_happening.Doubles.{Doubles}
use pg_what_is_happening.Tags.{node_tag_to_string}
use pg_what_is_happening.Memory.{
  BackendEntry, NodeMetrics, Slots, is_backend_entry_active, validate_node_magic,
}
use pg_what_is_happening.Metrics.Types.{
  MetricType, tuples_returned, startup_time_us, total_time_us, loops_executed, time_seconds,
  time_percent, cache_hits, cache_misses, local_cache_hits, local_cache_misses, spill_file_reads,
  spill_file_writes, rows_filtered_by_joins, rows_filtered_by_expressions, metric_suffix,
  metric_help, all_metrics,
}
use pg_what_is_happening.Metrics.Columns.{node_time_seconds, node_percent}
use pg_what_is_happening.Metrics.Buffer.{
  FormatterBuffer, buffer_init, buffer_append, buffer_append_escaped,
}

-- How the C library prints integers, by their bit patterns, and how long that is at most.
pub record Printf : Type 0 where
  -- `%lu` and `%ld` of 64 bits, and `%d` of 32.
  pub lu : ℕ → Bytes
  pub ld : ℕ → Bytes
  pub d : ℕ → Bytes
  pub lu_short : (n : ℕ) → length (lu n) ≤ 20
  pub d_short : (n : ℕ) → length (d n) ≤ 11

-- `total_query_time`, over the metrics of the slot.
abbrev pub sum_time : {F : Type 0} → Doubles F → F → List (NodeMetrics F) → F
sum_time d acc [] = acc
sum_time d acc (m ∷ ms) = sum_time d (d.add acc m.execution.total_time_us) ms

-- The nodes of a slot. For a count beyond the array the code reads out of bounds; here the list ends
-- with the array.
abbrev pub nodes_of : {F : Type 0} → BackendEntry F → List (NodeMetrics F)
nodes_of be = take be.count_of_metrics be.metrics

abbrev pub total_query_time : {F : Type 0} → Doubles F → BackendEntry F → F
total_query_time d be = sum_time d (d.of_ℕ 0) (nodes_of be)

module _ {F : Type 0} (d : Doubles F) (p : Printf) where
  -- One metric's line; `value` is what its own format printed, cut to the 255 bytes of `value_buf`.
  abbrev pub metric_line : ℕ → NodeMetrics F → MetricType → Bytes → Bytes
  metric_line query_id node type value =
      codes "pg_what_is_happening_active_query_node_"
      ++ (codes (metric_suffix type)
          ++ (codes "{query_id=\""
              ++ (p.lu query_id
                  ++ (codes "\",node_id=\""
                      ++ (p.lu node.node_id
                          ++ (codes "\",parent_node_id=\""
                              ++ (p.d node.parent_node_id
                                  ++ (codes "\",node_tag=\""
                                      ++ (codes (node_tag_to_string node.tag)
                                          ++ (codes "\"} "
                                              ++ (take 255 value ++ codes "\n")))))))))))

  unfoldable pub formatter_append_metric :
      ℕ → NodeMetrics F → MetricType → Bytes → FormatterBuffer → FormatterBuffer
  formatter_append_metric query_id node type value buf =
      buffer_append buf (metric_line query_id node type value)

  -- The metrics of a node in the order of the calls, with what their formats print.
  abbrev pub node_values : NodeMetrics F → F → List (MetricType × Bytes)
  node_values node total =
      (tuples_returned, d.print_fixed 0 node.execution.tuples_returned)
      ∷ (startup_time_us, d.print_fixed 0 node.execution.startup_time_us)
      ∷ (total_time_us, d.print_fixed 0 node.execution.total_time_us)
      ∷ (loops_executed, d.print_fixed 0 node.execution.loops_executed)
      ∷ (time_seconds, d.print_fixed 6 (node_time_seconds d node))
      ∷ (time_percent, d.print_fixed 2 (node_percent d node total))
      ∷ (cache_hits, p.ld node.buffer_usage.cache_hits)
      ∷ (cache_misses, p.ld node.buffer_usage.cache_misses)
      ∷ (local_cache_hits, p.ld node.buffer_usage.local_cache_hits)
      ∷ (local_cache_misses, p.ld node.buffer_usage.local_cache_misses)
      ∷ (spill_file_reads, p.ld node.buffer_usage.spill_file_reads)
      ∷ (spill_file_writes, p.ld node.buffer_usage.spill_file_writes)
      ∷ (rows_filtered_by_joins, d.print_fixed 0 node.execution.rows_filtered_by_joins)
      ∷ (rows_filtered_by_expressions, d.print_fixed 0 node.execution.rows_filtered_by_expressions)
      ∷ []

  pub append_values :
      ℕ → NodeMetrics F → List (MetricType × Bytes) → FormatterBuffer → FormatterBuffer
  append_values query_id node [] buf = buf
  append_values query_id node ((type, value) ∷ vs) buf =
      append_values query_id node vs (formatter_append_metric query_id node type value buf)

  unfoldable pub formatter_append_all_node_metrics :
      ℕ → NodeMetrics F → F → FormatterBuffer → FormatterBuffer
  unfolding append_values
  formatter_append_all_node_metrics query_id node total buf =
      append_values query_id node (node_values node total) buf

  abbrev pub query_info_start : BackendEntry F → Bytes
  query_info_start entry =
      codes "pg_what_is_happening_query_info{query_id=\""
      ++ (p.lu entry.query_id
          ++ (codes "\",pid=\"" ++ (p.d entry.backend_pid ++ codes "\",query_text=\"")))

  abbrev pub query_info_end : Bytes
  query_info_end = codes "\"} 1\n"

  unfoldable pub formatter_append_query_info : BackendEntry F → FormatterBuffer → FormatterBuffer
  formatter_append_query_info entry buf =
      buffer_append
        (buffer_append_escaped (buffer_append buf (query_info_start entry)) entry.query_text)
        query_info_end

  -- The loop over the nodes of a slot; a node without the magic number is passed over.
  unfoldable pub format_nodes : ℕ → F → List (NodeMetrics F) → FormatterBuffer → FormatterBuffer
  format_nodes query_id total [] buf = buf
  format_nodes query_id total (m ∷ ms) buf = format_nodes query_id total ms (
      if validate_node_magic m then formatter_append_all_node_metrics query_id m total buf else buf)

  abbrev pub format_entry : BackendEntry F → FormatterBuffer → FormatterBuffer
  format_entry be buf =
      if is_backend_entry_active be
      then format_nodes be.query_id (total_query_time d be) (nodes_of be)
          (formatter_append_query_info be buf)
      else buf

  unfoldable pub format_entries : Slots F → FormatterBuffer → FormatterBuffer
  format_entries [] buf = buf
  format_entries (be ∷ slots) buf = format_entries slots (format_entry be buf)

abbrev pub info_help : Bytes
info_help =
    codes
      "# HELP pg_what_is_happening_query_info Query metadata for active queries\n# TYPE pg_what_is_happening_query_info gauge\n"

abbrev pub metric_header : MetricType → Bytes
metric_header type =
    codes "# HELP pg_what_is_happening_active_query_node_"
    ++ (codes (metric_suffix type)
        ++ (codes " "
            ++ (codes (metric_help type)
                ++ (codes "\n# TYPE pg_what_is_happening_active_query_node_"
                    ++ (codes (metric_suffix type) ++ codes " gauge\n")))))

unfoldable pub append_headers : List MetricType → FormatterBuffer → FormatterBuffer
append_headers [] buf = buf
append_headers (t ∷ ts) buf = append_headers ts (buffer_append buf (metric_header t))

unfoldable pub format_openmetrics : {F : Type 0} → Doubles F → Printf → Slots F → FormatterBuffer
unfolding append_headers format_entries
format_openmetrics d p slots =
    format_entries d p slots (append_headers all_metrics (buffer_append buffer_init info_help))
