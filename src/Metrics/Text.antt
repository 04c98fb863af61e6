-- ===== src/Metrics/Text.antt =====
-- What `pwh_format_openmetrics` of src/metrics.c leaves in its buffer.
use pg_what_is_happening.Base.{
  ℕ, ◌≤◌, ◌<◌, Bool, true, false, List, [], ◌∷◌, ◌++◌, arith, append-nil, append_assoc, length,
  length-append, take, if◌then◌else◌, Bytes, codes, length-take,
}
use pg_what_is_happening.Doubles.{Doubles}
use pg_what_is_happening.Tags.{NodeTag, result, node_tag_to_string}
use pg_what_is_happening.Memory.{
  BackendEntry, NodeMetrics, Slots, is_backend_entry_active, validate_node_magic,
}
use pg_what_is_happening.Metrics.Types.{MetricType, tuples_returned, metric_suffix, all_metrics}
use pg_what_is_happening.Metrics.Buffer.{
  FormatterBuffer, buffer_init, buffer_append, IsTerminated, escape, buffer_init-HoldsText,
  buffer_append-IsTerminated, buffer_append_escaped-HoldsText,
}
use pg_what_is_happening.Metrics.Format.{
  Printf, total_query_time, nodes_of, metric_line, formatter_append_metric, node_values,
  append_values, formatter_append_all_node_metrics, query_info_start, query_info_end,
  formatter_append_query_info, format_nodes, format_entry, format_entries, info_help, metric_header,
  append_headers, format_openmetrics,
}

-- A step that appends the text `t` to a buffer that a NUL ends, and leaves a NUL behind it.
abbrev Prints : Bytes → (FormatterBuffer → FormatterBuffer) → Type 0
Prints t f =
    (s : Bytes) (buf : FormatterBuffer) → IsTerminated s buf → IsTerminated (s ++ t) (f buf)

Prints-nothing : Prints [] (λ buf. buf)
Prints-nothing s buf h = rw (append-nil s) h

Prints-append :
    (t u : Bytes) (f g : FormatterBuffer → FormatterBuffer)
    → Prints t f
    → Prints u g
    → Prints (t ++ u) (λ buf. g (f buf))
Prints-append t u f g hf hg s buf h = rw (← append_assoc s t u) (hg (s ++ t) (f buf) (hf s buf h))

buffer_append-Prints : (t : Bytes) → length t < 1024 → Prints t (λ buf. buffer_append buf t)
buffer_append-Prints t short s buf h = buffer_append-IsTerminated s t buf short h.0

tag_short : (tag : NodeTag) → length (codes (node_tag_to_string tag)) ≤ 32
unfolding node_tag_to_string
tag_short result = omega arith
tag_short _ = omega arith

suffix_short : (t : MetricType) → length (codes (metric_suffix t)) ≤ 32
suffix_short tuples_returned = omega arith
suffix_short _ = omega arith

header_short : (t : MetricType) → length (metric_header t) < 1024
header_short tuples_returned = omega arith
header_short _ = omega arith

Prints-if :
    (b : Bool) (t : Bytes) (f : FormatterBuffer → FormatterBuffer)
    → Prints t f
    → Prints (if b then t else []) (λ buf. if b then f buf else buf)
Prints-if true t f h = h
Prints-if false t f h = Prints-nothing

-- The headers of the metrics.
abbrev pub headers_text : List MetricType → Bytes
headers_text [] = []
headers_text (t ∷ ts) = metric_header t ++ headers_text ts

append_headers-Prints : (ts : List MetricType) → Prints (headers_text ts) (append_headers ts)
unfolding append_headers
append_headers-Prints [] = Prints-nothing
append_headers-Prints (t ∷ ts) =
    Prints-append (metric_header t) (headers_text ts) (λ buf. buffer_append buf (metric_header t))
      (append_headers ts) (buffer_append-Prints (metric_header t) (header_short t))
      (append_headers-Prints ts)

-- `name="value"` before the rest of a line.
abbrev label : Bytes → Bytes → Bytes → Bytes
label name value rest = name ++ (codes "=\"" ++ (value ++ (codes "\"" ++ rest)))

-- A sample: its name, its labels between braces, and the first 255 bytes of its value.
abbrev pub sample_text : Printf → ℕ → ℕ → ℕ → NodeTag → MetricType → Bytes → Bytes
sample_text p query_id node_id parent_node_id tag type value =
    codes "pg_what_is_happening_active_query_node_"
    ++ (codes (metric_suffix type)
        ++ (codes "{"
            ++ label (codes "query_id") (p.lu query_id) (
                codes ","
                ++ label (codes "node_id") (p.lu node_id) (
                    codes ","
                    ++ label (codes "parent_node_id") (p.d parent_node_id) (
                        codes ","
                        ++ label (codes "node_tag") (codes (node_tag_to_string tag))
                            (codes "} " ++ (take 255 value ++ codes "\n")))))))

module _ {F : Type 0} (d : Doubles F) (p : Printf) where
  line_short :
      (query_id : ℕ) (node : NodeMetrics F) (t : MetricType) (value : Bytes)
      → length (metric_line d p query_id node t value) < 1024
  line_short query_id node t value = omega (
    arith,
    length-append {0},
    suffix_short t,
    tag_short node.tag,
    p.lu_short query_id,
    p.lu_short node.node_id,
    p.d_short node.parent_node_id,
    length-take 255 value,
  )

  abbrev pub values_text : ℕ → NodeMetrics F → List (MetricType × Bytes) → Bytes
  values_text query_id node [] = []
  values_text query_id node ((t, value) ∷ vs) =
      sample_text p query_id node.node_id node.parent_node_id node.tag t value
      ++ values_text query_id node vs

  append_values-Prints :
      (query_id : ℕ) (node : NodeMetrics F) (vs : List (MetricType × Bytes))
      → Prints (values_text query_id node vs) (append_values d p query_id node vs)
  unfolding formatter_append_all_node_metrics formatter_append_metric
  append_values-Prints query_id node [] = Prints-nothing
  append_values-Prints query_id node ((t, value) ∷ vs) =
      Prints-append (metric_line d p query_id node t value) (values_text query_id node vs)
        (λ buf. buffer_append buf (metric_line d p query_id node t value))
        (append_values d p query_id node vs)
        (buffer_append-Prints (metric_line d p query_id node t value)
          (line_short query_id node t value))
        (append_values-Prints query_id node vs)

  -- The lines of the nodes that have the magic number.
  abbrev pub nodes_text : ℕ → F → List (NodeMetrics F) → Bytes
  nodes_text query_id total [] = []
  nodes_text query_id total (m ∷ ms) =
      (if validate_node_magic m then values_text query_id m (node_values d p m total) else [])
      ++ nodes_text query_id total ms

  all_node_metrics-Prints :
      (query_id : ℕ) (node : NodeMetrics F) (total : F)
      → Prints
          (values_text query_id node (node_values d p node total))
          (formatter_append_all_node_metrics d p query_id node total)
  unfolding formatter_append_all_node_metrics
  all_node_metrics-Prints query_id node total =
      append_values-Prints query_id node (node_values d p node total)

  format_nodes-Prints :
      (query_id : ℕ) (total : F) (ms : List (NodeMetrics F))
      → Prints (nodes_text query_id total ms) (format_nodes d p query_id total ms)
  unfolding format_nodes
  format_nodes-Prints query_id total [] = Prints-nothing
  format_nodes-Prints query_id total (m ∷ ms) =
      Prints-append
        (if validate_node_magic m then values_text query_id m (node_values d p m total) else [])
        (nodes_text query_id total ms)
        (λ buf.
          if validate_node_magic m
          then formatter_append_all_node_metrics d p query_id m total buf
          else buf)
        (format_nodes d p query_id total ms)
        (Prints-if (validate_node_magic m) _
          (formatter_append_all_node_metrics d p query_id m total)
          (all_node_metrics-Prints query_id m total))
        (format_nodes-Prints query_id total ms)

  start_short : (be : BackendEntry F) → length (query_info_start d p be) < 1024
  start_short be =
      omega (arith, length-append {0}, p.lu_short be.query_id, p.d_short be.backend_pid)

  -- The line of a slot, with its query text escaped.
  abbrev pub info_text : BackendEntry F → Bytes
  info_text be = query_info_start d p be ++ (escape be.query_text ++ query_info_end d p)

  query_info-Prints :
      (be : BackendEntry F) → Prints (info_text be) (formatter_append_query_info d p be)
  unfolding formatter_append_query_info
  query_info-Prints be s buf h =
      rw
        (
          ← append_assoc s (query_info_start d p be) (escape be.query_text ++ query_info_end d p),
          ← append_assoc (s ++ query_info_start d p be) (escape be.query_text) (query_info_end d p),
        )
        (buffer_append-IsTerminated _ (query_info_end d p) _ (omega arith) (
          buffer_append_escaped-HoldsText _ be.query_text _
            (buffer_append-IsTerminated s (query_info_start d p be) buf (start_short be) h.0).0))

  abbrev pub entry_text : BackendEntry F → Bytes
  entry_text be =
      if is_backend_entry_active be
      then info_text be ++ nodes_text be.query_id (total_query_time d be) (nodes_of be)
      else []

  -- The slots in use, in order.
  abbrev pub entries_text : Slots F → Bytes
  entries_text [] = []
  entries_text (be ∷ slots) = entry_text be ++ entries_text slots

  format_entry-Prints : (be : BackendEntry F) → Prints (entry_text be) (format_entry d p be)
  format_entry-Prints be =
      Prints-if (is_backend_entry_active be) _
        (λ buf.
          format_nodes d p be.query_id (total_query_time d be) (nodes_of be)
            (formatter_append_query_info d p be buf))
        (Prints-append (info_text be) _ (formatter_append_query_info d p be)
          (format_nodes d p be.query_id (total_query_time d be) (nodes_of be))
          (query_info-Prints be)
          (format_nodes-Prints be.query_id (total_query_time d be) (nodes_of be)))

  format_entries-Prints : (slots : Slots F) → Prints (entries_text slots) (format_entries d p slots)
  unfolding format_entries
  format_entries-Prints [] = Prints-nothing
  format_entries-Prints (be ∷ slots) =
      Prints-append (entry_text be) (entries_text slots) (format_entry d p be)
        (format_entries d p slots) (format_entry-Prints be) (format_entries-Prints slots)

  -- The whole document.
  abbrev pub openmetrics_text : Slots F → Bytes
  openmetrics_text slots = info_help ++ (headers_text all_metrics ++ entries_text slots)

  -- Whatever the slots hold, the formatter never writes past its buffer, and leaves there every line
  -- of the document, in order and with a NUL behind the last: the headers, and for each slot in use
  -- its query text, escaped, and the samples of its counted nodes that have the magic number, as far
  -- as its array goes, each value cut to its first 255 bytes and nothing else cut.
  pub format_openmetrics_lem :
      (slots : Slots F) → IsTerminated (openmetrics_text slots) (format_openmetrics d p slots)
  unfolding format_openmetrics
  format_openmetrics_lem slots =
      Prints-append (headers_text all_metrics) (entries_text slots) (append_headers all_metrics)
        (format_entries d p slots) (append_headers-Prints all_metrics) (format_entries-Prints slots)
        info_help (buffer_append buffer_init info_help)
        (buffer_append-IsTerminated [] info_help buffer_init (omega arith) buffer_init-HoldsText)
