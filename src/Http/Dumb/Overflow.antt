-- ===== src/Http/Dumb/Overflow.antt =====
-- The plain server of src/http_server_backend/dumb.c with the document of a query that has four nodes.
use mathlib.Core.Option.{some-injective}
use pg_what_is_happening.Base.{
  ℕ, zero, suc, ◌+◌, ◌*◌, ◌-◌, ◌≤◌, ◌<◌, ◌≡◌, refl, ap, true, some, List, [], ◌∷◌, ◌++◌, All, arith,
  get_elem?, length, length-append, Bytes, codes,
}
use pg_what_is_happening.Doubles.{Doubles}
use pg_what_is_happening.Memory.{
  BackendEntry, NodeMetrics, Slots, KillResult, is_backend_entry_active, validate_node_magic,
}
use pg_what_is_happening.Metrics.Types.{MetricType, metric_suffix, all_metrics}
use pg_what_is_happening.Metrics.Format.{
  Printf, metric_line, node_values, nodes_of, total_query_time, info_help,
}
use pg_what_is_happening.Metrics.Text.{
  headers_text, values_text, nodes_text, entry_text, entries_text, info_text, openmetrics_text,
}
use pg_what_is_happening.Metrics.Scrape.Samples.{PrintsPlain}
use pg_what_is_happening.Http.Body.{HasTexts, openmetrics_text-IsCString}
use pg_what_is_happening.Http.Response.{response_set_text}
use pg_what_is_happening.Http.Handler.{Signals, metrics_handler, refreshed}
use pg_what_is_happening.Http.Dumb.{
  dumb_http_buffer_size, Sent, response_text, send_response, length-take_le, handle_connection,
  handle_connection-metrics,
}

-- What the lines of some metrics have at least: all but the printed numbers.
abbrev floor : List (MetricType × Bytes) → ℕ
floor [] = 0
floor ((t, v) ∷ vs) = 90 + length (codes (metric_suffix t)) + floor vs

-- The lines before the first slot.
header_length : length info_help + length (headers_text all_metrics) ≡ 2449
header_length = refl

module _ {F : Type 0} (d : Doubles F) (p : Printf) where
  line_floor :
      (query_id : ℕ) (m : NodeMetrics F) (t : MetricType) (v : Bytes)
      → 90 + length (codes (metric_suffix t)) ≤ length (metric_line d p query_id m t v)
  line_floor query_id m t v = omega (arith, length-append {0})

  values-floor :
      (query_id : ℕ) (m : NodeMetrics F) (vs : List (MetricType × Bytes))
      → floor vs ≤ length (values_text d p query_id m vs)
  values-floor query_id m [] = omega arith
  values-floor query_id m ((t, v) ∷ vs) = omega (
    arith,
    length-append {0} (metric_line d p query_id m t v) (values_text d p query_id m vs),
    line_floor query_id m t v,
    values-floor query_id m vs,
  )

  node_floor : (m : NodeMetrics F) (total : F) → floor (node_values d p m total) ≡ 1480
  node_floor m total = refl

  nodes-floor :
      (query_id : ℕ) (total : F) (ms : List (NodeMetrics F))
      → All (λ m. validate_node_magic m ≡ true) ms
      → 1480 * length ms ≤ length (nodes_text d p query_id total ms)
  nodes-floor query_id total [] h = omega arith
  nodes-floor query_id total (m ∷ ms) (h, hs) =
      let values = values_text d p query_id m (node_values d p m total) in
      rw h (
        omega (
          arith,
          length-append {0} values (nodes_text d p query_id total ms),
          values-floor query_id m (node_values d p m total),
          node_floor m total,
          nodes-floor query_id total ms hs,
        ))

  entry-floor :
      (be : BackendEntry F)
      → is_backend_entry_active be ≡ true
      → All (λ m. validate_node_magic m ≡ true) (nodes_of be)
      → 1480 * length (nodes_of be) ≤ length (entry_text d p be)
  entry-floor be h hs =
      let total = total_query_time d be in
      rw h (
        omega (
          arith,
          length-append {0} (info_text d p be) (nodes_text d p be.query_id total (nodes_of be)),
          nodes-floor be.query_id total (nodes_of be) hs,
        ))

  entries-floor :
      (slots : Slots F) (i : ℕ) {be : BackendEntry F}
      → get_elem? slots i ≡ some be
      → is_backend_entry_active be ≡ true
      → All (λ m. validate_node_magic m ≡ true) (nodes_of be)
      → 1480 * length (nodes_of be) ≤ length (entries_text d p slots)
  entries-floor [] i e h hs = cc
  entries-floor (b ∷ slots) zero {be} e h hs = rw (some-injective b be e) (
      omega (
        arith,
        length-append {0} (entry_text d p be) (entries_text d p slots),
        entry-floor be h hs,
      ))
  entries-floor (b ∷ slots) (suc i) e h hs = omega (
    arith,
    length-append {0} (entry_text d p b) (entries_text d p slots),
    entries-floor slots i e h hs,
  )

  document-floor :
      (slots : Slots F) (i : ℕ) {be : BackendEntry F}
      → get_elem? slots i ≡ some be
      → is_backend_entry_active be ≡ true
      → All (λ m. validate_node_magic m ≡ true) (nodes_of be)
      → 2449 + 1480 * length (nodes_of be) ≤ length (openmetrics_text d p slots)
  document-floor slots i e h hs = omega (
    arith,
    header_length,
    length-append {0} info_help (headers_text all_metrics ++ entries_text d p slots),
    length-append {0} (headers_text all_metrics) (entries_text d p slots),
    entries-floor slots i e h hs,
  )

-- If printf prints each number, in plain bytes, the query texts are C strings and a slot in use has
-- four nodes or more, all with the magic number, the plain server answers a request for the metrics
-- with at most 8191 bytes in its buffer, but sends 8192 bytes or more from there.
pub handle_connection-overflows :
    {F : Type 0} (d : Doubles F) (p : Printf) (plain : PrintsPlain d p) (kill0 : ℕ → KillResult)
    (signalled : Signals F) (rest : Bytes) (slots : Slots F) (i : ℕ) {be : BackendEntry F}
    → HasTexts (refreshed d p kill0 signalled slots)
    → get_elem? (refreshed d p kill0 signalled slots) i ≡ some be
    → is_backend_entry_active be ≡ true
    → All (λ m. validate_node_magic m ≡ true) (nodes_of be)
    → 4 ≤ length (nodes_of be)
    → (sent : Sent) × ((handle_connection p
          (some (metrics_handler d p kill0 signalled))
          (some (codes "GET /metrics HTTP/1.1\r\n" ++ rest))
          slots).0
        ≡ some sent)
      × (length sent.text < dumb_http_buffer_size)
      × (dumb_http_buffer_size ≤ sent.count)
unfolding response_set_text
handle_connection-overflows d p plain kill0 signalled rest slots i texts e active magic many =
    let fresh = refreshed d p kill0 signalled slots in
    let resp = response_set_text 200 (openmetrics_text d p fresh) in
    let text = response_text p.d p.lu resp in
    let whole = ap length (openmetrics_text-IsCString d p plain fresh texts) in
    (
      send_response text,
      ap (λ r. r.0) (handle_connection-metrics d p kill0 signalled rest slots),
      omega (arith, length-take_le (dumb_http_buffer_size - 1) text),
      omega (arith, length-append {0}, whole, document-floor d p fresh i e active magic),
    )
