-- ===== src/Tests/Endpoint.antt =====
-- The HTTP exporter at concrete inputs.
use pg_what_is_happening.Base.{
  ℕ, ◌≤◌, ◌<◌, ◌≡◌, ◌↔◌, refl, true, some, none, [], ◌∷◌, ◌++◌, arith, length, codes,
}
use pg_what_is_happening.Metrics.Text.{openmetrics_text}
use pg_what_is_happening.Http.Address.{check_listen_address}
use pg_what_is_happening.Http.Address.Scheme.{listen_address-check}
use pg_what_is_happening.Http.Request.{
  HttpRequest, parse_request, request_line, parse_request-request_line,
}
use pg_what_is_happening.Http.Handler.{metrics_handler, refreshed}
use pg_what_is_happening.Http.Dumb.{Sent, dumb_http_buffer_size, handle_connection}
use pg_what_is_happening.Http.Mongoose.{listen_address}
use pg_what_is_happening.Http.Dumb.Whole.{ok_answer, handle_connection-document}
use pg_what_is_happening.Http.Dumb.Overflow.{handle_connection-overflows}
use pg_what_is_happening.Memory.{BackendEntry, cleanup_orphaned_slots}
use pg_what_is_happening.Memory.Startup.{zero_node}
use pg_what_is_happening.Walker.{topology_node}
use pg_what_is_happening.Tests.Scraper.{prints_plain}
use pg_what_is_happening.Tests.Data.{naturals, printf, slots, slot, node, kill0, unhandled}

abbrev get_metrics : HttpRequest
get_metrics = record { method = codes "GET"; path = codes "/metrics"; version = codes "HTTP/1.1" }

connection_example :
    let answer =
      ok_answer printf
        (openmetrics_text naturals printf (refreshed naturals printf kill0 unhandled slots)) in
    handle_connection printf
      (some (metrics_handler naturals printf kill0 unhandled))
      (some (codes "GET /metrics HTTP/1.1\r\n" ++ codes "Host: a\r\n\r\n"))
      slots
    ≡ (
      some (record { text = answer; count = length answer }),
      refreshed naturals printf kill0 unhandled slots,
    )
unfolding cleanup_orphaned_slots
connection_example =
    handle_connection-document naturals printf kill0 unhandled (codes "Host: a\r\n\r\n") slots
      prints_plain (refl, (refl, (refl, tt))) (omega arith)

-- A slot with four nodes.
abbrev full : BackendEntry ℕ
full =
    let fresh = topology_node naturals 0 node none (zero_node naturals) in
    record (slot 7) { count_of_metrics = 4; metrics = fresh ∷ fresh ∷ fresh ∷ fresh ∷ [] }

overflow_example :
    (sent : Sent) × ((handle_connection printf
        (some (metrics_handler naturals printf kill0 unhandled))
        (some (codes "GET /metrics HTTP/1.1\r\n" ++ codes "Host: a\r\n\r\n"))
        (slot 9 ∷ full ∷ [])).0
      ≡ some sent)
    × (length sent.text < dumb_http_buffer_size)
    × (dumb_http_buffer_size ≤ sent.count)
unfolding cleanup_orphaned_slots
overflow_example =
    handle_connection-overflows naturals printf prints_plain kill0 unhandled
      (codes "Host: a\r\n\r\n") (slot 9 ∷ full ∷ []) 1 (refl, (refl, tt)) refl refl
      (refl, (refl, (refl, (refl, tt)))) (omega arith)

request_line_example :
    parse_request (request_line get_metrics ++ b'\r' ∷ b'\n' ∷ codes "Host: a\r\n\r\n")
    ≡ some get_metrics
request_line_example =
    parse_request-request_line get_metrics (codes "Host: a\r\n\r\n") (ground arith) (ground arith)
      (ground arith) (ground arith) (ground arith)

accepted : check_listen_address (some (codes "localhost:9187")) ≡ true
unfolding check_listen_address
accepted = refl

address_stored_example :
    (listen_address (codes "localhost:9187") ≡ codes "http://" ++ codes "localhost:9187")
    ↔ (length (codes "localhost:9187") ≤ 120)
address_stored_example = listen_address-check (codes "localhost:9187") accepted
