-- ===== src/Http/Dumb/Whole.antt =====
-- The plain server of src/http_server_backend/dumb.c with a document that its buffer has room for.
use pg_what_is_happening.Base.{ℕ, ◌<◌, ◌≡◌, ap, ◌∙◌, some, ◌++◌, length, Bytes, codes}
use pg_what_is_happening.Doubles.{Doubles}
use pg_what_is_happening.Memory.{Slots, KillResult}
use pg_what_is_happening.Metrics.Format.{Printf}
use pg_what_is_happening.Metrics.Text.{openmetrics_text}
use pg_what_is_happening.Metrics.Scrape.Samples.{PrintsPlain}
use pg_what_is_happening.Http.Body.{HasTexts, openmetrics_text-IsCString}
use pg_what_is_happening.Http.Response.{response_set_text}
use pg_what_is_happening.Http.Handler.{Signals, metrics_handler, refreshed}
use pg_what_is_happening.Http.Dumb.{
  dumb_http_buffer_size, send_response, send_response-whole, handle_connection,
  handle_connection-metrics,
}

-- An answer with status 200.
abbrev pub ok_answer : Printf → Bytes → Bytes
ok_answer p document =
    codes "HTTP/1.1 "
    ++ (p.d 200
        ++ (codes " OK\r\nContent-Type: text/plain; version=0.0.4\r\nContent-Length: "
            ++ (p.lu (length document) ++ (codes "\r\nConnection: close\r\n\r\n" ++ document))))

send_response-all :
    (text : Bytes)
    → length text < dumb_http_buffer_size
    → send_response text ≡ record { text = text; count = length text }
send_response-all text h i = record {
  text = (send_response-whole text h).0 i;
  count = (send_response-whole text h).1 i;
}

-- A client that asks the plain server for the metrics, with whatever headers, is sent the status line
-- of status 200, the headers and the whole document of the slots, as they are after the orphans are
-- removed and the backends have handled their signal, and not a byte more; if the answer has fewer
-- than 8192 bytes, printf prints each number, in plain bytes, and no query text has a NUL.
pub handle_connection-document :
    {F : Type 0} (d : Doubles F) (p : Printf) (kill0 : ℕ → KillResult) (signalled : Signals F)
    (rest : Bytes) (slots : Slots F)
    → PrintsPlain d p
    → let after = refreshed d p kill0 signalled slots in
      let answer = ok_answer p (openmetrics_text d p after) in
      HasTexts after
      → length answer < dumb_http_buffer_size
      → handle_connection p
          (some (metrics_handler d p kill0 signalled))
          (some (codes "GET /metrics HTTP/1.1\r\n" ++ rest))
          slots
        ≡ (some (record { text = answer; count = length answer }), after)
unfolding response_set_text
handle_connection-document d p kill0 signalled rest slots plain texts short =
    let after = refreshed d p kill0 signalled slots in
    let document = openmetrics_text d p after in
    handle_connection-metrics d p kill0 signalled rest slots
    ∙ ap (λ body. (some (send_response (ok_answer p body)), after))
        (openmetrics_text-IsCString d p plain after texts)
    ∙ ap (λ s. (some s, after)) (send_response-all (ok_answer p document) short)
