-- ===== src/Http/Dumb.antt =====
-- `handle_connection` of src/http_server_backend/dumb.c: one request and its answer.
pub mod Overflow
pub mod Whole
use pg_what_is_happening.Base.{
  ℕ, zero, suc, ◌-◌, ◌≤◌, ◌<◌, ◌≡◌, refl, ap, Option, none, some, List, [], ◌∷◌, ◌++◌, arith,
  length, take, Bytes, codes,
}
use pg_what_is_happening.Doubles.{Doubles}
use pg_what_is_happening.Memory.{Slots, KillResult}
use pg_what_is_happening.Metrics.Format.{Printf}
use pg_what_is_happening.Metrics.Text.{openmetrics_text}
use pg_what_is_happening.Http.Request.{HttpRequest, parse_request}
use pg_what_is_happening.Http.Response.{HttpResponse, response_set_text, c_string}
use pg_what_is_happening.Http.Handler.{Signals, metrics_handler, metrics_handler-served, refreshed}

-- `DUMB_HTTP_BUFFER_SIZE`.
abbrev pub dumb_http_buffer_size : ℕ
dumb_http_buffer_size = 8192

-- The call of `send`: the text in `response_buffer`, and how many bytes are sent from there.
pub record Sent : Type 0 where
  pub text : Bytes
  pub count : ℕ

-- What the format of the response prints; `%d` and `%zu` are the library's.
abbrev pub response_text : (ℕ → Bytes) → (ℕ → Bytes) → HttpResponse → Bytes
response_text d zu resp =
    codes "HTTP/1.1 "
    ++ (d resp.status_code
        ++ (codes " "
            ++ (resp.status_text
                ++ (codes "\r\nContent-Type: text/plain; version=0.0.4\r\nContent-Length: "
                    ++ (zu resp.body_len
                        ++ (codes "\r\nConnection: close\r\n\r\n" ++ resp.body))))))

-- `snprintf` keeps what fits and returns the length of the whole.
abbrev pub send_response : Bytes → Sent
send_response text = record { text = take (dumb_http_buffer_size - 1) text; count = length text }

take-all : {A : Type 0} (n : ℕ) (s : List A) → length s ≤ n → take n s ≡ s
take-all zero [] h = refl
take-all (suc n) [] h = refl
take-all zero (c ∷ s) h = ground arith
take-all (suc n) (c ∷ s) h = ap (λ r. c ∷ r) (take-all n s (omega arith))

pub length-take_le : {A : Type 0} (n : ℕ) (s : List A) → length (take n s) ≤ n
length-take_le zero s = omega arith
length-take_le (suc n) [] = omega arith
length-take_le (suc n) (c ∷ s) = omega (arith, length-take_le n s)

-- A response of at most 8191 bytes is sent as it is.
pub send_response-whole :
    (text : Bytes)
    → length text < dumb_http_buffer_size
    → ((send_response text).text ≡ text) × ((send_response text).count ≡ length text)
send_response-whole text h = (take-all (dumb_http_buffer_size - 1) text (omega arith), refl)

-- Of a longer response the buffer has at most 8191 bytes, but as many bytes are sent as the response
-- has.
pub send_response-beyond :
    (text : Bytes)
    → dumb_http_buffer_size ≤ length text
    → (length (send_response text).text < (send_response text).count)
      × ((send_response text).count ≡ length text)
send_response-beyond text h = (omega (arith, length-take_le (dumb_http_buffer_size - 1) text), refl)

-- A handler that may change the slots.
abbrev pub Handles : Type 0 → Type 0
Handles F = HttpRequest → Slots F → HttpResponse × Slots F

abbrev call_handler :
    {F : Type 0} → Option (Handles F) → HttpRequest → Slots F → HttpResponse × Slots F
call_handler none req slots = (response_set_text 404 (codes "Not Found"), slots)
call_handler (some handler_fn) req slots = handler_fn req slots

module _ {F : Type 0} (d : Printf) (handler_fn : Option (Handles F)) where
  abbrev pub respond : HttpResponse × Slots F → Option Sent × Slots F
  respond (resp, slots) = (some (send_response (response_text d.d d.lu resp)), slots)

  abbrev answer : Option HttpRequest → Slots F → Option Sent × Slots F
  answer none slots = (none, slots)
  answer (some req) slots = respond (call_handler handler_fn req slots)

  -- `received` is what `recv` finds on the connection, `none` its failure. It returns at most the
  -- size that it is given. The result is `none` when the connection is closed without an answer.
  unfoldable pub handle_connection : Option Bytes → Slots F → Option Sent × Slots F
  handle_connection none slots = (none, slots)
  handle_connection (some []) slots = (none, slots)
  handle_connection (some (c ∷ s)) slots =
      answer (parse_request (c_string (take (dumb_http_buffer_size - 1) (c ∷ s)))) slots

-- For a client that asks for the metrics, with whatever headers, `send_response` is given the response
-- with status 200 and the document of the slots, as they are after the orphans are removed and the
-- backends were signalled. It may cut this response.
pub handle_connection-metrics :
    {F : Type 0} (d : Doubles F) (p : Printf) (kill0 : ℕ → KillResult) (signalled : Signals F)
    (rest : Bytes) (slots : Slots F)
    → handle_connection p
        (some (metrics_handler d p kill0 signalled))
        (some (codes "GET /metrics HTTP/1.1\r\n" ++ rest))
        slots
      ≡ respond p (some (metrics_handler d p kill0 signalled)) (
        response_set_text 200 (openmetrics_text d p (refreshed d p kill0 signalled slots)),
        refreshed d p kill0 signalled slots,
      )
unfolding handle_connection parse_request
handle_connection-metrics d p kill0 signalled rest slots =
    ap (respond p (some (metrics_handler d p kill0 signalled))) (
      (metrics_handler-served d p kill0 signalled
        (record { method = codes "GET"; path = codes "/metrics"; version = codes "HTTP/1.1" }) slots
        refl))
