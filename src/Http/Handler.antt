-- ===== src/Http/Handler.antt =====
-- `metrics_handler` of src/bg_worker.c: what the endpoint answers, and what it does to the slots.
use pg_what_is_happening.Base.{
  ℕ, List, ◌≡◌, ap, ◌∙◌, Bool, true, false, not, ◌&&◌, ◌||◌, arith, if◌then◌else◌, codes, streq,
  Bool-cases, inl, inr,
}
use pg_what_is_happening.Doubles.{Doubles}
use pg_what_is_happening.Memory.{
  Slots, KillResult, cleanup_orphaned_slots, request_backend_metrics_unlocked,
}
use pg_what_is_happening.Metrics.Format.{Printf, format_openmetrics}
use pg_what_is_happening.Metrics.Text.{openmetrics_text, format_openmetrics_lem}
use pg_what_is_happening.Http.Request.{HttpRequest}
use pg_what_is_happening.Http.Response.{
  HttpResponse, response_set_text, response_set_text-c_string, c_string, c_string-terminated,
}

abbrev pub is_metrics_request : HttpRequest → Bool
is_metrics_request req = streq req.method (codes "GET") && streq req.path (codes "/metrics")

-- What answers SIGUSR2: `kill_usr2` is whether `kill(pid, SIGUSR2)` returns 0, and `handled` what the
-- processes that it was sent to have made of the slots when the wait is over.
pub record Signals (F : Type 0) : Type 0 where
  pub kill_usr2 : ℕ → Bool
  pub handled : List ℕ → Slots F → Slots F

-- `kill0` answers `kill(pid, 0)`.
module _ {F : Type 0} (d : Doubles F) (p : Printf) (kill0 : ℕ → KillResult)
    (signalled : Signals F) where
  -- The slots that the formatter reads.
  abbrev pub refreshed : Slots F → Slots F
  refreshed slots =
      let cleaned = (cleanup_orphaned_slots kill0 slots).1 in
      signalled.handled (request_backend_metrics_unlocked signalled.kill_usr2 cleaned).1 cleaned

  -- `pwh_format_openmetrics` never returns NULL, so that the answer 500 is never given.
  unfoldable pub metrics_handler : HttpRequest → Slots F → HttpResponse × Slots F
  metrics_handler req slots =
      if not (streq req.method (codes "GET")) || not (streq req.path (codes "/metrics"))
      then (response_set_text 404 (codes "Not Found"), slots)
      else (response_set_text 200 (format_openmetrics d p (refreshed slots)).mem, refreshed slots)

  -- Reading the formatter's buffer as a C string reads its document.
  served_document :
      (slots : Slots F)
      → response_set_text 200 (format_openmetrics d p slots).mem
        ≡ response_set_text 200 (openmetrics_text d p slots)
  served_document slots =
      response_set_text-c_string 200 (format_openmetrics d p slots).mem (openmetrics_text d p slots)
        (ap c_string (format_openmetrics_lem d p slots).1
          ∙ c_string-terminated (openmetrics_text d p slots))

  -- A request for the metrics is answered with status 200 and the whole document of the slots, as
  -- they are when the orphans are removed and the backends have been signalled.
  pub metrics_handler-served :
      (req : HttpRequest) (slots : Slots F)
      → is_metrics_request req ≡ true
      → metrics_handler req slots
        ≡ (response_set_text 200 (openmetrics_text d p (refreshed slots)), refreshed slots)
  unfolding metrics_handler
  metrics_handler-served req slots h = ground (arith, served_document (refreshed slots))

  -- Any request but GET of /metrics is answered with status 404, and leaves the slots alone.
  pub metrics_handler-refused :
      (req : HttpRequest) (slots : Slots F)
      → is_metrics_request req ≡ false
      → metrics_handler req slots ≡ (response_set_text 404 (codes "Not Found"), slots)
  unfolding metrics_handler
  metrics_handler-refused req slots h = ground arith

  -- A request for the metrics is answered with status 200 and the whole document of the slots, as
  -- they are when the orphans are removed and the backends have been signalled; any other request
  -- with status 404, and it leaves the slots alone.
  pub metrics_handler_lem :
      (req : HttpRequest) (slots : Slots F)
      → metrics_handler req slots ≡ (
          if is_metrics_request req
          then (response_set_text 200 (openmetrics_text d p (refreshed slots)), refreshed slots)
          else (response_set_text 404 (codes "Not Found"), slots))
  metrics_handler_lem req slots = elim (Bool-cases (is_metrics_request req)) [
    | inl h ↦ rw h (metrics_handler-served req slots h)
    | inr h ↦ rw h (metrics_handler-refused req slots h)
  ]
