-- ===== src/Http/Mongoose.antt =====
-- src/http_server_backend/mongoose.c: the request and the address that it hands on.
pub mod Server
pub mod Laws
use pg_what_is_happening.Base.{
  ℕ, ◌↔◌, zero, suc, ◌≤◌, ◌<◌, ◌≡◌, refl, ap, Bool, true, false, ◌&&◌, Option, none, some, [], ◌∷◌,
  ◌++◌, arith, ◌==◌, if◌then◌else◌, length, take, Bytes, codes, streq,
}
use pg_what_is_happening.Doubles.{Doubles}
use pg_what_is_happening.Memory.{Slots, KillResult}
use pg_what_is_happening.Metrics.Format.{Printf}
use pg_what_is_happening.Http.Request.{HttpRequest}
use pg_what_is_happening.Http.Response.{HttpResponse, response_set_text, c_string}
use pg_what_is_happening.Http.Handler.{Signals, metrics_handler}
use pg_what_is_happening.Http.Dumb.{Handles}

-- The arguments of `mg_http_reply`.
pub record MgReply : Type 0 where
  pub code : ℕ
  pub headers : Bytes
  pub body : Bytes

-- `method[16]` and `path[256]` of an `mg_http_message`'s strings, which have lengths and no NUL.
unfoldable pub mg_request : Bytes → Bytes → HttpRequest
mg_request method uri = record {
  method = take 15 (c_string method);
  path = take 255 (c_string uri);
  version = codes "HTTP/1.1";
}

abbrev headers_or_default : Option Bytes → Bytes
headers_or_default none = codes "Content-Type: text/plain\r\n"
headers_or_default (some h) = h

abbrev mg_reply : HttpResponse → MgReply
mg_reply resp = record {
  code = resp.status_code;
  headers = headers_or_default resp.headers;
  body = resp.body;
}

module _ {F : Type 0} (handler_fn : Option (Handles F)) where
  abbrev mg_call : HttpRequest → Slots F → HttpResponse × Slots F
  mg_call req slots = elim handler_fn [
    | none ↦ (response_set_text 404 (codes "Not Found"), slots)
    | some f ↦ f req slots
  ]

  -- The event `MG_EV_HTTP_MSG`; any other does nothing.
  unfoldable pub mongoose_event_handler :
      Option (Bytes × Bytes) → Slots F → Option MgReply × Slots F
  mongoose_event_handler none slots = (none, slots)
  mongoose_event_handler (some (method, uri)) slots =
      let r = mg_call (mg_request method uri) slots in (some (mg_reply r.0), r.1)

-- A text that is cut to more bytes than a word has equals the word only if it did before.
take-streq : (n : ℕ) (s w : Bytes) → length w < n → streq (take n s) w ≡ streq s w
take-streq zero s w h = ground arith
take-streq (suc n) [] w h = refl
take-streq (suc n) (c ∷ s) [] h = refl
take-streq (suc n) (c ∷ s) (b ∷ w) h = ap (λ r. c == b && r) (take-streq n s w (omega arith))

-- The handler answers a request that is cut to the buffers of 16 and 256 bytes as it answers the
-- whole request.
pub metrics_handler-mg_request :
    {F : Type 0} (d : Doubles F) (p : Printf) (kill0 : ℕ → KillResult) (signalled : Signals F)
    (method uri : Bytes) (slots : Slots F)
    → metrics_handler d p kill0 signalled (mg_request method uri) slots
      ≡ metrics_handler d p kill0 signalled
          (record { method = c_string method; path = c_string uri; version = codes "HTTP/1.1" })
          slots
unfolding metrics_handler mg_request
metrics_handler-mg_request d p kill0 signalled method uri slots = rw (
  take-streq 15 (c_string method) (codes "GET") (omega arith),
  take-streq 255 (c_string uri) (codes "/metrics") (omega arith),
)

-- `strncmp(s, prefix, strlen(prefix)) == 0`.
abbrev pub starts_with : Bytes → Bytes → Bool
starts_with [] s = true
starts_with (a ∷ w) [] = false
starts_with (a ∷ w) (b ∷ s) = a == b && starts_with w s

-- The `listen_address` that `mongoose_create` stores.
unfoldable pub listen_address : Bytes → Bytes
listen_address listen_addr = take 127 (
    if starts_with (codes "http://") listen_addr
    then listen_addr
    else codes "http://" ++ listen_addr)

take-length : (n : ℕ) (s : Bytes) → (take n s ≡ s → length s ≤ n) × (length s ≤ n → take n s ≡ s)
take-length zero [] = (λ h. omega arith, λ h. refl)
take-length zero (c ∷ s) = (λ h. ground arith, λ h. ground arith)
take-length (suc n) [] = (λ h. omega arith, λ h. refl)
take-length (suc n) (c ∷ s) = ground (arith, take-length n s)

-- An address with no scheme is stored whole, behind "http://", exactly if it has at most 120 bytes.
pub listen_address_lem :
    (v : Bytes)
    → starts_with (codes "http://") v ≡ false
    → (listen_address v ≡ codes "http://" ++ v) ↔ (length v ≤ 120)
unfolding listen_address
listen_address_lem v h = rw h (
  λ e. omega (arith, (take-length 127 (codes "http://" ++ v)).0 e),
  λ l. (take-length 127 (codes "http://" ++ v)).1 (omega arith),
)
