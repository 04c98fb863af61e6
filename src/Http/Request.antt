-- ===== src/Http/Request.antt =====
-- `parse_request` of src/http_server_backend/dumb.c.
use pg_what_is_happening.Base.{
  ℕ, ◌≡◌, ◌≢◌, refl, Bool, false, ◌&&◌, Option, none, some, [], ◌∷◌, ◌++◌, arith, ◌==◌,
  if◌then◌else◌, Bytes, All,
}
use mathlib.Core.Option

-- `HttpRequest`, of which the server fills these fields.
pub record HttpRequest : Type 0 where
  pub method : Bytes
  pub path : Bytes
  pub version : Bytes

-- What is before and behind the first byte `b`; `memchr`.
abbrev pub split_at : ℕ → Bytes → Option (Bytes × Bytes)
split_at b [] = none
split_at b (c ∷ s) =
    if c == b then some ([], s) else Option.map (λ r. (c ∷ r.0, r.1)) (split_at b s)

abbrev starts_with_lf : Bytes → Bool
starts_with_lf [] = false
starts_with_lf (c ∷ s) = c == b'\n'

-- What is before the first "\r\n", and before the first "\n"; `strstr`.
abbrev before_crlf : Bytes → Option Bytes
before_crlf [] = none
before_crlf (c ∷ s) =
    if c == b'\r' && starts_with_lf s then some [] else Option.map (λ r. c ∷ r) (before_crlf s)

abbrev before_lf : Bytes → Option Bytes
before_lf s = Option.map (λ r. r.0) (split_at b'\n' s)

abbrev or_else : Option Bytes → Option Bytes → Option Bytes
or_else (some a) b = some a
or_else none b = b

infixl 5 ◌>>=◌
abbrev ◌>>=◌ : {A B : Type 0} → Option A → (A → Option B) → Option B
none >>= f = none
some a >>= f = f a

-- The buffer up to its NUL.
unfoldable pub parse_request : Bytes → Option HttpRequest
parse_request buffer = do
  line ← or_else (before_crlf buffer) (before_lf buffer)
  (method, rest) ← split_at 32 line
  (path, version) ← split_at 32 rest
  some (record { method = method; path = path; version = version })

abbrev pub Lacks : ℕ → Bytes → Type 0
Lacks b = All (λ c. c ≢ b)

split_at-append : (b : ℕ) (s t : Bytes) → Lacks b s → split_at b (s ++ b ∷ t) ≡ some (s, t)
split_at-append b [] t h = ground arith
split_at-append b (c ∷ s) t h = ground (arith, split_at-append b s t h.1)

before_crlf-append : (s t : Bytes) → Lacks b'\r' s → before_crlf (s ++ b'\r' ∷ b'\n' ∷ t) ≡ some s
before_crlf-append [] t h = refl
before_crlf-append (c ∷ s) t h = ground (arith, before_crlf-append s t h.1)

Lacks-append : (b : ℕ) (s t : Bytes) → Lacks b s → Lacks b t → Lacks b (s ++ t)
Lacks-append b [] t hs ht = ht
Lacks-append b (c ∷ s) t hs ht = (hs.0, Lacks-append b s t hs.1 ht)

-- The first line that a client sends.
abbrev pub request_line : HttpRequest → Bytes
request_line r = r.method ++ 32 ∷ (r.path ++ 32 ∷ r.version)

-- A request that is printed as HTTP prints it, with headers or anything else behind its first line,
-- is read back, if no part has a carriage return and neither the method nor the path a space.
pub parse_request-request_line :
    (r : HttpRequest) (rest : Bytes)
    → Lacks 32 r.method
    → Lacks 32 r.path
    → Lacks b'\r' r.method
    → Lacks b'\r' r.path
    → Lacks b'\r' r.version
    → parse_request (request_line r ++ b'\r' ∷ b'\n' ∷ rest) ≡ some r
unfolding parse_request
parse_request-request_line r rest sm sp m p v = rw (
  before_crlf-append (request_line r) rest line,
  split_at-append 32 r.method (r.path ++ 32 ∷ r.version) sm,
  split_at-append 32 r.path r.version sp,
)
  where
    line : Lacks b'\r' (request_line r)
    line =
        Lacks-append b'\r' r.method (32 ∷ (r.path ++ 32 ∷ r.version)) m
          (omega arith, Lacks-append b'\r' r.path (32 ∷ r.version) p (omega arith, v))
