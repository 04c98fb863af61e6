-- ===== src/Http/Response.antt =====
-- `HttpResponse` of src/http_server.h and `pwh_http_response_set_text` of src/http_server.c.
use pg_what_is_happening.Base.{
  ℕ, ◌≡◌, refl, [], ◌∷◌, ◌++◌, arith, ◌==◌, if◌then◌else◌, length, Bytes, codes, Option, none,
}

-- A C string at the bytes of a memory: what is before the first NUL.
abbrev pub c_string : Bytes → Bytes
c_string [] = []
c_string (c ∷ s) = if c == 0 then [] else c ∷ c_string s

pub c_string-terminated : (s : Bytes) → c_string (s ++ 0 ∷ []) ≡ c_string s
c_string-terminated [] = refl
c_string-terminated (c ∷ s) = ground (arith, c_string-terminated s)

-- The headers are always NULL.
pub record HttpResponse : Type 0 where
  pub status_code : ℕ
  pub status_text : Bytes
  pub body : Bytes
  pub body_len : ℕ
  pub headers : Option Bytes

abbrev pub status_text_of : ℕ → Bytes
status_text_of code =
    if code == 200
    then codes "OK"
    else if code == 404
    then codes "Not Found"
    else if code == 500
    then codes "Internal Server Error"
    else codes "Unknown"

-- `body` is the memory that the pointer points to, which the callers never let be NULL.
unfoldable pub response_set_text : ℕ → Bytes → HttpResponse
response_set_text status_code body = record {
  status_code = status_code;
  status_text = status_text_of status_code;
  body = c_string body;
  body_len = length (c_string body);
  headers = none;
}

pub response_set_text-c_string :
    (n : ℕ) (a b : Bytes) → c_string a ≡ c_string b → response_set_text n a ≡ response_set_text n b
unfolding response_set_text
response_set_text-c_string n a b h = rw h
