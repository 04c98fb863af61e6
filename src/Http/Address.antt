-- ===== src/Http/Address.antt =====
-- The listen address: `check_listen_address` of src/gucs.c, and how `dumb_create` of
-- src/http_server_backend/dumb.c reads the port.
pub mod Port
pub mod Scheme
use Prim.Native.Nat.{min}
use pg_what_is_happening.Base.{
  ℕ, suc, ◌+◌, ◌-◌, ◌*◌, ◌%◌, ◌^◌, ◌≤◌, ◌≡◌, ◌≢◌, refl, Bool, true, false, not, ◌&&◌, ◌||◌, Option,
  none, some, [], ◌∷◌, arith, ltb, leb, ◌==◌, if◌then◌else◌, Bytes, All, Option-cases, inl, inr,
}
use mathlib.Core.Option

abbrev is_space : ℕ → Bool
is_space c = c == 32 || (leb 9 c && leb c 13)

abbrev is_digit : ℕ → Bool
is_digit c = leb b'0' c && leb c b'9'

skip_spaces : Bytes → Bytes
skip_spaces [] = []
skip_spaces (c ∷ s) = if is_space c then skip_spaces s else c ∷ s

-- Whether a minus stands there, and what is behind a sign.
read_sign : Bytes → Bool × Bytes
read_sign [] = (false, [])
read_sign (c ∷ s) =
    if c == b'-' then (true, s) else if c == b'+' then (false, s) else (false, c ∷ s)

scan_digits : ℕ → Bytes → ℕ × Bytes
scan_digits n [] = (n, [])
scan_digits n (c ∷ s) = if is_digit c then scan_digits (n * 10 + (c - b'0')) s else (n, c ∷ s)

abbrev starts_with_digit : Bytes → Bool
starts_with_digit [] = false
starts_with_digit (c ∷ s) = is_digit c

-- The C library's `strtol(s, &endptr, 10)`: the sign, the magnitude and the text at `endptr`; with no
-- digits, `none`, where `endptr` is `s` and the number 0. The magnitude is clamped as `long` is.
pub record Number : Type 0 where
  pub is_negative : Bool
  pub magnitude : ℕ
  pub rest : Bytes

abbrev read_number : Bool × Bytes → Option Number
read_number (neg, s) =
    if starts_with_digit s
    then some (record {
      is_negative = neg;
      magnitude = min (scan_digits 0 s).0 (if neg then 2 ^ 63 else 2 ^ 63 - 1);
      rest = (scan_digits 0 s).1;
    })
    else none

pub strtol : Bytes → Option Number
unfolding scan_digits read_sign skip_spaces
strtol s = read_number (read_sign (skip_spaces s))

-- `atoi`, as the bits of an `int`.
atoi_bits : Option Number → ℕ
atoi_bits none = 0
atoi_bits (some n) =
    if n.is_negative then (2 ^ 32 - n.magnitude % 2 ^ 32) % 2 ^ 32 else n.magnitude % 2 ^ 32

-- `strchr(value, ':')`: the length of what is before the colon, and what is behind it.
pub first_colon : Bytes → Option (ℕ × Bytes)
first_colon [] = none
first_colon (c ∷ s) =
    if c == b':' then some (0, s) else Option.map (λ r. (suc r.0, r.1)) (first_colon s)

-- `strrchr(value, ':')`: what is behind the last colon.
pub last_colon : Bytes → Option Bytes
last_colon [] = none
last_colon (c ∷ s) = elim (last_colon s) [
  | some r ↦ some r
  | none ↦ if c == b':' then some s else none
]

abbrev is_end : Bytes → Bool
is_end [] = true
is_end (c ∷ s) = false

check_port : Option Number → Bool
check_port none = false
check_port (some n) =
    is_end n.rest && not (n.is_negative || ltb n.magnitude 1) && leb n.magnitude 65535

check_host_port : Option (ℕ × Bytes) → Bool
unfolding check_port strtol
check_host_port none = false
check_host_port (some (host_len, rest)) =
    if host_len == 0 then false else if ltb 255 host_len then false else check_port (strtol rest)

-- `none` is NULL.
unfoldable pub check_listen_address : Option Bytes → Bool
unfolding check_host_port first_colon
check_listen_address none = false
check_listen_address (some []) = false
check_listen_address (some (c ∷ value)) = check_host_port (first_colon (c ∷ value))

port_behind : Option Bytes → ℕ
unfolding atoi_bits strtol
port_behind none = 9187
port_behind (some s) = atoi_bits (strtol s)

-- `impl->port`.
pub dumb_port : Bytes → ℕ
unfolding port_behind last_colon
dumb_port listen_addr = port_behind (last_colon listen_addr)
