-- ===== src/Http/Address/Port.antt =====
-- The port that src/http_server_backend/dumb.c reads from an address that src/gucs.c accepts.
use pg_what_is_happening.Base.{
  ℕ, ◌+◌, ◌-◌, ◌*◌, ◌≤◌, ◌≡◌, ◌≢◌, refl, Bool, true, false, Option, none, some, [], ◌∷◌, arith,
  Bytes, All, Option-cases, inl, inr,
}
use pg_what_is_happening.Http.Address.{
  skip_spaces, read_sign, scan_digits, Number, read_number, strtol, first_colon, last_colon, is_end,
  check_port, check_host_port, check_listen_address, dumb_port,
}

abbrev NoColon : Bytes → Type 0
NoColon = All (λ c. c ≢ b':')

scan_digits-NoColon : (n : ℕ) (s : Bytes) → (scan_digits n s).1 ≡ [] → NoColon s
unfolding scan_digits
scan_digits-NoColon n [] e = tt
scan_digits-NoColon n (c ∷ s) e = ground (arith, scan_digits-NoColon (n * 10 + (c - b'0')) s)

read_sign-NoColon : (s : Bytes) → NoColon (read_sign s).1 → NoColon s
unfolding read_sign
read_sign-NoColon [] h = tt
read_sign-NoColon (c ∷ s) h = ground arith

skip_spaces-NoColon : (s : Bytes) → NoColon (skip_spaces s) → NoColon s
unfolding skip_spaces
skip_spaces-NoColon [] h = tt
skip_spaces-NoColon (c ∷ s) h = ground (arith, skip_spaces-NoColon s)

read_number-NoColon :
    (r : Bool × Bytes) (n : Number) → read_number r ≡ some n → n.rest ≡ [] → NoColon r.1
read_number-NoColon (neg, s) n e z = ground (arith, scan_digits-NoColon 0 s)

strtol-NoColon : (s : Bytes) (n : Number) → strtol s ≡ some n → n.rest ≡ [] → NoColon s
unfolding strtol
strtol-NoColon s n e z =
    skip_spaces-NoColon s
      (read_sign-NoColon (skip_spaces s) (read_number-NoColon (read_sign (skip_spaces s)) n e z))

last_colon-none : (s : Bytes) → NoColon s → last_colon s ≡ none
unfolding last_colon
last_colon-none [] h = refl
last_colon-none (c ∷ s) h = ground (arith, last_colon-none s)

-- With no colon behind the first, it is the last.
last_colon-first_colon :
    (v : Bytes) (k : ℕ) (r : Bytes)
    → first_colon v ≡ some (k, r)
    → NoColon r
    → last_colon v ≡ some r
unfolding first_colon last_colon
last_colon-first_colon [] k r e h = cc
last_colon-first_colon (c ∷ s) k r e h = elim (Option-cases (first_colon s)) [
  | inl n ↦ ground (arith, last_colon-none s)
  | inr ((k', r'), e') ↦ ground (arith, last_colon-none s, last_colon-first_colon s k' r')
]

-- What an accepted address gives: the number behind its colon, which is all that stands there.
pub record PortOf (v : Bytes) (n : Number) : Type 0 where
  pub host_len : ℕ
  pub port_text : Bytes
  pub host : first_colon v ≡ some (host_len, port_text)
  pub host_ge : 1 ≤ host_len
  pub host_le : host_len ≤ 255
  pub parsed : strtol port_text ≡ some n
  pub whole : n.rest ≡ []
  pub positive : n.is_negative ≡ false
  pub port_ge : 1 ≤ n.magnitude
  pub port_le : n.magnitude ≤ 65535

check_port-valid :
    (o : Option Number)
    → check_port o ≡ true
    → (n : Number) × (o ≡ some n)
      × (n.rest ≡ [])
      × (n.is_negative ≡ false)
      × (1 ≤ n.magnitude)
      × (n.magnitude ≤ 65535)
unfolding check_port
check_port-valid none h = cc
check_port-valid (some n) h =
    (n, refl, end n.rest (ground arith), ground arith, ground arith, ground arith)
  where
    end : (s : Bytes) → is_end s ≡ true → s ≡ []
    end [] e = refl
    end (c ∷ s) e = cc

check_host_port-PortOf :
    (v : Bytes) (o : Option (ℕ × Bytes))
    → first_colon v ≡ o
    → check_host_port o ≡ true
    → (n : Number) × PortOf v n
unfolding check_host_port
check_host_port-PortOf v none e h = cc
check_host_port-PortOf v (some (k, s)) e h =
    let (n, p, z, pos, ge, le) = check_port-valid (strtol s) (ground arith) in
    (
      n,
      record {
        host_len = k;
        port_text = s;
        host = e;
        host_ge = ground arith;
        host_le = ground arith;
        parsed = p;
        whole = z;
        positive = pos;
        port_ge = ge;
        port_le = le;
      },
    )

check-PortOf : (v : Bytes) → check_listen_address (some v) ≡ true → (n : Number) × PortOf v n
unfolding check_listen_address
check-PortOf [] h = cc
check-PortOf (c ∷ v) h = check_host_port-PortOf (c ∷ v) (first_colon (c ∷ v)) refl h

dumb_port-PortOf : (v : Bytes) (n : Number) → PortOf v n → dumb_port v ≡ n.magnitude
unfolding dumb_port
dumb_port-PortOf v n p =
    rw
      (
        last_colon-first_colon v p.host_len p.port_text p.host
            (strtol-NoColon p.port_text n p.parsed p.whole),
        p.parsed,
        p.positive,
      )
      (omega (arith, p.port_le))

-- An address that the setting's check accepts has a host of 1 to 255 bytes before its first colon,
-- and behind that colon nothing but a number from 1 to 65535; and the server, which looks for the
-- last colon and reads with `atoi`, listens on just this port.
pub dumb_port-check :
    (v : Bytes)
    → check_listen_address (some v) ≡ true
    → (n : Number) × PortOf v n × (dumb_port v ≡ n.magnitude)
dumb_port-check v h = let (n, p) = check-PortOf v h in (n, p, dumb_port-PortOf v n p)
