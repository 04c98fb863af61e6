-- ===== src/Metrics/Unescape.antt =====
-- A reader of the label values that src/metrics.c escapes.
use pg_what_is_happening.Base.{
  take, ℕ, ◌≡◌, ap, ◌∙◌, Bool, true, false, append-nil, Option, none, some, [], ◌∷◌, ◌++◌, arith,
  append_assoc, ◌==◌, if◌then◌else◌, Bytes,
}
use pg_what_is_happening.Metrics.Buffer.{
  buffer_init, buffer_init-HoldsText, buffer_append_escaped, buffer_append_escaped-HoldsText,
  escape, escape_byte,
}

-- What a scraper makes of the text between the quotes, by the exposition format: `\\`, `\"` and
-- `\n` stand for one byte each; a bare quote ends the value, and a bare line feed is an error.
reveal : ℕ → Option ℕ
reveal c =
    if c == b'"'
    then some b'"'
    else if c == b'\\'
    then some b'\\'
    else if c == b'n'
    then some b'\n'
    else none

-- The value and the text behind the closing quote.
unfoldable pub read_value : Bytes → Bool → Bytes → Option (Bytes × Bytes)
unfolding reveal
read_value [] pending out = none
read_value (c ∷ s) true out = elim (reveal c) [
  | none ↦ none
  | some b ↦ read_value s false (out ++ b ∷ [])
]
read_value (c ∷ s) false out =
    let wait = read_value s true out in
    let copy = read_value s false (out ++ c ∷ []) in
    if c == b'"'
    then some (out, s)
    else if c == b'\\'
    then wait
    else if c == b'\n'
    then none
    else copy

read_value-escape_byte :
    (c : ℕ) (rest out : Bytes)
    → read_value (escape_byte c ++ rest) false out ≡ read_value rest false (out ++ c ∷ [])
unfolding read_value
read_value-escape_byte c rest out = ground arith

-- The escapes are read back.
pub read_value-escape :
    (s rest out : Bytes) → read_value (escape s ++ b'"' ∷ rest) false out ≡ some (out ++ s, rest)
unfolding read_value
read_value-escape [] rest out = rw append-nil
read_value-escape (c ∷ s) rest out =
    ap (λ t. read_value t false out) (append_assoc (escape_byte c) (escape s) (b'"' ∷ rest))
    ∙ (read_value-escape_byte c (escape s ++ b'"' ∷ rest) out
        ∙ (read_value-escape s rest (out ++ c ∷ [])
            ∙ ap (λ t. some (t, rest)) (append_assoc out (c ∷ []) s)))

-- What the escaping loop leaves in a new buffer, a scraper reads back as the query text, and reads
-- on behind the closing quote, whatever bytes the query text has.
pub read_value-buffer_append_escaped :
    (str rest : Bytes)
    → read_value
        (take
            (buffer_append_escaped buffer_init str).offset
            (buffer_append_escaped buffer_init str).mem
          ++ b'"' ∷ rest)
        false
        []
      ≡ some (str, rest)
read_value-buffer_append_escaped str rest =
    ap (λ t. read_value (t ++ b'"' ∷ rest) false [])
      (buffer_append_escaped-HoldsText [] str buffer_init buffer_init-HoldsText).written
    ∙ read_value-escape str rest []
