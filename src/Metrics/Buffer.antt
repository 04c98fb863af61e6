-- ===== src/Metrics/Buffer.antt =====
-- The growing buffer of src/metrics.c.
use pg_what_is_happening.Base.{
  ℕ, zero, suc, ◌+◌, ◌-◌, ◌*◌, ◌≤◌, ◌<◌, ◌≡◌, refl, sym, ap, ◌∙◌, [], ◌∷◌, ◌++◌, arith, append-nil,
  append_assoc, length, length-append, take, if◌then◌else◌, leb, ◌==◌, Bytes, codes, Bool-cases,
  inl, inr,
}

abbrev pub metric_buffer_size : ℕ
metric_buffer_size = 65536

-- `mem` holds the bytes that were written at `data`, from its start on. `offset` and `size` stay far
-- below 2 ^ 64.
pub record FormatterBuffer : Type 0 where
  pub mem : Bytes
  pub offset : ℕ
  pub size : ℕ

abbrev pub buffer_init : FormatterBuffer
buffer_init = record { mem = []; offset = 0; size = metric_buffer_size }

pub buffer_ensure_capacity : FormatterBuffer → ℕ → FormatterBuffer
buffer_ensure_capacity buf needed =
    if leb buf.size (buf.offset + needed) then record buf { size = buf.size * 2 } else buf

-- `vsnprintf` writes what fits into the rest of the buffer and a NUL, and returns the whole length.
vsnprintf_at : FormatterBuffer → Bytes → FormatterBuffer
vsnprintf_at buf text = record buf {
  mem = take buf.offset buf.mem ++ (take (buf.size - buf.offset - 1) text ++ 0 ∷ []);
  offset = buf.offset + length text;
}

-- `text` is what the format and its arguments print.
pub buffer_append : FormatterBuffer → Bytes → FormatterBuffer
unfolding buffer_ensure_capacity vsnprintf_at
buffer_append buf text = vsnprintf_at (buffer_ensure_capacity buf 1024) text

-- `buf->data[buf->offset++] = c`.
put_byte : FormatterBuffer → ℕ → FormatterBuffer
put_byte buf c = record buf { mem = take buf.offset buf.mem ++ c ∷ []; offset = buf.offset + 1 }

-- One round of the loop.
append_escaped_byte : FormatterBuffer → ℕ → FormatterBuffer
unfolding buffer_append put_byte
append_escaped_byte buf c =
    if c == b'"'
    then buffer_append buf (codes "\\\"")
    else if c == b'\\'
    then buffer_append buf (codes "\\\\")
    else if c == b'\n'
    then buffer_append buf (codes "\\n")
    else put_byte (buffer_ensure_capacity buf 1) c

unfoldable pub buffer_append_escaped : FormatterBuffer → Bytes → FormatterBuffer
unfolding append_escaped_byte
buffer_append_escaped buf [] = buf
buffer_append_escaped buf (c ∷ str) = buffer_append_escaped (append_escaped_byte buf c) str

-- The buffer holds the text `s` and has room for a NUL; nothing was written past its size.
pub record HoldsText (s : Bytes) (buf : FormatterBuffer) : Type 0 where
  pub written : take buf.offset buf.mem ≡ s
  pub counted : buf.offset ≡ length s
  pub room : buf.offset < buf.size
  pub large : metric_buffer_size ≤ buf.size
  pub in_bounds : length buf.mem ≤ buf.size

-- And a NUL ends it.
abbrev pub IsTerminated : Bytes → FormatterBuffer → Type 0
IsTerminated s buf = HoldsText s buf × (buf.mem ≡ s ++ 0 ∷ [])

take-all : (n : ℕ) (s t : Bytes) → n ≡ length s → take n (s ++ t) ≡ s
take-all zero [] t e = refl
take-all zero (x ∷ s) t e = absurd (omega arith)
take-all (suc n) [] t e = absurd (omega arith)
take-all (suc n) (x ∷ s) t e = ap (◌∷◌ x) (take-all n s t (omega arith))

take-enough : (n : ℕ) (s : Bytes) → length s ≤ n → take n s ≡ s
take-enough zero [] h = refl
take-enough zero (x ∷ s) h = absurd (omega arith)
take-enough (suc n) [] h = refl
take-enough (suc n) (x ∷ s) h = ap (◌∷◌ x) (take-enough n s (omega arith))

pub buffer_init-HoldsText : HoldsText [] buffer_init
buffer_init-HoldsText = record {
  written = refl;
  counted = refl;
  room = omega arith;
  large = omega arith;
  in_bounds = omega arith;
}

ensure-HoldsText :
    (s : Bytes) (buf : FormatterBuffer) (needed : ℕ)
    → needed ≤ 1024
    → HoldsText s buf
    → HoldsText s (buffer_ensure_capacity buf needed)
      × (buf.offset + needed < (buffer_ensure_capacity buf needed).size)
      × ((buffer_ensure_capacity buf needed).offset ≡ buf.offset)
unfolding buffer_ensure_capacity
ensure-HoldsText s buf needed n h = ground arith

vsnprintf_at-IsTerminated :
    (s text : Bytes) (buf : FormatterBuffer)
    → HoldsText s buf
    → buf.offset + length text < buf.size
    → IsTerminated (s ++ text) (vsnprintf_at buf text)
unfolding vsnprintf_at
vsnprintf_at-IsTerminated s text buf h fits = (holds, exact)
  where
    kept : take (buf.size - buf.offset - 1) text ≡ text
    kept = take-enough (buf.size - buf.offset - 1) text (omega arith)

    exact :
        take buf.offset buf.mem ++ (take (buf.size - buf.offset - 1) text ++ 0 ∷ [])
        ≡ (s ++ text) ++ 0 ∷ []
    exact = rw (h.written, kept) (sym (append_assoc s text (0 ∷ [])))

    total : buf.offset + length text ≡ length (s ++ text)
    total = omega (arith, length-append s text, h.counted)

    holds : HoldsText (s ++ text) (vsnprintf_at buf text)
    holds = record {
      written = rw exact (take-all (buf.offset + length text) (s ++ text) (0 ∷ []) total);
      counted = total;
      room = fits;
      large = h.large;
      in_bounds = rw exact (omega (arith, length-append (s ++ text) (0 ∷ []), total));
    }

-- A text below 1024 bytes is appended whole, with a NUL behind it.
pub buffer_append-IsTerminated :
    (s text : Bytes) (buf : FormatterBuffer)
    → length text < 1024
    → HoldsText s buf
    → IsTerminated (s ++ text) (buffer_append buf text)
unfolding buffer_append
buffer_append-IsTerminated s text buf short h =
    let (h', r, e) = ensure-HoldsText s buf 1024 (omega arith) h in
    vsnprintf_at-IsTerminated s text (buffer_ensure_capacity buf 1024) h' (omega arith)

-- What the loop appends for one byte.
abbrev pub escape_byte : ℕ → Bytes
escape_byte c =
    if c == b'"'
    then codes "\\\""
    else if c == b'\\'
    then codes "\\\\"
    else if c == b'\n'
    then codes "\\n"
    else c ∷ []

abbrev pub escape : Bytes → Bytes
escape [] = []
escape (c ∷ s) = escape_byte c ++ escape s

put_byte-HoldsText :
    (s : Bytes) (buf : FormatterBuffer) (c : ℕ)
    → HoldsText s buf
    → buf.offset + 1 < buf.size
    → HoldsText (s ++ c ∷ []) (put_byte buf c)
unfolding put_byte
put_byte-HoldsText s buf c h fits = record {
  written = rw h.written (
      ap (take (buf.offset + 1)) (sym (append-nil (s ++ c ∷ [])))
      ∙ take-all (buf.offset + 1) (s ++ c ∷ []) [] next);
  counted = next;
  room = fits;
  large = h.large;
  in_bounds = rw h.written (omega (arith, length-append s (c ∷ []), h.counted));
}
  where
    next : buf.offset + 1 ≡ length (s ++ c ∷ [])
    next = omega (arith, length-append s (c ∷ []), h.counted)

append_escaped_byte-HoldsText :
    (s : Bytes) (buf : FormatterBuffer) (c : ℕ)
    → HoldsText s buf
    → HoldsText (s ++ escape_byte c) (append_escaped_byte buf c)
unfolding append_escaped_byte
append_escaped_byte-HoldsText s buf c h = elim (Bool-cases (c == b'"')) [
  | inl q ↦ rw q (buffer_append-IsTerminated s (codes "\\\"") buf (omega arith) h).0
  | inr nq ↦ rw nq (elim (Bool-cases (c == b'\\')) [
    | inl b ↦ rw b (buffer_append-IsTerminated s (codes "\\\\") buf (omega arith) h).0
    | inr nb ↦ rw nb (elim (Bool-cases (c == b'\n')) [
      | inl l ↦ rw l (buffer_append-IsTerminated s (codes "\\n") buf (omega arith) h).0
      | inr nl ↦ rw nl (
          let (h', r, e) = ensure-HoldsText s buf 1 (omega arith) h in
          put_byte-HoldsText s (buffer_ensure_capacity buf 1) c h' (omega arith))
    ])
  ])
]

-- The escaped text is appended whole to a buffer that holds a text, however long it is, with no
-- write past the buffer's size and with room for a NUL.
pub buffer_append_escaped-HoldsText :
    (s str : Bytes) (buf : FormatterBuffer)
    → HoldsText s buf
    → HoldsText (s ++ escape str) (buffer_append_escaped buf str)
unfolding buffer_append_escaped
buffer_append_escaped-HoldsText s [] buf h = rw (append-nil s) h
buffer_append_escaped-HoldsText s (c ∷ str) buf h =
    rw (← append_assoc s (escape_byte c) (escape str)) (
      buffer_append_escaped-HoldsText (s ++ escape_byte c) str (append_escaped_byte buf c)
        (append_escaped_byte-HoldsText s buf c h))
