-- ===== src/Metrics/Scrape/Pieces.antt =====
-- What the reader makes of the pieces of a line, with any text behind them.
use pg_what_is_happening.Base.{
  &&-eq-true, ℕ, ◌≡◌, ◌≢◌, ap, refl, ◌∙◌, Bool, true, ◌||◌, ◌&&◌, List, [], ◌∷◌, ◌++◌, arith,
  append-nil, append_assoc, take, zero, suc, leb, ◌==◌, Bytes,
}
use pg_what_is_happening.Metrics.Buffer.{escape, escape_byte}
use pg_what_is_happening.Metrics.Scrape.{
  Labels, Sample, Place, go, starts_label, is_label, line_start, in_name, label_start, in_string,
  before_value, after_string, in_value, step, read,
}

-- The bytes that a number is printed with, `nan` and `inf` included.
abbrev pub is_plain : ℕ → Bool
is_plain c =
    (leb b'0' c && leb c b'9')
    || (c == b'-' || (c == b'.' || ((leb b'a' c && leb c b'z') || (leb b'A' c && leb c b'Z'))))

abbrev pub all_of : (ℕ → Bool) → Bytes → Bool
all_of f [] = true
all_of f (c ∷ s) = f c && all_of f s

abbrev pub IsPlain : Bytes → Type 0
IsPlain s = all_of is_plain s ≡ true

abbrev pub IsName : Bytes → Type 0
IsName s = all_of is_label s ≡ true

-- A step that goes on is read.
read-go :
    (p : Place) {q : Place} (c : ℕ) (s : Bytes) (out : List Sample)
    → step p c ≡ go q
    → read out p (c ∷ s) ≡ read out q s
unfolding read
read-go p c s out h = ground arith

-- Bytes that the place `P` only collects.
read-collect :
    (P : Bytes → Place) (f : ℕ → Bool)
    → ((v : Bytes) (c : ℕ) → f c ≡ true → step (P v) c ≡ go (P (v ++ c ∷ [])))
    → (s rest v : Bytes) (out : List Sample) → all_of f s ≡ true
    → read out (P v) (s ++ rest) ≡ read out (P (v ++ s)) rest
read-collect P f k [] rest v out h = rw append-nil
read-collect P f k (c ∷ s) rest v out h =
    let (hc, hs) = &&-eq-true (f c) (all_of f s) h in
    read-go (P v) c (s ++ rest) out (k v c hc)
    ∙ (read-collect P f k s rest (v ++ c ∷ []) out hs ∙ rw append_assoc)

step-in_name :
    (n : Bytes) (c : ℕ) → is_label c ≡ true → step (in_name n) c ≡ go (in_name (n ++ c ∷ []))
unfolding step starts_label
step-in_name n c h = ground arith

step-in_value :
    (n : Bytes) (ls : Labels) (v : Bytes) (c : ℕ)
    → is_plain c ≡ true
    → step (in_value n ls v) c ≡ go (in_value n ls (v ++ c ∷ []))
unfolding step
step-in_value n ls v c h = ground arith

step-in_string :
    (n : Bytes) (ls : Labels) (l v : Bytes) (c : ℕ)
    → is_plain c ≡ true
    → step (in_string n ls l v) c ≡ go (in_string n ls l (v ++ c ∷ []))
unfolding step
step-in_string n ls l v c h = ground arith

step-before_value :
    (n : Bytes) (ls : Labels) (c : ℕ)
    → is_plain c ≡ true
    → step (before_value n ls) c ≡ go (in_value n ls (c ∷ []))
unfolding step
step-before_value n ls c h = ground arith

-- A value, which is not empty, ends the sample.
pub read-number :
    (n : Bytes) (ls : Labels) (v rest : Bytes) (out : List Sample)
    → IsPlain v
    → v ≢ []
    → read out (before_value n ls) (b' ' ∷ (v ++ b'\n' ∷ rest))
      ≡ read (out ++ record { name = n; labels = ls; value = v } ∷ []) line_start rest
unfolding read
read-number n ls [] rest out plain ne = absurd (ne refl)
read-number n ls (c ∷ v) rest out h ne =
    let (hc, hv) = &&-eq-true (is_plain c) (all_of is_plain v) h in
    read-go (before_value n ls) c (v ++ b'\n' ∷ rest) out (step-before_value n ls c hc)
    ∙ read-collect (in_value n ls) is_plain (step-in_value n ls) v (b'\n' ∷ rest) (c ∷ []) out hv

-- A string that needs no escapes.
pub read-string :
    (n : Bytes) (ls : Labels) (l v rest : Bytes) (out : List Sample)
    → IsPlain v
    → read out (in_string n ls l []) (v ++ b'"' ∷ rest)
      ≡ read out (after_string n (ls ++ (l, v) ∷ [])) rest
unfolding read
read-string n ls l v rest out h =
    read-collect (in_string n ls l) is_plain (step-in_string n ls l) v (b'"' ∷ rest) [] out h

read-escape_byte :
    (n : Bytes) (ls : Labels) (l v : Bytes) (c : ℕ) (rest : Bytes) (out : List Sample)
    → read out (in_string n ls l v) (escape_byte c ++ rest)
      ≡ read out (in_string n ls l (v ++ c ∷ [])) rest
unfolding read
read-escape_byte n ls l v c rest out = ground arith

-- A string with its escapes, whatever bytes it has.
pub read-escape :
    (n : Bytes) (ls : Labels) (l : Bytes) (s rest v : Bytes) (out : List Sample)
    → read out (in_string n ls l v) (escape s ++ b'"' ∷ rest)
      ≡ read out (after_string n (ls ++ (l, v ++ s) ∷ [])) rest
unfolding read
read-escape n ls l [] rest v out = rw append-nil
read-escape n ls l (c ∷ s) rest v out =
    ap (read out (in_string n ls l v)) (append_assoc (escape_byte c) (escape s) (b'"' ∷ rest))
    ∙ (read-escape_byte n ls l v c (escape s ++ b'"' ∷ rest) out
        ∙ (read-escape n ls l s rest (v ++ c ∷ []) out ∙ rw append_assoc))

pub take-IsPlain : (k : ℕ) (s : Bytes) → IsPlain s → IsPlain (take k s)
take-IsPlain zero s h = refl
take-IsPlain (suc k) [] h = refl
take-IsPlain (suc k) (c ∷ s) h =
    let (hc, hs) = &&-eq-true (is_plain c) (all_of is_plain s) h in rw hc (take-IsPlain k s hs)

-- The name of a metric up to its labels.
pub read-name :
    (s rest n : Bytes) (out : List Sample)
    → IsName s
    → read out (in_name n) (s ++ b'{' ∷ rest) ≡ read out (label_start (n ++ s) []) rest
unfolding read
read-name s rest n out h = read-collect in_name is_label step-in_name s (b'{' ∷ rest) n out h

pub take-ne-nil : (k : ℕ) (s : Bytes) → s ≢ [] → take (suc k) s ≢ []
take-ne-nil k [] ne = absurd (ne refl)
take-ne-nil k (c ∷ s) ne = λ e. cc
