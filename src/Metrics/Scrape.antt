-- ===== src/Metrics/Scrape.antt =====
-- A scraper's side of src/metrics.c: a reader of the text exposition format, one byte at a time. It
-- is written from the format's syntax of lines and shares nothing with the formatter. It does not
-- ask that the samples of one metric stand together, nor for a last line `# EOF`.
use pg_what_is_happening.Base.{
  ℕ, ◌-◌, Bool, true, false, ◌&&◌, ◌||◌, List, [], ◌∷◌, ◌++◌, Option, none, some, ltb, leb, ◌==◌,
  if◌then◌else◌, Bytes,
}
pub mod Pieces
pub mod Samples
pub mod Document

abbrev pub Labels : Type 0
Labels = List (Bytes × Bytes)

-- A sample has a name, labels in the order of the line, and the text of its value.
pub record Sample : Type 0 where
  pub name : Bytes
  pub labels : Labels
  pub value : Bytes

-- `[a-zA-Z_]`, which begins the name of a label.
unfoldable pub starts_label : ℕ → Bool
starts_label c = (leb b'a' c && leb c b'z') || ((leb b'A' c && leb c b'Z') || c == b'_')

-- `[a-zA-Z0-9_]`.
unfoldable pub is_label : ℕ → Bool
unfolding starts_label
is_label c = starts_label c || (leb b'0' c && leb c b'9')

-- Where the reader is in a line, with what it has of the sample.
pub data Place : Type 0 where
  line_start : Place
  in_comment : Place
  in_name : Bytes → Place
  label_start : Bytes → Labels → Place
  in_label : Bytes → Labels → Bytes → Place
  quote : Bytes → Labels → Bytes → Place
  in_string : Bytes → Labels → Bytes → Bytes → Place
  escaped : Bytes → Labels → Bytes → Bytes → Place
  after_string : Bytes → Labels → Place
  before_value : Bytes → Labels → Place
  in_value : Bytes → Labels → Bytes → Place

-- What a byte does: the reader goes on, has a sample, or refuses the text.
pub data Move : Type 0 where
  go : Place → Move
  emit : Sample → Move
  refuse : Move

-- A metric's name may also have colons; a brace or a blank ends it. In a string a backslash stands
-- before a backslash, a quote or an `n`, which is a line feed. A value ends with its line: a sample
-- with a time stamp, which the formatter does not print, is refused.
unfoldable pub step : Place → ℕ → Move
unfolding is_label
step line_start c =
    if c == b'\n'
    then go line_start
    else if c == b'#'
    then go in_comment
    else if starts_label c || c == b':'
    then go (in_name (c ∷ []))
    else refuse
step in_comment c = if c == b'\n' then go line_start else go in_comment
step (in_name n) c =
    if c == b'{'
    then go (label_start n [])
    else if c == b' '
    then go (before_value n [])
    else if is_label c || c == b':'
    then go (in_name (n ++ c ∷ []))
    else refuse
step (label_start n ls) c =
    if c == b'}'
    then go (before_value n ls)
    else if starts_label c
    then go (in_label n ls (c ∷ []))
    else refuse
step (in_label n ls l) c =
    if c == b'='
    then go (quote n ls l)
    else if is_label c
    then go (in_label n ls (l ++ c ∷ []))
    else refuse
step (quote n ls l) c = if c == b'"' then go (in_string n ls l []) else refuse
step (in_string n ls l v) c =
    if c == b'"'
    then go (after_string n (ls ++ (l, v) ∷ []))
    else if c == b'\\'
    then go (escaped n ls l v)
    else if c == b'\n'
    then refuse
    else go (in_string n ls l (v ++ c ∷ []))
step (escaped n ls l v) c =
    if c == b'n'
    then go (in_string n ls l (v ++ b'\n' ∷ []))
    else if c == b'"' || c == b'\\'
    then go (in_string n ls l (v ++ c ∷ []))
    else refuse
step (after_string n ls) c =
    if c == b','
    then go (label_start n ls)
    else if c == b'}'
    then go (before_value n ls)
    else refuse
step (before_value n ls) c =
    if c == b' '
    then go (before_value n ls)
    else if c == b'\n'
    then refuse
    else go (in_value n ls (c ∷ []))
step (in_value n ls v) c =
    if c == b'\n'
    then emit (record { name = n; labels = ls; value = v })
    else if c == b' '
    then refuse
    else go (in_value n ls (v ++ c ∷ []))

-- A text that ends within a line is refused.
unfoldable pub finish : List Sample → Place → Option (List Sample)
finish out line_start = some out
finish out _ = none

-- The text from a place, after the samples `out`.
unfoldable pub read : List Sample → Place → Bytes → Option (List Sample)
unfolding step finish
read out p [] = finish out p
read out p (c ∷ s) = elim (step p c) [
  | go q ↦ read out q s
  | emit x ↦ read (out ++ x ∷ []) line_start s
  | refuse ↦ none
]

unfoldable pub scrape : Bytes → Option (List Sample)
unfolding read
scrape = read [] line_start
