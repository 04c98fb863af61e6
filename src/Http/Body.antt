-- ===== src/Http/Body.antt =====
-- The answer to a request for the metrics as a C string: no NUL cuts the document short.
use pg_what_is_happening.Base.{
  ℕ, ◌≡◌, refl, sym, ap, ◌∙◌, Bool, true, false, List, [], ◌∷◌, ◌++◌, take, All, arith, append-nil,
  append_assoc, ◌==◌, if◌then◌else◌, Bytes, codes,
}
use pg_what_is_happening.Doubles.{Doubles}
use pg_what_is_happening.Tags.{node_tag_to_string}
use pg_what_is_happening.Memory.{
  BackendEntry, NodeMetrics, Slots, is_backend_entry_active, validate_node_magic,
}
use pg_what_is_happening.Metrics.Types.{MetricType, tuples_returned, metric_suffix, all_metrics}
use pg_what_is_happening.Metrics.Buffer.{escape, escape_byte}
use pg_what_is_happening.Metrics.Format.{
  Printf, node_values, nodes_of, total_query_time, metric_line, metric_header, info_help,
}
use pg_what_is_happening.Metrics.Text.{
  headers_text, values_text, nodes_text, info_text, entry_text, entries_text, openmetrics_text,
}
use pg_what_is_happening.Metrics.Scrape.Pieces.{IsPlain, take-IsPlain}
use pg_what_is_happening.Metrics.Scrape.Samples.{PrintsPlain}
use pg_what_is_happening.Metrics.Scrape.Document.{ArePlain, node_values-ArePlain, tag-IsPlain}
use pg_what_is_happening.Http.Response.{c_string}

-- A text without a NUL.
abbrev pub IsCString : Bytes → Type 0
IsCString s = c_string s ≡ s

-- A C string that begins with `s` has all of it.
abbrev pub IsWhole : Bytes → Type 0
IsWhole s = (t : Bytes) → c_string (s ++ t) ≡ s ++ c_string t

IsWhole-append : (s t : Bytes) → IsWhole s → IsWhole t → IsWhole (s ++ t)
IsWhole-append s t hs ht u =
    ap c_string (append_assoc s t u)
    ∙ (hs (t ++ u) ∙ (ap (◌++◌ s) (ht u) ∙ sym (append_assoc s t (c_string u))))

IsWhole-if : (b : Bool) (s : Bytes) → IsWhole s → IsWhole (if b then s else [])
IsWhole-if true s h = h
IsWhole-if false s h = λ t. refl

IsPlain-IsWhole : (s : Bytes) → IsPlain s → IsWhole s
IsPlain-IsWhole [] h t = refl
IsPlain-IsWhole (c ∷ s) h t = ground (arith, IsPlain-IsWhole s _ t)

escape_byte-IsWhole : (c : ℕ) → (c == 0) ≡ false → IsWhole (escape_byte c)
escape_byte-IsWhole c h t = ground arith

IsCString-cons : (c : ℕ) (s : Bytes) → IsCString (c ∷ s) → ((c == 0) ≡ false) × IsCString s
IsCString-cons c s h = ground arith

escape-IsWhole : (s : Bytes) → IsCString s → IsWhole (escape s)
escape-IsWhole [] h = λ t. refl
escape-IsWhole (c ∷ s) h =
    let (hc, hs) = IsCString-cons c s h in
    IsWhole-append (escape_byte c) (escape s) (escape_byte-IsWhole c hc) (escape-IsWhole s hs)

header-IsWhole : (t : MetricType) → IsWhole (metric_header t)
header-IsWhole tuples_returned = λ t. refl
header-IsWhole _ = λ t. refl

headers-IsWhole : (ts : List MetricType) → IsWhole (headers_text ts)
headers-IsWhole [] = λ t. refl
headers-IsWhole (t ∷ ts) =
    IsWhole-append (metric_header t) (headers_text ts) (header-IsWhole t) (headers-IsWhole ts)

suffix-IsWhole : (t : MetricType) → IsWhole (codes (metric_suffix t))
suffix-IsWhole tuples_returned = λ t. refl
suffix-IsWhole _ = λ t. refl

-- Every query text is a C string.
abbrev pub HasTexts : {F : Type 0} → Slots F → Type 0
HasTexts slots = All (λ be. IsCString be.query_text) slots

module _ {F : Type 0} (d : Doubles F) (p : Printf) (plain : PrintsPlain d p) where
  line-IsWhole :
      (query_id : ℕ) (m : NodeMetrics F) (t : MetricType) (v : Bytes)
      → IsPlain v
      → IsWhole (metric_line d p query_id m t v)
  line-IsWhole query_id m t v hv rest = simp (
    append_assoc,
    suffix-IsWhole t,
    IsPlain-IsWhole (p.lu query_id) (plain.lu_plain query_id),
    IsPlain-IsWhole (p.lu m.node_id) (plain.lu_plain m.node_id),
    IsPlain-IsWhole (p.d m.parent_node_id) (plain.d_plain m.parent_node_id),
    IsPlain-IsWhole (codes (node_tag_to_string m.tag)) (tag-IsPlain m.tag),
    IsPlain-IsWhole (take 255 v) (take-IsPlain 255 v hv),
  )

  values-IsWhole :
      (query_id : ℕ) (m : NodeMetrics F) (vs : List (MetricType × Bytes))
      → ArePlain vs
      → IsWhole (values_text d p query_id m vs)
  values-IsWhole query_id m [] h = λ t. refl
  values-IsWhole query_id m ((t, v) ∷ vs) ((h, _), hs) =
      IsWhole-append (metric_line d p query_id m t v) (values_text d p query_id m vs)
        (line-IsWhole query_id m t v h) (values-IsWhole query_id m vs hs)

  nodes-IsWhole :
      (query_id : ℕ) (total : F) (ms : List (NodeMetrics F))
      → IsWhole (nodes_text d p query_id total ms)
  nodes-IsWhole query_id total [] = λ t. refl
  nodes-IsWhole query_id total (m ∷ ms) =
      IsWhole-append
        (if validate_node_magic m then values_text d p query_id m (node_values d p m total) else [])
        (nodes_text d p query_id total ms)
        (IsWhole-if (validate_node_magic m) (values_text d p query_id m (node_values d p m total)) (
          values-IsWhole query_id m (node_values d p m total)
            (node_values-ArePlain d p plain m total)))
        (nodes-IsWhole query_id total ms)

  info-IsWhole : (be : BackendEntry F) → IsCString be.query_text → IsWhole (info_text d p be)
  info-IsWhole be h rest = simp (
    append_assoc,
    IsPlain-IsWhole (p.lu be.query_id) (plain.lu_plain be.query_id),
    IsPlain-IsWhole (p.d be.backend_pid) (plain.d_plain be.backend_pid),
    escape-IsWhole be.query_text h,
  )

  entries-IsWhole : (slots : Slots F) → HasTexts slots → IsWhole (entries_text d p slots)
  entries-IsWhole [] h = λ t. refl
  entries-IsWhole (be ∷ slots) (h, hs) =
      let nodes = nodes_text d p be.query_id (total_query_time d be) (nodes_of be) in
      IsWhole-append (entry_text d p be) (entries_text d p slots)
        (IsWhole-if (is_backend_entry_active be) (info_text d p be ++ nodes) (
          IsWhole-append (info_text d p be) nodes (info-IsWhole be h)
            (nodes-IsWhole be.query_id (total_query_time d be) (nodes_of be))))
        (entries-IsWhole slots hs)

  -- The document is a C string if every query text is.
  pub openmetrics_text-IsCString :
      (slots : Slots F) → HasTexts slots → IsCString (openmetrics_text d p slots)
  openmetrics_text-IsCString slots h =
      let document = openmetrics_text d p slots in
      ap c_string (sym (append-nil document))
      ∙ (IsWhole-append info_help (headers_text all_metrics ++ entries_text d p slots) (λ t. refl)
            (IsWhole-append (headers_text all_metrics) (entries_text d p slots)
              (headers-IsWhole all_metrics) (entries-IsWhole slots h))
            []
          ∙ append-nil document)
