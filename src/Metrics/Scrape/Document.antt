-- ===== src/Metrics/Scrape/Document.antt =====
-- What the formatter prints is read back as the samples of the slots.
use pg_what_is_happening.Base.{
  ℕ, ◌≡◌, ◌≢◌, refl, sym, ap, ◌∙◌, Bool, true, false, List, [], ◌∷◌, ◌++◌, map, some, All,
  append-nil, append_assoc, if◌then◌else◌, Bytes, codes, take,
}
use pg_what_is_happening.Doubles.{Doubles}
use pg_what_is_happening.Tags.{NodeTag, result, node_tag_to_string}
use pg_what_is_happening.Memory.{
  BackendEntry, NodeMetrics, Slots, is_backend_entry_active, validate_node_magic,
}
use pg_what_is_happening.Metrics.Types.{MetricType, tuples_returned, metric_suffix, all_metrics}
use pg_what_is_happening.Metrics.Format.{
  Printf, node_values, nodes_of, total_query_time, metric_line, metric_header, info_help,
  format_openmetrics,
}
use pg_what_is_happening.Metrics.Text.{
  headers_text, values_text, nodes_text, info_text, entry_text, entries_text, openmetrics_text,
  format_openmetrics_lem,
}
use pg_what_is_happening.Metrics.Scrape.{Sample, is_label, line_start, read, scrape}
use pg_what_is_happening.Metrics.Scrape.Pieces.{
  IsPlain, IsName, read-name, take-IsPlain, take-ne-nil, read-number, read-string, read-escape,
}
use pg_what_is_happening.Metrics.Scrape.Samples.{
  PrintsPlain, info_sample, value_sample, nodes_samples, entry_samples, slots_samples,
}

-- The reader passes over the text `t` at the start of a line and takes the samples `xs` from it.
abbrev Takes : Bytes → List Sample → Type 0
Takes t xs =
    (rest : Bytes) (out : List Sample)
    → read out line_start (t ++ rest) ≡ read (out ++ xs) line_start rest

Takes-nothing : Takes [] []
Takes-nothing rest out = rw append-nil

Takes-append :
    (t u : Bytes) (xs ys : List Sample) → Takes t xs → Takes u ys → Takes (t ++ u) (xs ++ ys)
Takes-append t u xs ys ht hu rest out =
    rw (append_assoc t u rest) (ht (u ++ rest) out ∙ hu rest (out ++ xs) ∙ rw append_assoc)

Takes-if :
    (b : Bool) (t : Bytes) (xs : List Sample)
    → Takes t xs
    → Takes (if b then t else []) (if b then xs else [])
Takes-if true t xs h = h
Takes-if false t xs h = Takes-nothing

info_help-Takes : Takes info_help []
unfolding read
info_help-Takes rest out = rw append-nil

header-Takes : (t : MetricType) → Takes (metric_header t) []
unfolding read
header-Takes tuples_returned rest out = rw append-nil
header-Takes _ rest out = rw append-nil

headers-Takes : (ts : List MetricType) → Takes (headers_text ts) []
headers-Takes [] = Takes-nothing
headers-Takes (t ∷ ts) =
    Takes-append (metric_header t) (headers_text ts) [] [] (header-Takes t) (headers-Takes ts)

suffix-IsName : (t : MetricType) → IsName (codes (metric_suffix t))
unfolding is_label
suffix-IsName tuples_returned = refl
suffix-IsName _ = refl

pub tag-IsPlain : (t : NodeTag) → IsPlain (codes (node_tag_to_string t))
unfolding node_tag_to_string
tag-IsPlain result = refl
tag-IsPlain _ = refl

-- The texts of the values are plain and not empty.
abbrev pub ArePlain : List (MetricType × Bytes) → Type 0
ArePlain vs = All (λ tv. IsPlain tv.1 × (tv.1 ≢ [])) vs

module _ {F : Type 0} (d : Doubles F) (p : Printf) (plain : PrintsPlain d p) where
  info-Takes : (be : BackendEntry F) → Takes (info_text d p be) (info_sample d p be ∷ [])
  unfolding read
  info-Takes be rest out = simp append_assoc (
      read-string _ [] (codes "query_id") (p.lu be.query_id) _ out (plain.lu_plain _)
      ∙ (read-string _ _ (codes "pid") (p.d be.backend_pid) _ out (plain.d_plain _)
          ∙ read-escape _ _ (codes "query_text") be.query_text (codes "} 1\n" ++ rest) [] out))

  line-Takes :
      (query_id : ℕ) (m : NodeMetrics F) (t : MetricType) (v : Bytes)
      → IsPlain v
      → v ≢ []
      → Takes (metric_line d p query_id m t v) (value_sample d p query_id m (t, v) ∷ [])
  unfolding read
  line-Takes query_id m t v hv ne rest out =
      let cut_ne = take-ne-nil 254 v ne in
      simp append_assoc (
        read-name (codes (metric_suffix t)) _ _ out (suffix-IsName t)
        ∙ (read-string _ [] (codes "query_id") (p.lu query_id) _ out (plain.lu_plain _)
            ∙ (read-string _ _ (codes "node_id") (p.lu m.node_id) _ out (plain.lu_plain _)
                ∙ (read-string _ _ (codes "parent_node_id") (p.d m.parent_node_id) _ out
                      (plain.d_plain _)
                    ∙ (read-string _ _ (codes "node_tag") (codes (node_tag_to_string m.tag)) _ out
                          (tag-IsPlain m.tag)
                        ∙ read-number _ _ (take 255 v) rest out (take-IsPlain 255 v hv) cut_ne)))))

  values-Takes :
      (query_id : ℕ) (m : NodeMetrics F) (vs : List (MetricType × Bytes))
      → ArePlain vs
      → Takes (values_text d p query_id m vs) (map (value_sample d p query_id m) vs)
  values-Takes query_id m [] h = Takes-nothing
  values-Takes query_id m ((t, v) ∷ vs) ((h, ne), hs) =
      Takes-append (metric_line d p query_id m t v) (values_text d p query_id m vs)
        (value_sample d p query_id m (t, v) ∷ []) (map (value_sample d p query_id m) vs)
        (line-Takes query_id m t v h ne) (values-Takes query_id m vs hs)

  pub node_values-ArePlain : (m : NodeMetrics F) (total : F) → ArePlain (node_values d p m total)
  node_values-ArePlain m total = (
    fixed 0 _,
    (
      fixed 0 _,
      (
        fixed 0 _,
        (
          fixed 0 _,
          (
            fixed 6 _,
            (
              fixed 2 _,
              (
                whole _,
                (whole _, (whole _, (whole _, (whole _, (whole _, (fixed 0 _, (fixed 0 _, tt))))))),
              ),
            ),
          ),
        ),
      ),
    ),
  )
    where
      fixed : (k : ℕ) (x : F) → IsPlain (d.print_fixed k x) × (d.print_fixed k x ≢ [])
      fixed k x = (plain.fixed_plain k x, plain.fixed_ne k x)

      whole : (n : ℕ) → IsPlain (p.ld n) × (p.ld n ≢ [])
      whole n = (plain.ld_plain n, plain.ld_ne n)

  nodes-Takes :
      (query_id : ℕ) (total : F) (ms : List (NodeMetrics F))
      → Takes (nodes_text d p query_id total ms) (nodes_samples d p query_id total ms)
  nodes-Takes query_id total [] = Takes-nothing
  nodes-Takes query_id total (m ∷ ms) =
      Takes-append _ (nodes_text d p query_id total ms) _ (nodes_samples d p query_id total ms)
        (Takes-if (validate_node_magic m) _ _
          (values-Takes query_id m (node_values d p m total) (node_values-ArePlain m total)))
        (nodes-Takes query_id total ms)

  entry-Takes : (be : BackendEntry F) → Takes (entry_text d p be) (entry_samples d p be)
  entry-Takes be = Takes-if (is_backend_entry_active be) _ _ (
      Takes-append (info_text d p be) _ (info_sample d p be ∷ []) _ (info-Takes be)
        (nodes-Takes be.query_id (total_query_time d be) (nodes_of be)))

  entries-Takes : (slots : Slots F) → Takes (entries_text d p slots) (slots_samples d p slots)
  entries-Takes [] = Takes-nothing
  entries-Takes (be ∷ slots) =
      Takes-append (entry_text d p be) (entries_text d p slots) (entry_samples d p be)
        (slots_samples d p slots) (entry-Takes be) (entries-Takes slots)

  document-Takes : (slots : Slots F) → Takes (openmetrics_text d p slots) (slots_samples d p slots)
  document-Takes slots =
      Takes-append info_help (headers_text all_metrics ++ entries_text d p slots) [] _
        info_help-Takes
        (Takes-append (headers_text all_metrics) (entries_text d p slots) [] _
          (headers-Takes all_metrics) (entries-Takes slots))

  pub scrape-openmetrics_text :
      (slots : Slots F) → scrape (openmetrics_text d p slots) ≡ some (slots_samples d p slots)
  unfolding scrape
  scrape-openmetrics_text slots =
      ap (read [] line_start) (sym (append-nil (openmetrics_text d p slots)))
      ∙ document-Takes slots [] []

  -- A scraper that reads what the formatter leaves in its buffer by the line syntax of the exposition
  -- format gets, in order, one sample for each slot in use, with the slot's query text, whatever
  -- bytes it has, and for each node of this slot that has the magic number one sample for each
  -- metric, and no other sample; if printf prints numbers as C documents it.
  pub scrape-format_openmetrics :
      (slots : Slots F)
      → scrape (take (format_openmetrics d p slots).offset (format_openmetrics d p slots).mem)
        ≡ some (slots_samples d p slots)
  scrape-format_openmetrics slots =
      ap scrape (format_openmetrics_lem d p slots).0.written ∙ scrape-openmetrics_text slots
