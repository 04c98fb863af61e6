-- ===== src/Metrics/Scrape/Samples.antt =====
-- The samples that a scraper should get for the slots, and how printed numbers look.
use pg_what_is_happening.Base.{ℕ, ◌≢◌, List, [], ◌∷◌, ◌++◌, if◌then◌else◌, map, Bytes, codes, take}
use pg_what_is_happening.Doubles.{Doubles}
use pg_what_is_happening.Tags.{node_tag_to_string}
use pg_what_is_happening.Memory.{
  BackendEntry, NodeMetrics, Slots, is_backend_entry_active, validate_node_magic,
}
use pg_what_is_happening.Metrics.Types.{MetricType, metric_suffix}
use pg_what_is_happening.Metrics.Format.{Printf, node_values, nodes_of, total_query_time}
use pg_what_is_happening.Metrics.Scrape.{Sample}
use pg_what_is_happening.Metrics.Scrape.Pieces.{IsPlain}

-- What C documents of `printf` on numbers: it prints letters, digits, signs and points, and never
-- nothing.
pub record PrintsPlain {F : Type 0} (d : Doubles F) (p : Printf) : Type 0 where
  pub lu_plain : (n : ℕ) → IsPlain (p.lu n)
  pub d_plain : (n : ℕ) → IsPlain (p.d n)
  pub ld_plain : (n : ℕ) → IsPlain (p.ld n)
  pub ld_ne : (n : ℕ) → p.ld n ≢ []
  pub fixed_plain : (k : ℕ) (x : F) → IsPlain (d.print_fixed k x)
  pub fixed_ne : (k : ℕ) (x : F) → d.print_fixed k x ≢ []

module _ {F : Type 0} (d : Doubles F) (p : Printf) where
  -- The sample that ties a query id to its process and its text.
  abbrev pub info_sample : BackendEntry F → Sample
  info_sample be = record {
    name = codes "pg_what_is_happening_query_info";
    labels =
        (codes "query_id", p.lu be.query_id)
        ∷ (codes "pid", p.d be.backend_pid)
        ∷ (codes "query_text", be.query_text)
        ∷ [];
    value = codes "1";
  }

  abbrev pub value_sample : ℕ → NodeMetrics F → MetricType × Bytes → Sample
  value_sample query_id node (type, value) = record {
    name = codes "pg_what_is_happening_active_query_node_" ++ codes (metric_suffix type);
    labels =
        (codes "query_id", p.lu query_id)
        ∷ (codes "node_id", p.lu node.node_id)
        ∷ (codes "parent_node_id", p.d node.parent_node_id)
        ∷ (codes "node_tag", codes (node_tag_to_string node.tag))
        ∷ [];
    value = take 255 value;
  }

  -- The samples of the nodes that have the magic number, one for each metric.
  abbrev pub nodes_samples : ℕ → F → List (NodeMetrics F) → List Sample
  nodes_samples query_id total [] = []
  nodes_samples query_id total (m ∷ ms) =
      (if validate_node_magic m
        then map (value_sample query_id m) (node_values d p m total)
        else [])
      ++ nodes_samples query_id total ms

  abbrev pub entry_samples : BackendEntry F → List Sample
  entry_samples be =
      if is_backend_entry_active be
      then info_sample be ∷ nodes_samples be.query_id (total_query_time d be) (nodes_of be)
      else []

  abbrev pub slots_samples : Slots F → List Sample
  slots_samples [] = []
  slots_samples (be ∷ slots) = entry_samples be ++ slots_samples slots
