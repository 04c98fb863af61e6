-- ===== src/Signal/Reads.antt =====
-- What one SIGUSR2 leaves in a slot, independently of how src/signal_handler.c and
-- src/plan_tree_walker.c walk the tree.
use pg_what_is_happening.Base.{
  ℕ, ◌+◌, ◌%◌, ◌≡◌, ap, none, length, modify, modify-agree, get_elem?, some,
}
use pg_what_is_happening.Doubles.{Doubles}
use pg_what_is_happening.Memory.{BackendEntry, Slots, u32_mod, validate_node_magic}
use pg_what_is_happening.Walker.{PlanState}
use pg_what_is_happening.Walker.Order.{preorder}
use pg_what_is_happening.Walker.Fill.{fill}
use pg_what_is_happening.Walker.Collect.{instrumentation_node, collect_lem}
use pg_what_is_happening.Signal.{refresh_entry}

module _ {F : Type 0} (d : Doubles F) where
  -- The element `j` holds the instrumentation of the node `j` of the preorder, up to the first element
  -- without the magic number; nothing else of the slot changes but the generation.
  abbrev pub read_tree : PlanState F → BackendEntry F → BackendEntry F
  read_tree p be = record be {
    metrics = fill validate_node_magic (instrumentation_node d) 0 (preorder p none 0) be.metrics;
    poll_generation = (be.poll_generation + 1) % u32_mod;
  }

  pub refresh_entry-read_tree :
      (max_nodes : ℕ) (p : PlanState F) (be : BackendEntry F)
      → length be.metrics ≡ max_nodes
      → refresh_entry d max_nodes p be ≡ read_tree p be
  refresh_entry-read_tree max_nodes p be e =
      ap (λ ms. record be { metrics = ms; poll_generation = (be.poll_generation + 1) % u32_mod })
        (collect_lem d p be.metrics max_nodes e)

  pub modify-read_tree :
      (max_nodes : ℕ) (p : PlanState F) (slots : Slots F) (i : ℕ)
      → ((be : BackendEntry F) → get_elem? slots i ≡ some be → length be.metrics ≡ max_nodes)
      → modify slots i (refresh_entry d max_nodes p) ≡ modify slots i (read_tree p)
  modify-read_tree max_nodes p slots i h =
      modify-agree slots i (refresh_entry d max_nodes p) (read_tree p)
        (λ be at. refresh_entry-read_tree max_nodes p be (h be at))
