-- ===== src/Walker/Collect.antt =====
-- `pwh_collect_planstate_metrics`: the second walk of src/plan_tree_walker.c, which must number the
-- nodes as the first one does.
use native.Mathlib.Nat.{zero-add}
use pg_what_is_happening.Base.{
  ℕ, suc, ◌≤◌, ◌≡◌, refl, sym, ap, ◌∙◌, true, Option, none, some, List, [], ◌∷◌, inl, inr, arith,
  length, get_elem?, ltb, lt→ltb, le→ltb, Bool-cases,
}
use pg_what_is_happening.Doubles.{Doubles}
use pg_what_is_happening.Memory.{NodeMetrics, validate_node_magic}
use pg_what_is_happening.Walker.{
  PlanNode, PlanState, WalkerContext, instrumentation_visitor, visit_valid, topology_node,
  read_instrumentation, start_context, remember_planstate_tree_as_metric_structure,
  collect_planstate_metrics,
}
use pg_what_is_happening.Walker.Order.{Listed, preorder, visit_all, walk-visit_all, Numbered}
use pg_what_is_happening.Walker.Fill.{fill, fill-length, part_way, Writes, visit_all-fill}
use pg_what_is_happening.Walker.Remember.{every, remember_lem}

module _ {F : Type 0} (d : Doubles F) where
  -- What the second walk writes at the number `id`.
  abbrev pub instrumentation_node : ℕ → PlanNode F → Option ℕ → NodeMetrics F → NodeMetrics F
  instrumentation_node id node parent m = read_instrumentation d node.instrument m

  visit_valid-Numbered :
      (node : PlanNode F) (parent : Option ℕ) (c : WalkerContext F) (o : Option (NodeMetrics F))
      → Numbered (instrumentation_visitor d) (λ k. k.node_counter) c (visit_valid d node c o)
  unfolding visit_valid
  visit_valid-Numbered node parent c none = tt
  visit_valid-Numbered node parent c (some m) = ground arith

  instrumentation-Numbered :
      (node : PlanNode F) (parent : Option ℕ) (c : WalkerContext F)
      → Numbered
          (instrumentation_visitor d)
          (λ k. k.node_counter)
          c
          (instrumentation_visitor d node parent c)
  unfolding instrumentation_visitor
  instrumentation-Numbered node parent c = elim (Bool-cases (ltb c.node_counter c.max_nodes)) [
    | inl t ↦ rw t (visit_valid-Numbered node parent c (get_elem? c.metrics c.node_counter))
    | inr f ↦ rw f tt
  ]

  instrumentation-Writes :
      Writes validate_node_magic instrumentation_node (instrumentation_visitor d)
  unfolding instrumentation_visitor
  instrumentation-Writes = record {
    full = λ node parent ctx e. rw (le→ltb ctx.node_counter ctx.max_nodes (omega arith));
    put = λ node parent ctx m h at g.
        rw (lt→ltb ctx.node_counter ctx.max_nodes h, at, visit_valid, g);
    refuse = λ node parent ctx m h at g.
        rw (lt→ltb ctx.node_counter ctx.max_nodes h, at, visit_valid, g);
  }

  -- For an array of `max_nodes` elements, the walk reads the instrumentation of the node `j` of the
  -- preorder into the element `j`, up to the first element without the magic number, which stops it.
  pub collect_lem :
      (p : PlanState F) (metrics : List (NodeMetrics F)) (max_nodes : ℕ)
      → length metrics ≡ max_nodes
      → collect_planstate_metrics d p metrics max_nodes
        ≡ fill validate_node_magic instrumentation_node 0 (preorder p none 0) metrics
  unfolding collect_planstate_metrics
  collect_lem p metrics max_nodes e = rw (← e) (
      rw
        (
          walk-visit_all (instrumentation_visitor d) (λ k. k.node_counter) instrumentation-Numbered
              p none (start_context metrics (length metrics)),
          collect_planstate_metrics,
        )
        (ap (λ c. (visit_all (instrumentation_visitor d) (preorder p none 0) c).1.metrics) start
          ∙ visit_all-fill validate_node_magic instrumentation_node (instrumentation_visitor d)
              instrumentation-Writes (preorder p none 0) [] metrics))
    where
      start :
          start_context metrics (length metrics)
          ≡ part_way validate_node_magic instrumentation_node (instrumentation_visitor d) [] metrics
      start i = record {
        metrics = metrics;
        max_nodes = sym (zero-add (length metrics)) i;
        node_counter = 0;
      }

  -- A node set up and then read.
  abbrev pub live_node : ℕ → PlanNode F → Option ℕ → NodeMetrics F → NodeMetrics F
  live_node id node parent m =
      read_instrumentation d node.instrument (topology_node d id node parent m)

  read-magic :
      (k : ℕ) (node : PlanNode F) (parent : Option ℕ) (m : NodeMetrics F)
      → validate_node_magic (topology_node d k node parent m) ≡ true
  read-magic k node parent m = refl

  fill-fill :
      (k : ℕ) (xs : List (Listed F)) (ms : List (NodeMetrics F))
      → fill validate_node_magic instrumentation_node k xs
          (fill (every d) (topology_node d) k xs ms)
        ≡ fill (every d) live_node k xs ms
  fill-fill k [] ms = refl
  fill-fill k (x ∷ xs) [] = refl
  fill-fill k (x ∷ xs) (m ∷ ms) = ap (◌∷◌ (live_node k x.node x.parent m)) (fill-fill (suc k) xs ms)

  -- The two walks of one tree agree, whatever was in the array before: a collection after the set-up
  -- reads each node's instrumentation into the element that was set up for this node, and stops at
  -- none.
  pub collect-remember :
      (p : PlanState F) (metrics : List (NodeMetrics F))
      → collect_planstate_metrics d p
          (remember_planstate_tree_as_metric_structure d p metrics (length metrics)).1
          (length metrics)
        ≡ fill (every d) live_node 0 (preorder p none 0) metrics
  collect-remember p metrics = rw (remember_lem d p metrics (length metrics) refl) (
      collect_lem p (fill (every d) (topology_node d) 0 (preorder p none 0) metrics)
        (length metrics) (fill-length (every d) (topology_node d) 0 (preorder p none 0) metrics)
      ∙ fill-fill 0 (preorder p none 0) metrics)

  -- No walk changes the length of the array, and the first one counts no more nodes than it has.
  pub collect-length :
      (p : PlanState F) (metrics : List (NodeMetrics F)) (n : ℕ)
      → length metrics ≡ n
      → length (collect_planstate_metrics d p metrics n) ≡ n
  collect-length p metrics n e =
      rw (collect_lem p metrics n e)
        (fill-length validate_node_magic instrumentation_node 0 (preorder p none 0) metrics ∙ e)

  pub remember-length :
      (p : PlanState F) (metrics : List (NodeMetrics F)) (n : ℕ)
      → length metrics ≡ n
      → (length (remember_planstate_tree_as_metric_structure d p metrics n).1 ≡ n)
        × ((remember_planstate_tree_as_metric_structure d p metrics n).0 ≤ n)
  remember-length p metrics n e =
      rw (remember_lem d p metrics n e)
        (fill-length (every d) (topology_node d) 0 (preorder p none 0) metrics ∙ e, omega arith)
