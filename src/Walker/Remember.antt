-- ===== src/Walker/Remember.antt =====
-- `pwh_remember_planstate_tree_as_metric_structure`: what it writes.
use Prim.Native.Nat.{min}
use native.Mathlib.Nat.{zero-add}
use pg_what_is_happening.Base.{
  ℕ, ◌≡◌, refl, sym, ap, Bool, true, Option, none, List, [], arith, length, ◌∙◌, lt→ltb, le→ltb,
}
use pg_what_is_happening.Doubles.{Doubles}
use pg_what_is_happening.Memory.{NodeMetrics}
use pg_what_is_happening.Walker.{
  PlanNode, PlanState, WalkerContext, topology_visitor, topology_node, start_context,
  remember_planstate_tree_as_metric_structure,
}
use pg_what_is_happening.Walker.Order.{preorder, visit_all, walk-visit_all, Numbered}
use pg_what_is_happening.Walker.Fill.{fill, part_way, Writes, visit_all-fill, visit_all-counter}

module _ {F : Type 0} (d : Doubles F) where
  abbrev pub every : NodeMetrics F → Bool
  every m = true

  pub topology-Numbered :
      (node : PlanNode F) (parent : Option ℕ) (c : WalkerContext F)
      → Numbered (topology_visitor d) (λ k. k.node_counter) c (topology_visitor d node parent c)
  unfolding topology_visitor
  topology-Numbered node parent c = ground arith

  topology-Writes : Writes every (topology_node d) (topology_visitor d)
  unfolding topology_visitor
  topology-Writes = record {
    full = λ node parent ctx e. rw (le→ltb ctx.node_counter ctx.max_nodes (omega arith));
    put = λ node parent ctx m h at g. rw (lt→ltb ctx.node_counter ctx.max_nodes h);
    refuse = λ node parent ctx m h at g. cc;
  }

  -- For an array of `max_nodes` elements: the result is the number of nodes in preorder, at most
  -- `max_nodes`; the element `j` is set up for the node `j` of the preorder, for each `j` below that
  -- number; the elements from there on are unchanged.
  pub remember_lem :
      (p : PlanState F) (metrics : List (NodeMetrics F)) (max_nodes : ℕ)
      → length metrics ≡ max_nodes
      → remember_planstate_tree_as_metric_structure d p metrics max_nodes ≡ (
        min (length (preorder p none 0)) max_nodes,
        fill every (topology_node d) 0 (preorder p none 0) metrics,
      )
  unfolding remember_planstate_tree_as_metric_structure
  remember_lem p metrics max_nodes e = rw (← e) (
      rw
        (walk-visit_all (topology_visitor d) (λ k. k.node_counter) topology-Numbered p none
          (start_context metrics (length metrics)))
        (λ i. (counted i, written i)))
    where
      start :
          start_context metrics (length metrics)
          ≡ part_way every (topology_node d) (topology_visitor d) [] metrics
      start i = record {
        metrics = metrics;
        max_nodes = sym (zero-add (length metrics)) i;
        node_counter = 0;
      }

      counted :
          (visit_all
            (topology_visitor d)
            (preorder p none 0)
            (start_context metrics (length metrics))).1.node_counter
          ≡ min (length (preorder p none 0)) (length metrics)
      counted =
          ap (λ c. (visit_all (topology_visitor d) (preorder p none 0) c).1.node_counter) start
          ∙ (visit_all-counter every (topology_node d) (topology_visitor d) topology-Writes
                (preorder p none 0) [] metrics (λ m. refl)
              ∙ zero-add _)

      written :
          (visit_all
            (topology_visitor d)
            (preorder p none 0)
            (start_context metrics (length metrics))).1.metrics
          ≡ fill every (topology_node d) 0 (preorder p none 0) metrics
      written =
          ap (λ c. (visit_all (topology_visitor d) (preorder p none 0) c).1.metrics) start
          ∙ visit_all-fill every (topology_node d) (topology_visitor d) topology-Writes
              (preorder p none 0) [] metrics
