-- ===== src/Tests/Walks.antt =====
-- The walks of src/plan_tree_walker.c at concrete inputs.
use Prim.Native.Nat.{min}
use pg_what_is_happening.Base.{
  ℕ, ◌<◌, ◌≡◌, refl, none, some, List, arith, length, get_elem?, replicate,
}
use pg_what_is_happening.Memory.{NodeMetrics}
use pg_what_is_happening.Memory.Startup.{zero_node}
use pg_what_is_happening.Walker.{
  topology_visitor, topology_node, walk_planstate_recursive, start_context,
  remember_planstate_tree_as_metric_structure, collect_planstate_metrics,
}
use pg_what_is_happening.Walker.Order.{preorder, visit_all, walk-visit_all}
use pg_what_is_happening.Walker.Fill.{fill}
use pg_what_is_happening.Walker.Remember.{every, topology-Numbered, remember_lem}
use pg_what_is_happening.Walker.Parents.{Linked, remember-Linked}
use pg_what_is_happening.Walker.Collect.{live_node, collect-remember}
use pg_what_is_happening.Tests.Data.{naturals, tree, node}

abbrev three : List (NodeMetrics ℕ)
three = replicate 3 (zero_node naturals)

walk_example :
    walk_planstate_recursive (topology_visitor naturals) tree none (start_context three 3)
    ≡ visit_all (topology_visitor naturals) (preorder tree none 0) (start_context three 3)
walk_example =
    walk-visit_all (topology_visitor naturals) (λ c. c.node_counter) (topology-Numbered naturals)
      tree none (start_context three 3)

remember_example : remember_planstate_tree_as_metric_structure naturals tree three 3 ≡ (
  min (length (preorder tree none 0)) 3,
  fill (every naturals) (topology_node naturals) 0 (preorder tree none 0) three,
)
remember_example = remember_lem naturals tree three 3 refl

set_up : NodeMetrics ℕ
set_up = topology_node naturals 2 node (some 0) (zero_node naturals)

two_counted : 2 < (remember_planstate_tree_as_metric_structure naturals tree three 3).0
unfolding remember_planstate_tree_as_metric_structure walk_planstate_recursive topology_visitor
two_counted = omega arith

set_up_at :
    get_elem? (remember_planstate_tree_as_metric_structure naturals tree three 3).1 2 ≡ some set_up
unfolding remember_planstate_tree_as_metric_structure walk_planstate_recursive topology_visitor
    set_up
set_up_at = refl

parents_example : Linked naturals 2 set_up
parents_example = remember-Linked naturals tree three 2 set_up two_counted set_up_at

walks_agree_example :
    collect_planstate_metrics naturals tree
      (remember_planstate_tree_as_metric_structure naturals tree three (length three)).1
      (length three)
    ≡ fill (every naturals) (live_node naturals) 0 (preorder tree none 0) three
walks_agree_example = collect-remember naturals tree three
