-- ===== src/Walker/Again.antt =====
-- A second collection of src/plan_tree_walker.c with the same tree changes nothing.
use pg_what_is_happening.Base.{
  ℕ, suc, ◌≡◌, refl, ap, ◌∙◌, Option, none, some, List, [], ◌∷◌, length, Bool-cases, inl, inr,
}
use pg_what_is_happening.Doubles.{Doubles}
use pg_what_is_happening.Memory.{NodeMetrics, validate_node_magic}
use pg_what_is_happening.Walker.{
  PlanState, Instrumentation, read_instrumentation, collect_planstate_metrics,
}
use pg_what_is_happening.Walker.Order.{Listed, preorder}
use pg_what_is_happening.Walker.Fill.{fill, fill-length}
use pg_what_is_happening.Walker.Collect.{instrumentation_node, collect_lem}

module _ {F : Type 0} (d : Doubles F) where
  read-again :
      (o : Option (Instrumentation F)) (m : NodeMetrics F)
      → read_instrumentation d o (read_instrumentation d o m) ≡ read_instrumentation d o m
  read-again none m = refl
  read-again (some i) m = refl

  read-kept :
      (o : Option (Instrumentation F)) (m : NodeMetrics F)
      → validate_node_magic (read_instrumentation d o m) ≡ validate_node_magic m
  read-kept none m = refl
  read-kept (some i) m = refl

  fill-again :
      (k : ℕ) (xs : List (Listed F)) (ms : List (NodeMetrics F))
      → fill validate_node_magic
          (instrumentation_node d)
          k
          xs
          (fill validate_node_magic (instrumentation_node d) k xs ms)
        ≡ fill validate_node_magic (instrumentation_node d) k xs ms
  fill-again k [] ms = refl
  fill-again k (x ∷ xs) [] = refl
  fill-again k (x ∷ xs) (m ∷ ms) = elim (Bool-cases (validate_node_magic m)) [
    | inr f ↦ rw (f, f) refl
    | inl t ↦
        rw (t, read-kept x.node.instrument m, t, read-again x.node.instrument m)
          (ap (◌∷◌ (read_instrumentation d x.node.instrument m)) (fill-again (suc k) xs ms))
  ]

  -- For an array of as many elements as the walk may count.
  pub collect-again :
      (p : PlanState F) (ms : List (NodeMetrics F)) (n : ℕ)
      → length ms ≡ n
      → collect_planstate_metrics d p (collect_planstate_metrics d p ms n) n
        ≡ collect_planstate_metrics d p ms n
  collect-again p ms n e =
      let whole = preorder p none 0 in
      rw (collect_lem d p ms n e) (
        collect_lem d p (fill validate_node_magic (instrumentation_node d) 0 whole ms) n
          (fill-length validate_node_magic (instrumentation_node d) 0 whole ms ∙ e)
        ∙ fill-again 0 whole ms)
