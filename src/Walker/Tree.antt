-- ===== src/Walker/Tree.antt =====
-- What src/plan_tree_walker.c reads of PostgreSQL's executor state.
use pg_what_is_happening.Base.{ℕ, Bool, Option}
use pg_what_is_happening.Tags.{NodeTag}

-- PostgreSQL's `BufferUsage`, as far as it is read.
pub record BufUsage : Type 0 where
  pub shared_blks_hit : ℕ
  pub shared_blks_read : ℕ
  pub local_blks_hit : ℕ
  pub local_blks_read : ℕ
  pub temp_blks_read : ℕ
  pub temp_blks_written : ℕ

-- PostgreSQL's `Instrumentation`, as far as it is read; times in seconds.
pub record Instrumentation (F : Type 0) : Type 0 where
  pub ntuples : F
  pub tuplecount : F
  pub nloops : F
  pub running : Bool
  pub startup : F
  pub firsttuple : F
  pub total : F
  pub counter : F
  pub nfiltered1 : F
  pub nfiltered2 : F
  pub bufusage : BufUsage

-- What the visitors read of a `PlanState` whose plan is not NULL.
pub record PlanNode (F : Type 0) : Type 0 where
  pub plan_tag : NodeTag
  pub instrument : Option (Instrumentation F)

mutual
  -- `no_planstate` is NULL; a `planstate` without a node has a NULL plan.
  pub data PlanState (F : Type 0) : Type 0 where
    no_planstate : PlanState F
    planstate :
        (node : Option (PlanNode F)) (lefttree righttree : PlanState F) (sub_plan : PlanStates F)
        → NodeState F
        → PlanState F

  pub data PlanStates (F : Type 0) : Type 0 where
    nil : PlanStates F
    cons : PlanState F → PlanStates F → PlanStates F

  -- The tag of the state, with the children that the state types with special children hold.
  pub data NodeState (F : Type 0) : Type 0 where
    append_state : (appendplans : PlanStates F) → NodeState F
    cte_scan_state : (cteplanstate : PlanState F) → NodeState F
    merge_append_state : (mergeplans : PlanStates F) → NodeState F
    bitmap_and_state : (bitmapplans : PlanStates F) → NodeState F
    bitmap_or_state : (bitmapplans : PlanStates F) → NodeState F
    subquery_scan_state : (subplan : PlanState F) → NodeState F
    other_state : NodeState F
