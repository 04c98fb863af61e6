-- ===== src/Walker.antt =====
-- src/plan_tree_walker.c: the two walks of an executor's plan state tree.
mod Tree
pub mod Order
pub mod Fill
pub mod Remember
pub mod Parents
pub mod Collect
pub mod Again
pub use Tree.*
use pg_what_is_happening.Base.{
  ℕ, ◌+◌, ◌%◌, ◌^◌, ◌-◌, Bool, true, false, not, Option, none, some, List, [], ◌∷◌, ltb,
  if◌then◌else◌, get_elem?, modify,
}
use pg_what_is_happening.Doubles.{Doubles}
use pg_what_is_happening.Tags.{NodeTag}
use pg_what_is_happening.Memory.{
  NodeMetrics, Execution, BufferUsage, node_magic, u32_mod, validate_node_magic,
}

-- What a visitor returns: the id that it assigned, or -1, with the new context.
pub data Visit (C : Type 0) : Type 0 where
  assigned : ℕ → C → Visit C
  stopped : C → Visit C

abbrev pub and_then : {C : Type 0} → Bool × C → (C → Bool × C) → Bool × C
and_then (true, c) k = k c
and_then (false, c) k = (false, c)

abbrev pub descend : {C : Type 0} → Visit C → (ℕ → C → Bool × C) → Bool × C
descend (assigned id c) k = k id c
descend (stopped c) k = (false, c)

-- The parent id -1 is `none`. The result is whether the walk goes on.
module _ {F C : Type 0} (visit : PlanNode F → Option ℕ → C → Visit C) where
  unfoldable mutual
    pub walk_planstate_recursive : PlanState F → Option ℕ → C → Bool × C
    walk_planstate_recursive no_planstate parent c = (true, c)
    walk_planstate_recursive (planstate none l r sub special) parent c = (true, c)
    walk_planstate_recursive (planstate (some node) l r sub special) parent c =
        descend (visit node parent c) λ current_id c₀.
          and_then (walk_planstate_recursive l (some current_id) c₀) λ c₁.
            and_then (walk_planstate_recursive r (some current_id) c₁) λ c₂.
              and_then (walk_planstates sub current_id c₂)
                λ c₃. walk_node_state special current_id c₃

    pub walk_planstates : PlanStates F → ℕ → C → Bool × C
    walk_planstates nil current_id c = (true, c)
    walk_planstates (cons p ps) current_id c =
        and_then (walk_planstate_recursive p (some current_id) c)
          λ c'. walk_planstates ps current_id c'

    pub walk_node_state : NodeState F → ℕ → C → Bool × C
    walk_node_state (append_state ps) current_id c = walk_planstates ps current_id c
    walk_node_state (cte_scan_state p) current_id c = walk_planstate_recursive p (some current_id) c
    walk_node_state (merge_append_state ps) current_id c = walk_planstates ps current_id c
    walk_node_state (bitmap_and_state ps) current_id c = walk_planstates ps current_id c
    walk_node_state (bitmap_or_state ps) current_id c = walk_planstates ps current_id c
    walk_node_state (subquery_scan_state p) current_id c =
        walk_planstate_recursive p (some current_id) c
    walk_node_state other_state current_id c = (true, c)

pub record WalkerContext (F : Type 0) : Type 0 where
  pub metrics : List (NodeMetrics F)
  pub max_nodes : ℕ
  pub node_counter : ℕ

-- An `i32` parent id stored in a `u32`.
abbrev pub store_parent : Option ℕ → ℕ
store_parent none = u32_mod - 1
store_parent (some id) = id

abbrev zero_buffer_usage : BufferUsage
zero_buffer_usage = record {
  cache_hits = 0;
  cache_misses = 0;
  local_cache_hits = 0;
  local_cache_misses = 0;
  spill_file_reads = 0;
  spill_file_writes = 0;
}

-- `PWH_COPY_BUFUSAGE`.
abbrev pub copy_bufusage : BufUsage → BufferUsage
copy_bufusage u = record {
  cache_hits = u.shared_blks_hit;
  cache_misses = u.shared_blks_read;
  local_cache_hits = u.local_blks_hit;
  local_cache_misses = u.local_blks_read;
  spill_file_reads = u.temp_blks_read;
  spill_file_writes = u.temp_blks_written;
}

abbrev pub start_context : {F : Type 0} → List (NodeMetrics F) → ℕ → WalkerContext F
start_context metrics max_nodes = record {
  metrics = metrics;
  max_nodes = max_nodes;
  node_counter = 0;
}

module _ {F : Type 0} (d : Doubles F) where
  abbrev zero_execution : Execution F
  zero_execution = record {
    tuples_returned = d.of_ℕ 0;
    loops_executed = d.of_ℕ 0;
    startup_time_us = d.of_ℕ 0;
    total_time_us = d.of_ℕ 0;
    rows_filtered_by_joins = d.of_ℕ 0;
    rows_filtered_by_expressions = d.of_ℕ 0;
  }

  -- What the topology visitor writes to `metrics[id]`.
  abbrev pub topology_node : ℕ → PlanNode F → Option ℕ → NodeMetrics F → NodeMetrics F
  topology_node id node parent m = record {
    tag = node.plan_tag;
    node_id = id;
    parent_node_id = store_parent parent;
    execution = zero_execution;
    buffer_usage = zero_buffer_usage;
    magic = node_magic;
  }

  unfoldable pub topology_visitor :
      PlanNode F → Option ℕ → WalkerContext F → Visit (WalkerContext F)
  topology_visitor node parent ctx =
      if ltb ctx.node_counter ctx.max_nodes
      then assigned ctx.node_counter (record ctx {
        metrics = modify ctx.metrics ctx.node_counter (topology_node ctx.node_counter node parent);
        node_counter = ctx.node_counter + 1;
      })
      else stopped ctx

  abbrev to_us : F → F
  to_us seconds = d.mul seconds (d.of_ℕ 1000000)

  abbrev read_execution : Instrumentation F → Execution F
  read_execution instr = record {
    tuples_returned = d.add instr.ntuples instr.tuplecount;
    loops_executed = d.add instr.nloops (if instr.running then d.of_ℕ 1 else d.of_ℕ 0);
    startup_time_us = to_us (d.add instr.startup instr.firsttuple);
    total_time_us = to_us (d.add instr.total instr.counter);
    rows_filtered_by_joins = instr.nfiltered1;
    rows_filtered_by_expressions = instr.nfiltered2;
  }

  -- What the instrumentation visitor writes to a node.
  abbrev pub read_instrumentation : Option (Instrumentation F) → NodeMetrics F → NodeMetrics F
  read_instrumentation none m = m
  read_instrumentation (some instr) m = record m {
    execution = read_execution instr;
    buffer_usage = copy_bufusage instr.bufusage;
  }

  -- With no element at the counter the array would be read out of bounds.
  visit_valid : PlanNode F → WalkerContext F → Option (NodeMetrics F) → Visit (WalkerContext F)
  visit_valid node ctx none = stopped ctx
  visit_valid node ctx (some m) =
      if validate_node_magic m
      then assigned ctx.node_counter (record ctx {
        metrics = modify ctx.metrics ctx.node_counter (read_instrumentation node.instrument);
        node_counter = ctx.node_counter + 1;
      })
      else stopped (record ctx { node_counter = ctx.node_counter + 1 })

  -- The parent id is not used.
  pub instrumentation_visitor : PlanNode F → Option ℕ → WalkerContext F → Visit (WalkerContext F)
  unfolding visit_valid
  instrumentation_visitor node parent ctx =
      if ltb ctx.node_counter ctx.max_nodes
      then visit_valid node ctx (get_elem? ctx.metrics ctx.node_counter)
      else stopped ctx

  -- The number of nodes found, and the metrics array. A NULL tree is `no_planstate`; the array is
  -- never NULL at the calls.
  unfoldable pub remember_planstate_tree_as_metric_structure :
      PlanState F → List (NodeMetrics F) → ℕ → ℕ × List (NodeMetrics F)
  unfolding walk_planstate_recursive topology_visitor
  remember_planstate_tree_as_metric_structure p metrics max_nodes =
      let (go_on, ctx) =
        walk_planstate_recursive topology_visitor p none (start_context metrics max_nodes) in
      (ctx.node_counter, ctx.metrics)

  unfoldable pub collect_planstate_metrics :
      PlanState F → List (NodeMetrics F) → ℕ → List (NodeMetrics F)
  unfolding walk_planstate_recursive instrumentation_visitor
  collect_planstate_metrics p metrics max_nodes =
      let (go_on, ctx) =
        walk_planstate_recursive instrumentation_visitor p none (start_context metrics max_nodes) in
      ctx.metrics
