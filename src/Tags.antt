-- ===== src/Tags.antt =====
-- src/compatibility.c and src/compatibility/15-18.h: the names of plan node tags.
use Prim.Native.String.{String}
use pg_what_is_happening.Base.{ℕ, Option, none, some}

-- The tags that the switches name, and every other one by its number.
pub data NodeTag : Type 0 where
  result modify_table append merge_append recursive_union bitmap_and bitmap_or : NodeTag
  seq_scan index_scan index_only_scan bitmap_index_scan bitmap_heap_scan tid_scan : NodeTag
  subquery_scan function_scan values_scan cte_scan work_table_scan foreign_scan : NodeTag
  nest_loop merge_join hash_join material sort group agg window_agg unique : NodeTag
  hash set_op lock_rows limit : NodeTag
  custom_scan gather gather_merge project_set table_func_scan : NodeTag
  named_tuplestore_scan incremental_sort memoize : NodeTag
  other_tag : ℕ → NodeTag

unfoldable pub node_to_name : NodeTag → Option String
node_to_name result = some "Result"
node_to_name modify_table = some "ModifyTable"
node_to_name append = some "Append"
node_to_name merge_append = some "MergeAppend"
node_to_name recursive_union = some "RecursiveUnion"
node_to_name bitmap_and = some "BitmapAnd"
node_to_name bitmap_or = some "BitmapOr"
node_to_name seq_scan = some "SeqScan"
node_to_name index_scan = some "IndexScan"
node_to_name index_only_scan = some "IndexOnlyScan"
node_to_name bitmap_index_scan = some "BitmapIndexScan"
node_to_name bitmap_heap_scan = some "BitmapHeapScan"
node_to_name tid_scan = some "TidScan"
node_to_name subquery_scan = some "SubqueryScan"
node_to_name function_scan = some "FunctionScan"
node_to_name values_scan = some "ValuesScan"
node_to_name cte_scan = some "CteScan"
node_to_name work_table_scan = some "WorkTableScan"
node_to_name foreign_scan = some "ForeignScan"
node_to_name nest_loop = some "NestLoop"
node_to_name merge_join = some "MergeJoin"
node_to_name hash_join = some "HashJoin"
node_to_name material = some "Material"
node_to_name sort = some "Sort"
node_to_name group = some "Group"
node_to_name agg = some "Agg"
node_to_name window_agg = some "WindowAgg"
node_to_name unique = some "Unique"
node_to_name hash = some "Hash"
node_to_name set_op = some "SetOp"
node_to_name lock_rows = some "LockRows"
node_to_name limit = some "Limit"
node_to_name _ = none

-- The version's own switch, for PostgreSQL 15 to 18.
unfoldable pub node_tag_to_string_inline : NodeTag → Option String
node_tag_to_string_inline custom_scan = some "CustomScan"
node_tag_to_string_inline gather = some "Gather"
node_tag_to_string_inline gather_merge = some "GatherMerge"
node_tag_to_string_inline project_set = some "ProjectSet"
node_tag_to_string_inline table_func_scan = some "TableFuncScan"
node_tag_to_string_inline named_tuplestore_scan = some "NamedTuplestoreScan"
node_tag_to_string_inline incremental_sort = some "IncrementalSort"
node_tag_to_string_inline memoize = some "Memoize"
node_tag_to_string_inline _ = none

abbrev pub or_else : Option String → String → String
or_else (some s) d = s
or_else none d = d

-- A switch of NULL falls through to the next one.
unfoldable pub node_tag_to_string : NodeTag → String
unfolding node_to_name node_tag_to_string_inline
node_tag_to_string tag = elim (node_to_name tag) [
  | some name ↦ name
  | none ↦ or_else (node_tag_to_string_inline tag) "Unknown"
]
