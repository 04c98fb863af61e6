-- ===== src/Compat.antt =====
-- src/compatibility.h and its ten headers in src/compatibility: which header a PostgreSQL version
-- takes, and what differs between them.
pub mod Names
pub mod Lock
pub mod Tranche
pub mod Request
pub mod Chaining
pub mod PlanId
use Prim.Native.String.{String}
use pg_what_is_happening.Base.{ℕ, Bool, true, false, Option, none, some, leb, if◌then◌else◌}
use pg_what_is_happening.Tags.{
  NodeTag, custom_scan, gather, gather_merge, project_set, table_func_scan, named_tuplestore_scan,
  incremental_sort, memoize, node_to_name, or_else,
}

-- The headers, by the versions that they are for.
pub data Header : Type 0 where
  v9_4 v9_5 v9_6 v10 v11 v12 v13 v14 v15_18 v19 : Header

-- The header that is included for a `PG_VERSION_NUM`.
unfoldable pub header_of : ℕ → Header
header_of n =
    if leb 190000 n
    then v19
    else if leb 150000 n
    then v15_18
    else if leb 140000 n
    then v14
    else if leb 130000 n
    then v13
    else if leb 120000 n
    then v12
    else if leb 110000 n
    then v11
    else if leb 100000 n
    then v10
    else if leb 90600 n
    then v9_6
    else if leb 90500 n
    then v9_5
    else v9_4

-- `pwh_node_tag_to_string_inline` of each header.
abbrev pub node_tag_9_4 : NodeTag → Option String
node_tag_9_4 _ = none

abbrev pub node_tag_9_5 : NodeTag → Option String
node_tag_9_5 custom_scan = some "CustomScan"
node_tag_9_5 _ = none

abbrev pub node_tag_9_6 : NodeTag → Option String
node_tag_9_6 custom_scan = some "CustomScan"
node_tag_9_6 gather = some "Gather"
node_tag_9_6 _ = none

abbrev pub node_tag_10 : NodeTag → Option String
node_tag_10 custom_scan = some "CustomScan"
node_tag_10 gather = some "Gather"
node_tag_10 gather_merge = some "GatherMerge"
node_tag_10 project_set = some "ProjectSet"
node_tag_10 table_func_scan = some "TableFuncScan"
node_tag_10 named_tuplestore_scan = some "NamedTuplestoreScan"
node_tag_10 _ = none

abbrev pub node_tag_11 : NodeTag → Option String
node_tag_11 custom_scan = some "CustomScan"
node_tag_11 gather = some "Gather"
node_tag_11 gather_merge = some "GatherMerge"
node_tag_11 project_set = some "ProjectSet"
node_tag_11 table_func_scan = some "TableFuncScan"
node_tag_11 named_tuplestore_scan = some "NamedTuplestoreScan"
node_tag_11 _ = none

abbrev pub node_tag_12 : NodeTag → Option String
node_tag_12 custom_scan = some "CustomScan"
node_tag_12 gather = some "Gather"
node_tag_12 gather_merge = some "GatherMerge"
node_tag_12 project_set = some "ProjectSet"
node_tag_12 table_func_scan = some "TableFuncScan"
node_tag_12 named_tuplestore_scan = some "NamedTuplestoreScan"
node_tag_12 _ = none

abbrev pub node_tag_13 : NodeTag → Option String
node_tag_13 custom_scan = some "CustomScan"
node_tag_13 gather = some "Gather"
node_tag_13 gather_merge = some "GatherMerge"
node_tag_13 project_set = some "ProjectSet"
node_tag_13 table_func_scan = some "TableFuncScan"
node_tag_13 named_tuplestore_scan = some "NamedTuplestoreScan"
node_tag_13 incremental_sort = some "IncrementalSort"
node_tag_13 _ = none

abbrev pub node_tag_14 : NodeTag → Option String
node_tag_14 custom_scan = some "CustomScan"
node_tag_14 gather = some "Gather"
node_tag_14 gather_merge = some "GatherMerge"
node_tag_14 project_set = some "ProjectSet"
node_tag_14 table_func_scan = some "TableFuncScan"
node_tag_14 named_tuplestore_scan = some "NamedTuplestoreScan"
node_tag_14 incremental_sort = some "IncrementalSort"
node_tag_14 memoize = some "Memoize"
node_tag_14 _ = none

abbrev pub node_tag_15_18 : NodeTag → Option String
node_tag_15_18 custom_scan = some "CustomScan"
node_tag_15_18 gather = some "Gather"
node_tag_15_18 gather_merge = some "GatherMerge"
node_tag_15_18 project_set = some "ProjectSet"
node_tag_15_18 table_func_scan = some "TableFuncScan"
node_tag_15_18 named_tuplestore_scan = some "NamedTuplestoreScan"
node_tag_15_18 incremental_sort = some "IncrementalSort"
node_tag_15_18 memoize = some "Memoize"
node_tag_15_18 _ = none

abbrev pub node_tag_19 : NodeTag → Option String
node_tag_19 custom_scan = some "CustomScan"
node_tag_19 gather = some "Gather"
node_tag_19 gather_merge = some "GatherMerge"
node_tag_19 project_set = some "ProjectSet"
node_tag_19 table_func_scan = some "TableFuncScan"
node_tag_19 named_tuplestore_scan = some "NamedTuplestoreScan"
node_tag_19 incremental_sort = some "IncrementalSort"
node_tag_19 memoize = some "Memoize"
node_tag_19 _ = none

abbrev pub node_tag_to_string_inline_of : Header → NodeTag → Option String
node_tag_to_string_inline_of v9_4 = node_tag_9_4
node_tag_to_string_inline_of v9_5 = node_tag_9_5
node_tag_to_string_inline_of v9_6 = node_tag_9_6
node_tag_to_string_inline_of v10 = node_tag_10
node_tag_to_string_inline_of v11 = node_tag_11
node_tag_to_string_inline_of v12 = node_tag_12
node_tag_to_string_inline_of v13 = node_tag_13
node_tag_to_string_inline_of v14 = node_tag_14
node_tag_to_string_inline_of v15_18 = node_tag_15_18
node_tag_to_string_inline_of v19 = node_tag_19

abbrev pub name_with : Option String → Option String → String
name_with (some name) inline = name
name_with none inline = or_else inline "Unknown"

-- `pwh_node_tag_to_string` in a build for a version.
unfoldable pub node_tag_to_string_of : ℕ → NodeTag → String
node_tag_to_string_of n tag =
    name_with (node_to_name tag) (node_tag_to_string_inline_of (header_of n) tag)

-- `PWH_GET_QUERY_ID`, from the plan's `queryId`.
unfoldable pub get_plan_query_id : Header → ℕ → ℕ
get_plan_query_id v9_4 query_id = 0
get_plan_query_id v9_5 query_id = 0
get_plan_query_id v9_6 query_id = 0
get_plan_query_id v10 query_id = 0
get_plan_query_id v11 query_id = 0
get_plan_query_id v12 query_id = query_id
get_plan_query_id v13 query_id = query_id
get_plan_query_id v14 query_id = query_id
get_plan_query_id v15_18 query_id = query_id
get_plan_query_id v19 query_id = query_id
