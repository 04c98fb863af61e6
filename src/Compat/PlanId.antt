-- ===== src/Compat/PlanId.antt =====
-- The query id of the versions: `PWH_GET_QUERY_ID` of the headers in src/compatibility within
-- `get_query_id` of src/pg_what_is_happening.c.
use pg_what_is_happening.Base.{ℕ, ◌≡◌, Option, not, ◌&&◌, leb, ◌==◌, if◌then◌else◌, Bytes, arith}
use pg_what_is_happening.QueryId.{compute_query_id, get_query_id}
use pg_what_is_happening.Compat.{header_of, get_plan_query_id}

-- `get_query_id` in a build for a version, with the plan's `queryId`.
unfoldable pub get_query_id_of : ℕ → ℕ → Option Bytes → ℕ → ℕ → ℕ
get_query_id_of n query_id = get_query_id (get_plan_query_id (header_of n) query_id)

-- A query has the id of its plan exactly from PostgreSQL 12 on and if that is not 0; else it has the
-- computed one.
pub get_query_id_of_lem :
    (n query_id : ℕ) (source_text : Option Bytes) (now my_proc_pid : ℕ)
    → get_query_id_of n query_id source_text now my_proc_pid ≡ (
        if leb 120000 n && not (query_id == 0)
        then query_id
        else compute_query_id source_text now my_proc_pid)
unfolding get_query_id_of get_query_id get_plan_query_id header_of
get_query_id_of_lem n query_id source_text now my_proc_pid = ground arith
