-- ===== src/Tests/Data.antt =====
-- Concrete numbers, settings, slots and queries.
use pg_what_is_happening.Base.{
  ℕ, Bool, zero, suc, ◌+◌, ◌-◌, ◌*◌, ◌/◌, ◌%◌, ◌^◌, ◌≤◌, ◌<◌, ◌≡◌, true, false, Option, none, some,
  [], ◌∷◌, ◌++◌, arith, length, length-append, ltb, if◌then◌else◌, Bytes, codes, Bool-cases, inl,
  inr,
}
use pg_what_is_happening.Tags.{result}
use pg_what_is_happening.Doubles.{Doubles}
use pg_what_is_happening.Http.Handler.{Signals}
use pg_what_is_happening.Memory.{BackendEntry, Slots, KillResult, delivered, esrch, set_pid}
use pg_what_is_happening.Memory.Layout.{Settings, InRange, SizeArith, size_mod}
use pg_what_is_happening.Memory.Startup.{zero_entry}
use pg_what_is_happening.Walker.{
  PlanNode, PlanState, no_planstate, planstate, nil, cons, append_state, other_state,
  Instrumentation,
}
use pg_what_is_happening.Signal.{QueryDesc, null, Backend}
use pg_what_is_happening.Hooks.{Env}
use pg_what_is_happening.Metrics.Format.{Printf}

-- A number's decimal digits, of which there are at most as many as the fuel.
abbrev pub decimal : ℕ → ℕ → Bytes
decimal zero n = []
decimal (suc fuel) n =
    let rest = decimal fuel (n / 10) in
    if ltb n 10 then (b'0' + n) ∷ [] else rest ++ (b'0' + n % 10) ∷ []

pub decimal_short : (fuel n : ℕ) → length (decimal fuel n) ≤ fuel
decimal_short zero n = omega arith
decimal_short (suc fuel) n = elim (Bool-cases (ltb n 10)) [
  | inl t ↦ rw t (omega arith)
  | inr f ↦ rw f (
      omega (
        arith,
        decimal_short fuel (n / 10),
        length-append (decimal fuel (n / 10)) ((b'0' + n % 10) ∷ []),
      ))
]

abbrev pub signed_32 : ℕ → Bytes
signed_32 n = if ltb n (2 ^ 31) then decimal 10 n else b'-' ∷ decimal 10 (2 ^ 32 - n)

pub signed_32_short : (n : ℕ) → length (signed_32 n) ≤ 11
signed_32_short n = elim (Bool-cases (ltb n (2 ^ 31))) [
  | inl t ↦ rw t (omega (arith, decimal_short 10 n))
  | inr f ↦ rw f (omega (arith, decimal_short 10 (2 ^ 32 - n)))
]

abbrev pub printf : Printf
printf = record {
  lu = decimal 20;
  ld = λ n. if ltb n (2 ^ 63) then decimal 20 n else b'-' ∷ decimal 20 (2 ^ 64 - n);
  d = signed_32;
  lu_short = decimal_short 20;
  d_short = signed_32_short;
}

-- Whole numbers in place of `double`.
abbrev pub naturals : Doubles ℕ
naturals = record {
  of_ℕ = λ n. n;
  add = ◌+◌;
  mul = ◌*◌;
  div = ◌/◌;
  lt = ltb;
  print_fixed = λ k n. decimal 20 n;
}

abbrev pub checked : ℕ → Option ℕ
checked n = if ltb n size_mod then some n else none

pub checked_exact : (n : ℕ) → n < size_mod → checked n ≡ some n
checked_exact n h = ground arith

abbrev pub size_arith : SizeArith
size_arith = record {
  add_size = λ a b. checked (a + b);
  mul_size = λ a b. checked (a * b);
  add_exact = λ a b. checked_exact (a + b);
  mul_exact = λ a b. checked_exact (a * b);
}

abbrev pub settings : Settings
settings = record { max_tracked_queries = 3; max_nodes_per_query = 16; max_query_text_len = 64 }

pub settings-InRange : InRange settings
settings-InRange = record {
  queries_ge = omega arith;
  queries_le = omega arith;
  nodes_ge = omega arith;
  nodes_le = omega arith;
  text_ge = omega arith;
  text_le = omega arith;
}

abbrev pub env : Env ℕ
env = record {
  max_nodes_per_query = 16;
  max_query_text_len = 64;
  min_cost_to_track = 10;
  executor_start = λ qd. qd;
  instrument_all = 7;
}

-- A slot of the process `pid`.
abbrev pub slot : ℕ → BackendEntry ℕ
slot pid = set_pid pid (zero_entry naturals 16)

-- The processes 7 and 9 have a slot; one is free.
abbrev pub slots : Slots ℕ
slots = slot 7 ∷ slot 0 ∷ slot 9 ∷ []

-- Only the process 7 exists.
abbrev pub kill0 : ℕ → KillResult
kill0 pid = if ltb pid 8 then delivered else esrch

abbrev pub kill_usr2 : ℕ → Bool
kill_usr2 pid = ltb pid 8

-- No signal is handled in time.
abbrev pub unhandled : Signals ℕ
unhandled = record { kill_usr2 = kill_usr2; handled = λ sent s. s }

abbrev pub instrumentation : Instrumentation ℕ
instrumentation = record {
  ntuples = 4;
  tuplecount = 1;
  nloops = 2;
  running = true;
  startup = 1;
  firsttuple = 1;
  total = 3;
  counter = 1;
  nfiltered1 = 6;
  nfiltered2 = 0;
  bufusage = record {
    shared_blks_hit = 8;
    shared_blks_read = 1;
    local_blks_hit = 0;
    local_blks_read = 0;
    temp_blks_read = 0;
    temp_blks_written = 2;
  };
}

abbrev pub node : PlanNode ℕ
node = record { plan_tag = result; instrument = some instrumentation }

abbrev pub leaf : PlanState ℕ
leaf = planstate (some node) no_planstate no_planstate nil other_state

-- A node with a left child, and two children of an Append.
abbrev pub tree : PlanState ℕ
tree = planstate (some node) leaf no_planstate nil (append_state (cons leaf (cons leaf nil)))

abbrev pub query : QueryDesc ℕ
query = record {
  address = 1;
  instrument_options = 0;
  planstate = tree;
  total_cost = 100;
  query_id = 42;
  source_text = some (codes "select \"x\"");
}

abbrev pub cheap_query : QueryDesc ℕ
cheap_query = record query { address = 2; total_cost = 1 }

abbrev pub backend : ℕ → Backend ℕ
backend pid = record {
  my_proc_pid = pid;
  is_enabled = true;
  was_initialized = true;
  shmem_attached = true;
  current_query_desc = some query;
  prev_sigusr2_handler = null;
  was_signal_handler_installed = true;
  registrations = 1;
  counters = record {
    call_count = 3;
    success_count = 1;
    no_querydesc = 2;
    shmem_null = 0;
    no_slot = 0;
  };
}

abbrev pub new_backend : ℕ → Backend ℕ
new_backend pid = record (backend pid) {
  was_initialized = false;
  current_query_desc = none;
  registrations = 0;
}
