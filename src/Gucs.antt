-- ===== src/Gucs.antt =====
-- The settings: `pwh_define_gucs` of src/gucs.c and the names of src/gucs.h. What PostgreSQL then lets
-- the variables be is its documented rule: an integer within the bounds of its variable, and a text
-- that passes the check of its variable.
use pg_what_is_happening.Base.{
  ℕ, ◌*◌, ◌^◌, ◌≤◌, ◌<◌, ◌≡◌, Bool, true, Option, some, List, [], ◌∷◌, ◌++◌, arith, Bytes, codes,
  if◌then◌else◌,
}
use pg_what_is_happening.Doubles.{Doubles}
use pg_what_is_happening.Http.Address.{check_listen_address}
use pg_what_is_happening.Memory.Layout.{Settings, InRange}

-- `PGC_SIGHUP` and `PGC_POSTMASTER`.
pub data GucContext : Type 0 where
  sighup postmaster : GucContext

pub record IntVariable : Type 0 where
  pub name : Bytes
  pub boot_value : ℕ
  pub min_value : ℕ
  pub max_value : ℕ
  pub context : GucContext

-- One call of a `DefineCustom...Variable`. The bound of the real variable above is `DBL_MAX`.
pub data Variable (F : Type 0) : Type 0 where
  bool_variable : Bytes → Bool → GucContext → Variable F
  string_variable : Bytes → Bytes → (Option Bytes → Bool) → GucContext → Variable F
  int_variable : IntVariable → Variable F
  real_variable : Bytes → F → F → GucContext → Variable F

abbrev guc_name : Bytes → Bytes
guc_name name = codes "what_is_happening." ++ name

unfoldable pub max_tracked_queries_variable : IntVariable
max_tracked_queries_variable = record {
  name = guc_name (codes "max_tracked_queries");
  boot_value = 32;
  min_value = 2;
  max_value = 256;
  context = postmaster;
}

unfoldable pub max_nodes_per_query_variable : IntVariable
max_nodes_per_query_variable = record {
  name = guc_name (codes "max_nodes_per_query");
  boot_value = 128;
  min_value = 16;
  max_value = 256;
  context = postmaster;
}

unfoldable pub max_query_text_len_variable : IntVariable
max_query_text_len_variable = record {
  name = guc_name (codes "max_query_text_length");
  boot_value = 1024;
  min_value = 64;
  max_value = 8192;
  context = postmaster;
}

unfoldable pub signal_timeout_ms_variable : IntVariable
signal_timeout_ms_variable = record {
  name = guc_name (codes "signal_timeout_ms");
  boot_value = 32;
  min_value = 1;
  max_value = 10000;
  context = sighup;
}

abbrev listen_address_variable : {F : Type 0} → Variable F
listen_address_variable =
    string_variable (guc_name (codes "metrics_listen_address")) (codes "127.0.0.1:9187")
      check_listen_address postmaster

-- The variables in the order of the calls; `with_bgworker` is whether WITH_BGWORKER is defined.
unfoldable pub define_gucs : {F : Type 0} → Doubles F → Bool → List (Variable F)
define_gucs d with_bgworker =
    bool_variable (guc_name (codes "is_enabled")) true sighup
      ∷ (if with_bgworker then listen_address_variable ∷ [] else [])
    ++ (int_variable max_tracked_queries_variable
        ∷ int_variable max_nodes_per_query_variable
        ∷ int_variable max_query_text_len_variable
        ∷ int_variable signal_timeout_ms_variable
        ∷ real_variable (guc_name (codes "min_cost_to_track")) (d.of_ℕ 50000) (d.of_ℕ 0) sighup
        ∷ [])

-- The values of the settings that have bounds or a check.
pub record Values : Type 0 where
  pub metrics_listen_address : Bytes
  pub max_tracked_queries : ℕ
  pub max_nodes_per_query : ℕ
  pub max_query_text_len : ℕ
  pub signal_timeout_ms : ℕ

abbrev pub Within : IntVariable → ℕ → Type 0
Within v n = (v.min_value ≤ n) × (n ≤ v.max_value)

-- What PostgreSQL sees to, by the variables' bounds and check.
pub record Admitted (g : Values) : Type 0 where
  pub address_accepted : check_listen_address (some g.metrics_listen_address) ≡ true
  pub queries_within : Within max_tracked_queries_variable g.max_tracked_queries
  pub nodes_within : Within max_nodes_per_query_variable g.max_nodes_per_query
  pub text_within : Within max_query_text_len_variable g.max_query_text_len
  pub timeout_within : Within signal_timeout_ms_variable g.signal_timeout_ms

-- The settings that shape the memory.
abbrev pub settings_of : Values → Settings
settings_of g = record {
  max_tracked_queries = g.max_tracked_queries;
  max_nodes_per_query = g.max_nodes_per_query;
  max_query_text_len = g.max_query_text_len;
}

-- The argument of `usleep` in `metrics_handler` of src/bg_worker.c, whose product is one of `int`.
abbrev pub usleep_argument : Values → ℕ
usleep_argument g = g.signal_timeout_ms * 1000

-- Values within the registered bounds, shape a memory within the ranges
-- of the model, and the product that the exporter waits for does not overflow an `int`.
pub Admitted-InRange :
    (g : Values) → Admitted g → InRange (settings_of g) × (usleep_argument g < 2 ^ 31)
unfolding max_tracked_queries_variable max_nodes_per_query_variable max_query_text_len_variable
    signal_timeout_ms_variable
Admitted-InRange g a = (
  record {
    queries_ge = a.queries_within.0;
    queries_le = a.queries_within.1;
    nodes_ge = a.nodes_within.0;
    nodes_le = a.nodes_within.1;
    text_ge = a.text_within.0;
    text_le = a.text_within.1;
  },
  omega (arith, a.timeout_within),
)

-- The boot values.
abbrev pub boot_values : Values
boot_values = record {
  metrics_listen_address = codes "127.0.0.1:9187";
  max_tracked_queries = 32;
  max_nodes_per_query = 128;
  max_query_text_len = 1024;
  signal_timeout_ms = 32;
}
