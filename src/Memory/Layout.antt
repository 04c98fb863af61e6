-- ===== src/Memory/Layout.antt =====
-- The sizes and offsets of src/shared_memory.c, for every setting that src/gucs.c admits.
use pg_what_is_happening.Base.{ℕ, ◌+◌, ◌*◌, ◌^◌, ◌≤◌, ◌<◌, ◌≡◌, Option, none, some, arith}

-- `sizeof` of the header (asserted in src/compatibility.h), of a backend entry and of a node's
-- metrics, on a machine with 4-byte `int` and 8-byte `double`, `uint64` and `int64`.
abbrev pub sizeof_header : ℕ
sizeof_header = 16

abbrev pub sizeof_backend_entry : ℕ
sizeof_backend_entry = 40

abbrev pub sizeof_node_metrics : ℕ
sizeof_node_metrics = 120

abbrev pub size_mod : ℕ
size_mod = 2 ^ 64

-- The settings that shape the memory.
pub record Settings : Type 0 where
  pub max_tracked_queries : ℕ
  pub max_nodes_per_query : ℕ
  pub max_query_text_len : ℕ

-- The ranges that `pwh_define_gucs` registers.
pub record InRange (s : Settings) : Type 0 where
  pub queries_ge : 2 ≤ s.max_tracked_queries
  pub queries_le : s.max_tracked_queries ≤ 256
  pub nodes_ge : 16 ≤ s.max_nodes_per_query
  pub nodes_le : s.max_nodes_per_query ≤ 256
  pub text_ge : 64 ≤ s.max_query_text_len
  pub text_le : s.max_query_text_len ≤ 8192

infixl 5 ◌>>=◌
abbrev ◌>>=◌ : Option ℕ → (ℕ → Option ℕ) → Option ℕ
none >>= f = none
some a >>= f = f a

-- PostgreSQL's checked size arithmetic: `none` stands for the error that it raises.
pub record SizeArith : Type 0 where
  pub add_size : ℕ → ℕ → Option ℕ
  pub mul_size : ℕ → ℕ → Option ℕ
  pub add_exact : (a b : ℕ) → a + b < size_mod → add_size a b ≡ some (a + b)
  pub mul_exact : (a b : ℕ) → a * b < size_mod → mul_size a b ≡ some (a * b)

module _ (z : SizeArith) (s : Settings) where
  open z use {add_size, mul_size}

  unfoldable pub calc_backend_entry_stride : Option ℕ
  calc_backend_entry_stride = do
    size ← add_size sizeof_backend_entry s.max_query_text_len
    nodes ← mul_size s.max_nodes_per_query sizeof_node_metrics
    add_size size nodes

  unfoldable pub calc_shared_memory_size : Option ℕ
  unfolding calc_backend_entry_stride
  calc_shared_memory_size = do
    size ← add_size 0 sizeof_header
    stride ← calc_backend_entry_stride
    entries ← mul_size s.max_tracked_queries stride
    add_size size entries

-- The addresses, as offsets from `PWH_SHMEM`.
abbrev pub backend_entry_offset : ℕ → ℕ → ℕ
backend_entry_offset stride idx = sizeof_header + idx * stride

abbrev pub query_text_offset : ℕ → ℕ
query_text_offset entry = entry + sizeof_backend_entry

abbrev pub metrics_offset : Settings → ℕ → ℕ
metrics_offset s entry = entry + sizeof_backend_entry + s.max_query_text_len

-- The offset of `metrics[j]`.
abbrev pub node_offset : Settings → ℕ → ℕ → ℕ
node_offset s entry j = metrics_offset s entry + j * sizeof_node_metrics

abbrev pub stride_of : Settings → ℕ
stride_of s =
    sizeof_backend_entry + s.max_query_text_len + s.max_nodes_per_query * sizeof_node_metrics

module _ (z : SizeArith) (s : Settings) (r : InRange s) where
  pub stride_lem : calc_backend_entry_stride z s ≡ some (stride_of s)
  unfolding calc_backend_entry_stride
  stride_lem = ground (
    arith,
    z.add_exact sizeof_backend_entry s.max_query_text_len,
    z.mul_exact s.max_nodes_per_query sizeof_node_metrics,
    z.add_exact (sizeof_backend_entry + s.max_query_text_len)
        (s.max_nodes_per_query * sizeof_node_metrics),
  )

  entries_bound : s.max_tracked_queries * stride_of s < 16777200
  entries_bound = grind arith

  pub size_lem :
      calc_shared_memory_size z s ≡ some (sizeof_header + s.max_tracked_queries * stride_of s)
  unfolding calc_shared_memory_size
  size_lem = rw stride_lem (
      ground (
        arith,
        entries_bound,
        z.add_exact 0 sizeof_header,
        z.mul_exact s.max_tracked_queries (stride_of s),
        z.add_exact sizeof_header (s.max_tracked_queries * stride_of s),
      ))

  -- For settings in their ranges the size computations raise no error and the memory takes less than
  -- 16 MiB. Within it, for the slot `i` and the node `j` below their limits, the slot's query text
  -- ends where its metrics begin, its metrics of node `j` end within the slot, and the slot ends
  -- within the memory.
  pub layout_lem :
      (i j : ℕ)
      → i < s.max_tracked_queries
      → j < s.max_nodes_per_query
      → (stride total : ℕ) × (calc_backend_entry_stride z s ≡ some stride)
        × (calc_shared_memory_size z s ≡ some total)
        × (total < 2 ^ 24)
        × (query_text_offset (backend_entry_offset stride i) + s.max_query_text_len
            ≡ metrics_offset s (backend_entry_offset stride i))
        × (node_offset s (backend_entry_offset stride i) j + sizeof_node_metrics
            ≤ backend_entry_offset stride (i + 1))
        × (backend_entry_offset stride (i + 1) ≤ total)
  layout_lem i j hi hj = (
    stride_of s,
    sizeof_header + s.max_tracked_queries * stride_of s,
    stride_lem,
    size_lem,
    omega (arith, entries_bound),
    omega arith,
    grind arith,
    grind arith,
  )
