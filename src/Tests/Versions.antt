-- ===== src/Tests/Versions.antt =====
-- The versions of PostgreSQL, the settings and the installation at concrete inputs.
use pg_what_is_happening.Base.{ℕ, ◌<◌, ◌≡◌, ◌⊎◌, refl, true, none, some, [], ◌∷◌, arith}
use pg_what_is_happening.Memory.Layout.{calc_shared_memory_size, calc_backend_entry_stride}
use pg_what_is_happening.Memory.Startup.{Shmem, initial_slots, load_time}
use pg_what_is_happening.Tags.{memoize}
use pg_what_is_happening.Http.Address.{check_listen_address}
use pg_what_is_happening.Compat.{header_of, node_tag_to_string_of}
use pg_what_is_happening.Compat.Names.{node_tag_to_string-later}
use pg_what_is_happening.Compat.Request.{start_up, start_up-requests}
use pg_what_is_happening.Gucs.{
  settings_of, boot_values, Admitted, max_tracked_queries_variable, max_nodes_per_query_variable,
  max_query_text_len_variable, signal_timeout_ms_variable,
}
use pg_what_is_happening.Tests.Data.{naturals, size_arith, settings, settings-InRange}

names_example :
    (node_tag_to_string_of 130000 memoize ≡ "Unknown")
    ⊎ (node_tag_to_string_of 130000 memoize ≡ node_tag_to_string_of 160000 memoize)
names_example = node_tag_to_string-later 130000 160000 memoize (omega arith)

start_up_example :
    ((start_up naturals (header_of 140000) size_arith settings none (load_time naturals)).requests
      ≡ 0 ∷ [])
    × (m : Shmem ℕ) × ((start_up naturals
          (header_of 140000)
          size_arith
          settings
          none
          (load_time naturals)).shmem
        ≡ some m)
    × (0 < m.shmem_size)
    × (m.slots ≡ some (initial_slots naturals settings))
    × (m.lock_initialized ≡ true)
start_up_example = start_up-requests naturals 140000 size_arith settings settings-InRange

boot-Admitted : Admitted boot_values
unfolding check_listen_address max_tracked_queries_variable max_nodes_per_query_variable
    max_query_text_len_variable signal_timeout_ms_variable
boot-Admitted = record {
  address_accepted = refl;
  queries_within = (omega arith, omega arith);
  nodes_within = (omega arith, omega arith);
  text_within = (omega arith, omega arith);
  timeout_within = (omega arith, omega arith);
}

-- The number of bytes that the README names for the boot values.
boot_size : calc_shared_memory_size size_arith (settings_of boot_values) ≡ some 525584
unfolding calc_shared_memory_size calc_backend_entry_stride
boot_size = refl
