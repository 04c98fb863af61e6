-- ===== src/Compat/Request.antt =====
-- The request for shared memory: `PWH_INSTALL_SHMEM_REQUEST_HOOK` and
-- `PWH_SHMEM_REQUEST_IN_STARTUP_HOOK` of the headers in src/compatibility, and the startup hook of
-- src/shared_memory.c, which runs the second before it computes the size.
use pg_what_is_happening.Base.{
  ℕ, ◌<◌, ◌≡◌, refl, Bool, true, false, not, Option, none, some, List, [], ◌∷◌, ◌++◌,
}
use pg_what_is_happening.Doubles.{Doubles}
use pg_what_is_happening.Memory.{Slots}
use pg_what_is_happening.Memory.Layout.{Settings, InRange, SizeArith}
use pg_what_is_happening.Memory.Startup.{
  Shmem, initial_slots, shared_memory_startup_hook, shmem_request_hook, load_time,
  request_before_startup,
}
use pg_what_is_happening.Compat.{
  Header, v9_4, v9_5, v9_6, v10, v11, v12, v13, v14, v15_18, v19, header_of,
}

-- Whether `PWH_INSTALL_SHMEM_REQUEST_HOOK` installs a hook; else the startup hook makes the request.
unfoldable pub has_request_hook : Header → Bool
has_request_hook v9_4 = false
has_request_hook v9_5 = false
has_request_hook v9_6 = false
has_request_hook v10 = false
has_request_hook v11 = false
has_request_hook v12 = false
has_request_hook v13 = false
has_request_hook v14 = false
has_request_hook v15_18 = true
has_request_hook v19 = true

-- The sizes that the extension asks for from when the postmaster loads it, and the memory after the
-- startup hook.
pub record Started (F : Type 0) : Type 0 where
  pub requests : List ℕ
  pub shmem : Option (Shmem F)

module _ {F : Type 0} (d : Doubles F) where
  abbrev requests_if : Bool → Shmem F → List ℕ
  requests_if true m = shmem_request_hook d m ∷ []
  requests_if false m = []

  unfoldable pub start_up : Header → SizeArith → Settings → Option (Slots F) → Shmem F → Started F
  start_up v z s found m = record {
    requests = requests_if (has_request_hook v) m ++ requests_if (not (has_request_hook v)) m;
    shmem = shared_memory_startup_hook d z s found m;
  }

  one_request :
      (b : Bool) → requests_if b (load_time d) ++ requests_if (not b) (load_time d) ≡ 0 ∷ []
  one_request true = refl
  one_request false = refl

  -- In every version of PostgreSQL the extension makes one request for shared memory, for 0 bytes;
  -- while the startup hook, for settings in their ranges and if it finds no memory, computes a size
  -- above 0, clears every entry and initialises the lock.
  pub start_up-requests :
      (n : ℕ) (z : SizeArith) (s : Settings)
      → InRange s
      → ((start_up (header_of n) z s none (load_time d)).requests ≡ 0 ∷ [])
        × (m : Shmem F) × ((start_up (header_of n) z s none (load_time d)).shmem ≡ some m)
        × (0 < m.shmem_size)
        × (m.slots ≡ some (initial_slots d s))
        × (m.lock_initialized ≡ true)
  unfolding start_up
  start_up-requests n z s r =
      let (asked, m, shmem, size, slots, lock) = request_before_startup d z s r in
      (one_request (has_request_hook (header_of n)), m, shmem, size, slots, lock)
