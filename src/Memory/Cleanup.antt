-- ===== src/Memory/Cleanup.antt =====
-- `pwh_cleanup_orphaned_slots` and `pwh_request_backend_metrics_unlocked`.
use pg_what_is_happening.Base.{
  length, ℕ, zero, suc, ◌+◌, ◌≡◌, ◌≢◌, ◌==◌, refl, Bool, true, [], ◌∷◌, arith, if◌then◌else◌,
  get_elem?, not, ◌&&◌, ◌⊎◌, All,
}
use mathlib.Core.Option
use pg_what_is_happening.Memory.{
  Slots, BackendEntry, KillResult, delivered, esrch, eperm, other_errno, check_if_process_exists,
  is_backend_entry_active, release_backend_entry_unlocked, cleanup_orphaned_slots,
  request_backend_metrics_unlocked,
}

exists_not_esrch : (k : KillResult) → check_if_process_exists k ≡ true → k ≢ esrch
exists_not_esrch delivered e = λ h. cc
exists_not_esrch esrch e = absurd cc
exists_not_esrch eperm e = λ h. cc
exists_not_esrch other_errno e = λ h. cc

module _ {F : Type 0} where
  -- How many slots are in use.
  abbrev pub active_count : Slots F → ℕ
  active_count [] = 0
  active_count (be ∷ rest) =
      if is_backend_entry_active be then active_count rest + 1 else active_count rest

  abbrev pub after_kill : KillResult → BackendEntry F → BackendEntry F
  after_kill esrch be = release_backend_entry_unlocked be
  after_kill delivered be = be
  after_kill eperm be = be
  after_kill other_errno be = be

  module _ (kill0 : ℕ → KillResult) where
    -- A slot in use is released if `kill(pid, 0)` fails with ESRCH.
    abbrev pub clean_entry : BackendEntry F → BackendEntry F
    clean_entry be = if be.backend_pid == 0 then be else after_kill (kill0 be.backend_pid) be

    cleaned-after_kill :
        (k : KillResult) (be : BackendEntry F)
        → (if is_backend_entry_active be && not (check_if_process_exists k)
            then release_backend_entry_unlocked be
            else be)
          ≡ (if be.backend_pid == 0 then be else after_kill k be)
    cleaned-after_kill delivered be = ground arith
    cleaned-after_kill esrch be = ground arith
    cleaned-after_kill eperm be = ground arith
    cleaned-after_kill other_errno be = ground arith

    -- Slot by slot.
    cleanup_at :
        (slots : Slots F) (i : ℕ)
        → get_elem? (cleanup_orphaned_slots kill0 slots).1 i
          ≡ Option.map clean_entry (get_elem? slots i)
    unfolding cleanup_orphaned_slots
    cleanup_at [] i = refl
    cleanup_at (be ∷ rest) zero = ground (arith, cleaned-after_kill (kill0 be.backend_pid) be)
    cleanup_at (be ∷ rest) (suc i) = ground (arith, cleanup_at rest i)

    pub cleanup-length :
        (slots : Slots F) → length (cleanup_orphaned_slots kill0 slots).1 ≡ length slots
    unfolding cleanup_orphaned_slots
    cleanup-length [] = refl
    cleanup-length (be ∷ rest) = ground (arith, cleanup-length rest)

    cleanup_count :
        (slots : Slots F)
        → (cleanup_orphaned_slots kill0 slots).0
            + active_count (cleanup_orphaned_slots kill0 slots).1
          ≡ active_count slots
    unfolding cleanup_orphaned_slots
    cleanup_count [] = omega arith
    cleanup_count (be ∷ rest) = ground (arith, cleanup_count rest)

    cleanup_alive :
        (slots : Slots F)
        → All
            (λ be. (be.backend_pid ≡ 0) ⊎ (kill0 be.backend_pid ≢ esrch))
            (cleanup_orphaned_slots kill0 slots).1
    unfolding cleanup_orphaned_slots
    cleanup_alive [] = tt
    cleanup_alive (be ∷ rest) =
        ground (arith, cleanup_alive rest, exists_not_esrch (kill0 be.backend_pid))

    -- After a cleanup no slot in use belongs to a process for which `kill(pid, 0)` fails with ESRCH;
    -- each slot is as it was, EPERM and other errors included, or, if it was in use and `kill` failed
    -- with ESRCH, released; and the function's result is the number of slots that went out of use.
    pub cleanup_lem :
        (slots : Slots F)
        → All
            (λ be. (be.backend_pid ≡ 0) ⊎ (kill0 be.backend_pid ≢ esrch))
            (cleanup_orphaned_slots kill0 slots).1
          × ((i : ℕ)
              → get_elem? (cleanup_orphaned_slots kill0 slots).1 i
                ≡ Option.map clean_entry (get_elem? slots i))
          × ((cleanup_orphaned_slots kill0 slots).0
                + active_count (cleanup_orphaned_slots kill0 slots).1
              ≡ active_count slots)
    cleanup_lem slots = (cleanup_alive slots, cleanup_at slots, cleanup_count slots)

    -- If SIGUSR2 can be sent exactly to the processes that exist, a request that follows a cleanup
    -- signals every slot in use.
    pub request-cleanup :
        (kill_usr2 : ℕ → Bool) (slots : Slots F)
        → ((pid : ℕ) → kill_usr2 pid ≡ check_if_process_exists (kill0 pid))
        → (request_backend_metrics_unlocked kill_usr2 (cleanup_orphaned_slots kill0 slots).1).0
          ≡ active_count (cleanup_orphaned_slots kill0 slots).1
    unfolding cleanup_orphaned_slots request_backend_metrics_unlocked
    request-cleanup kill_usr2 [] h = refl
    request-cleanup kill_usr2 (be ∷ rest) h =
        ground (arith, request-cleanup kill_usr2 rest h, h be.backend_pid)
