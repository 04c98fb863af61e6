-- ===== src/Memory/Progress.antt =====
-- A full array of src/shared_memory.c does not stay full once a process that holds a slot is gone.
use pg_what_is_happening.Base.{
  ℕ, ◌≤◌, ◌<◌, ◌≡◌, ◌≢◌, refl, ap, true, false, Option, none, some, [], ◌∷◌, arith, length,
}
use pg_what_is_happening.Memory.{
  Slots, KillResult, esrch, check_if_process_exists, cleanup_orphaned_slots,
  get_or_create_my_backend_entry_impl,
}
use pg_what_is_happening.Memory.Cleanup.{cleanup-length}
use pg_what_is_happening.Memory.Find.{find_pid}
use pg_what_is_happening.Memory.Claim.{claim, get_or_create-claim}
use pg_what_is_happening.Memory.Holds.{Holds, claim-Holds}
use pg_what_is_happening.Memory.Tally.{tally, tally_pos-find}

module _ {F : Type 0} (kill0 : ℕ → KillResult) where
  cleanup-frees :
      (q : ℕ) (slots : Slots F)
      → q ≢ 0
      → check_if_process_exists (kill0 q) ≡ false
      → 0 < tally slots q
      → 0 < tally (cleanup_orphaned_slots kill0 slots).1 0
  unfolding cleanup_orphaned_slots
  cleanup-frees q [] h dead held = absurd (omega arith)
  cleanup-frees q (be ∷ rest) h dead held = ground (arith, cleanup-frees q rest)

  claim-found :
      (pid j : ℕ) (slots : Slots F) (found : Option ℕ)
      → find_pid pid slots ≡ found
      → find_pid 0 slots ≡ some j
      → (i : ℕ) × ((claim true pid slots).0 ≡ some i)
  claim-found pid j slots none e e0 = (j, rw (e, e0) refl)
  claim-found pid j slots (some i) e e0 = (i, rw e refl)

  -- If a process for which `kill(pid, 0)` fails with ESRCH holds a slot, then the process that first
  -- asks for a slot after a cleanup is given one, however full the array was, and the slot that it is
  -- given has its process id then.
  pub cleanup-get_or_create :
      (pid q : ℕ) (slots : Slots F)
      → pid ≢ 0
      → length slots ≤ 256
      → q ≢ 0
      → kill0 q ≡ esrch
      → 0 < tally slots q
      → let r =
          get_or_create_my_backend_entry_impl true pid (cleanup_orphaned_slots kill0 slots).1 in
        (i : ℕ) × (r.0 ≡ some i) × Holds r.1 pid i
  cleanup-get_or_create pid q slots h b hq dead held =
      let slots' : Slots F = (cleanup_orphaned_slots kill0 slots).1 in
      let (j, free) =
        tally_pos-find 0 slots' 0
          (cleanup-frees q slots hq (ap check_if_process_exists dead) held) in
      let (i, given) = claim-found pid j slots' (find_pid pid slots') refl free in
      rw (get_or_create-claim true pid slots' h (omega (arith, cleanup-length kill0 slots)))
        (i, given, claim-Holds pid slots' (find_pid pid slots') (some j) i refl free given)
