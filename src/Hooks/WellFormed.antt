-- ===== src/Hooks/WellFormed.antt =====
-- The invariant of the slots, and what src/shared_memory.c does to it.
use pg_what_is_happening.Base.{
  ℕ, ◌≤◌, ◌≡◌, ◌≢◌, refl, true, Option, none, some, [], ◌∷◌, arith, modify, length, length-modify,
  All,
}
use pg_what_is_happening.Memory.{
  BackendEntry, Slots, KillResult, set_pid, release_my_backend_entry, cleanup_orphaned_slots,
  get_or_create_my_backend_entry_impl,
}
use pg_what_is_happening.Memory.Cleanup.{cleanup-length}
use pg_what_is_happening.Memory.Find.{find_pid}
use pg_what_is_happening.Memory.Claim.{claim, get_or_create-claim}
use pg_what_is_happening.Memory.Distinct.{
  Distinct, get_or_create-Distinct, release-Distinct, cleanup-Distinct,
}
use pg_what_is_happening.Hooks.Entry.{KeepsPid, modify-Distinct, All-modify}

module _ {F : Type 0} where
  -- A metrics array of `n` elements, of which at most all are counted.
  abbrev pub Sized : ℕ → BackendEntry F → Type 0
  Sized n be = (length be.metrics ≡ n) × (be.count_of_metrics ≤ n)

  pub record WellFormed (n : ℕ) (slots : Slots F) : Type 0 where
    pub few : length slots ≤ 256
    pub distinct : Distinct slots
    pub sized : All (Sized n) slots

  pub modify-WellFormed :
      (n : ℕ) (slots : Slots F) (i : ℕ) (f : BackendEntry F → BackendEntry F)
      → KeepsPid f
      → ((be : BackendEntry F) → Sized n be → Sized n (f be))
      → WellFormed n slots
      → WellFormed n (modify slots i f)
  modify-WellFormed n slots i f k z w = record {
    few = omega (arith, length-modify slots i f, w.few);
    distinct = modify-Distinct slots i f k w.distinct;
    sized = All-modify (Sized n) slots i f z w.sized;
  }

  release-length :
      (pid : ℕ) (slots : Slots F) → length (release_my_backend_entry pid slots) ≡ length slots
  unfolding release_my_backend_entry
  release-length pid [] = refl
  release-length pid (be ∷ rest) = ground (arith, release-length pid rest)

  release-Sized :
      (n pid : ℕ) (slots : Slots F)
      → All (Sized n) slots
      → All (Sized n) (release_my_backend_entry pid slots)
  unfolding release_my_backend_entry
  release-Sized n pid [] h = tt
  release-Sized n pid (be ∷ rest) h = ground (arith, release-Sized n pid rest)

  pub release-WellFormed :
      (n pid : ℕ) (slots : Slots F)
      → WellFormed n slots
      → WellFormed n (release_my_backend_entry pid slots)
  release-WellFormed n pid slots w = record {
    few = omega (arith, release-length pid slots, w.few);
    distinct = release-Distinct pid slots w.distinct;
    sized = release-Sized n pid slots w.sized;
  }

  module _ (kill0 : ℕ → KillResult) where
    cleanup-Sized :
        (n : ℕ) (slots : Slots F)
        → All (Sized n) slots
        → All (Sized n) (cleanup_orphaned_slots kill0 slots).1
    unfolding cleanup_orphaned_slots
    cleanup-Sized n [] h = tt
    cleanup-Sized n (be ∷ rest) h = ground (arith, cleanup-Sized n rest)

    pub cleanup-WellFormed :
        (n : ℕ) (slots : Slots F)
        → WellFormed n slots
        → WellFormed n (cleanup_orphaned_slots kill0 slots).1
    cleanup-WellFormed n slots w = record {
      few = omega (arith, cleanup-length kill0 slots, w.few);
      distinct = cleanup-Distinct kill0 slots w.distinct;
      sized = cleanup-Sized n slots w.sized;
    }

  claim-Sized :
      (n : ℕ) (pid : ℕ) (slots : Slots F) (found free : Option ℕ)
      → find_pid pid slots ≡ found
      → find_pid 0 slots ≡ free
      → All (Sized n) slots
      → All (Sized n) (claim true pid slots).1 × (length (claim true pid slots).1 ≡ length slots)
  claim-Sized n pid slots (some i) free e e0 h = rw e (h, refl)
  claim-Sized n pid slots none none e e0 h = rw (e, e0) (h, refl)
  claim-Sized n pid slots none (some j) e e0 h =
      rw (e, e0)
        (
          All-modify (Sized n) slots j (set_pid pid) (λ be z. z) h,
          length-modify slots j (set_pid pid),
        )

  pub create-WellFormed :
      (n pid : ℕ) (slots : Slots F)
      → pid ≢ 0
      → WellFormed n slots
      → WellFormed n (get_or_create_my_backend_entry_impl true pid slots).1
  create-WellFormed n pid slots h w = record {
    few = rw result (omega (arith, kept.1, w.few));
    distinct = get_or_create-Distinct true pid slots h w.few w.distinct;
    sized = rw result kept.0;
  }
    where
      result : get_or_create_my_backend_entry_impl true pid slots ≡ claim true pid slots
      result = get_or_create-claim true pid slots h w.few

      kept :
          All (Sized n) (claim true pid slots).1 × (length (claim true pid slots).1 ≡ length slots)
      kept = claim-Sized n pid slots (find_pid pid slots) (find_pid 0 slots) refl refl w.sized
