-- ===== src/Memory/Distinct.antt =====
-- The invariant of the slot array of src/shared_memory.c: a process holds at most one slot.
use pg_what_is_happening.Base.{
  ℕ, zero, suc, ◌+◌, ◌≤◌, ◌≡◌, ◌≢◌, ◌⊎◌, inl, inr, refl, Bool, true, false, Option, none, some, [],
  ◌∷◌, arith, modify, length,
}
use pg_what_is_happening.Memory.{
  Slots, KillResult, set_pid, get_or_create_my_backend_entry_impl, release_my_backend_entry,
  cleanup_orphaned_slots,
}
use pg_what_is_happening.Memory.Find.{find_pid, find_from}
use pg_what_is_happening.Memory.Claim.{claim, get_or_create-claim}

module _ {F : Type 0} where
  abbrev pub Absent : ℕ → Slots F → Type 0
  Absent pid [] = Unit {0}
  Absent pid (be ∷ rest) = (be.backend_pid ≢ pid) × Absent pid rest

  -- Whoever holds a slot holds no later one.
  abbrev pub Distinct : Slots F → Type 0
  Distinct [] = Unit {0}
  Distinct (be ∷ rest) = ((be.backend_pid ≡ 0) ⊎ Absent be.backend_pid rest) × Distinct rest

  pub find_from-Absent :
      (pid : ℕ) (slots : Slots F) (i : ℕ) → find_from pid slots i ≡ none → Absent pid slots
  find_from-Absent pid [] i e = tt
  find_from-Absent pid (be ∷ rest) i e = ground (arith, find_from-Absent pid rest (i + 1))

  pub Absent-find_from :
      (pid : ℕ) (slots : Slots F) (i : ℕ) → Absent pid slots → find_from pid slots i ≡ none
  Absent-find_from pid [] i a = refl
  Absent-find_from pid (be ∷ rest) i a = ground (arith, Absent-find_from pid rest (i + 1))

  mark-Absent :
      (q pid : ℕ) (slots : Slots F) (i : ℕ)
      → q ≢ pid
      → Absent q slots
      → Absent q (modify slots i (set_pid pid))
  mark-Absent q pid [] i h a = tt
  mark-Absent q pid (be ∷ rest) zero h a = ground arith
  mark-Absent q pid (be ∷ rest) (suc i) h a = (a.0, mark-Absent q pid rest i h a.1)

  mark-Distinct :
      (pid : ℕ) (slots : Slots F) (i : ℕ)
      → Absent pid slots
      → Distinct slots
      → Distinct (modify slots i (set_pid pid))
  mark-Distinct pid [] i a d = tt
  mark-Distinct pid (be ∷ rest) zero a d = (inr a.1, d.1)
  mark-Distinct pid (be ∷ rest) (suc i) a (inl z, d) = (inl z, mark-Distinct pid rest i a.1 d)
  mark-Distinct pid (be ∷ rest) (suc i) a (inr b, d) =
      (inr (mark-Absent be.backend_pid pid rest i a.0 b), mark-Distinct pid rest i a.1 d)

  claim-Distinct :
      (create : Bool) (pid : ℕ) (slots : Slots F) (found free : Option ℕ)
      → find_pid pid slots ≡ found
      → find_pid 0 slots ≡ free
      → Distinct slots
      → Distinct (claim create pid slots).1
  claim-Distinct create pid slots (some i) free e e0 d = ground arith
  claim-Distinct create pid slots none none e e0 d = ground arith
  claim-Distinct false pid slots none (some j) e e0 d = ground arith
  claim-Distinct true pid slots none (some j) e e0 d =
      ground (arith, mark-Distinct pid slots j (find_from-Absent pid slots 0 e) d)

  -- For a process id other than 0 and at most 256 slots, a call that gets or creates a slot leaves
  -- no process with two slots, if none had two before.
  pub get_or_create-Distinct :
      (create : Bool) (pid : ℕ) (slots : Slots F)
      → pid ≢ 0
      → length slots ≤ 256
      → Distinct slots
      → Distinct (get_or_create_my_backend_entry_impl create pid slots).1
  get_or_create-Distinct create pid slots h b d =
      rw (get_or_create-claim create pid slots h b)
        (claim-Distinct create pid slots (find_pid pid slots) (find_pid 0 slots) refl refl d)

  release-Absent :
      (q pid : ℕ) (slots : Slots F)
      → q ≢ 0
      → Absent q slots
      → Absent q (release_my_backend_entry pid slots)
  unfolding release_my_backend_entry
  release-Absent q pid [] h a = tt
  release-Absent q pid (be ∷ rest) h a = ground (arith, release-Absent q pid rest h)

  -- A release leaves no process with two slots, if none had two before.
  pub release-Distinct :
      (pid : ℕ) (slots : Slots F) → Distinct slots → Distinct (release_my_backend_entry pid slots)
  unfolding release_my_backend_entry
  release-Distinct pid [] d = tt
  release-Distinct pid (be ∷ rest) d =
      ground (arith, release-Absent be.backend_pid pid rest, release-Distinct pid rest)

  -- If no process has two slots, a process that releases its slot has none after that.
  pub release_my-Absent :
      (pid : ℕ) (slots : Slots F)
      → pid ≢ 0
      → Distinct slots
      → Absent pid (release_my_backend_entry pid slots)
  unfolding release_my_backend_entry
  release_my-Absent pid [] h d = tt
  release_my-Absent pid (be ∷ rest) h d = ground (arith, release_my-Absent pid rest h)

  module _ (kill0 : ℕ → KillResult) where
    cleanup-Absent :
        (q : ℕ) (slots : Slots F)
        → q ≢ 0
        → Absent q slots
        → Absent q (cleanup_orphaned_slots kill0 slots).1
    unfolding cleanup_orphaned_slots
    cleanup-Absent q [] h a = tt
    cleanup-Absent q (be ∷ rest) h a = ground (arith, cleanup-Absent q rest h)

    -- A cleanup leaves no process with two slots, if none had two before.
    pub cleanup-Distinct :
        (slots : Slots F) → Distinct slots → Distinct (cleanup_orphaned_slots kill0 slots).1
    unfolding cleanup_orphaned_slots
    cleanup-Distinct [] d = tt
    cleanup-Distinct (be ∷ rest) d =
        ground (arith, cleanup-Absent be.backend_pid rest, cleanup-Distinct rest)
