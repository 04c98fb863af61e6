-- ===== src/Memory/Find.antt =====
-- The search loop of src/shared_memory.c against the first slot that holds a process id.
use pg_what_is_happening.Base.{
  ℕ, ◌+◌, ◌<◌, ◌≤◌, ◌≡◌, ◌≢◌, refl, Option, none, some, [], ◌∷◌, arith, ◌==◌, if◌then◌else◌, length,
  get_elem?, suc, Bool-cases, ==→eq, inl, inr,
}
use mathlib.Core.Option.{get_or}
use pg_what_is_happening.Memory.{Slots, BackendEntry, no_slot, scan_entries}

module _ {F : Type 0} where
  -- The first slot with this process id, where the slots are numbered from `i`.
  abbrev pub find_from : ℕ → Slots F → ℕ → Option ℕ
  find_from pid [] i = none
  find_from pid (be ∷ rest) i = if be.backend_pid == pid then some i else find_from pid rest (i + 1)

  abbrev pub find_pid : ℕ → Slots F → Option ℕ
  find_pid pid slots = find_from pid slots 0

  -- The loop's first result is that slot, whatever free slot it has noted.
  pub scan_entries-find_from :
      (pid : ℕ) (slots : Slots F) (i free : ℕ)
      → pid ≢ 0
      → (scan_entries pid slots i free).0 ≡ find_from pid slots i
  unfolding scan_entries
  scan_entries-find_from pid [] i free h = refl
  scan_entries-find_from pid (be ∷ rest) i free h = ground (
    arith,
    scan_entries-find_from pid rest (i + 1) i h,
    scan_entries-find_from pid rest (i + 1) free h,
  )

  -- With a free slot noted, and none of `pid`, that slot stays noted.
  scan_entries_noted :
      (pid : ℕ) (slots : Slots F) (i free : ℕ)
      → free ≢ no_slot
      → find_from pid slots i ≡ none
      → (scan_entries pid slots i free).1 ≡ free
  unfolding scan_entries
  scan_entries_noted pid [] i free h e = refl
  scan_entries_noted pid (be ∷ rest) i free h e =
      ground (arith, scan_entries_noted pid rest (i + 1) free h)

  -- With none noted, the loop notes the first free slot.
  pub scan_entries_free :
      (pid : ℕ) (slots : Slots F) (i : ℕ)
      → i + length slots ≤ no_slot
      → find_from pid slots i ≡ none
      → (scan_entries pid slots i no_slot).1 ≡ get_or (find_from 0 slots i) no_slot
  unfolding scan_entries
  scan_entries_free pid [] i b e = refl
  scan_entries_free pid (be ∷ rest) i b e =
      ground (arith, scan_entries_noted pid rest (i + 1) i, scan_entries_free pid rest (i + 1))

  -- A slot that was found lies in the array.
  pub find_from-lt :
      (pid : ℕ) (slots : Slots F) (i j : ℕ) → find_from pid slots i ≡ some j → j < i + length slots
  find_from-lt pid [] i j e = ground arith
  find_from-lt pid (be ∷ rest) i j e = ground (arith, find_from-lt pid rest (i + 1) j)

  -- And it holds the process id.
  pub find_from-get_elem? :
      (pid : ℕ) (slots : Slots F) (i j : ℕ)
      → find_from pid slots i ≡ some j
      → (k : ℕ) × (be : BackendEntry F) × (j ≡ i + k)
        × (get_elem? slots k ≡ some be)
        × (be.backend_pid ≡ pid)
  find_from-get_elem? pid [] i j e = cc
  find_from-get_elem? pid (be ∷ rest) i j e = elim (Bool-cases (be.backend_pid == pid)) [
    | inl t ↦ (0, be, ground arith, refl, ==→eq _ _ t)
    | inr f ↦
        let (k, be', jk, at, p) = find_from-get_elem? pid rest (i + 1) j (ground arith) in
        (suc k, be', omega arith, at, p)
  ]
