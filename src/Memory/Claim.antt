-- ===== src/Memory/Claim.antt =====
-- `pwh_get_or_create_my_backend_entry_impl` against what it is meant to do.
use pg_what_is_happening.Base.{
  ℕ, ◌≡◌, ◌≢◌, ◌≤◌, refl, Bool, true, false, Option, none, some, arith, modify, length,
}
use pg_what_is_happening.Memory.{Slots, no_slot, set_pid, get_or_create_my_backend_entry_impl}
use pg_what_is_happening.Memory.Find.{
  find_pid, find_from-lt, scan_entries-find_from, scan_entries_free,
}

module _ {F : Type 0} where
  abbrev pub create_in : Bool → ℕ → Slots F → Option ℕ → Option ℕ × Slots F
  create_in true pid slots (some i) = (some i, modify slots i (set_pid pid))
  create_in true pid slots none = (none, slots)
  create_in false pid slots free = (none, slots)

  abbrev pub claim_in : Bool → ℕ → Slots F → Option ℕ → Option ℕ × Slots F
  claim_in create pid slots (some i) = (some i, slots)
  claim_in create pid slots none = create_in create pid slots (find_pid 0 slots)

  -- The slot that `pid` has; else, to create, the first free one, marked; else none.
  abbrev pub claim : Bool → ℕ → Slots F → Option ℕ × Slots F
  claim create pid slots = claim_in create pid slots (find_pid pid slots)

  get_or_create-split :
      (create : Bool) (pid : ℕ) (slots : Slots F) (found free : Option ℕ)
      → find_pid pid slots ≡ found
      → find_pid 0 slots ≡ free
      → pid ≢ 0
      → length slots ≤ 256
      → get_or_create_my_backend_entry_impl create pid slots ≡ claim create pid slots
  unfolding get_or_create_my_backend_entry_impl
  get_or_create-split create pid slots (some i) free e e0 h b =
      ground (arith, scan_entries-find_from pid slots 0 no_slot h)
  get_or_create-split create pid slots none none e e0 h b =
      ground (arith, scan_entries-find_from pid slots 0 no_slot h, scan_entries_free pid slots 0)
  get_or_create-split create pid slots none (some j) e e0 h b = ground (
    arith,
    scan_entries-find_from pid slots 0 no_slot h,
    scan_entries_free pid slots 0,
    find_from-lt 0 slots 0 j,
  )

  -- For a process id other than 0 and at most 256 slots, the function returns the first slot that
  -- holds this id; if there is none and it may create, it marks the first free slot with the id and
  -- returns that; else it returns NULL. It changes no other slot and, without creating, none.
  pub get_or_create-claim :
      (create : Bool) (pid : ℕ) (slots : Slots F)
      → pid ≢ 0
      → length slots ≤ 256
      → get_or_create_my_backend_entry_impl create pid slots ≡ claim create pid slots
  get_or_create-claim create pid slots h b =
      get_or_create-split create pid slots (find_pid pid slots) (find_pid 0 slots) refl refl h b
