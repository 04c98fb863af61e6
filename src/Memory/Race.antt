-- ===== src/Memory/Race.antt =====
-- Backends that claim slots at the same time. `pwh_get_or_create_my_backend_entry_impl` takes the
-- lock in shared mode, so the search of one backend can fall between the search and the write of
-- another. A search is one step here, and so is the write that follows it.
use pg_what_is_happening.Base.{
  ℕ, zero, suc, ◌<◌, ◌≤◌, ◌≡◌, ◌≢◌, refl, sym, ap, ◌∙◌, get_elem?, get_elem?-modify_self, true,
  Option, none, some, [], ◌∷◌, arith, ◌==◌, if◌then◌else◌, modify, length,
}
use pg_what_is_happening.Memory.{BackendEntry, Slots, no_slot, set_pid, scan_entries, finish_claim}
use pg_what_is_happening.Memory.Find.{
  find_pid, find_from-lt, find_from-get_elem?, scan_entries-find_from, scan_entries_free,
}
use pg_what_is_happening.Memory.Distinct.{Absent, Absent-find_from}

-- Where a backend is in the function.
pub data Phase : Type 0 where
  idle : Phase
  searched : Option ℕ → ℕ → Phase
  returned : Option ℕ → Phase

pub record System (F : Type 0) : Type 0 where
  pub slots : Slots F
  pub phase : ℕ → Phase

abbrev pub enter : (ℕ → Phase) → ℕ → Phase → ℕ → Phase
enter phase pid ph q = if q == pid then ph else phase q

module _ {F : Type 0} where
  abbrev pub after_search : System F → ℕ → System F
  after_search s pid = record s {
    phase =
        enter s.phase pid
          (searched (scan_entries pid s.slots 0 no_slot).0 (scan_entries pid s.slots 0 no_slot).1);
  }

  abbrev pub after_write : System F → ℕ → Option ℕ → ℕ → System F
  after_write s pid found free = record {
    slots = (finish_claim true pid s.slots (found, free)).1;
    phase = enter s.phase pid (returned (finish_claim true pid s.slots (found, free)).0);
  }

  -- The lock in shared mode, as the code takes it.
  pub data SharedStep : System F → System F → Type 0 where
    search_slots : (s : System F) (pid : ℕ) → s.phase pid ≡ idle → SharedStep s (after_search s pid)
    write_slot :
        (s : System F) (pid : ℕ) (found : Option ℕ) (free : ℕ)
        → s.phase pid ≡ searched found free
        → SharedStep s (after_write s pid found free)

  pub data SharedReach (s : System F) : System F → Type 0 where
    here : SharedReach s s
    next : {t u : System F} → SharedReach s t → SharedStep t u → SharedReach s u

  search-Absent :
      (pid : ℕ) (slots : Slots F) (i : ℕ)
      → pid ≢ 0
      → length slots ≤ 256
      → Absent pid slots
      → find_pid 0 slots ≡ some i
      → scan_entries pid slots 0 no_slot ≡ (none, i)
  search-Absent pid slots i h b a e = ground (
    arith,
    scan_entries-find_from pid slots 0 no_slot h,
    Absent-find_from pid slots 0 a,
    scan_entries_free pid slots 0,
  )

  overwrite-Absent :
      (p q : ℕ) (slots : Slots F) (i : ℕ)
      → q ≢ p
      → Absent p slots
      → Absent p (modify (modify slots i (set_pid p)) i (set_pid q))
  overwrite-Absent p q [] i h a = tt
  overwrite-Absent p q (be ∷ rest) zero h a = (h, a.1)
  overwrite-Absent p q (be ∷ rest) (suc i) h a = (a.0, overwrite-Absent p q rest i h a.1)

  finish_free :
      (pid : ℕ) (slots : Slots F) (i : ℕ)
      → i < 256
      → finish_claim true pid slots (none, i) ≡ (some i, modify slots i (set_pid pid))
  unfolding finish_claim
  finish_free pid slots i h = ground arith

  module _ (s : System F) (p q i : ℕ) where
    -- Both search before either writes.
    abbrev both_searched : System F
    both_searched = after_search (after_search s p) q

    abbrev raced : System F
    raced = after_write (after_write both_searched p none i) q none i

    raced_reach :
        p ≢ q
        → s.phase p ≡ idle
        → s.phase q ≡ idle
        → scan_entries p s.slots 0 no_slot ≡ (none, i)
        → scan_entries q s.slots 0 no_slot ≡ (none, i)
        → SharedReach s raced
    raced_reach pq hp hq ep eq =
        next
          (next
            (next (next here (search_slots s p hp))
              (search_slots (after_search s p) q (ground arith)))
            (write_slot both_searched p none i (ground arith)))
          (write_slot (after_write both_searched p none i) q none i (ground arith))

    overwritten :
        find_pid 0 s.slots ≡ some i
        → (be : BackendEntry F) × (get_elem? (modify (modify s.slots i (set_pid p)) i (set_pid q)) i
            ≡ some be)
          × (be.backend_pid ≡ q)
    overwritten e =
        let (k, be, ik, at, z) = find_from-get_elem? 0 s.slots 0 i e in
        let same : i ≡ k = omega arith in
        (
          set_pid q (set_pid p be),
          get_elem?-modify_self (modify s.slots i (set_pid p)) i (set_pid q)
              (get_elem?-modify_self s.slots i (set_pid p) (ap (get_elem? s.slots) same ∙ at)),
          refl,
        )

    -- The code's lock admits this: two backends without a slot, idle at a time when the slot `i` is
    -- the first free one, both return it, and then this slot names the second, and none the first.
    pub shared_lock_race :
        p ≢ q
        → p ≢ 0
        → q ≢ 0
        → s.phase p ≡ idle
        → s.phase q ≡ idle
        → length s.slots ≤ 256
        → Absent p s.slots
        → Absent q s.slots
        → find_pid 0 s.slots ≡ some i
        → (u : System F) × SharedReach s u
          × (u.phase p ≡ returned (some i))
          × (u.phase q ≡ returned (some i))
          × Absent p u.slots
          × ((be : BackendEntry F) × (get_elem? u.slots i ≡ some be) × (be.backend_pid ≡ q))
    shared_lock_race pq p0 q0 hp hq b pa qa e = (
      raced,
      raced_reach pq hp hq (search-Absent p s.slots i p0 b pa e)
          (search-Absent q s.slots i q0 b qa e),
      ground (
        arith,
        finish_free p s.slots i,
        finish_free q (finish_claim true p s.slots (none, i)).1 i,
        find_from-lt 0 s.slots 0 i e,
      ),
      ground (
        arith,
        finish_free q (finish_claim true p s.slots (none, i)).1 i,
        find_from-lt 0 s.slots 0 i e,
      ),
      rw (finish_free p s.slots i lt, finish_free q (modify s.slots i (set_pid p)) i lt)
          (overwrite-Absent p q s.slots i (λ qp. pq (sym qp)) pa),
      rw (finish_free p s.slots i lt, finish_free q (modify s.slots i (set_pid p)) i lt)
          (overwritten e),
    )
      where
        lt : i < 256
        lt = omega (arith, find_from-lt 0 s.slots 0 i e)
