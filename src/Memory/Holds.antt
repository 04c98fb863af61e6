-- ===== src/Memory/Holds.antt =====
-- Who holds a slot of src/shared_memory.c.
use pg_what_is_happening.Base.{
  ℕ, ◌+◌, ◌≡◌, refl, ◌∙◌, true, Option, none, some, arith, get_elem?, get_elem?-modify_self,
}
use pg_what_is_happening.Memory.{Slots, BackendEntry, set_pid}
use pg_what_is_happening.Memory.Find.{find_pid, find_from-get_elem?}
use pg_what_is_happening.Memory.Claim.{claim}

module _ {F : Type 0} where
  -- The process `pid` has the slot `i`.
  abbrev pub Holds : Slots F → ℕ → ℕ → Type 0
  Holds slots pid i = (be : BackendEntry F) × (get_elem? slots i ≡ some be) × (be.backend_pid ≡ pid)

  pub find_pid-Holds :
      (pid : ℕ) (slots : Slots F) (i : ℕ) → find_pid pid slots ≡ some i → Holds slots pid i
  find_pid-Holds pid slots i e =
      let (k, be, ik, at, p) = find_from-get_elem? pid slots 0 i e in (be, rw (show ik) at, p)
    where
      show : {k : ℕ} → i ≡ 0 + k → i ≡ k
      show h = omega arith

  -- The caller gets a slot that holds its id.
  pub claim-Holds :
      (pid : ℕ) (slots : Slots F) (found free : Option ℕ) (i : ℕ)
      → find_pid pid slots ≡ found
      → find_pid 0 slots ≡ free
      → (claim true pid slots).0 ≡ some i
      → Holds (claim true pid slots).1 pid i
  claim-Holds pid slots (some k) free i e e0 h = rw e (find_pid-Holds pid slots i (e ∙ (rw e at h)))
  claim-Holds pid slots none none i e e0 h = ground arith
  claim-Holds pid slots none (some j) i e e0 h =
      rw (e, e0)
        (let ij : j ≡ i = ground arith in
          rw (← ij) (
            let (be, at, p) = find_pid-Holds 0 slots j e0 in
            (set_pid pid be, get_elem?-modify_self slots j (set_pid pid) at, refl)))
