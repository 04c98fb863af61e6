-- ===== src/Hooks/Entry.antt =====
-- How the hooks of src/pg_what_is_happening.c change the slots: the lemmas on one slot.
use native.Mathlib.Nat.{zero-add}
use pg_what_is_happening.Base.{
  ℕ, zero, suc, ◌+◌, ◌≤◌, ◌≡◌, ◌≢◌, ◌⊎◌, refl, sym, ap, ◌∙◌, inl, inr, false, Option, none, some,
  [], ◌∷◌, arith, ◌==◌, modify, length, All, Bool-cases,
}
use pg_what_is_happening.Memory.{BackendEntry, Slots, get_my_backend_entry}
use pg_what_is_happening.Memory.Find.{find_pid, find_from}
use pg_what_is_happening.Memory.Claim.{claim, get_or_create-claim}
use pg_what_is_happening.Memory.Distinct.{Absent, Distinct}

module _ {F : Type 0} where
  -- `get_my_backend_entry` is the search.
  claim_none :
      (pid : ℕ) (slots : Slots F) (found : Option ℕ)
      → find_pid pid slots ≡ found
      → (claim false pid slots).0 ≡ found
  claim_none pid slots none e = rw e
  claim_none pid slots (some i) e = rw e

  pub get_my-find_pid :
      (pid : ℕ) (slots : Slots F)
      → pid ≢ 0
      → length slots ≤ 256
      → get_my_backend_entry pid slots ≡ find_pid pid slots
  get_my-find_pid pid slots h b =
      ap (λ r. r.0) (get_or_create-claim false pid slots h b)
      ∙ claim_none pid slots (find_pid pid slots) refl

  find_from-ge : (pid : ℕ) (slots : Slots F) (k j : ℕ) → find_from pid slots k ≡ some j → k ≤ j
  find_from-ge pid [] k j e = cc
  find_from-ge pid (be ∷ rest) k j e = ground (arith, find_from-ge pid rest (k + 1) j)

  -- A change that frees the slot that was found leaves the process with none.
  free_at :
      (pid : ℕ) (slots : Slots F) (k i : ℕ) (f : BackendEntry F → BackendEntry F)
      → pid ≢ 0
      → ((be : BackendEntry F) → be.backend_pid ≡ pid → (f be).backend_pid ≡ 0)
      → Distinct slots
      → find_from pid slots k ≡ some (k + i)
      → Absent pid (modify slots i f)
  free_at pid [] k i f h z d e = tt
  free_at pid (be ∷ rest) k zero f h z d e = elim (Bool-cases (be.backend_pid == pid)) [
    | inl t ↦ ground (arith, z be)
    | inr n ↦ absurd (omega (arith, find_from-ge pid rest (k + 1) (k + 0) (ground arith)))
  ]
  free_at pid (be ∷ rest) k (suc i) f h z d e = elim (Bool-cases (be.backend_pid == pid)) [
    | inl t ↦ ground arith
    | inr n ↦ (ground arith, free_at pid rest (k + 1) i f h z d.1 (ground arith))
  ]

  pub free_found :
      (pid : ℕ) (slots : Slots F) (i : ℕ) (f : BackendEntry F → BackendEntry F)
      → pid ≢ 0
      → ((be : BackendEntry F) → be.backend_pid ≡ pid → (f be).backend_pid ≡ 0)
      → Distinct slots
      → find_pid pid slots ≡ some i
      → Absent pid (modify slots i f)
  free_found pid slots i f h z d e = free_at pid slots 0 i f h z d (e ∙ ap some (sym (zero-add i)))

  -- A change that keeps a slot's process, or frees it.
  abbrev pub KeepsPid : (BackendEntry F → BackendEntry F) → Type 0
  KeepsPid f =
      (be : BackendEntry F) → ((f be).backend_pid ≡ be.backend_pid) ⊎ ((f be).backend_pid ≡ 0)

  modify-Absent :
      (q : ℕ) (slots : Slots F) (i : ℕ) (f : BackendEntry F → BackendEntry F)
      → q ≢ 0
      → KeepsPid f
      → Absent q slots
      → Absent q (modify slots i f)
  modify-Absent q [] i f h k a = tt
  modify-Absent q (be ∷ rest) zero f h k a = ground (arith, k be)
  modify-Absent q (be ∷ rest) (suc i) f h k a = (a.0, modify-Absent q rest i f h k a.1)

  pub modify-Distinct :
      (slots : Slots F) (i : ℕ) (f : BackendEntry F → BackendEntry F)
      → KeepsPid f
      → Distinct slots
      → Distinct (modify slots i f)
  modify-Distinct [] i f k d = tt
  modify-Distinct (be ∷ rest) zero f k d = ground (arith, k be)
  modify-Distinct (be ∷ rest) (suc i) f k d =
      ground (arith, modify-Absent be.backend_pid rest i f, modify-Distinct rest i f k)

  pub All-modify :
      (P : BackendEntry F → Type 0) (slots : Slots F) (i : ℕ) (f : BackendEntry F → BackendEntry F)
      → ((be : BackendEntry F) → P be → P (f be))
      → All P slots
      → All P (modify slots i f)
  All-modify P [] i f h a = tt
  All-modify P (be ∷ rest) zero f h a = (h be a.0, a.1)
  All-modify P (be ∷ rest) (suc i) f h a = (a.0, All-modify P rest i f h a.1)

  -- Where every slot keeps its process, so does the search.
  pub find_from-modify :
      (pid : ℕ) (slots : Slots F) (k i : ℕ) (f : BackendEntry F → BackendEntry F)
      → ((be : BackendEntry F) → (f be).backend_pid ≡ be.backend_pid)
      → find_from pid (modify slots i f) k ≡ find_from pid slots k
  find_from-modify pid [] k i f h = refl
  find_from-modify pid (be ∷ rest) k zero f h = rw (h be)
  find_from-modify pid (be ∷ rest) k (suc i) f h = rw (find_from-modify pid rest (k + 1) i f h)
