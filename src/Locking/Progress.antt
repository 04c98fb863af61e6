-- ===== src/Locking/Progress.antt =====
-- The lock of src/shared_memory.c never holds up all processes for good.
use pg_what_is_happening.Base.{
  &&-eq-true, ℕ, suc, ◌+◌, ◌≤◌, ◌≡◌, ◌≢◌, refl, sym, ap, ◌∙◌, true, some, List, [], ◌∷◌, length,
  ==→eq, ◌⊎◌, inl, inr, Bool-cases, arith, ◌==◌,
}
use pg_what_is_happening.Doubles.{Doubles}
use pg_what_is_happening.Hooks.{Env}
use pg_what_is_happening.Locking.{Mode, lw_shared, lw_exclusive, LockCall, acquire, release, Call}
use pg_what_is_happening.Locking.Discipline.{exclusives, disciplined, locks_of-Neutral}
use pg_what_is_happening.Locking.System.{
  LwLock, LockUser, Processes, holders, exclusive_holders, remaining, next_call, step_at, step, Run,
  begin, more, all_locks, at_start,
}
use pg_what_is_happening.Locking.Steps.{
  exclusives-le, exclusive_holders-le, Obey, Exclusion, step_at-Stepped, Moves-Exclusion,
}

module _ (lock : LwLock) where
  -- Some process of the list can make its next call.
  abbrev CanStep : ℕ → ℕ → Processes → Type 0
  CanStep n x ps = (i : ℕ) × (qs : Processes) × (step_at lock n x i ps ≡ some qs)

  CanStep-head :
      (n x : ℕ) (p q : LockUser) (ps : Processes)
      → next_call lock n x p.held p.calls ≡ some q
      → CanStep n x (p ∷ ps)
  unfolding step_at
  CanStep-head n x p q ps h = (0, q ∷ ps, rw (h, step_at) refl)

  CanStep-tail : (n x : ℕ) (p : LockUser) (ps : Processes) → CanStep n x ps → CanStep n x (p ∷ ps)
  unfolding step_at
  CanStep-tail n x p ps (i, qs, h) = (suc i, p ∷ qs, rw (h, step_at) refl)

  -- The next call of a process that holds nothing while nobody does.
  free_call :
      (n x : ℕ) (held : List Mode) (calls : List LockCall)
      → n ≡ 0
      → x ≡ 0
      → length held ≡ 0
      → disciplined held calls ≡ true
      → (length calls ≡ 0) ⊎ ((q : LockUser) × (next_call lock n x held calls ≡ some q))
  unfolding next_call
  free_call n x [] [] nz xz hz ok = inl refl
  free_call n x [] (release ∷ calls) nz xz hz ok = absurd (cc)
  free_call n x [] (acquire lw_shared ∷ calls) nz xz hz ok = inr (
    record { held = lw_shared ∷ []; calls = calls },
    rw (lock.shared_granted n x xz, next_call) refl,
  )
  free_call n x [] (acquire lw_exclusive ∷ calls) nz xz hz ok = inr (
    record { held = lw_exclusive ∷ []; calls = calls },
    rw (lock.exclusive_granted n x nz, next_call) refl,
  )
  free_call n x (m ∷ held) calls nz xz hz ok = absurd (omega arith)

  -- The next call of a process that holds the lock, where a shared mode means that none is exclusive.
  holder_call :
      (n x : ℕ) (m : Mode) (held : List Mode) (calls : List LockCall)
      → (exclusives (m ∷ held) ≡ 0 → x ≡ 0)
      → disciplined (m ∷ held) calls ≡ true
      → (q : LockUser) × (next_call lock n x (m ∷ held) calls ≡ some q)
  unfolding next_call
  holder_call n x m held [] z ok = absurd (cc)
  holder_call n x m held (release ∷ calls) z ok = (record { held = held; calls = calls }, refl)
  holder_call n x m held (acquire lw_exclusive ∷ calls) z ok = absurd (cc)
  holder_call n x m held (acquire lw_shared ∷ calls) z ok =
      let (own, later) =
        &&-eq-true (exclusives (m ∷ held) == 0) (disciplined (lw_shared ∷ m ∷ held) calls) ok in
      (
        record { held = lw_shared ∷ m ∷ held; calls = calls },
        rw (lock.shared_granted n x (z (==→eq (exclusives (m ∷ held)) 0 own)), next_call) refl,
      )

  -- While nobody holds the lock, whoever has a call left can make it.
  free_steps :
      (n x : ℕ) (ps : Processes)
      → n ≡ 0
      → x ≡ 0
      → holders ps ≡ 0
      → Obey ps
      → (remaining ps ≡ 0) ⊎ CanStep n x ps
  free_steps n x [] nz xz hz ok = inl refl
  free_steps n x (p ∷ ps) nz xz hz (ok, oks) =
      pick (free_call n x p.held p.calls nz xz (omega arith) ok)
        (free_steps n x ps nz xz (omega arith) oks)
    where
      pick :
          (length p.calls ≡ 0) ⊎ ((q : LockUser) × (next_call lock n x p.held p.calls ≡ some q))
          → (remaining ps ≡ 0) ⊎ CanStep n x ps
          → (length p.calls + remaining ps ≡ 0) ⊎ CanStep n x (p ∷ ps)
      pick (inr (q, h)) later = inr (CanStep-head n x p q ps h)
      pick (inl z) (inl z') = inl (omega arith)
      pick (inl z) (inr c) = inr (CanStep-tail n x p ps c)

  -- If somebody holds the lock, one who does can make the next call.
  holder_steps :
      (n x k j : ℕ) (ps : Processes)
      → n ≡ k + holders ps
      → x ≡ j + exclusive_holders ps
      → j ≤ k
      → (x ≡ 0) ⊎ (n ≡ 1)
      → holders ps ≢ 0
      → Obey ps
      → CanStep n x ps
  holder_steps n x k j [] en ex jk s ne ok = absurd (ne refl)
  holder_steps n x k j (p ∷ ps) en ex jk s ne (ok, oks) =
      by_held
        (λ (z : holders ps ≢ 0).
          holder_steps n x (k + length p.held) (j + exclusives p.held) ps (omega arith)
            (omega arith) (omega (arith, exclusives-le p.held)) s z oks)
        p.held refl
    where
      room : (own : ℕ) → exclusives p.held ≡ 0 → length p.held ≡ own + 1 → x ≡ 0
      room own z l = elim s [ inl h ↦ h | inr h ↦ omega (arith, exclusive_holders-le ps) ]

      by_held :
          (holders ps ≢ 0 → CanStep n x ps)
          → (held : List Mode) → p.held ≡ held
          → CanStep n x (p ∷ ps)
      by_held later [] e = CanStep-tail n x p ps (later (omega (arith, ap length e)))
      by_held later (m ∷ held) e =
          let (q, h) =
            holder_call n x m held p.calls
              (λ z. room (length held) (ap exclusives e ∙ z) (ap length e ∙ omega arith))
              (ap (λ l. disciplined l p.calls) (sym e) ∙ ok) in
          CanStep-head n x p q ps (ap (λ l. next_call lock n x l p.calls) e ∙ h)

  progress :
      (ps : Processes)
      → Obey ps
      → Exclusion ps
      → (remaining ps ≡ 0) ⊎ CanStep (holders ps) (exclusive_holders ps) ps
  progress ps ok s = elim (Bool-cases (holders ps == 0)) [
    | inl z ↦
        free_steps (holders ps) (exclusive_holders ps) ps (ground arith)
          (ground (arith, exclusive_holders-le ps)) (ground arith) ok
    | inr some_held ↦ inr (
        holder_steps (holders ps) (exclusive_holders ps) 0 0 ps (omega arith) (omega arith)
          (omega arith) s (ground arith) ok)
  ]

module _ {F : Type 0} (d : Doubles F) (env : Env F) where
  all_locks-disciplined : (cs : List (Call F)) → disciplined [] (all_locks d env cs) ≡ true
  all_locks-disciplined [] = refl
  all_locks-disciplined (c ∷ cs) =
      locks_of-Neutral d env c (all_locks d env cs) ∙ all_locks-disciplined cs

  at_start-Obey : (css : List (List (Call F))) → Obey (at_start d env css)
  at_start-Obey [] = tt
  at_start-Obey (cs ∷ css) = (all_locks-disciplined cs, at_start-Obey css)

  at_start-free : (css : List (List (Call F))) → exclusive_holders (at_start d env css) ≡ 0
  at_start-free [] = refl
  at_start-free (cs ∷ css) = omega (arith, at_start-free css)

  Run-Obey :
      (lock : LwLock) (css : List (List (Call F))) {n : ℕ} {ps : Processes}
      → Run lock (at_start d env css) n ps
      → Obey ps × Exclusion ps × (n + remaining ps ≡ remaining (at_start d env css))
  Run-Obey lock css begin = (at_start-Obey css, inl (at_start-free css), omega arith)
  Run-Obey lock css (more {n} {qs} {rs} i r e) =
      let (ok, s, count) = Run-Obey lock css r in
      let (ok', left, moves) =
        step_at-Stepped lock (holders qs) (exclusive_holders qs) i qs rs ok e in
      (ok', Moves-Exclusion lock qs rs s moves, omega arith)

  -- Let the processes of a server go through any calls of the extension's hooks, callbacks, view,
  -- request handler and signal handler, and get their turns in any order. Then nobody holds the lock
  -- in exclusive mode, or one process does and nobody holds it besides; each step makes one of the
  -- lock calls that were left at the start; and while any are left, some process can make its next
  -- one; if LWLockAcquire waits as PostgreSQL documents it.
  pub lock_progress :
      (lock : LwLock) (css : List (List (Call F))) {n : ℕ} {ps : Processes}
      → Run lock (at_start d env css) n ps
      → Exclusion ps
        × (n + remaining ps ≡ remaining (at_start d env css))
        × ((remaining ps ≡ 0) ⊎ ((i : ℕ) × (qs : Processes) × (step lock i ps ≡ some qs)))
  lock_progress lock css {n} {ps} r =
      let (ok, s, count) = Run-Obey lock css r in (s, count, progress lock ps ok s)
