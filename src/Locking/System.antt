-- ===== src/Locking/System.antt =====
-- The processes of a server with the lock of src/shared_memory.c between them, one call of the lock
-- being one step.
use pg_what_is_happening.Base.{
  ℕ, zero, suc, ◌+◌, ◌≡◌, Bool, true, Option, none, some, List, [], ◌∷◌, ◌++◌, if◌then◌else◌,
  length,
}
use pg_what_is_happening.Doubles.{Doubles}
use pg_what_is_happening.Hooks.{Env}
use pg_what_is_happening.Locking.{
  Mode, lw_shared, lw_exclusive, LockCall, acquire, release, Call, locks_of,
}
use pg_what_is_happening.Locking.Discipline.{exclusives}

-- What PostgreSQL documents of LWLockAcquire: whether it goes on or waits, by how often the lock is
-- held, and how often in exclusive mode, by all processes together. It goes on in exclusive mode
-- only if nobody holds the lock, and in shared mode only if nobody holds it in exclusive mode; and it
-- does not wait for longer.
pub record LwLock : Type 0 where
  pub grants : Mode → ℕ → ℕ → Bool
  pub shared_sound : (n x : ℕ) → grants lw_shared n x ≡ true → x ≡ 0
  pub shared_granted : (n x : ℕ) → x ≡ 0 → grants lw_shared n x ≡ true
  pub exclusive_sound : (n x : ℕ) → grants lw_exclusive n x ≡ true → n ≡ 0
  pub exclusive_granted : (n x : ℕ) → n ≡ 0 → grants lw_exclusive n x ≡ true

-- The modes in which a process holds the lock, the last first, and the calls that it still makes.
pub record LockUser : Type 0 where
  pub held : List Mode
  pub calls : List LockCall

abbrev pub Processes : Type 0
Processes = List LockUser

-- How often the lock is held, and how often in exclusive mode.
abbrev pub holders : Processes → ℕ
holders [] = 0
holders (p ∷ ps) = length p.held + holders ps

abbrev pub exclusive_holders : Processes → ℕ
exclusive_holders [] = 0
exclusive_holders (p ∷ ps) = exclusives p.held + exclusive_holders ps

-- How many calls are still to be made.
abbrev pub remaining : Processes → ℕ
remaining [] = 0
remaining (p ∷ ps) = length p.calls + remaining ps

module _ (lock : LwLock) where
  -- The next call of a process: none if it waits, has no call, or releases what it does not hold,
  -- which is an error in PostgreSQL.
  unfoldable pub next_call : ℕ → ℕ → List Mode → List LockCall → Option LockUser
  next_call n x held [] = none
  next_call n x held (acquire m ∷ calls) =
      if lock.grants m n x then some (record { held = m ∷ held; calls = calls }) else none
  next_call n x [] (release ∷ calls) = none
  next_call n x (m ∷ held) (release ∷ calls) = some (record { held = held; calls = calls })

  unfoldable pub step_at : ℕ → ℕ → ℕ → Processes → Option Processes
  unfolding next_call
  step_at n x i [] = none
  step_at n x zero (p ∷ ps) = elim (next_call n x p.held p.calls) [
    | none ↦ none
    | some q ↦ some (q ∷ ps)
  ]
  step_at n x (suc i) (p ∷ ps) = elim (step_at n x i ps) [ none ↦ none | some qs ↦ some (p ∷ qs) ]

  -- The process of number `i` makes its next call.
  abbrev pub step : ℕ → Processes → Option Processes
  step i ps = step_at (holders ps) (exclusive_holders ps) i ps

  -- What the processes come to in so many steps, in whatever order they get their turns.
  pub data Run (ps : Processes) : ℕ → Processes → Type 0 where
    begin : Run ps 0 ps
    more :
        {n : ℕ} {qs rs : Processes} (i : ℕ) → Run ps n qs → step i qs ≡ some rs → Run ps (suc n) rs

module _ {F : Type 0} (d : Doubles F) (env : Env F) where
  -- The calls of the extension that a process makes, one after the other.
  abbrev pub all_locks : List (Call F) → List LockCall
  all_locks [] = []
  all_locks (c ∷ cs) = locks_of d env c ++ all_locks cs

  -- Each process before its first call.
  abbrev pub at_start : List (List (Call F)) → Processes
  at_start [] = []
  at_start (cs ∷ css) = record { held = []; calls = all_locks cs } ∷ at_start css
