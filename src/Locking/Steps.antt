-- ===== src/Locking/Steps.antt =====
-- What a step of a process with the lock of src/shared_memory.c keeps: the discipline of each process,
-- and that nobody shares the lock with a holder in exclusive mode.
use mathlib.Core.Path.{subst}
use pg_what_is_happening.Base.{
  &&-eq-true, ℕ, zero, suc, ◌+◌, ◌≤◌, ◌≡◌, Bool, true, false, none, some, List, [], ◌∷◌,
  if◌then◌else◌, length, All, ◌⊎◌, inl, inr, Bool-cases, Option-cases, arith, ◌==◌,
}
use pg_what_is_happening.Locking.{Mode, lw_shared, lw_exclusive, LockCall, acquire, release}
use pg_what_is_happening.Locking.Discipline.{is_none_held, exclusives, disciplined}
use pg_what_is_happening.Locking.System.{
  LwLock, LockUser, Processes, holders, exclusive_holders, remaining, next_call, step_at,
}

pub exclusives-le : (held : List Mode) → exclusives held ≤ length held
exclusives-le [] = omega arith
exclusives-le (lw_shared ∷ held) = omega (arith, exclusives-le held)
exclusives-le (lw_exclusive ∷ held) = omega (arith, exclusives-le held)

pub exclusive_holders-le : (ps : Processes) → exclusive_holders ps ≤ holders ps
exclusive_holders-le [] = omega arith
exclusive_holders-le (p ∷ ps) = omega (arith, exclusives-le p.held, exclusive_holders-le ps)

abbrev pub Obey : Processes → Type 0
Obey ps = All (λ p. disciplined p.held p.calls ≡ true) ps

-- Nobody holds the lock in exclusive mode, or one does, and nobody holds it besides.
abbrev pub Exclusion : Processes → Type 0
Exclusion ps = (exclusive_holders ps ≡ 0) ⊎ (holders ps ≡ 1)

-- A granted acquisition in shared mode, one in exclusive mode, or a release: what it makes of the
-- number of holders `a`, and of exclusive holders `b`.
abbrev pub Moves : ℕ → ℕ → ℕ → ℕ → ℕ → ℕ → Type 0
Moves n x a b a' b' =
    ((x ≡ 0) × (a' ≡ a + 1) × (b' ≡ b))
    ⊎ (((n ≡ 0) × (a' ≡ a + 1) × (b' ≡ b + 1)) ⊎ ((a ≡ a' + 1) × (b' ≤ b)))

Moves-left :
    (n x a b a' b' k j : ℕ) → Moves n x a b a' b' → Moves n x (k + a) (j + b) (k + a') (j + b')
Moves-left n x a b a' b' k j (inl h) = inl (omega arith)
Moves-left n x a b a' b' k j (inr (inl h)) = inr (inl (omega arith))
Moves-left n x a b a' b' k j (inr (inr h)) = inr (inr (omega arith))

Moves-right :
    (n x a b a' b' k j : ℕ) → Moves n x a b a' b' → Moves n x (a + k) (b + j) (a' + k) (b' + j)
Moves-right n x a b a' b' k j (inl h) = inl (omega arith)
Moves-right n x a b a' b' k j (inr (inl h)) = inr (inl (omega arith))
Moves-right n x a b a' b' k j (inr (inr h)) = inr (inr (omega arith))

module _ (lock : LwLock) where
  -- What a call of one process changes.
  abbrev Called : ℕ → ℕ → List Mode → List LockCall → LockUser → Type 0
  Called n x held calls q =
      (disciplined q.held q.calls ≡ true)
      × (length calls ≡ length q.calls + 1)
      × Moves n x (length held) (exclusives held) (length q.held) (exclusives q.held)

  refused : (p q : LockUser) {b : Bool} → (if b then some p else none) ≡ some q → b ≡ false → ⊥
  refused p q e f = ground arith

  granted :
      (held : List Mode) (calls : List LockCall) (q : LockUser)
      → (if true then some (record { held = held; calls = calls }) else none) ≡ some q
      → record { held = held; calls = calls } ≡ q
  granted held calls q e = cc

  next_call-Called :
      (n x : ℕ) (held : List Mode) (calls : List LockCall) (q : LockUser)
      → disciplined held calls ≡ true
      → next_call lock n x held calls ≡ some q
      → Called n x held calls q
  unfolding next_call
  next_call-Called n x held [] q ok e = absurd (cc)
  next_call-Called n x [] (release ∷ calls) q ok e = absurd (cc)
  next_call-Called n x (m ∷ held) (release ∷ calls) q ok e =
      let same : record { held = held; calls = calls } ≡ q = cc in
      subst (Called n x (m ∷ held) (release ∷ calls)) same
        (ok, omega arith, inr (inr (omega arith)))
  next_call-Called n x held (acquire lw_shared ∷ calls) q ok e =
      elim (Bool-cases (lock.grants lw_shared n x)) [
        | inr f ↦ absurd (refused _ q e f)
        | inl t ↦
            let (none_exclusive, later) =
              &&-eq-true (exclusives held == 0) (disciplined (lw_shared ∷ held) calls) ok in
            subst (Called n x held (acquire lw_shared ∷ calls))
              (granted (lw_shared ∷ held) calls q (rw t at e))
              (later, omega arith, inl (lock.shared_sound n x t, omega arith, omega arith))
      ]
  next_call-Called n x held (acquire lw_exclusive ∷ calls) q ok e =
      elim (Bool-cases (lock.grants lw_exclusive n x)) [
        | inr f ↦ absurd (refused _ q e f)
        | inl t ↦
            let (nothing, later) =
              &&-eq-true (is_none_held held) (disciplined (lw_exclusive ∷ held) calls) ok in
            subst (Called n x held (acquire lw_exclusive ∷ calls))
              (granted (lw_exclusive ∷ held) calls q (rw t at e))
              (later, omega arith, inr (inl (lock.exclusive_sound n x t, omega arith, omega arith)))
      ]

  -- What a step changes, in the whole list.
  abbrev pub Stepped : ℕ → ℕ → Processes → Processes → Type 0
  Stepped n x ps qs =
      Obey qs
      × (remaining ps ≡ remaining qs + 1)
      × Moves n x (holders ps) (exclusive_holders ps) (holders qs) (exclusive_holders qs)

  pub step_at-Stepped :
      (n x i : ℕ) (ps qs : Processes)
      → Obey ps
      → step_at lock n x i ps ≡ some qs
      → Stepped n x ps qs
  unfolding step_at
  step_at-Stepped n x i [] qs ok e = absurd (cc)
  step_at-Stepped n x zero (p ∷ ps) qs (ok, oks) e =
      elim (Option-cases (next_call lock n x p.held p.calls)) [
        | inl f ↦ absurd (nothing (rw (f, step_at) at e))
        | inr (q, h) ↦
            let (ok', counts, moves) = next_call-Called n x p.held p.calls q ok h in
            subst (Stepped n x (p ∷ ps)) (moved q (rw (h, step_at) at e)) (
              (ok', oks),
              omega arith,
              Moves-right n x (length p.held) (exclusives p.held) (length q.held)
                  (exclusives q.held) (holders ps) (exclusive_holders ps) moves,
            )
      ]
    where
      nothing : none ≡ some qs → ⊥
      nothing e = cc

      moved : (q : LockUser) → some (q ∷ ps) ≡ some qs → q ∷ ps ≡ qs
      moved q e = cc
  step_at-Stepped n x (suc i) (p ∷ ps) qs (ok, oks) e =
      elim (Option-cases (step_at lock n x i ps)) [
        | inl f ↦ absurd (nothing (rw (f, step_at) at e))
        | inr (rs, h) ↦
            let (oks', counts, moves) = step_at-Stepped n x i ps rs oks h in
            subst (Stepped n x (p ∷ ps)) (moved rs (rw (h, step_at) at e)) (
              (ok, oks'),
              omega arith,
              Moves-left n x (holders ps) (exclusive_holders ps) (holders rs) (exclusive_holders rs)
                  (length p.held) (exclusives p.held) moves,
            )
      ]
    where
      nothing : none ≡ some qs → ⊥
      nothing e = cc

      moved : (rs : Processes) → some (p ∷ rs) ≡ some qs → p ∷ rs ≡ qs
      moved rs e = cc

  pub Moves-Exclusion :
      (ps qs : Processes)
      → Exclusion ps
      → Moves
          (holders ps)
          (exclusive_holders ps)
          (holders ps)
          (exclusive_holders ps)
          (holders qs)
          (exclusive_holders qs)
      → Exclusion qs
  Moves-Exclusion ps qs s (inl h) = inl (omega arith)
  Moves-Exclusion ps qs s (inr (inl h)) = inr (omega arith)
  Moves-Exclusion ps qs (inl z) (inr (inr h)) = inl (omega arith)
  Moves-Exclusion ps qs (inr o) (inr (inr h)) = inl (omega (arith, exclusive_holders-le qs))
