-- ===== src/Locking/Discipline.antt =====
-- Each call of the extension releases just what it acquired, and never waits for itself.
use pg_what_is_happening.Base.{
  ℕ, ◌+◌, ◌≡◌, refl, ap, ◌∙◌, Bool, true, false, not, ◌&&◌, Option, none, some, List, [], ◌∷◌, ◌++◌,
  append_assoc, ◌==◌, ltb, drop, if◌then◌else◌, Bool-cases, inl, inr, arith,
}
use pg_what_is_happening.Doubles.{Doubles}
use pg_what_is_happening.Memory.{
  Slots, is_backend_entry_active, scan_entries, no_slot, get_my_backend_entry,
  get_or_create_my_backend_entry_impl,
}
use pg_what_is_happening.Signal.{QueryDesc, Backend}
use pg_what_is_happening.Status.{Cursor}
use pg_what_is_happening.Hooks.{
  Env, Outcome, completes, raises, State, XactEvent, is_abort_event, is_tracked,
}
use pg_what_is_happening.Http.Request.{HttpRequest}
use pg_what_is_happening.Http.Handler.{is_metrics_request}
use pg_what_is_happening.Locking.{
  Mode, lw_shared, lw_exclusive, LockCall, acquire, release, brief, claim_exit, claim_locks,
  each_entry_locks, next_row_locks, view_locks, metrics_handler_locks, cleanup_callback_locks,
  track_locks, finish_locks, end_hook_locks, start_hook_locks, Call, query_start, query_end,
  transaction_ends, process_exits, view_call, http_request, signal_comes, locks_of,
}

abbrev pub is_none_held : List Mode → Bool
is_none_held [] = true
is_none_held (_ ∷ _) = false

abbrev pub is_exclusive : Mode → Bool
is_exclusive lw_exclusive = true
is_exclusive lw_shared = false

-- How often the lock is held in exclusive mode.
abbrev pub exclusives : List Mode → ℕ
exclusives [] = 0
exclusives (m ∷ held) = (if is_exclusive m then 1 else 0) + exclusives held

-- A process that holds the lock in these modes can make these calls and holds nothing at the end: it
-- never releases what it does not hold, acquires the lock in exclusive mode only while it holds
-- nothing, and in shared mode only while it does not hold it in exclusive mode.
abbrev pub disciplined : List Mode → List LockCall → Bool
disciplined held [] = is_none_held held
disciplined held (acquire lw_shared ∷ calls) =
    exclusives held == 0 && disciplined (lw_shared ∷ held) calls
disciplined held (acquire lw_exclusive ∷ calls) =
    is_none_held held && disciplined (lw_exclusive ∷ held) calls
disciplined [] (release ∷ calls) = false
disciplined (m ∷ held) (release ∷ calls) = disciplined held calls

-- Calls that leave everything as it was, for a process that holds the lock in these modes.
abbrev pub Neutral : List Mode → List LockCall → Type 0
Neutral held calls =
    (rest : List LockCall) → disciplined held (calls ++ rest) ≡ disciplined held rest

Neutral-append :
    (held : List Mode) (a b : List LockCall)
    → Neutral held a
    → Neutral held b
    → Neutral held (a ++ b)
Neutral-append held a b ha hb rest =
    ap (disciplined held) (append_assoc a b rest) ∙ (ha (b ++ rest) ∙ hb rest)

Neutral-if :
    (held : List Mode) (b : Bool) (x y : List LockCall)
    → Neutral held x
    → Neutral held y
    → Neutral held (if b then x else y)
Neutral-if held true x y hx hy = hx
Neutral-if held false x y hx hy = hy

brief_shared-Neutral : (held : List Mode) → exclusives held ≡ 0 → Neutral held (brief lw_shared)
brief_shared-Neutral held e rest = ground arith

module _ {F : Type 0} where
  claim-Neutral :
      (create : Bool) (pid : ℕ) (slots : Slots F) → Neutral [] (claim_locks create pid slots)
  unfolding claim_locks
  claim-Neutral create pid slots = exits (scan_entries pid slots 0 no_slot)
    where
      exits : (r : Option ℕ × ℕ) → Neutral [] (acquire lw_shared ∷ claim_exit create r)
      exits (some i, free) rest = refl
      exits (none, free) rest = elim (Bool-cases (create && not (free == no_slot))) [
        | inl t ↦ rw t refl
        | inr f ↦ rw f refl
      ]

  -- Also while the process holds the lock in shared mode.
  each_entry-Neutral :
      (held : List Mode) (slots : Slots F)
      → exclusives held ≡ 0
      → Neutral held (each_entry_locks slots)
  unfolding each_entry_locks
  each_entry-Neutral held [] e = λ rest. refl
  each_entry-Neutral held (be ∷ slots) e =
      Neutral-append held (brief lw_shared) (each_entry_locks slots) (brief_shared-Neutral held e)
        (each_entry-Neutral held slots e)

  next_row-Neutral : (slots : Slots F) (node_idx : ℕ) → Neutral [] (next_row_locks slots node_idx)
  unfolding next_row_locks
  next_row-Neutral [] node_idx = λ rest. refl
  next_row-Neutral (be ∷ slots) node_idx =
      let found = is_backend_entry_active be && ltb node_idx be.count_of_metrics in
      Neutral-append [] (brief lw_shared) (if found then [] else next_row_locks slots 0)
        (brief_shared-Neutral [] refl)
        (Neutral-if [] found [] (next_row_locks slots 0) (λ rest. refl) (next_row-Neutral slots 0))

  view-Neutral :
      (is_firstcall : Bool) (slots : Slots F) (c : Cursor)
      → Neutral [] (view_locks is_firstcall slots c)
  unfolding view_locks
  view-Neutral is_firstcall slots c =
      Neutral-append [] (if is_firstcall then brief lw_shared else [])
        (next_row_locks (drop c.slot_idx slots) c.node_idx)
        (Neutral-if [] is_firstcall (brief lw_shared) [] (λ rest. refl) (λ rest. refl))
        (next_row-Neutral (drop c.slot_idx slots) c.node_idx)

  -- The handler holds the lock in shared mode while it acquires it again for each slot, twice.
  handler-Neutral :
      (req : HttpRequest) (slots : Slots F) → Neutral [] (metrics_handler_locks req slots)
  unfolding metrics_handler_locks
  handler-Neutral req slots = Neutral-if [] (is_metrics_request req) _ [] within (λ rest. refl)
    where
      entries : Neutral (lw_shared ∷ []) (each_entry_locks slots)
      entries = each_entry-Neutral (lw_shared ∷ []) slots refl

      within :
          Neutral [] (
            acquire lw_shared
            ∷ (each_entry_locks slots ++ (each_entry_locks slots ++ release ∷ [])))
      within rest =
          let loop = each_entry_locks slots in
          ap (disciplined (lw_shared ∷ [])) (
            append_assoc loop (loop ++ release ∷ []) rest
            ∙ ap (◌++◌ loop) (append_assoc loop (release ∷ []) rest))
          ∙ (entries (loop ++ release ∷ rest) ∙ entries (release ∷ rest))

  cleanup_callback-Neutral :
      (event : XactEvent) (b : Backend F) → Neutral [] (cleanup_callback_locks event b)
  unfolding cleanup_callback_locks
  cleanup_callback-Neutral event b =
      Neutral-if [] (is_abort_event event) (if b.is_enabled then brief lw_shared else []) []
        (Neutral-if [] b.is_enabled (brief lw_shared) [] (λ rest. refl) (λ rest. refl))
        (λ rest. refl)

  finish-Neutral : (o : Outcome F) (found : Option ℕ) → Neutral [] (finish_locks o found)
  finish-Neutral o none = λ rest. refl
  finish-Neutral completes (some i) = λ rest. refl
  finish-Neutral (raises ms) (some i) = λ rest. refl

  track-Neutral : (o : Outcome F) (found : Option ℕ) → Neutral [] (track_locks o found)
  track-Neutral o none = λ rest. refl
  track-Neutral completes (some i) = λ rest. refl
  track-Neutral (raises ms) (some i) = λ rest. refl

  end_hook-Neutral : (o : Outcome F) (s : State F) → Neutral [] (end_hook_locks o s)
  unfolding end_hook_locks
  end_hook-Neutral o s =
      let found = get_my_backend_entry s.backend.my_proc_pid s.slots in
      Neutral-if [] (s.backend.is_enabled && s.backend.was_initialized)
        (claim_locks false s.backend.my_proc_pid s.slots ++ finish_locks o found) []
        (Neutral-append [] (claim_locks false s.backend.my_proc_pid s.slots) (finish_locks o found)
          (claim-Neutral false s.backend.my_proc_pid s.slots) (finish-Neutral o found))
        (λ rest. refl)

module _ {F : Type 0} (d : Doubles F) (env : Env F) where
  start_hook-Neutral :
      (qd : QueryDesc F) (o : Outcome F) (s : State F) → Neutral [] (start_hook_locks d env qd o s)
  unfolding start_hook_locks
  start_hook-Neutral qd o s =
      let pid = s.backend.my_proc_pid in
      let found = (get_or_create_my_backend_entry_impl true pid s.slots).0 in
      Neutral-if [] (is_tracked d env qd s.backend)
        (claim_locks true pid s.slots ++ track_locks o found) []
        (Neutral-append [] (claim_locks true pid s.slots) (track_locks o found)
          (claim-Neutral true pid s.slots) (track-Neutral o found))
        (λ rest. refl)

  pub locks_of-Neutral : (c : Call F) → Neutral [] (locks_of d env c)
  unfolding locks_of
  locks_of-Neutral (query_start qd o s) = start_hook-Neutral qd o s
  locks_of-Neutral (query_end o s) = end_hook-Neutral o s
  locks_of-Neutral (transaction_ends event b) = cleanup_callback-Neutral event b
  locks_of-Neutral process_exits = λ rest. refl
  locks_of-Neutral (view_call is_firstcall slots c) = view-Neutral is_firstcall slots c
  locks_of-Neutral (http_request req slots) = handler-Neutral req slots
  locks_of-Neutral signal_comes = λ rest. refl
