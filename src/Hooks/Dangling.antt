-- ===== src/Hooks/Dangling.antt =====
-- Where src/pg_what_is_happening.c loses track of the current query.
use mathlib.Core.Option.{some-injective}
use pg_what_is_happening.Base.{
  ℕ, ◌+◌, ◌≤◌, ◌≡◌, ◌≢◌, ◌⊎◌, inl, inr, refl, sym, ap, ◌∙◌, true, false, Option, none, some, List,
  arith, length, get_elem?-modify_self,
}
use pg_what_is_happening.Doubles.{Doubles}
use pg_what_is_happening.Memory.{
  BackendEntry, NodeMetrics, Slots, get_or_create_my_backend_entry_impl,
}
use pg_what_is_happening.Memory.Find.{find_pid}
use pg_what_is_happening.Memory.Claim.{get_or_create-claim}
use pg_what_is_happening.Memory.Holds.{Holds, claim-Holds}
use pg_what_is_happening.Memory.Distinct.{Absent, Distinct}
use pg_what_is_happening.Signal.{QueryDesc, Handler, Backend}
use pg_what_is_happening.Hooks.{
  Env, Outcome, completes, raises, State, backend_exit_callback, started, is_tracked, initialized,
  initialize_state_once_per_backend, track_in, track_query, fill_entry, query_start_hook,
  query_end_hook,
}
use pg_what_is_happening.Hooks.Release.{query_end-Ended}

-- A setting that is switched off by a reload, between two calls.
abbrev pub disable : {F : Type 0} → State F → State F
disable s = record s { backend = record s.backend { is_enabled = false } }

module _ {F : Type 0} (d : Doubles F) (env : Env F) where
  fill_entry-pid :
      (qd : QueryDesc F) (now : ℕ × ℕ) (pid : ℕ) (be : BackendEntry F)
      → (fill_entry d env qd now pid be).backend_pid ≡ be.backend_pid
  unfolding fill_entry
  fill_entry-pid qd now pid be = refl

  create-Holds :
      (pid : ℕ) (slots : Slots F) (i : ℕ)
      → pid ≢ 0
      → length slots ≤ 256
      → (get_or_create_my_backend_entry_impl true pid slots).0 ≡ some i
      → Holds (get_or_create_my_backend_entry_impl true pid slots).1 pid i
  create-Holds pid slots i h b e = rw (get_or_create-claim true pid slots h b) (
      claim-Holds pid slots (find_pid pid slots) (find_pid 0 slots) i refl refl
        (ap (λ r. r.0) (sym (get_or_create-claim true pid slots h b)) ∙ e))

  track_in-Holds :
      (qd : QueryDesc F) (now : ℕ × ℕ) (b : Backend F) (r : Option ℕ × Slots F) (i : ℕ)
      → r.0 ≡ some i
      → Holds r.1 b.my_proc_pid i
      → ((track_in d env qd now completes b r).backend.current_query_desc ≡ some qd)
        × Holds (track_in d env qd now completes b r).slots b.my_proc_pid i
  unfolding track_in track_query
  track_in-Holds qd now b (none, slots) i e h = cc
  track_in-Holds qd now b (some k, slots) i e (be, at, p) = (
    refl,
    (
      fill_entry d env qd now b.my_proc_pid be,
      rw (some-injective k i e)
          (get_elem?-modify_self slots i (fill_entry d env qd now b.my_proc_pid) at),
      fill_entry-pid qd now b.my_proc_pid be ∙ p,
    ),
  )

  initialized-pid :
      (old : Handler) (b : Backend F) → (initialized d env old b).my_proc_pid ≡ b.my_proc_pid
  unfolding initialized initialize_state_once_per_backend
  initialized-pid old b = ground arith

  -- If the extension is switched off after the start of a tracked query that was given the slot
  -- `i`, the end of the query does nothing: the backend still points to the query and still holds
  -- the slot.
  pub end-disable :
      (qd : QueryDesc F) (now : ℕ × ℕ) (old : Handler) (o : Outcome F) (s : State F) (i : ℕ)
      → is_tracked d env qd s.backend ≡ true
      → s.backend.my_proc_pid ≢ 0
      → length s.slots ≤ 256
      → (get_or_create_my_backend_entry_impl true s.backend.my_proc_pid s.slots).0 ≡ some i
      → ((query_end_hook d env qd o
            (disable (query_start_hook d env qd now old completes s))).backend.current_query_desc
          ≡ some (started d env qd))
        × Holds
            (query_end_hook d env qd o
              (disable (query_start_hook d env qd now old completes s))).slots
            s.backend.my_proc_pid
            i
  unfolding query_start_hook query_end_hook
  end-disable qd now old o s i t h b e = rw t (
      rw (initialized-pid old s.backend) at (
        track_in-Holds (started d env qd) now (initialized d env old s.backend)
          (get_or_create_my_backend_entry_impl true s.backend.my_proc_pid s.slots) i e
          (rw (initialized-pid old s.backend)
            (create-Holds s.backend.my_proc_pid s.slots i h b e))))

  -- While the extension is enabled, the backend initialised and no process has two slots, a query
  -- that is not tracked takes away the slot that its backend has for another query: after the
  -- start and the end of the untracked one the backend has no slot and no current query.
  pub nested-untracked :
      (inner : QueryDesc F) (now : ℕ × ℕ) (old : Handler) (o : Outcome F) (s : State F) (i : ℕ)
      → is_tracked d env inner s.backend ≡ false
      → s.backend.is_enabled ≡ true
      → s.backend.was_initialized ≡ true
      → s.backend.my_proc_pid ≢ 0
      → length s.slots ≤ 256
      → Distinct s.slots
      → find_pid s.backend.my_proc_pid s.slots ≡ some i
      → Absent s.backend.my_proc_pid
          (query_end_hook d env inner completes (query_start_hook d env inner now old o s)).slots
        × ((query_end_hook d env inner completes
              (query_start_hook d env inner now old o s)).backend.current_query_desc
            ≡ none)
  unfolding query_start_hook
  nested-untracked inner now old o s i nt en ini h b u e =
      rw nt
        (let (gone, clear) = query_end-Ended d env inner s en ini h b u in (gone, cleared clear))
    where
      cleared :
          ((query_end_hook d env inner completes s).backend.current_query_desc ≡ none)
            ⊎ (find_pid s.backend.my_proc_pid s.slots ≡ none)
          → (query_end_hook d env inner completes s).backend.current_query_desc ≡ none
      cleared (inl c) = c
      cleared (inr n) = cc

  failing_start :
      (qd : QueryDesc F) (now : ℕ × ℕ) (old : Handler) (ms : List (NodeMetrics F)) (s : State F)
      (i : ℕ)
      → is_tracked d env qd s.backend ≡ true
      → s.backend.was_initialized ≡ true
      → (get_or_create_my_backend_entry_impl true s.backend.my_proc_pid s.slots).0 ≡ some i
      → let b = (query_start_hook d env qd now old (raises ms) s).backend in
        (b.registrations ≡ s.backend.registrations)
        × (b.was_initialized ≡ false)
        × (b.is_enabled ≡ s.backend.is_enabled)
  unfolding query_start_hook track_in track_query initialized backend_exit_callback
  failing_start qd now old ms s i t ini e = ground arith

  track_in-registrations :
      (qd : QueryDesc F) (now : ℕ × ℕ) (o : Outcome F) (b : Backend F) (r : Option ℕ × Slots F)
      → (track_in d env qd now o b r).backend.registrations ≡ b.registrations
  unfolding track_in track_query backend_exit_callback
  track_in-registrations qd now o b (none, slots) = refl
  track_in-registrations qd now completes b (some i, slots) = refl
  track_in-registrations qd now (raises ms) b (some i, slots) = refl

  start-registers :
      (qd : QueryDesc F) (now : ℕ × ℕ) (old : Handler) (o : Outcome F) (s : State F)
      → is_tracked d env qd s.backend ≡ true
      → s.backend.was_initialized ≡ false
      → (query_start_hook d env qd now old o s).backend.registrations ≡ s.backend.registrations + 1
  unfolding query_start_hook initialized initialize_state_once_per_backend
  start-registers qd now old o s t ini = rw t (
      track_in-registrations (started d env qd) now o (initialized d env old s.backend)
        (get_or_create_my_backend_entry_impl true s.backend.my_proc_pid s.slots)
      ∙ ground arith)

  -- A backend that has registered its callbacks registers them a second time: if the set-up of a
  -- tracked query raises an error once its slot was given out, the next tracked query of the same
  -- backend, however its set-up ends, registers them again.
  pub failure-registers :
      (qd next : QueryDesc F) (now later : ℕ × ℕ) (old old' : Handler) (ms : List (NodeMetrics F))
      (o : Outcome F) (s : State F) (i : ℕ)
      → is_tracked d env qd s.backend ≡ true
      → is_tracked d env next s.backend ≡ true
      → s.backend.was_initialized ≡ true
      → (get_or_create_my_backend_entry_impl true s.backend.my_proc_pid s.slots).0 ≡ some i
      → (query_start_hook d env next later old' o
          (query_start_hook d env qd now old (raises ms) s)).backend.registrations
        ≡ s.backend.registrations + 1
  failure-registers qd next now later old old' ms o s i t t' ini e =
      let failed = query_start_hook d env qd now old (raises ms) s in
      let (same, gone, enabled) = failing_start qd now old ms s i t ini e in
      start-registers next later old' o failed (rw enabled t') gone ∙ ap (λ n. n + 1) same
