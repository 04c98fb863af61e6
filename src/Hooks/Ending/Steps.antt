-- ===== src/Hooks/Ending/Steps.antt =====
-- The steps of `query_end_hook` of src/pg_what_is_happening.c with signals before each.
use pg_what_is_happening.Base.{
  iterate-add, modify-modify, modify-same, ℕ, ◌≡◌, ◌≢◌, refl, sym, ap, ◌∙◌, true, none, some,
  modify, if◌then◌else◌, length-modify, arith, get_elem?-modify_self,
}
use pg_what_is_happening.Doubles.{Doubles}
use pg_what_is_happening.Memory.{BackendEntry, is_backend_entry_active, get_my_backend_entry}
use pg_what_is_happening.Memory.Distinct.{Absent-find_from}
use pg_what_is_happening.Memory.Holds.{find_pid-Holds}
use pg_what_is_happening.Signal.{QueryDesc, set_current_query_desc, Counters}
use pg_what_is_happening.Hooks.{Env, State}
use pg_what_is_happening.Hooks.Entry.{find_from-modify, get_my-find_pid, free_found}
use pg_what_is_happening.Hooks.Interrupt.{signaled}
use pg_what_is_happening.Hooks.Ending.{
  Arrivals, free_entry, advance_entry, write_entry, is_active_at, capture_entry,
  release_interrupted, end_interrupted, search_interrupted,
}
use pg_what_is_happening.Hooks.Ending.Signals.{
  hits, misses, changed, refreshes, refreshes-pid, signaled_found, signaled_missed,
}
use pg_what_is_happening.Hooks.Ending.Slot.{finding, missing, whole}
use pg_what_is_happening.Hooks.Ending.Signals.{Ready}

module _ {F : Type 0} (d : Doubles F) (env : Env F) (qd : QueryDesc F) where
  write-changed :
      (s : State F) (i : ℕ) (f g : BackendEntry F → BackendEntry F) (k : Counters)
      → write_entry i g (changed s i f k) ≡ changed s i (λ be. g (f be)) k
  write-changed s i f g k =
      ap (λ t. record { slots = t; backend = record s.backend { counters = k } })
        (modify-modify s.slots i f g)

  abbrev Same : (BackendEntry F → BackendEntry F) → Type 0
  Same f = (be : BackendEntry F) → (f be).backend_pid ≡ be.backend_pid

  module _ (s : State F) (i : ℕ) (r : Ready qd s i) where
    -- Once the slot is free, signals find none.
    missed-changed :
        (n : ℕ) (f : BackendEntry F → BackendEntry F) (k : Counters)
        → ((be : BackendEntry F) → (f be).backend_pid ≡ 0)
        → signaled d env n (changed s i f k) ≡ changed s i f (misses n k)
    missed-changed n f k z =
        signaled_missed d env qd (changed s i f k) n
          (record { current = r.live.current; live = r.live.live; attached = r.live.attached })
          (Absent-find_from s.backend.my_proc_pid (modify s.slots i f) 0 (
            free_found s.backend.my_proc_pid s.slots i f r.named (λ be _. z be) r.distinct r.found))

    found-changed :
        (n : ℕ) (f : BackendEntry F → BackendEntry F) (k : Counters)
        → Same f
        → signaled d env n (changed s i f k)
          ≡ changed s i (λ be. refreshes d env qd.planstate n (f be)) (hits n k)
    found-changed n f k h = signaled_found d env qd s i n f k r.live r.found h

    refreshes-Same :
        (n : ℕ) (f : BackendEntry F → BackendEntry F)
        → Same f
        → Same (λ be. refreshes d env qd.planstate n (f be))
    refreshes-Same n f h be = refreshes-pid d env qd.planstate n (f be) ∙ h be

    found-write :
        (n : ℕ) (g f : BackendEntry F → BackendEntry F) (k : Counters) {t : State F}
        → Same f
        → t ≡ changed s i f k
        → write_entry i g (signaled d env n t)
          ≡ changed s i (λ be. g (refreshes d env qd.planstate n (f be))) (hits n k)
    found-write n g f k h e =
        ap (λ x. write_entry i g (signaled d env n x)) e
        ∙ (ap (write_entry i g) (found-changed n f k h)
            ∙ write-changed s i (λ be. refreshes d env qd.planstate n (f be)) g (hits n k))

    missed-write :
        (n : ℕ) (g f : BackendEntry F → BackendEntry F) (k : Counters) {t : State F}
        → ((be : BackendEntry F) → (f be).backend_pid ≡ 0)
        → t ≡ changed s i f k
        → write_entry i g (signaled d env n t) ≡ changed s i (λ be. g (f be)) (misses n k)
    missed-write n g f k z e =
        ap (λ x. write_entry i g (signaled d env n x)) e
        ∙ (ap (write_entry i g) (missed-changed n f k z) ∙ write-changed s i f g (misses n k))

    release-changed :
        (a : Arrivals) (f : BackendEntry F → BackendEntry F) (k : Counters)
        → Same f
        → release_interrupted d env a qd i (changed s i f k)
          ≡ changed s i
              (λ be. advance_entry (
                free_entry (
                  refreshes d env qd.planstate a.before_free (
                    capture_entry d env qd
                      (refreshes d env qd.planstate a.before_capture (f be))))))
              (misses a.before_advance (hits a.before_free (hits a.before_capture k)))
    unfolding release_interrupted
    release-changed a f k h =
        let captured = λ (be : BackendEntry F).
          capture_entry d env qd (refreshes d env qd.planstate a.before_capture (f be)) in
        missed-write a.before_advance advance_entry
          (λ be. free_entry (refreshes d env qd.planstate a.before_free (captured be)))
          (hits a.before_free (hits a.before_capture k)) (λ be. refl)
          (found-write a.before_free free_entry captured (hits a.before_capture k)
            (refreshes-Same a.before_capture f h)
            (found-write a.before_capture (capture_entry d env qd) f k h refl))

    -- The slot is in use until the hook frees it.
    active-changed :
        (f : BackendEntry F → BackendEntry F) → Same f → is_active_at i (modify s.slots i f) ≡ true
    active-changed f h =
        let (be, at, e) = find_pid-Holds s.backend.my_proc_pid s.slots i r.found in
        rw (get_elem?-modify_self s.slots i f at, is_active_at)
          (active (f be) (λ z. r.named (sym e ∙ (sym (h be) ∙ z))))
      where
        active : (be : BackendEntry F) → be.backend_pid ≢ 0 → is_backend_entry_active be ≡ true
        active be ne = ground arith

    search-changed :
        (f : BackendEntry F → BackendEntry F)
        → Same f
        → get_my_backend_entry s.backend.my_proc_pid (modify s.slots i f) ≡ some i
    search-changed f h =
        get_my-find_pid s.backend.my_proc_pid (modify s.slots i f) r.named
          (rw (length-modify s.slots i f) r.size)
        ∙ (find_from-modify s.backend.my_proc_pid s.slots 0 i f h ∙ r.found)

    abbrev pub counted : Arrivals → Counters
    counted a = misses a.before_clear (
        misses a.before_advance (
          hits a.before_free
            (hits a.before_capture (hits a.before_test (hits a.before_search s.backend.counters)))))

    abbrev pub cleared : State F → State F
    cleared t = record t { backend = set_current_query_desc none t.backend }

    searched-changed :
        (n : ℕ)
        → signaled d env n s
          ≡ changed s i (refreshes d env qd.planstate n) (hits n s.backend.counters)
    searched-changed n =
        ap (λ t. signaled d env n (record { slots = t; backend = s.backend }))
          (sym (modify-same s.slots i))
        ∙ found-changed n (λ be. be) s.backend.counters (λ be. refl)

    pub end-changed :
        (a : Arrivals)
        → search_interrupted d env a qd (signaled d env a.before_search s)
          ≡ cleared (changed s i (whole d env qd a) (counted a))
    unfolding end_interrupted
    end-changed a =
        let searched = refreshes d env qd.planstate a.before_search in
        let tested =
          λ (be : BackendEntry F). refreshes d env qd.planstate a.before_test (searched be) in
        let k1 = hits a.before_search s.backend.counters in
        let k2 = hits a.before_test k1 in
        let same = refreshes-pid d env qd.planstate a.before_search in
        let same' = refreshes-Same a.before_test searched same in
        ap (search_interrupted d env a qd) (searched-changed a.before_search)
        ∙ (ap (λ o. end_interrupted d env a qd o (changed s i searched k1))
              (search-changed searched same)
            ∙ (ap
                  (λ t. cleared (
                    signaled d env a.before_clear
                      (if is_active_at i t.slots then release_interrupted d env a qd i t else t)))
                  (found-changed a.before_test searched k1 same)
                ∙ (ap
                      (λ b. cleared (
                        signaled d env a.before_clear (
                          if b
                          then release_interrupted d env a qd i (changed s i tested k2)
                          else changed s i tested k2)))
                      (active-changed tested same')
                    ∙ (ap (λ t. cleared (signaled d env a.before_clear t))
                          (release-changed a tested k2 same')
                        ∙ ap cleared (
                            missed-changed a.before_clear (whole d env qd a)
                              (misses a.before_advance
                                (hits a.before_free (hits a.before_capture k2)))
                              (λ be. refl))))))

    pub counted-sum :
        (a : Arrivals) → counted a ≡ misses (missing a) (hits (finding a) s.backend.counters)
    counted-sum a = simp iterate-add
