-- ===== src/Worker/Freshness.antt =====
-- The request handler of src/bg_worker.c together with the signal handlers of the backends
-- (src/signal_handler.c) that its SIGUSR2 makes run while it waits.
use pg_what_is_happening.Base.{
  ℕ, zero, suc, ◌+◌, ◌≡◌, ◌≢◌, refl, sym, ap, ◌∙◌, Bool, true, false, length, arith, Option, none,
  some, List, [], ◌∷◌, ◌++◌, modify, get_elem?, get_elem?-modify_self, get_elem?-modify_ne, All,
  Bool-cases, inl, inr, ◌==◌, if◌then◌else◌,
}
use pg_what_is_happening.Doubles.{Doubles}
use pg_what_is_happening.Memory.{Slots, BackendEntry, request_backend_metrics_unlocked}
use pg_what_is_happening.Memory.Find.{find_from, find_pid}
use pg_what_is_happening.Memory.Holds.{Holds, find_pid-Holds}
use pg_what_is_happening.Walker.{PlanState}
use pg_what_is_happening.Signal.{
  QueryDesc, Backend, Counters, has_planstate, refresh_entry, find_my_slot, refresh, handle,
  count_call, sigusr2_handler,
}
use pg_what_is_happening.Hooks.Backed.{find_my_slot-find_from}
use pg_what_is_happening.Http.Handler.{Signals}
use pg_what_is_happening.Signal.Reads.{read_tree, refresh_entry-read_tree}

module _ {F : Type 0} (d : Doubles F) (max_nodes : ℕ) where
  -- The backends that are signalled handle the signal, one after the other.
  unfoldable pub signal_all : List (Backend F) → Slots F → Slots F
  signal_all [] slots = slots
  signal_all (b ∷ bs) slots = signal_all bs (sigusr2_handler d max_nodes slots b).0

  -- The process finds the same slot, and this slot is as it was.
  abbrev Kept : ℕ → ℕ → Slots F → Slots F → Type 0
  Kept pid i slots t = (find_pid pid t ≡ find_pid pid slots) × (get_elem? t i ≡ get_elem? slots i)

  find_from-refreshed :
      (p : PlanState F) (pid : ℕ) (slots : Slots F) (j k : ℕ)
      → find_from pid (modify slots j (refresh_entry d max_nodes p)) k ≡ find_from pid slots k
  find_from-refreshed p pid [] j k = refl
  find_from-refreshed p pid (be ∷ slots) zero k = refl
  find_from-refreshed p pid (be ∷ slots) (suc j) k =
      ap (λ o. if be.backend_pid == pid then some k else o)
        (find_from-refreshed p pid slots j (k + 1))

  Holds-ne :
      (slots : Slots F) (pid q i j : ℕ) → pid ≢ q → Holds slots pid i → Holds slots q j → j ≢ i
  Holds-ne slots pid q i j h (be, at, p) (be', at', p') ji = h cc

  refresh-Kept :
      (p : PlanState F) (pid q i : ℕ) (slots : Slots F) (o : Option ℕ) (k : Counters)
      → pid ≢ q
      → find_pid pid slots ≡ some i
      → find_pid q slots ≡ o
      → Kept pid i slots (refresh d max_nodes p o slots k).0
  unfolding refresh
  refresh-Kept p pid q i slots none k h e f = (refl, refl)
  refresh-Kept p pid q i slots (some j) k h e f = (
    find_from-refreshed p pid slots j 0,
    get_elem?-modify_ne slots j i (refresh_entry d max_nodes p)
        (Holds-ne slots pid q i j h (find_pid-Holds pid slots i e) (find_pid-Holds q slots j f)),
  )

  handle-Kept :
      (b : Backend F) (q : Option (QueryDesc F)) (slots : Slots F) (k : Counters) (pid i : ℕ)
      → pid ≢ b.my_proc_pid
      → find_pid pid slots ≡ some i
      → Kept pid i slots (handle d max_nodes b q slots k).0
  unfolding handle
  handle-Kept b none slots k pid i h e = (refl, refl)
  handle-Kept b (some qd) slots k pid i h e = elim (Bool-cases (has_planstate qd.planstate)) [
    | inr f ↦ rw f (refl, refl)
    | inl t ↦ rw t (elim (Bool-cases b.shmem_attached) [
      | inr f ↦ rw f (refl, refl)
      | inl a ↦ rw a (
          refresh-Kept qd.planstate pid b.my_proc_pid i slots (find_my_slot b.my_proc_pid slots 0) k
            h e (sym (find_my_slot-find_from b.my_proc_pid slots 0)))
    ])
  ]

  -- The signals of other processes leave a process's slot alone.
  signal_all-Kept :
      (bs : List (Backend F)) (slots : Slots F) (pid i : ℕ)
      → All (λ b. pid ≢ b.my_proc_pid) bs
      → find_pid pid slots ≡ some i
      → Kept pid i slots (signal_all bs slots)
  unfolding signal_all sigusr2_handler
  signal_all-Kept [] slots pid i h e = (refl, refl)
  signal_all-Kept (b ∷ bs) slots pid i (h, hs) e =
      let first = handle-Kept b b.current_query_desc slots (count_call b.counters) pid i h e in
      let rest =
        signal_all-Kept bs (sigusr2_handler d max_nodes slots b).0 pid i hs (first.0 ∙ e) in
      (rest.0 ∙ first.0, rest.1 ∙ first.1)

  -- A backend with a live query that has a slot.
  pub record Tracks (b : Backend F) (slots : Slots F) : Type 0 where
    pub query : QueryDesc F
    pub slot : ℕ
    pub entry : BackendEntry F
    pub current : b.current_query_desc ≡ some query
    pub live : has_planstate query.planstate ≡ true
    pub attached : b.shmem_attached ≡ true
    pub found : find_pid b.my_proc_pid slots ≡ some slot
    pub at : get_elem? slots slot ≡ some entry
    pub sized : length entry.metrics ≡ max_nodes

  own_signal :
      (b : Backend F) (slots : Slots F) (t : Tracks b slots)
      → (sigusr2_handler d max_nodes slots b).0
        ≡ modify slots t.slot (refresh_entry d max_nodes t.query.planstate)
  unfolding sigusr2_handler handle refresh
  own_signal b slots t =
      rw (t.current, t.live, t.attached, find_my_slot-find_from b.my_proc_pid slots 0, t.found) refl

  signal_all-own :
      (cs : List (Backend F)) (b : Backend F) (slots : Slots F) (t : Tracks b slots)
      → All (λ c. b.my_proc_pid ≢ c.my_proc_pid) cs
      → get_elem? (signal_all (b ∷ cs) slots) t.slot
        ≡ some (refresh_entry d max_nodes t.query.planstate t.entry)
  unfolding signal_all
  signal_all-own cs b slots t h = rw (own_signal b slots t) (
      (signal_all-Kept cs (modify slots t.slot fresh) b.my_proc_pid t.slot h
        (find_from-refreshed t.query.planstate b.my_proc_pid slots t.slot 0 ∙ t.found)).1
      ∙ get_elem?-modify_self slots t.slot fresh t.at)
    where
      fresh : BackendEntry F → BackendEntry F
      fresh = refresh_entry d max_nodes t.query.planstate

  -- The signals of others come between, and change nothing of this.
  pub signal_all-fresh :
      (bs cs : List (Backend F)) (b : Backend F) (slots : Slots F) (t : Tracks b slots)
      → All (λ c. b.my_proc_pid ≢ c.my_proc_pid) bs
      → All (λ c. b.my_proc_pid ≢ c.my_proc_pid) cs
      → get_elem? (signal_all (bs ++ b ∷ cs) slots) t.slot
        ≡ some (refresh_entry d max_nodes t.query.planstate t.entry)
  unfolding signal_all sigusr2_handler
  signal_all-fresh [] cs b slots t h hs = signal_all-own cs b slots t hs
  signal_all-fresh (c ∷ bs) cs b slots t (hc, h) hs =
      let kept =
        handle-Kept c c.current_query_desc slots (count_call c.counters) b.my_proc_pid t.slot hc
          t.found in
      signal_all-fresh bs cs b (sigusr2_handler d max_nodes slots c).0
        (record {
          query = t.query;
          slot = t.slot;
          entry = t.entry;
          current = t.current;
          live = t.live;
          attached = t.attached;
          found = kept.0 ∙ t.found;
          at = kept.1 ∙ t.at;
          sized = t.sized;
        })
        h hs

  -- Which of the backends SIGUSR2 was sent to.
  abbrev is_sent : ℕ → List ℕ → Bool
  is_sent pid [] = false
  is_sent pid (q ∷ sent) = if q == pid then true else is_sent pid sent

  abbrev received : List ℕ → List (Backend F) → List (Backend F)
  received sent [] = []
  received sent (b ∷ bs) =
      let rest = received sent bs in if is_sent b.my_proc_pid sent then b ∷ rest else rest

  -- The backends that SIGUSR2 was sent to handle it, one after the other.
  abbrev pub backend_signals : (ℕ → Bool) → List (Backend F) → Signals F
  backend_signals kill_usr2 bs = record {
    kill_usr2 = kill_usr2;
    handled = λ sent slots. signal_all (received sent bs) slots;
  }

  -- SIGUSR2 is sent to whoever has a slot.
  sent_to_holder :
      (kill_usr2 : ℕ → Bool) (pid : ℕ) (slots : Slots F) (k i : ℕ)
      → pid ≢ 0
      → kill_usr2 pid ≡ true
      → find_from pid slots k ≡ some i
      → is_sent pid (request_backend_metrics_unlocked kill_usr2 slots).1 ≡ true
  unfolding request_backend_metrics_unlocked
  sent_to_holder kill_usr2 pid [] k i h u e = absurd cc
  sent_to_holder kill_usr2 pid (be ∷ slots) k i h u e =
      ground (arith, sent_to_holder kill_usr2 pid slots (k + 1) i h u)

  received-append :
      (sent : List ℕ) (bs cs : List (Backend F)) (b : Backend F)
      → is_sent b.my_proc_pid sent ≡ true
      → received sent (bs ++ b ∷ cs) ≡ received sent bs ++ b ∷ received sent cs
  received-append sent [] cs b h = rw h refl
  received-append sent (c ∷ bs) cs b h = elim (Bool-cases (is_sent c.my_proc_pid sent)) [
    | inl t ↦ rw t (ap (λ l. c ∷ l) (received-append sent bs cs b h))
    | inr f ↦ rw f (received-append sent bs cs b h)
  ]

  received-All :
      (P : Backend F → Type 0) (sent : List ℕ) (bs : List (Backend F))
      → All P bs
      → All P (received sent bs)
  received-All P sent [] h = tt
  received-All P sent (b ∷ bs) (h, hs) = elim (Bool-cases (is_sent b.my_proc_pid sent)) [
    | inl t ↦ rw t (h, received-All P sent bs hs)
    | inr f ↦ rw f (received-All P sent bs hs)
  ]

  -- A backend that has a slot and can be signalled is sent SIGUSR2, and then its slot has what the
  -- signal reads.
  pub handled-fresh :
      (kill_usr2 : ℕ → Bool) (bs cs : List (Backend F)) (b : Backend F) (slots : Slots F)
      (t : Tracks b slots)
      → b.my_proc_pid ≢ 0
      → kill_usr2 b.my_proc_pid ≡ true
      → All (λ c. b.my_proc_pid ≢ c.my_proc_pid) bs
      → All (λ c. b.my_proc_pid ≢ c.my_proc_pid) cs
      → get_elem?
          ((backend_signals kill_usr2 (bs ++ b ∷ cs)).handled
            (request_backend_metrics_unlocked kill_usr2 slots).1
            slots)
          t.slot
        ≡ some (read_tree d t.query.planstate t.entry)
  handled-fresh kill_usr2 bs cs b slots t h u hs ks =
      let sent = (request_backend_metrics_unlocked kill_usr2 slots).1 in
      let got = sent_to_holder kill_usr2 b.my_proc_pid slots 0 t.slot h u t.found in
      rw (received-append sent bs cs b got) (
        signal_all-fresh (received sent bs) (received sent cs) b slots t
          (received-All (λ c. b.my_proc_pid ≢ c.my_proc_pid) sent bs hs)
          (received-All (λ c. b.my_proc_pid ≢ c.my_proc_pid) sent cs ks)
        ∙ ap some (refresh_entry-read_tree d max_nodes t.query.planstate t.entry t.sized))
