-- ===== src/Hooks/Interrupt/Quiet.antt =====
-- Signals within `query_start_hook` of src/pg_what_is_happening.c in a backend with no current query.
use pg_what_is_happening.Base.{
  ℕ, zero, suc, ◌%◌, ◌≡◌, refl, sym, ap, ◌∙◌, Option, none, some, List, [], ◌∷◌, modify, get_elem?,
  ◌⊎◌, inl, inr, Bool-cases, arith,
}
use pg_what_is_happening.Doubles.{Doubles}
use pg_what_is_happening.Memory.{Slots, u32_mod, get_or_create_my_backend_entry}
use pg_what_is_happening.QueryId.{get_query_id}
use pg_what_is_happening.Signal.{
  QueryDesc, Handler, Backend, set_current_query_desc, handle, count_call, sigusr2_handler,
}
use pg_what_is_happening.Hooks.{
  Env, State, completes, fill_entry, copy_text, started, is_tracked, initialized, track_query,
  track_in, initialize_state_once_per_backend, query_start_hook,
}
use pg_what_is_happening.Hooks.Interrupt.{
  Write, walk, put_count, put_start_time, put_query_id, put_query_text, publish, block, Running,
  walk_count, walked, perform, signaled, interrupted, track_interrupted, query_start_interrupted,
}

module _ {F : Type 0} where
  -- The state without the counters of the signal handler.
  abbrev pub uncounted : State F → State F
  uncounted s = record s {
    backend = record s.backend {
      counters = record {
        call_count = 0;
        success_count = 0;
        no_querydesc = 0;
        shmem_null = 0;
        no_slot = 0;
      };
    };
  }

  abbrev pub erased : Running F → Running F
  erased r = record r { state = uncounted r.state }

module _ {F : Type 0} (d : Doubles F) (env : Env F) where
  -- A signal that finds no query counts it, and does nothing else.
  signal-uncounted :
      (s : State F)
      → s.backend.current_query_desc ≡ none
      → uncounted (signaled d env 1 s) ≡ uncounted s
  unfolding sigusr2_handler
  signal-uncounted s h =
      ap
        (λ q.
          let r =
            handle d env.max_nodes_per_query s.backend q s.slots (count_call s.backend.counters) in
          uncounted (record { slots = r.0; backend = record s.backend { counters = r.1 } }))
        h

  signaled-uncounted :
      (k : ℕ) (s : State F)
      → s.backend.current_query_desc ≡ none
      → uncounted (signaled d env k s) ≡ uncounted s
  signaled-uncounted zero s h = refl
  signaled-uncounted (suc k) s h =
      signaled-uncounted k (signaled d env 1 s)
        (ap (λ t. t.backend.current_query_desc) (signal-uncounted s h) ∙ h)
      ∙ signal-uncounted s h

  module _ (qd : QueryDesc F) (now : ℕ × ℕ) (i : ℕ) where
    perform-erased :
        (w : Write) (r : Running F)
        → erased (perform d env qd now i w r) ≡ perform d env qd now i w (erased r)
    unfolding perform
    perform-erased walk r = refl
    perform-erased put_count r = refl
    perform-erased put_start_time r = refl
    perform-erased put_query_id r = refl
    perform-erased put_query_text r = refl
    perform-erased publish r = refl

    plain-erased :
        (ws : List Write) (r : Running F)
        → erased (interrupted d env qd now i ws [] r) ≡ interrupted d env qd now i ws [] (erased r)
    unfolding interrupted
    plain-erased [] r = refl
    plain-erased (w ∷ ws) r =
        plain-erased ws (perform d env qd now i w r)
        ∙ ap (interrupted d env qd now i ws []) (perform-erased w r)

    -- Only the last write makes the query the current one.
    abbrev PublishLast : List Write → Type 0
    PublishLast [] = Unit
    PublishLast (publish ∷ ws) = ws ≡ []
    PublishLast (walk ∷ ws) = PublishLast ws
    PublishLast (put_count ∷ ws) = PublishLast ws
    PublishLast (put_start_time ∷ ws) = PublishLast ws
    PublishLast (put_query_id ∷ ws) = PublishLast ws
    PublishLast (put_query_text ∷ ws) = PublishLast ws

    abbrev Idle : Running F → Type 0
    Idle r = r.state.backend.current_query_desc ≡ none

    -- What stays to be done after a write can be done with no query published.
    perform-Idle :
        (w : Write) (ws : List Write) (r : Running F)
        → PublishLast (w ∷ ws)
        → Idle r
        → (ws ≡ []) ⊎ PublishLast ws × Idle (perform d env qd now i w r)
    unfolding perform
    perform-Idle publish ws r l h = inl l
    perform-Idle walk ws r l h = inr (l, h)
    perform-Idle put_count ws r l h = inr (l, h)
    perform-Idle put_start_time ws r l h = inr (l, h)
    perform-Idle put_query_id ws r l h = inr (l, h)
    perform-Idle put_query_text ws r l h = inr (l, h)

    interrupted-nil :
        (ks : List ℕ) (ws : List Write) (r : Running F)
        → ws ≡ []
        → interrupted d env qd now i ws ks r ≡ interrupted d env qd now i ws [] r
    unfolding interrupted
    interrupted-nil ks ws r e = rw e refl

    interrupted-erased :
        (ks : List ℕ) (ws : List Write) (r : Running F)
        → PublishLast ws
        → Idle r
        → erased (interrupted d env qd now i ws ks r) ≡ erased (interrupted d env qd now i ws [] r)
    unfolding interrupted
    interrupted-erased ks [] r l h = refl
    interrupted-erased [] (w ∷ ws) r l h = refl
    interrupted-erased (k ∷ ks) (w ∷ ws) r l h =
        rest (interrupted-erased ks ws (perform d env qd now i w r'))
          (perform-Idle w ws r' l (ap (λ t. t.backend.current_query_desc) quiet ∙ h))
        ∙ plain-erased ws (perform d env qd now i w r')
        ∙ ap (interrupted d env qd now i ws []) (
            perform-erased w r'
            ∙ ap (perform d env qd now i w) (ap (λ t. record r { state = t }) quiet)
            ∙ sym (perform-erased w r))
        ∙ sym (plain-erased ws (perform d env qd now i w r))
      where
        r' : Running F
        r' = record r { state = signaled d env k r.state }

        quiet : uncounted (signaled d env k r.state) ≡ uncounted r.state
        quiet = signaled-uncounted k r.state h

        rest :
            (PublishLast ws
              → Idle (perform d env qd now i w r')
              → erased (interrupted d env qd now i ws ks (perform d env qd now i w r'))
                ≡ erased (interrupted d env qd now i ws [] (perform d env qd now i w r')))
            → (ws ≡ []) ⊎ PublishLast ws × Idle (perform d env qd now i w r')
            → erased (interrupted d env qd now i ws ks (perform d env qd now i w r'))
              ≡ erased (interrupted d env qd now i ws [] (perform d env qd now i w r'))
        rest ih (inl e) = ap erased (interrupted-nil ks ws (perform d env qd now i w r') e)
        rest ih (inr (l', h')) = ih l' h'

    block-slots :
        (slots : Slots F) (j pid : ℕ)
        → modify
            (modify
              (modify
                (modify (modify slots j (walked d env qd)) j (λ be. record be {
                  count_of_metrics = walk_count d env qd (get_elem? slots j) % u32_mod;
                }))
                j
                (λ be. record be { query_start_time = now.0 }))
              j
              (λ be. record be { query_id = get_query_id qd.query_id qd.source_text now.1 pid }))
            j
            (λ be. record be { query_text = copy_text env.max_query_text_len qd.source_text })
          ≡ modify slots j (fill_entry d env qd now pid)
    unfolding fill_entry
    block-slots [] j pid = refl
    block-slots (be ∷ slots) zero pid = refl
    block-slots (be ∷ slots) (suc j) pid = ap (λ l. be ∷ l) (block-slots slots j pid)

    -- With no signal the block does what the model's hook does at once.
    block-plain :
        (n : ℕ) (s : State F)
        → (interrupted d env qd now i block [] (record { num_nodes = n; state = s })).state
          ≡ track_query d env qd now completes i s
    unfolding interrupted perform track_query
    block-plain n s =
        ap (λ l. record { slots = l; backend = set_current_query_desc (some qd) s.backend })
          (block-slots s.slots i s.backend.my_proc_pid)

  initialized-current :
      (old : Handler) (b : Backend F)
      → (initialized d env old b).current_query_desc ≡ b.current_query_desc
  unfolding initialized initialize_state_once_per_backend
  initialized-current old b = ground arith

  track_interrupted-plain :
      (ks : List ℕ) (qd : QueryDesc F) (now : ℕ × ℕ) (b : Backend F) (r : Option ℕ × Slots F)
      → b.current_query_desc ≡ none
      → uncounted (track_interrupted d env ks qd now b r)
        ≡ uncounted (track_in d env qd now completes b r)
  unfolding track_in
  track_interrupted-plain ks qd now b (none, slots) h = refl
  track_interrupted-plain ks qd now b (some i, slots) h =
      ap (λ r. r.state)
        (interrupted-erased qd now i ks block
          (record { num_nodes = 0; state = record { slots = slots; backend = b } }) refl h)
      ∙ ap uncounted (block-plain qd now i 0 (record { slots = slots; backend = b }))

  -- If the backend has no current query, any number of signals before each write of the start hook's
  -- block leaves the slots and the backend as the hook without signals does, save the counters of the
  -- signal handler.
  pub query_start-uncounted :
      (ks : List ℕ) (qd : QueryDesc F) (now : ℕ × ℕ) (old : Handler) (s : State F)
      → s.backend.current_query_desc ≡ none
      → uncounted (query_start_interrupted d env ks qd now old s)
        ≡ uncounted (query_start_hook d env qd now old completes s)
  unfolding query_start_interrupted query_start_hook
  query_start-uncounted ks qd now old s h = elim (Bool-cases (is_tracked d env qd s.backend)) [
    | inl t ↦ rw t (
        track_interrupted-plain ks (started d env qd) now (initialized d env old s.backend)
          (get_or_create_my_backend_entry s.backend.my_proc_pid s.slots)
          (initialized-current old s.backend ∙ h))
    | inr f ↦ rw f refl
  ]
