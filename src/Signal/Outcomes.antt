-- ===== src/Signal/Outcomes.antt =====
-- The counters of src/signal_handler.c.
use pg_what_is_happening.Base.{ℕ, ◌+◌, ◌%◌, ◌≡◌, Option, none, some, arith, Bool-cases, inl, inr}
use pg_what_is_happening.Doubles.{Doubles}
use pg_what_is_happening.Memory.{Slots, u32_mod}
use pg_what_is_happening.Walker.{PlanState}
use pg_what_is_happening.Signal.{
  QueryDesc, Counters, Backend, find_my_slot, has_planstate, refresh, handle, count_call,
  sigusr2_handler,
}

-- Every call is counted once more, under its outcome.
abbrev pub Balanced : Counters → Type 0
Balanced k =
    k.call_count % u32_mod ≡ (k.success_count + k.no_querydesc + k.shmem_null + k.no_slot) % u32_mod

-- One call ahead of its outcome.
abbrev Ahead : Counters → Type 0
Ahead k =
    k.call_count % u32_mod
    ≡ (k.success_count + k.no_querydesc + k.shmem_null + k.no_slot + 1) % u32_mod

module _ {F : Type 0} (d : Doubles F) (max_nodes : ℕ) where
  refresh-Balanced :
      (p : PlanState F) (i : Option ℕ) (slots : Slots F) (k : Counters)
      → Ahead k
      → Balanced (refresh d max_nodes p i slots k).1
  unfolding refresh
  refresh-Balanced p none slots k h = omega arith
  refresh-Balanced p (some i) slots k h = omega arith

  handle-Balanced :
      (b : Backend F) (q : Option (QueryDesc F)) (slots : Slots F) (k : Counters)
      → Ahead k
      → Balanced (handle d max_nodes b q slots k).1
  unfolding handle
  handle-Balanced b none slots k h = omega arith
  handle-Balanced b (some qd) slots k h = elim (Bool-cases (has_planstate qd.planstate)) [
    | inr f ↦ rw f (omega arith)
    | inl t ↦ rw t (elim (Bool-cases b.shmem_attached) [
      | inr f ↦ rw f (omega arith)
      | inl a ↦ rw a (refresh-Balanced qd.planstate (find_my_slot b.my_proc_pid slots 0) slots k h)
    ])
  ]

  -- If the calls are the sum of the four outcomes, modulo 2 ^ 32, they are so after another call
  -- of the handler.
  pub sigusr2_handler-Balanced :
      (slots : Slots F) (b : Backend F)
      → Balanced b.counters
      → Balanced (sigusr2_handler d max_nodes slots b).1.counters
  unfolding sigusr2_handler
  sigusr2_handler-Balanced slots b h =
      handle-Balanced b b.current_query_desc slots (count_call b.counters) (omega arith)
