-- ===== src/Hooks/Interrupt/Nested.antt =====
-- A signal within `query_start_hook` of src/pg_what_is_happening.c while an outer query is current.
use pg_what_is_happening.Base.{ℕ}
use pg_what_is_happening.Doubles.{Doubles}
use pg_what_is_happening.Signal.{QueryDesc}
use pg_what_is_happening.Hooks.{Env, State}
use pg_what_is_happening.Hooks.Interrupt.{walk, perform, signaled}

module _ {F : Type 0} (d : Doubles F) (env : Env F) where
  -- The walk of the block, and then a signal.
  abbrev pub after_walk : QueryDesc F → ℕ × ℕ → ℕ → ℕ → State F → State F
  after_walk qd now i n s =
      signaled d env 1 (perform d env qd now i walk (record { num_nodes = n; state = s })).state
