-- ===== src/Doubles.antt =====
-- The C type `double`, which the program only adds, multiplies, divides, compares and prints.
use pg_what_is_happening.Base.{ℕ, Bool, Bytes}

-- `F` stands for the values of `double`.
pub record Doubles (F : Type 0) : Type 0 where
  pub of_ℕ : ℕ → F
  pub add : F → F → F
  pub mul : F → F → F
  pub div : F → F → F
  pub lt : F → F → Bool
  -- `printf` with `%.<precision>f`.
  pub print_fixed : ℕ → F → Bytes
