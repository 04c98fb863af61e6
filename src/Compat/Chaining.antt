-- ===== src/Compat/Chaining.antt =====
-- `pwh_install_pqsignal` of src/compatibility.c, and what src/signal_handler.c chains to after it.
use pg_what_is_happening.Base.{ℕ, ◌≤◌, ◌<◌, ◌≡◌, ◌↔◌, false, some, arith, ltb, leb, if◌then◌else◌}
use pg_what_is_happening.Doubles.{Doubles}
use pg_what_is_happening.Memory.{Slots}
use pg_what_is_happening.Signal.{
  Handler, null, function, Backend, chain, install_signal_handler, sigusr2_handler,
}

-- What it returns in a build for a version; `previous` is what `pqsignal` returns where it returns
-- something.
unfoldable pub install_pqsignal : ℕ → Handler → Handler
install_pqsignal n previous = if leb 180000 n then null else if ltb n 100000 then null else previous

chain-install_pqsignal :
    (n f : ℕ) → (chain (install_pqsignal n (function f)) ≡ some f) ↔ (100000 ≤ n) × (n < 180000)
unfolding install_pqsignal
chain-install_pqsignal n f = (λ e. ground arith, λ h. ground arith)

module _ {F : Type 0} (d : Doubles F) (max_nodes : ℕ) where
  -- The first signal handler that a backend installs over another function chains to this function
  -- exactly in PostgreSQL 10 to 17.
  pub sigusr2_handler-chain :
      (n f : ℕ) (slots : Slots F) (b : Backend F)
      → b.was_signal_handler_installed ≡ false
      → ((sigusr2_handler d max_nodes slots
            (install_signal_handler (install_pqsignal n (function f)) b)).2
          ≡ some f)
        ↔ (100000 ≤ n) × (n < 180000)
  unfolding sigusr2_handler
  sigusr2_handler-chain n f slots b h = rw h (chain-install_pqsignal n f)
