-- ===== src/Init.antt =====
-- `_PG_init` and `_PG_fini` of src/pg_what_is_happening.c, PostgreSQL's hook pointers, and the worker
-- that src/bg_worker.c registers.
use pg_what_is_happening.Base.{
  ℕ, ◌≡◌, refl, Bool, true, false, Option, none, some, List, [], ◌∷◌, ◌++◌, Bytes, codes,
  if◌then◌else◌,
}
use pg_what_is_happening.Doubles.{Doubles}
use pg_what_is_happening.Compat.{Header, v9_5}
use pg_what_is_happening.Compat.Request.{has_request_hook}
use pg_what_is_happening.Gucs.{Variable, define_gucs}

-- A function that a hook pointer can name: one of the extension's, or another one.
pub data HookFn : Type 0 where
  pwh_shmem_request_hook_impl pwh_shared_memory_startup_hook : HookFn
  pwh_query_start_hook pwh_query_end_hook : HookFn
  other_hook : ℕ → HookFn

-- PostgreSQL's pointers; `none` is NULL.
pub record HookPointers : Type 0 where
  pub request_hook : Option HookFn
  pub startup_hook : Option HookFn
  pub start_hook : Option HookFn
  pub end_hook : Option HookFn

pub data BgwFlag : Type 0 where
  bgworker_shmem_access bgworker_bypass_allowconn : BgwFlag

pub data BgwStartTime : Type 0 where
  bgworker_start_postmaster_start other_start_time : BgwStartTime

-- The restart time is in seconds.
pub record BackgroundWorker : Type 0 where
  pub bgw_name : Bytes
  pub bgw_flags : List BgwFlag
  pub bgw_start_time : BgwStartTime
  pub bgw_restart_time : ℕ
  pub bgw_library_name : Bytes
  pub bgw_function_name : Bytes
  pub bgw_main_arg : ℕ
  pub bgw_notify_pid : ℕ

-- The pointers, the static `PREV_..._HOOK` variables, and what was registered.
pub record Process (F : Type 0) : Type 0 where
  pub hooks : HookPointers
  pub prev : HookPointers
  pub variables : List (Variable F)
  pub workers : List BackgroundWorker

-- `PWH_BGWORKER_BYPASS_ALLOWCONN`, 0 in all headers but one.
abbrev bypass_allowconn : Header → List BgwFlag
bypass_allowconn v9_5 = bgworker_bypass_allowconn ∷ []
bypass_allowconn _ = []

unfoldable pub openmetrics_exporter : Header → BackgroundWorker
openmetrics_exporter v = record {
  bgw_name = codes "pg_what_is_happening openmetrics exporter";
  bgw_flags = bgworker_shmem_access ∷ bypass_allowconn v;
  bgw_start_time = bgworker_start_postmaster_start;
  bgw_restart_time = 2;
  bgw_library_name = codes "pg_what_is_happening";
  bgw_function_name = codes "pwh_bgworker_main";
  bgw_main_arg = 0;
  bgw_notify_pid = 0;
}

-- The request hook after `_PG_init`.
abbrev pub request_hook_after : Bool → Option HookFn → Option HookFn
request_hook_after true hook = some pwh_shmem_request_hook_impl
request_hook_after false hook = hook

module _ {F : Type 0} (d : Doubles F) where
  -- `PWH_INSTALL_SHMEM_REQUEST_HOOK`.
  abbrev install_shmem_request_hook : Bool → Process F → Process F
  install_shmem_request_hook false s = s
  install_shmem_request_hook true s = record s {
    prev = record s.prev { request_hook = s.hooks.request_hook };
    hooks = record s.hooks { request_hook = some pwh_shmem_request_hook_impl };
  }

  abbrev install_hooks : Process F → Process F
  install_hooks s = record s {
    prev = record s.prev {
      startup_hook = s.hooks.startup_hook;
      start_hook = s.hooks.start_hook;
      end_hook = s.hooks.end_hook;
    };
    hooks = record s.hooks {
      startup_hook = some pwh_shared_memory_startup_hook;
      start_hook = some pwh_query_start_hook;
      end_hook = some pwh_query_end_hook;
    };
  }

  abbrev register_worker : Header → Bool → Process F → Process F
  register_worker v false s = s
  register_worker v true s = record s { workers = s.workers ++ openmetrics_exporter v ∷ [] }

  -- With the header that is compiled in, whether WITH_BGWORKER is defined, and whether the postmaster
  -- is loading the preloaded libraries. `none` is the error that is raised else.
  unfoldable pub pg_init : Header → Bool → Bool → Process F → Option (Process F)
  pg_init v with_bgworker preload_in_progress s =
      if preload_in_progress
      then some (
          register_worker v with_bgworker (
            install_hooks (
              install_shmem_request_hook (has_request_hook v)
                (record s { variables = s.variables ++ define_gucs d with_bgworker }))))
      else none

  -- It leaves the request hook alone.
  unfoldable pub pg_fini : Process F → Process F
  pg_fini s = record s {
    hooks = record s.hooks {
      startup_hook = s.prev.startup_hook;
      start_hook = s.prev.start_hook;
      end_hook = s.prev.end_hook;
    };
  }

  restored :
      (v : Header) (h w : Bool) (s : Process F)
      → (pg_fini (register_worker v w (install_hooks (install_shmem_request_hook h s)))).hooks
        ≡ record s.hooks { request_hook = request_hook_after h s.hooks.request_hook }
  unfolding pg_fini
  restored v false false s = refl
  restored v false true s = refl
  restored v true false s = refl
  restored v true true s = refl

  -- `_PG_fini` after `_PG_init` gives back every hook pointer as it was, save the request hook, which
  -- still names the extension's function in the versions that have one.
  pub pg_fini-pg_init :
      (v : Header) (with_bgworker : Bool) (s s' : Process F)
      → pg_init v with_bgworker true s ≡ some s'
      → (pg_fini s').hooks ≡ record s.hooks {
        request_hook = request_hook_after (has_request_hook v) s.hooks.request_hook;
      }
  unfolding pg_init
  pg_fini-pg_init v with_bgworker s s' e = cc (
    e,
    restored v (has_request_hook v) with_bgworker
        (record s { variables = s.variables ++ define_gucs d with_bgworker }),
  )
