-- ===== src/Compat/Lock.antt =====
-- The lock in the header of the shared memory, as src/compatibility.h declares it and as the macros of
-- src/compatibility use it.
use pg_what_is_happening.Base.{ℕ, ◌≤◌, ◌<◌, ◌≡◌, ◌↔◌, ◌⊎◌, Bool, true, false, leb, arith}
use pg_what_is_happening.Compat.{
  Header, v9_4, v9_5, v9_6, v10, v11, v12, v13, v14, v15_18, v19, header_of,
}

-- Whether the field of `PwhSharedMemoryHeader` is the lock itself, and not a pointer to one.
unfoldable pub lock_is_embedded : ℕ → Bool
lock_is_embedded n = leb 90500 n

-- Whether `PWH_LWLOCK_ACQUIRE`, `PWH_LWLOCK_RELEASE` and `PWH_LWLOCK_INITIALIZE` take the address of
-- the field, and do not use its value as the pointer.
unfoldable pub lock_address_taken : Header → Bool
lock_address_taken v9_4 = false
lock_address_taken v9_5 = false
lock_address_taken v9_6 = true
lock_address_taken v10 = true
lock_address_taken v11 = true
lock_address_taken v12 = true
lock_address_taken v13 = true
lock_address_taken v14 = true
lock_address_taken v15_18 = true
lock_address_taken v19 = true

-- The macros pass a pointer to a lock in every version but 9.5, where they pass the lock itself.
pub lock_lem :
    (n : ℕ) → (lock_address_taken (header_of n) ≡ lock_is_embedded n) ↔ ((n < 90500) ⊎ (90600 ≤ n))
unfolding lock_address_taken header_of lock_is_embedded
lock_lem n = (λ e. ground arith, λ o. ground arith)
