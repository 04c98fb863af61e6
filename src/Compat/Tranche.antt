-- ===== src/Compat/Tranche.antt =====
-- How the lock is set up: PWH_LWLOCK_SETUP_TRANCHE and PWH_LWLOCK_INITIALIZE of each header, as
-- `pwh_shared_memory_startup_hook` of src/shared_memory.c calls them.
use mathlib.Core.Path.{subst}
use Prim.Native.String.{String}
use pg_what_is_happening.Base.{
  ℕ, ◌≤◌, ◌<◌, ◌≡◌, ◌⊎◌, inl, inr, refl, ◌∙◌, Bool, true, false, Option, some, ltb, arith,
  Bool-cases,
}
use pg_what_is_happening.Compat.{
  Header, v9_4, v9_5, v9_6, v10, v11, v12, v13, v14, v15_18, v19, header_of,
}

-- A lock of a tranche, or one that PostgreSQL gives away from the locks that were requested.
pub data Lock : Type 0 where
  of_tranche : ℕ → Lock
  assigned : ℕ → Lock

-- PostgreSQL's tranches and locks, with what it documents: a tranche has the name under which it was
-- registered, or made.
pub record LwLocks (L : Type 0) : Type 0 where
  pub new_tranche_id : L → ℕ × L
  pub new_tranche_id_named : String → L → ℕ × L
  pub register_tranche : ℕ → String → L → L
  pub assign : L → ℕ × L
  pub name_of : L → ℕ → Option String
  pub registered : (id : ℕ) (n : String) (l : L) → name_of (register_tranche id n l) id ≡ some n
  pub named :
      (n : String) (l : L)
      → name_of (new_tranche_id_named n l).1 (new_tranche_id_named n l).0 ≡ some n

abbrev extension_name : String
extension_name = "pg_what_is_happening"

module _ {L : Type 0} (pg : LwLocks L) where
  abbrev new_and_registered : L → ℕ × L
  new_and_registered l =
      let (id, l') = pg.new_tranche_id l in (id, pg.register_tranche id extension_name l')

  -- What it makes of PWH_LWLOCK_TRANCHE_ID, which is 0 before.
  unfoldable pub setup_tranche : Header → L → ℕ × L
  setup_tranche v9_4 l = (0, l)
  setup_tranche v9_5 l = (0, l)
  setup_tranche v9_6 l = new_and_registered l
  setup_tranche v10 l = new_and_registered l
  setup_tranche v11 l = new_and_registered l
  setup_tranche v12 l = new_and_registered l
  setup_tranche v13 l = new_and_registered l
  setup_tranche v14 l = new_and_registered l
  setup_tranche v15_18 l = new_and_registered l
  setup_tranche v19 l = pg.new_tranche_id_named extension_name l

  abbrev from_pool : L → Lock × L
  from_pool l = let (i, l') = pg.assign l in (assigned i, l')

  unfoldable pub lwlock_initialize : Header → ℕ → L → Lock × L
  lwlock_initialize v9_4 id l = from_pool l
  lwlock_initialize v9_5 id l = from_pool l
  lwlock_initialize v9_6 id l = (of_tranche id, l)
  lwlock_initialize v10 id l = (of_tranche id, l)
  lwlock_initialize v11 id l = (of_tranche id, l)
  lwlock_initialize v12 id l = (of_tranche id, l)
  lwlock_initialize v13 id l = (of_tranche id, l)
  lwlock_initialize v14 id l = (of_tranche id, l)
  lwlock_initialize v15_18 id l = (of_tranche id, l)
  lwlock_initialize v19 id l = (of_tranche id, l)

  unfoldable pub set_up_lock : Header → L → Lock × L
  unfolding setup_tranche lwlock_initialize
  set_up_lock h l = let (id, l') = setup_tranche h l in lwlock_initialize h id l'

  -- The lock is in a tranche of the extension's name, or one of those that were requested.
  abbrev HasName : Bool → L → Lock × L → Type 0
  HasName true l r = r.0 ≡ assigned (pg.assign l).0
  HasName false l r = (id : ℕ) × (r.0 ≡ of_tranche id) × (pg.name_of r.1 id ≡ some extension_name)

  abbrev is_pooled : Header → Bool
  is_pooled v9_4 = true
  is_pooled v9_5 = true
  is_pooled _ = false

  set_up_lock-HasName : (h : Header) (l : L) → HasName (is_pooled h) l (set_up_lock h l)
  unfolding set_up_lock
  set_up_lock-HasName v9_4 l = refl
  set_up_lock-HasName v9_5 l = refl
  set_up_lock-HasName v19 l = (_, refl, pg.named extension_name l)
  set_up_lock-HasName _ l = (_, refl, pg.registered _ extension_name _)

  is_pooled-header_of : (n : ℕ) → is_pooled (header_of n) ≡ ltb n 90600
  unfolding header_of
  is_pooled-header_of n = ground arith

  -- From PostgreSQL 9.6 on the lock is in a tranche of the extension's name; before it is one of the
  -- locks that were requested.
  pub set_up_lock_lem :
      (n : ℕ) (l : L)
      → ((n < 90600) × ((set_up_lock (header_of n) l).0 ≡ assigned (pg.assign l).0))
        ⊎ ((90600 ≤ n)
            × ((id : ℕ) × ((set_up_lock (header_of n) l).0 ≡ of_tranche id)
                × (pg.name_of (set_up_lock (header_of n) l).1 id ≡ some extension_name)))
  set_up_lock_lem n l =
      let kind = λ (b : Bool). HasName b l (set_up_lock (header_of n) l) in
      let done = set_up_lock-HasName (header_of n) l in
      elim (Bool-cases (ltb n 90600)) [
        | inl t ↦ inl (ground arith, subst kind (is_pooled-header_of n ∙ t) done)
        | inr f ↦ inr (ground arith, subst kind (is_pooled-header_of n ∙ f) done)
      ]
