-- ===== src/Memory/Tally.antt =====
-- The slots of src/shared_memory.c as a pool of places: how many slots each process holds, whatever
-- their order. The process id 0 counts the free ones.
use mathlib.Core.Option.{some-injective}
use pg_what_is_happening.Memory.Holds.{find_pid-Holds}
use pg_what_is_happening.Base.{
  ℕ, zero, suc, ◌+◌, ◌-◌, ◌≤◌, ◌<◌, ◌≡◌, ◌≢◌, ◌⊎◌, refl, sym, ap, ◌∙◌, inl, inr, Bool, true, false,
  not, ◌&&◌, Option, none, some, [], ◌∷◌, arith, ◌==◌, if◌then◌else◌, modify, get_elem?, length,
  Bool-cases, Option-cases, ==→eq,
}
use pg_what_is_happening.Memory.{
  BackendEntry, Slots, KillResult, delivered, esrch, eperm, other_errno, no_slot, scan_entries,
  finish_claim, get_my_backend_entry, set_pid, release_my_backend_entry,
  release_backend_entry_unlocked, is_backend_entry_active, check_if_process_exists,
  cleanup_orphaned_slots, get_or_create_my_backend_entry_impl,
}
use pg_what_is_happening.Memory.Find.{find_pid, find_from}
use pg_what_is_happening.Memory.Claim.{claim, get_or_create-claim}

abbrev pub Tally : Type 0
Tally = ℕ → ℕ

abbrev pub one_if : Bool → ℕ
one_if b = if b then 1 else 0

-- One place goes from `p` to `q`.
abbrev pub move : ℕ → ℕ → Tally → Tally
move p q t r = one_if (q == r) + (t r - one_if (p == r))

-- What may happen to a pool, by the processes that may take a place (true) or give one back (false): one
-- without a place takes a free one, or one gives a place back.
pub data PoolStep (may : Bool → ℕ → Type 0) (t u : Tally) : Type 0 where
  takes :
      (p : ℕ)
      → may true p
      → p ≢ 0
      → t p ≡ 0
      → 0 < t 0
      → ((r : ℕ) → u r ≡ move 0 p t r)
      → PoolStep may t u
  gives :
      (p : ℕ) → may false p → p ≢ 0 → 0 < t p → ((r : ℕ) → u r ≡ move p 0 t r) → PoolStep may t u

pub data PoolReach (may : Bool → ℕ → Type 0) (t : Tally) : Tally → Type 0 where
  stays : {u : Tally} → ((r : ℕ) → u r ≡ t r) → PoolReach may t u
  further : {u v : Tally} → PoolReach may t u → PoolStep may u v → PoolReach may t v

-- The same with places given back only, which another process's places do not disturb.
data GiveReach (may : Bool → ℕ → Type 0) (t : Tally) : Tally → Type 0 where
  keeps : {u : Tally} → ((r : ℕ) → u r ≡ t r) → GiveReach may t u
  gives_back :
      {u v : Tally} (p : ℕ)
      → may false p
      → GiveReach may t u
      → p ≢ 0
      → 0 < u p
      → ((r : ℕ) → v r ≡ move p 0 u r)
      → GiveReach may t v

module _ {may : Bool → ℕ → Type 0} where
  PoolStep-same : {t u v : Tally} → ((r : ℕ) → v r ≡ u r) → PoolStep may t u → PoolStep may t v
  PoolStep-same e (takes p l h z f m) = takes p l h z f (λ r. e r ∙ m r)
  PoolStep-same e (gives p l h f m) = gives p l h f (λ r. e r ∙ m r)

  PoolReach-same : {t u v : Tally} → ((r : ℕ) → v r ≡ u r) → PoolReach may t u → PoolReach may t v
  PoolReach-same e (stays e') = stays (λ r. e r ∙ e' r)
  PoolReach-same e (further r st) = further r (PoolStep-same e st)

  pub PoolReach-trans : {t u v : Tally} → PoolReach may t u → PoolReach may u v → PoolReach may t v
  PoolReach-trans r (stays e) = PoolReach-same e r
  PoolReach-trans r (further s st) = further (PoolReach-trans r s) st

  GiveReach-PoolReach : {t u : Tally} → GiveReach may t u → PoolReach may t u
  GiveReach-PoolReach (keeps e) = stays e
  GiveReach-PoolReach (gives_back p l g h f m) = further (GiveReach-PoolReach g) (gives p l h f m)

  GiveReach-add :
      {t u : Tally} (e : Tally)
      → GiveReach may t u
      → GiveReach may (λ r. e r + t r) (λ r. e r + u r)
  GiveReach-add e (keeps s) = keeps (λ r. omega (arith, s r))
  GiveReach-add e (gives_back {u = u} p l g h f m) =
      gives_back p l (GiveReach-add e g) h (omega arith) (λ r. ground (arith, m r))

-- A process that is gone may give a place back.
abbrev pub Gone : (ℕ → KillResult) → Bool → ℕ → Type 0
Gone kill0 true p = ⊥
Gone kill0 false p = kill0 p ≡ esrch

not_exists : (k : KillResult) → check_if_process_exists k ≡ false → k ≡ esrch
not_exists delivered h = absurd cc
not_exists esrch h = refl
not_exists eperm h = absurd cc
not_exists other_errno h = absurd cc

module _ {F : Type 0} where
  abbrev pub tally : Slots F → Tally
  tally [] r = 0
  tally (be ∷ rest) r = one_if (be.backend_pid == r) + tally rest r

  -- A change of one slot moves its place.
  tally-modify_at :
      (slots : Slots F) (i : ℕ) (f : BackendEntry F → BackendEntry F) (be : BackendEntry F) (r : ℕ)
      → get_elem? slots i ≡ some be
      → (tally (modify slots i f) r ≡ move be.backend_pid (f be).backend_pid (tally slots) r)
        × (one_if (be.backend_pid == r) ≤ tally slots r)
  tally-modify_at [] i f be r e = cc
  tally-modify_at (b ∷ rest) zero f be r e = rw (some-injective b be e) (omega arith, omega arith)
  tally-modify_at (b ∷ rest) (suc i) f be r e =
      let (moved, held) = tally-modify_at rest i f be r e in (omega arith, omega arith)

  tally-modify-none :
      (slots : Slots F) (i : ℕ) (f : BackendEntry F → BackendEntry F)
      → get_elem? slots i ≡ none
      → modify slots i f ≡ slots
  tally-modify-none [] i f e = refl
  tally-modify-none (b ∷ rest) zero f e = cc
  tally-modify-none (b ∷ rest) (suc i) f e = ap (λ l. b ∷ l) (tally-modify-none rest i f e)

  -- A change of one slot that keeps its process, or frees it, is a step of the pool or none.
  pub modify-PoolReach :
      (may : Bool → ℕ → Type 0) (slots : Slots F) (i : ℕ) (f : BackendEntry F → BackendEntry F)
      → ((be : BackendEntry F)
          → get_elem? slots i ≡ some be
          → ((f be).backend_pid ≡ be.backend_pid)
            ⊎ ((f be).backend_pid ≡ 0) × may false be.backend_pid)
      → PoolReach may (tally slots) (tally (modify slots i f))
  modify-PoolReach may slots i f h = elim (Option-cases (get_elem? slots i)) [
    | inl n ↦ stays (λ r. ap (λ l. tally l r) (tally-modify-none slots i f n))
    | inr (be, at) ↦ go be at (h be at) (Bool-cases (be.backend_pid == 0))
  ]
    where
      kept :
          (be : BackendEntry F)
          → get_elem? slots i ≡ some be
          → (f be).backend_pid ≡ be.backend_pid
          → (r : ℕ) → tally (modify slots i f) r ≡ tally slots r
      kept be at e r =
          let (moved, held) = tally-modify_at slots i f be r at in moved ∙ rw e (omega arith)

      go :
          (be : BackendEntry F)
          → get_elem? slots i ≡ some be
          → ((f be).backend_pid ≡ be.backend_pid)
            ⊎ ((f be).backend_pid ≡ 0) × may false be.backend_pid
          → (be.backend_pid == 0) ≡ true ⊎ (be.backend_pid == 0) ≡ false
          → PoolReach may (tally slots) (tally (modify slots i f))
      go be at (inl e) b = stays (kept be at e)
      go be at (inr (z, l)) (inl b) = stays (kept be at (z ∙ sym (==→eq be.backend_pid 0 b)))
      go be at (inr (z, l)) (inr b) = further (stays (λ r. refl)) (
          gives be.backend_pid l (ground arith)
            (ground (arith, (tally-modify_at slots i f be be.backend_pid at).1))
            (λ r. rw z at ((tally-modify_at slots i f be r at).0)))

  -- A release is such a change.
  release_my-modify :
      (pid : ℕ) (slots : Slots F)
      → (i : ℕ) × (release_my_backend_entry pid slots
          ≡ modify slots i release_backend_entry_unlocked)
        × ((be : BackendEntry F) → get_elem? slots i ≡ some be → be.backend_pid ≡ pid)
  unfolding release_my_backend_entry
  release_my-modify pid [] = (0, refl, λ be e. absurd cc)
  release_my-modify pid (be ∷ rest) =
      let (i, e, own) = release_my-modify pid rest in
      elim (Bool-cases (be.backend_pid == pid)) [
        | inl t ↦ (
          0,
          rw t refl,
          λ x at.
              ap (λ o. o.backend_pid) (sym (some-injective be x at)) ∙ ==→eq be.backend_pid pid t,
        )
        | inr f ↦ (suc i, rw (f, e) refl, own)
      ]

  pub release_my-PoolReach :
      (pid : ℕ) (slots : Slots F)
      → PoolReach (λ take q. q ≡ pid) (tally slots) (tally (release_my_backend_entry pid slots))
  release_my-PoolReach pid slots =
      let (i, e, own) = release_my-modify pid slots in
      rw e (
        modify-PoolReach (λ take q. q ≡ pid) slots i release_backend_entry_unlocked
          (λ be at. inr (refl, own be at)))

  -- What the search finds belongs to the process.
  scan_entries-own :
      (pid : ℕ) (slots : Slots F) (i free j : ℕ)
      → (scan_entries pid slots i free).0 ≡ some j
      → (k : ℕ) × (be : BackendEntry F) × (j ≡ i + k)
        × (get_elem? slots k ≡ some be)
        × (be.backend_pid ≡ pid)
  unfolding scan_entries
  scan_entries-own pid [] i free j e = absurd cc
  scan_entries-own pid (be ∷ rest) i free j e =
      elim (Bool-cases (free == no_slot && be.backend_pid == 0)) [
        | inl t ↦
            let (k, be', jk, at, p) = scan_entries-own pid rest (i + 1) i j (rw t at e) in
            (suc k, be', omega arith, at, p)
        | inr f ↦ elim (Bool-cases (be.backend_pid == pid)) [
          | inl t ↦ (0, be, omega (arith, some-injective i j (rw (f, t) at e)), refl, ==→eq _ _ t)
          | inr g ↦
              let (k, be', jk, at, p) = scan_entries-own pid rest (i + 1) free j (rw (f, g) at e) in
              (suc k, be', omega arith, at, p)
        ]
      ]

  pub get_my-own :
      (pid : ℕ) (slots : Slots F) (i : ℕ) {be : BackendEntry F}
      → get_my_backend_entry pid slots ≡ some i
      → get_elem? slots i ≡ some be
      → be.backend_pid ≡ pid
  unfolding get_or_create_my_backend_entry_impl finish_claim
  get_my-own pid slots i {be} e at =
      let (k, be', ik, at', p) = scan_entries-own pid slots 0 no_slot i (found e) in
      let same : i ≡ k = omega arith in
      ap (λ o. o.backend_pid) (some-injective be be' (sym at ∙ ap (get_elem? slots) same ∙ at')) ∙ p
    where
      read : (r : Option ℕ × ℕ) → (finish_claim false pid slots r).0 ≡ r.0
      read (none, free) = refl
      read (some j, free) = refl

      found :
          (get_or_create_my_backend_entry_impl false pid slots).0 ≡ some i
          → (scan_entries pid slots 0 no_slot).0 ≡ some i
      found h = sym (read (scan_entries pid slots 0 no_slot)) ∙ h

  module _ (kill0 : ℕ → KillResult) where
    cleanup-GiveReach :
        (slots : Slots F)
        → GiveReach (Gone kill0) (tally slots) (tally (cleanup_orphaned_slots kill0 slots).1)
    unfolding cleanup_orphaned_slots
    cleanup-GiveReach [] = keeps (λ r. refl)
    cleanup-GiveReach (be ∷ rest) =
        let rests = GiveReach-add (λ r. one_if (be.backend_pid == r)) (cleanup-GiveReach rest) in
        elim (Bool-cases
          (is_backend_entry_active be && not (check_if_process_exists (kill0 be.backend_pid)))) [
            | inr f ↦ rw f rests
            | inl t ↦ rw t (
                gives_back be.backend_pid (gone be.backend_pid (ground arith)) rests (ground arith)
                  (ground arith) (λ r. ground arith))
          ]
      where
        gone : (p : ℕ) → check_if_process_exists (kill0 p) ≡ false → kill0 p ≡ esrch
        gone p h = not_exists (kill0 p) h

    pub cleanup-PoolReach :
        (slots : Slots F)
        → PoolReach (Gone kill0) (tally slots) (tally (cleanup_orphaned_slots kill0 slots).1)
    cleanup-PoolReach slots = GiveReach-PoolReach (cleanup-GiveReach slots)

  tally-find_none :
      (pid : ℕ) (slots : Slots F) (k : ℕ) → find_from pid slots k ≡ none → tally slots pid ≡ 0
  tally-find_none pid [] k e = refl
  tally-find_none pid (be ∷ rest) k e = ground (arith, tally-find_none pid rest (k + 1))

  pub tally_pos-find :
      (pid : ℕ) (slots : Slots F) (k : ℕ)
      → 0 < tally slots pid
      → (i : ℕ) × (find_from pid slots k ≡ some i)
  tally_pos-find pid slots k h = elim (Option-cases (find_from pid slots k)) [
    | inl n ↦ absurd (omega (arith, tally-find_none pid slots k n))
    | inr found ↦ found
  ]

  claim-PoolReach :
      (create : Bool) (pid : ℕ) (slots : Slots F) (found free : Option ℕ)
      → pid ≢ 0
      → find_pid pid slots ≡ found
      → find_pid 0 slots ≡ free
      → PoolReach (λ take q. q ≡ pid) (tally slots) (tally (claim create pid slots).1)
  claim-PoolReach create pid slots (some i) free h e e0 = rw e (stays (λ r. refl))
  claim-PoolReach true pid slots none none h e e0 = rw (e, e0) (stays (λ r. refl))
  claim-PoolReach false pid slots none free h e e0 = rw e (stays (λ r. refl))
  claim-PoolReach true pid slots none (some j) h e e0 =
      let (be, at, z) = find_pid-Holds 0 slots j e0 in
      rw (e, e0)
        (further (stays (λ r. refl)) (
          takes pid refl h (tally-find_none pid slots 0 e)
            (omega (arith, (rw z at ((tally-modify_at slots j (set_pid pid) be 0 at).1))))
            (λ r. rw z at ((tally-modify_at slots j (set_pid pid) be r at).0))))

  pub get_or_create-PoolReach :
      (create : Bool) (pid : ℕ) (slots : Slots F)
      → pid ≢ 0
      → length slots ≤ 256
      → PoolReach
          (λ take q. q ≡ pid)
          (tally slots)
          (tally (get_or_create_my_backend_entry_impl create pid slots).1)
  get_or_create-PoolReach create pid slots h b =
      rw (get_or_create-claim create pid slots h b)
        (claim-PoolReach create pid slots (find_pid pid slots) (find_pid 0 slots) h refl refl)
