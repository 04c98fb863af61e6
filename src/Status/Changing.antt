-- ===== src/Status/Changing.antt =====
-- The view's calls while the slots change between them.
use native.Mathlib.Numerals.{add-one}
use native.Mathlib.Nat.{mul-le-mul_right, suc-mul}
use pg_what_is_happening.Base.{
  ℕ, zero, suc, ◌+◌, ◌*◌, ◌≤◌, ◌<◌, ◌≡◌, refl, Option, none, some, List, [], ◌∷◌, inl, inr, arith,
  ltb, ◌&&◌, drop, length, map, All, Bool-cases,
}
use pg_what_is_happening.Doubles.{Doubles}
use pg_what_is_happening.Memory.{BackendEntry, Slots, is_backend_entry_active}
use pg_what_is_happening.Metrics.Columns.{Datum, oid_of, create_v1_status_tupdesc, fill-tupdesc}
use pg_what_is_happening.Metrics.Format.{total_query_time}
use pg_what_is_happening.Status.{
  Cursor, first_call, Reply, return_next, return_done, beyond_array, next_row, v1_status_f,
}
use pg_what_is_happening.Status.Rows.{FitsArray, get_elem?-some}

-- A slot whose count is within the setting and within its array.
abbrev pub Bounded : {F : Type 0} → ℕ → BackendEntry F → Type 0
Bounded k be = (be.count_of_metrics ≤ k) × FitsArray be

-- A row with a value of the type of each column.
abbrev pub Typed : {F : Type 0} → List (Datum F) → Type 0
Typed row = map oid_of row ≡ map (λ c. c.1) create_v1_status_tupdesc

module _ {F : Type 0} (d : Doubles F) where
  -- The executor's calls, the first on the slots `at 0`, the next on `at 1`, and so on.
  unfoldable pub all_calls_over : ℕ → (ℕ → Slots F) → Cursor → Option (List (List (Datum F)))
  all_calls_over zero at c = none
  all_calls_over (suc fuel) at c = elim (v1_status_f d (at 0) c) [
    | return_next row c' ↦ elim (all_calls_over fuel (λ i. at (suc i)) c') [
      | none ↦ none
      | some rows ↦ some (row ∷ rows)
    ]
    | return_done c' ↦ some []
    | beyond_array ↦ none
  ]

  module _ (n k : ℕ) where
    place_le : (slot node : ℕ) → slot < n → node ≤ k → slot * k + node ≤ n * k
    place_le slot node h b =
        omega (arith, mul-le-mul_right {m = suc slot} {n = n} k (omega arith), suc-mul slot k)

    place_next : (slot node : ℕ) → node ≤ k → slot * k + node ≤ (slot + 1) * k + 0
    place_next slot node b = rw (add-one slot) (omega (arith, suc-mul slot k))

    -- How far a cursor has come.
    abbrev place : ℕ → ℕ → ℕ
    place slot node = slot * k + node

    -- A row moves the cursor forward, within n slots of k nodes.
    abbrev Advances : ℕ → Reply F → Type 0
    Advances from (return_next row c) =
        (from < place c.slot_idx c.node_idx)
        × (place c.slot_idx c.node_idx ≤ n * k)
        × (c.slot_idx ≤ n)
        × (c.node_idx ≤ k)
        × Typed row
    Advances from (return_done c) = Unit
    Advances from beyond_array = ⊥

    next_row-Advances :
        (l : Slots F) (slot node from : ℕ)
        → slot + length l ≤ n
        → node ≤ k
        → from ≤ place slot node
        → All (Bounded k) l
        → Advances from (next_row d l slot node)
    unfolding next_row
    next_row-Advances [] slot node from h b f fits = tt
    next_row-Advances (be ∷ rest) slot node from h b f (fit, fits) =
        elim (Bool-cases (is_backend_entry_active be && ltb node be.count_of_metrics)) [
          | inl t ↦
              let (m, e) = get_elem?-some d be.metrics node (ground arith) in
              rw (t, e)
                (
                  omega arith,
                  place_le slot (node + 1) (omega arith) (ground arith),
                  omega arith,
                  ground arith,
                  fill-tupdesc d be m (total_query_time d be),
                )
          | inr g ↦ rw g (
              next_row-Advances rest (slot + 1) 0 from (omega arith) (omega arith)
                (omega (arith, place_next slot node b)) fits)
        ]

    call-Advances :
        (slots : Slots F) (c : Cursor)
        → length slots ≤ n
        → c.slot_idx ≤ n
        → c.node_idx ≤ k
        → All (Bounded k) slots
        → Advances (place c.slot_idx c.node_idx) (v1_status_f d slots c)
    unfolding v1_status_f
    call-Advances slots c e h b fits =
        next_row-Advances (drop c.slot_idx slots) c.slot_idx c.node_idx
          (place c.slot_idx c.node_idx) (rest slots c.slot_idx n e h) b (omega arith)
          (All-drop slots c.slot_idx fits)
      where
        All-drop : (xs : Slots F) (i : ℕ) → All (Bounded k) xs → All (Bounded k) (drop i xs)
        All-drop xs zero a = a
        All-drop [] (suc i) a = tt
        All-drop (x ∷ xs) (suc i) a = All-drop xs i a.1

        rest : (xs : Slots F) (i m : ℕ) → length xs ≤ m → i ≤ m → i + length (drop i xs) ≤ m
        rest xs zero m e h = omega arith
        rest [] (suc i) m e h = omega arith
        rest (x ∷ xs) (suc i) zero e h = absurd (omega arith)
        rest (x ∷ xs) (suc i) (suc m) e h = omega (arith, rest xs i m (omega arith) (omega arith))

    -- The rows of the calls, at most as many as there are places left.
    abbrev Ends : ℕ → Option (List (List (Datum F))) → Type 0
    Ends from r =
        (rows : List (List (Datum F))) × (r ≡ some rows)
        × (length rows + from ≤ n * k)
        × All Typed rows

    all_calls_over-Ends :
        (fuel : ℕ) (at : ℕ → Slots F) (c : Cursor)
        → ((i : ℕ) → length (at i) ≤ n)
        → ((i : ℕ) → All (Bounded k) (at i))
        → c.slot_idx ≤ n
        → c.node_idx ≤ k
        → place c.slot_idx c.node_idx ≤ n * k
        → n * k < place c.slot_idx c.node_idx + fuel
        → Ends (place c.slot_idx c.node_idx) (all_calls_over fuel at c)
    unfolding all_calls_over
    all_calls_over-Ends zero at c len fits h b le f = absurd (omega arith)
    all_calls_over-Ends (suc fuel) at c len fits h b le f =
        go (v1_status_f d (at 0) c)
          (λ c' h' b' le' f'.
            all_calls_over-Ends fuel (λ i. at (suc i)) c' (λ i. len (suc i)) (λ i. fits (suc i)) h'
              b' le' (omega arith))
          (call-Advances (at 0) c (len 0) h b (fits 0))
      where
        go :
            (r : Reply F)
            → ((c' : Cursor)
                → c'.slot_idx ≤ n
                → c'.node_idx ≤ k
                → place c'.slot_idx c'.node_idx ≤ n * k
                → place c.slot_idx c.node_idx < place c'.slot_idx c'.node_idx
                → Ends (place c'.slot_idx c'.node_idx) (all_calls_over fuel (λ i. at (suc i)) c'))
            → Advances (place c.slot_idx c.node_idx) r
            → Ends (place c.slot_idx c.node_idx) (elim r [
              | return_next row c' ↦ elim (all_calls_over fuel (λ i. at (suc i)) c') [
                | none ↦ none
                | some rows ↦ some (row ∷ rows)
              ]
              | return_done c' ↦ some []
              | beyond_array ↦ none
            ])
        go (return_next row c') ih (lt, le', h', b', typed) =
            let (rows, e, few, all) = ih c' h' b' le' lt in
            (row ∷ rows, rw e refl, omega arith, (typed, all))
        go (return_done c') ih a = ([], refl, omega arith, tt)
        go beyond_array ih a = absurd a

    -- However the slots change between the calls of the view's function, if there are at most n of
    -- them at each call and none counts more than k nodes or more than its array has, the calls end within
    -- n * k + 1 calls and return at most n * k rows, each with a value of the type of each column;
    -- and no call reads beyond an array.
    pub all_calls_over-Typed :
        (fuel : ℕ) (at : ℕ → Slots F)
        → ((i : ℕ) → length (at i) ≤ n)
        → ((i : ℕ) → All (Bounded k) (at i))
        → n * k < fuel
        → (rows : List (List (Datum F))) × (all_calls_over fuel at first_call ≡ some rows)
          × (length rows ≤ n * k)
          × All Typed rows
    all_calls_over-Typed fuel at len fits h =
        let (rows, e, few, all) =
          all_calls_over-Ends fuel at first_call len fits (omega arith) (omega arith) (omega arith)
            (omega arith) in
        (rows, e, omega arith, all)
