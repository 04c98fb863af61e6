-- ===== src/Status/Rows.antt =====
-- The rows of the view.
use native.Mathlib.Numerals.{add-one}
use pg_what_is_happening.Base.{
  ℕ, zero, suc, ◌+◌, ◌≤◌, ◌<◌, ◌≡◌, refl, sym, ap, ◌∙◌, true, false, none, some, List, [], ◌∷◌,
  ◌++◌, inl, inr, arith, ltb, ◌&&◌, if◌then◌else◌, get_elem?, drop, take, length, map, All,
  Bool-cases,
}
use pg_what_is_happening.Doubles.{Doubles}
use pg_what_is_happening.Memory.{BackendEntry, NodeMetrics, Slots, is_backend_entry_active}
use pg_what_is_happening.Metrics.Columns.{Datum, fill_v1_status_tuple}
use pg_what_is_happening.Metrics.Format.{total_query_time, nodes_of}
use pg_what_is_happening.Status.{
  Cursor, first_call, Reply, return_next, return_done, beyond_array, next_row, v1_status_f,
  all_calls,
}

-- What the walk of the plan tree guarantees: no slot counts more nodes than its array has.
abbrev pub FitsArray : {F : Type 0} → BackendEntry F → Type 0
FitsArray be = be.count_of_metrics ≤ length be.metrics

module _ {F : Type 0} (d : Doubles F) where
  abbrev Row : Type 0
  Row = List (Datum F)

  abbrev pub row_of : BackendEntry F → NodeMetrics F → Row
  row_of be node = fill_v1_status_tuple d be node (total_query_time d be)

  -- The rows of a slot: none if it is free, else one for each node.
  abbrev pub rows_of : BackendEntry F → List Row
  rows_of be = if is_backend_entry_active be then map (row_of be) (nodes_of be) else []

  abbrev pub all_rows : Slots F → List Row
  all_rows [] = []
  all_rows (be ∷ slots) = rows_of be ++ all_rows slots

  -- What is left from a node of the first slot on.
  abbrev rows_left : Slots F → ℕ → List Row
  rows_left [] node = []
  rows_left (be ∷ rest) node = drop node (rows_of be) ++ all_rows rest

  -- A call returns the first row that is left and moves past it, or there is none.
  abbrev Yields : Slots F → List Row → Reply F → Type 0
  Yields slots left (return_next row c) = left ≡ row ∷ rows_left (drop c.slot_idx slots) c.node_idx
  Yields slots left (return_done c) = left ≡ []
  Yields slots left beyond_array = ⊥

  drop-map-take :
      (f : NodeMetrics F → Row) (n k : ℕ) (ms : List (NodeMetrics F)) (m : NodeMetrics F)
      → n < k
      → get_elem? ms n ≡ some m
      → drop n (map f (take k ms)) ≡ f m ∷ drop (suc n) (map f (take k ms))
  drop-map-take f n zero ms m h e = absurd (omega arith)
  drop-map-take f n (suc k) [] m h e = cc
  drop-map-take f zero (suc k) (x ∷ ms) m h e = ground arith
  drop-map-take f (suc n) (suc k) (x ∷ ms) m h e = drop-map-take f n k ms m (omega arith) e

  drop-beyond :
      (f : NodeMetrics F → Row) (n k : ℕ) (ms : List (NodeMetrics F))
      → k ≤ n
      → drop n (map f (take k ms)) ≡ []
  drop-beyond f zero zero ms h = refl
  drop-beyond f (suc n) zero ms h = refl
  drop-beyond f zero (suc k) ms h = absurd (omega arith)
  drop-beyond f (suc n) (suc k) [] h = refl
  drop-beyond f (suc n) (suc k) (x ∷ ms) h = drop-beyond f n k ms (omega arith)

  pub get_elem?-some :
      (ms : List (NodeMetrics F)) (n : ℕ)
      → n < length ms
      → (m : NodeMetrics F) × (get_elem? ms n ≡ some m)
  get_elem?-some [] n h = absurd (omega arith)
  get_elem?-some (m ∷ ms) zero h = (m, refl)
  get_elem?-some (x ∷ ms) (suc n) h = get_elem?-some ms n (omega arith)

  drop-tail :
      (slots : Slots F) (n : ℕ) (be : BackendEntry F) (rest : Slots F)
      → be ∷ rest ≡ drop n slots
      → rest ≡ drop (suc n) slots
  drop-tail [] zero be rest e = cc
  drop-tail [] (suc n) be rest e = cc
  drop-tail (x ∷ slots) zero be rest e = ground arith
  drop-tail (x ∷ slots) (suc n) be rest e = drop-tail slots n be rest e

  all_rows-left : (rest : Slots F) → rows_left rest 0 ≡ all_rows rest
  all_rows-left [] = refl
  all_rows-left (be ∷ rest) = refl

  drop-nil : (n : ℕ) → drop {A = Row} n [] ≡ []
  drop-nil zero = refl
  drop-nil (suc n) = refl

  take_row :
      (slots rest : Slots F) (be : BackendEntry F) (slot node : ℕ) (m : NodeMetrics F)
      → be ∷ rest ≡ drop slot slots
      → is_backend_entry_active be ≡ true
      → node < be.count_of_metrics
      → get_elem? be.metrics node ≡ some m
      → rows_left (be ∷ rest) node ≡ row_of be m ∷ rows_left (drop slot slots) (node + 1)
  take_row slots rest be slot node m e a h at =
      rw (← e, a, add-one node)
        (ap (λ l. l ++ all_rows rest)
          (drop-map-take (row_of be) node be.count_of_metrics be.metrics m h at))

  rows_gone :
      (be : BackendEntry F) (node : ℕ)
      → (is_backend_entry_active be && ltb node be.count_of_metrics) ≡ false
      → drop node (rows_of be) ≡ []
  rows_gone be node h = elim (Bool-cases (is_backend_entry_active be)) [
    | inl a ↦ rw a (drop-beyond (row_of be) node be.count_of_metrics be.metrics (ground arith))
    | inr f ↦ rw f (drop-nil node)
  ]

  next_row-Yields :
      (slots l : Slots F) (slot node : ℕ)
      → l ≡ drop slot slots
      → All FitsArray l
      → Yields slots (rows_left l node) (next_row d l slot node)
  unfolding next_row
  next_row-Yields slots [] slot node e fits = refl
  next_row-Yields slots (be ∷ rest) slot node e (fit, fits) =
      elim (Bool-cases (is_backend_entry_active be && ltb node be.count_of_metrics)) [
        | inl t ↦
            let (m, at) = get_elem?-some be.metrics node (ground arith) in
            rw (t, at) (take_row slots rest be slot node m e (ground arith) (ground arith) at)
        | inr f ↦
            rw (f, rows_gone be node f, ← all_rows-left rest)
              (next_row-Yields slots rest (slot + 1) 0
                (drop-tail slots slot be rest e ∙ ap (λ k. drop k slots) (sym (add-one slot))) fits)
      ]

  call-Yields :
      (slots : Slots F) (c : Cursor)
      → All FitsArray slots
      → Yields slots (rows_left (drop c.slot_idx slots) c.node_idx) (v1_status_f d slots c)
  unfolding v1_status_f
  call-Yields slots c fits =
      next_row-Yields slots (drop c.slot_idx slots) c.slot_idx c.node_idx refl
        (All-drop slots c.slot_idx fits)
    where
      All-drop : (xs : Slots F) (n : ℕ) → All FitsArray xs → All FitsArray (drop n xs)
      All-drop xs zero h = h
      All-drop [] (suc n) h = tt
      All-drop (x ∷ xs) (suc n) h = All-drop xs n h.1

  all_calls-left :
      (fuel : ℕ) (slots : Slots F) (c : Cursor)
      → All FitsArray slots
      → length (rows_left (drop c.slot_idx slots) c.node_idx) < fuel
      → all_calls d fuel slots c ≡ some (rows_left (drop c.slot_idx slots) c.node_idx)
  unfolding all_calls
  all_calls-left zero slots c fits h = absurd (omega arith)
  all_calls-left (suc fuel) slots c fits h =
      go (rows_left (drop c.slot_idx slots) c.node_idx) (v1_status_f d slots c)
        (λ c'. all_calls-left fuel slots c' fits) (call-Yields slots c fits) h
    where
      go :
          (left : List Row) (r : Reply F)
          → ((c' : Cursor)
              → length (rows_left (drop c'.slot_idx slots) c'.node_idx) < fuel
              → all_calls d fuel slots c' ≡ some (rows_left (drop c'.slot_idx slots) c'.node_idx))
          → Yields slots left r
          → length left < suc fuel
          → elim r [
            | return_next row c' ↦ elim (all_calls d fuel slots c') [
              | none ↦ none
              | some rows ↦ some (row ∷ rows)
            ]
            | return_done c' ↦ some []
            | beyond_array ↦ none
          ]
            ≡ some left
      go left (return_next row c') ih y b = rw (ih c' (omega (arith, ap length y)), y)
      go left (return_done c') ih y b = rw y
      go left beyond_array ih y b = absurd y

  -- While the slots stay as they are and none counts more nodes than its array has, the executor's
  -- calls return, in order, one row for each node of each slot in use, and then end, within as many
  -- calls as there are rows and one more; and no call reads beyond an array.
  pub all_calls-all_rows :
      (fuel : ℕ) (slots : Slots F)
      → All FitsArray slots
      → length (all_rows slots) < fuel
      → all_calls d fuel slots first_call ≡ some (all_rows slots)
  all_calls-all_rows fuel slots fits h =
      all_calls-left fuel slots first_call fits (omega (arith, ap length (all_rows-left slots)))
      ∙ ap some (all_rows-left slots)
