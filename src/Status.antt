-- ===== src/Status.antt =====
-- `v1_status_f` of src/pg_what_is_happening.c: the function behind the view, called once for each row.
pub mod Rows
pub mod Changing
use pg_what_is_happening.Base.{
  ℕ, zero, suc, ◌+◌, ◌-◌, Bool, Option, none, some, List, [], ◌∷◌, ltb, ◌&&◌, if◌then◌else◌,
  get_elem?, drop, length,
}
use pg_what_is_happening.Doubles.{Doubles}
use pg_what_is_happening.Memory.{BackendEntry, NodeMetrics, Slots, is_backend_entry_active}
use pg_what_is_happening.Metrics.Columns.{Datum, fill_v1_status_tuple}
use pg_what_is_happening.Metrics.Format.{total_query_time}

-- `state[0]` and `state[1]`.
pub record Cursor : Type 0 where
  pub slot_idx : ℕ
  pub node_idx : ℕ

abbrev pub first_call : Cursor
first_call = record { slot_idx = 0; node_idx = 0 }

-- What a call returns, with the cursor that it leaves. `beyond_array` is a read of a node that the
-- metrics array does not have.
pub data Reply (F : Type 0) : Type 0 where
  return_next : List (Datum F) → Cursor → Reply F
  return_done : Cursor → Reply F
  beyond_array : Reply F

module _ {F : Type 0} (d : Doubles F) where
  abbrev return_row : BackendEntry F → Cursor → Option (NodeMetrics F) → Reply F
  return_row be c none = beyond_array
  return_row be c (some node) =
      return_next (fill_v1_status_tuple d be node (total_query_time d be))
        (record c { node_idx = c.node_idx + 1 })

  -- The loop over the slots; the list holds those from `slot_idx` on.
  unfoldable pub next_row : Slots F → ℕ → ℕ → Reply F
  next_row [] slot_idx node_idx = return_done (record { slot_idx = slot_idx; node_idx = node_idx })
  next_row (be ∷ rest) slot_idx node_idx =
      let move_on = next_row rest (slot_idx + 1) 0 in
      if is_backend_entry_active be && ltb node_idx be.count_of_metrics
      then return_row be (record { slot_idx = slot_idx; node_idx = node_idx })
          (get_elem? be.metrics node_idx)
      else move_on

  -- A call on the slots as they are then. The first call also signals the backends and waits; the
  -- slots are those after that.
  unfoldable pub v1_status_f : Slots F → Cursor → Reply F
  unfolding next_row
  v1_status_f slots c = next_row (drop c.slot_idx slots) c.slot_idx c.node_idx

  -- The executor calls until it is told that there is no more; `none` if the fuel runs out or a call
  -- reads beyond an array.
  unfoldable pub all_calls : ℕ → Slots F → Cursor → Option (List (List (Datum F)))
  all_calls zero slots c = none
  all_calls (suc fuel) slots c = elim (v1_status_f slots c) [
    | return_next row c' ↦ elim (all_calls fuel slots c') [
      | none ↦ none
      | some rows ↦ some (row ∷ rows)
    ]
    | return_done c' ↦ some []
    | beyond_array ↦ none
  ]
