-- ===== src/Walker/Parents.antt =====
-- The numbers of parents that src/plan_tree_walker.c records.
use native.Mathlib.Nat.{zero-add, add-zero}
use mathlib.Core.Path.{subst}
use mathlib.Core.Option.{some-injective}
use native.Mathlib.Numerals.{add-one}
use pg_what_is_happening.Base.{
  ℕ, zero, suc, ◌+◌, ◌-◌, ◌<◌, ◌≡◌, refl, sym, ap, Option, none, some, List, [], ◌∷◌, ◌++◌, inl,
  inr, ◌⊎◌, arith, length, ◌∙◌, get_elem?,
}
use pg_what_is_happening.Doubles.{Doubles}
use pg_what_is_happening.Memory.{NodeMetrics, node_magic, u32_mod}
use pg_what_is_happening.Walker.{
  PlanState, no_planstate, planstate, PlanStates, nil, cons, NodeState, append_state,
  cte_scan_state, merge_append_state, bitmap_and_state, bitmap_or_state, subquery_scan_state,
  other_state, topology_node, store_parent, remember_planstate_tree_as_metric_structure,
}
use pg_what_is_happening.Walker.Order.{Listed, preorder, preorder_all, preorder_special}
use pg_what_is_happening.Walker.Fill.{fill}
use pg_what_is_happening.Walker.Remember.{every, remember_lem}

-- The node 0 has no parent, and the parent of any other has a smaller number.
abbrev ParentBelow : ℕ → Option ℕ → Type 0
ParentBelow k parent = ((k ≡ 0) × (parent ≡ none)) ⊎ ((p : ℕ) × (parent ≡ some p) × (p < k))

module _ {F : Type 0} where
  -- So for each node of a list that is numbered from `k`.
  abbrev ParentsBelow : ℕ → List (Listed F) → Type 0
  ParentsBelow k [] = Unit {0}
  ParentsBelow k (x ∷ xs) = ParentBelow k x.parent × ParentsBelow (suc k) xs

  ParentsBelow-append :
      (k n : ℕ) (xs ys : List (Listed F))
      → n ≡ k + length xs
      → ParentsBelow k xs
      → ParentsBelow n ys
      → ParentsBelow k (xs ++ ys)
  ParentsBelow-append k n [] ys e hx hy = rw (shift e) at hy
    where
      shift : n ≡ k + 0 → n ≡ k
      shift h = omega arith
  ParentsBelow-append k n (x ∷ xs) ys e (h, hx) hy =
      (h, ParentsBelow-append (suc k) n xs ys (omega arith) hx hy)

  shift_ParentsBelow :
      (n : ℕ) (xs : List (Listed F)) → ParentsBelow (n + 1) xs → ParentsBelow (suc n) xs
  shift_ParentsBelow n xs h = rw (add-one n) at h

  mutual
    unfolding preorder

    preorder-ParentsBelow :
        (p : PlanState F) (parent : Option ℕ) (n : ℕ)
        → ParentBelow n parent
        → ParentsBelow n (preorder p parent n)
    preorder-ParentsBelow no_planstate parent n h = tt
    preorder-ParentsBelow (planstate none l r sub special) parent n h = tt
    preorder-ParentsBelow (planstate (some node) l r sub special) parent n h = (
      h,
      ParentsBelow-append (suc n) _ _ _ (omega arith)
          (shift_ParentsBelow n _
            (preorder-ParentsBelow l (some n) (n + 1) (inr (n, refl, omega arith))))
          (ParentsBelow-append _ _ _ _ refl
            (preorder-ParentsBelow r (some n) _ (inr (n, refl, omega arith)))
            (ParentsBelow-append _ _ _ _ refl (all-ParentsBelow sub n _ (omega arith))
              (special-ParentsBelow special n _ (omega arith)))),
    )

    all-ParentsBelow :
        (ps : PlanStates F) (parent n : ℕ) → parent < n → ParentsBelow n (preorder_all ps parent n)
    all-ParentsBelow nil parent n h = tt
    all-ParentsBelow (cons p ps) parent n h =
        ParentsBelow-append n (n + length (preorder p (some parent) n)) _ _ refl
          (preorder-ParentsBelow p (some parent) n (inr (parent, refl, h)))
          (all-ParentsBelow ps parent _ (omega arith))

    special-ParentsBelow :
        (t : NodeState F) (parent n : ℕ) → parent < n → ParentsBelow n (preorder_special t parent n)
    special-ParentsBelow (append_state ps) parent n h = all-ParentsBelow ps parent n h
    special-ParentsBelow (cte_scan_state p) parent n h =
        preorder-ParentsBelow p (some parent) n (inr (parent, refl, h))
    special-ParentsBelow (merge_append_state ps) parent n h = all-ParentsBelow ps parent n h
    special-ParentsBelow (bitmap_and_state ps) parent n h = all-ParentsBelow ps parent n h
    special-ParentsBelow (bitmap_or_state ps) parent n h = all-ParentsBelow ps parent n h
    special-ParentsBelow (subquery_scan_state p) parent n h =
        preorder-ParentsBelow p (some parent) n (inr (parent, refl, h))
    special-ParentsBelow other_state parent n h = tt

module _ {F : Type 0} (d : Doubles F) where
  -- How a node's record is linked to the others, at the number `j`.
  abbrev pub Linked : ℕ → NodeMetrics F → Type 0
  Linked j m =
      (m.node_id ≡ j)
      × (m.magic ≡ node_magic)
      × (((j ≡ 0) × (m.parent_node_id ≡ u32_mod - 1)) ⊎ (m.parent_node_id < j))

  topology-Linked :
      (k : ℕ) (x : Listed F) (m₀ : NodeMetrics F)
      → ParentBelow k x.parent
      → Linked k (topology_node d k x.node x.parent m₀)
  topology-Linked k x m₀ (inl (z, e)) = (refl, refl, inl (z, ap store_parent e))
  topology-Linked k x m₀ (inr (p, e, lt)) = (refl, refl, inr (rw e lt))

  fill-Linked :
      (k : ℕ) (xs : List (Listed F)) (ms : List (NodeMetrics F)) (j : ℕ) (m : NodeMetrics F)
      → ParentsBelow k xs
      → j < length xs
      → get_elem? (fill (every d) (topology_node d) k xs ms) j ≡ some m
      → Linked (k + j) m
  fill-Linked k [] ms j m b h e = absurd (omega arith)
  fill-Linked k (x ∷ xs) [] j m b h e = cc
  fill-Linked k (x ∷ xs) (m₀ ∷ ms) zero m b h e =
      rw (add-zero k) (subst (Linked k) (some-injective _ _ e) (topology-Linked k x m₀ b.0))
  fill-Linked k (x ∷ xs) (m₀ ∷ ms) (suc j) m b h e =
      rw (shift k j) at (fill-Linked (suc k) xs ms j m b.1 (omega arith) e)
    where
      shift : (k j : ℕ) → suc k + j ≡ k + suc j
      shift k j = omega arith

  -- After the walk, every element of the array that it counted has its own number as `node_id` and
  -- the magic number, and its `parent_node_id` is a smaller number, or -1 for the first.
  pub remember-Linked :
      (p : PlanState F) (metrics : List (NodeMetrics F)) (j : ℕ) (m : NodeMetrics F)
      → j < (remember_planstate_tree_as_metric_structure d p metrics (length metrics)).0
      → get_elem? (remember_planstate_tree_as_metric_structure d p metrics (length metrics)).1 j
        ≡ some m
      → Linked j m
  remember-Linked p metrics j m h e = rw (zero-add j) at (
      fill-Linked 0 (preorder p none 0) metrics j m
        (preorder-ParentsBelow p none 0 (inl (refl, refl)))
        (omega (arith, ap (λ r. r.0) (remember_lem d p metrics (length metrics) refl)))
        (ap (λ r. get_elem? r.1 j) (sym (remember_lem d p metrics (length metrics) refl)) ∙ e))
