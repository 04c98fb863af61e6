-- ===== src/Walker/Order.antt =====
-- The walk of src/plan_tree_walker.c visits the nodes in preorder.
use pg_what_is_happening.Base.{
  ℕ, suc, ◌+◌, ◌≡◌, refl, sym, ap, ◌∙◌, Bool, true, false, Option, none, some, List, [], ◌∷◌, ◌++◌,
  arith, length,
}
use pg_what_is_happening.Walker.{
  PlanNode, PlanState, no_planstate, planstate, PlanStates, nil, cons, NodeState, append_state,
  cte_scan_state, merge_append_state, bitmap_and_state, bitmap_or_state, subquery_scan_state,
  other_state, Visit, assigned, stopped, and_then, descend, walk_planstate_recursive,
  walk_planstates, walk_node_state,
}

-- A node and the number of its parent.
pub record Listed (F : Type 0) : Type 0 where
  pub node : PlanNode F
  pub parent : Option ℕ

module _ {F : Type 0} where
  -- A node with nothing below a missing plan; children in the order left, right, subplans, special.
  -- `n` is the number of the first node listed.
  unfoldable mutual
    pub preorder : PlanState F → Option ℕ → ℕ → List (Listed F)
    preorder no_planstate parent n = []
    preorder (planstate none l r sub special) parent n = []
    preorder (planstate (some node) l r sub special) parent n =
        let ls = preorder l (some n) (n + 1) in
        let rs = preorder r (some n) (n + 1 + length ls) in
        let ss = preorder_all sub n (n + 1 + length ls + length rs) in
        let ts = preorder_special special n (n + 1 + length ls + length rs + length ss) in
        record { node = node; parent = parent } ∷ (ls ++ (rs ++ (ss ++ ts)))

    pub preorder_all : PlanStates F → ℕ → ℕ → List (Listed F)
    preorder_all nil parent n = []
    preorder_all (cons p ps) parent n =
        let xs = preorder p (some parent) n in xs ++ preorder_all ps parent (n + length xs)

    pub preorder_special : NodeState F → ℕ → ℕ → List (Listed F)
    preorder_special (append_state ps) parent n = preorder_all ps parent n
    preorder_special (cte_scan_state p) parent n = preorder p (some parent) n
    preorder_special (merge_append_state ps) parent n = preorder_all ps parent n
    preorder_special (bitmap_and_state ps) parent n = preorder_all ps parent n
    preorder_special (bitmap_or_state ps) parent n = preorder_all ps parent n
    preorder_special (subquery_scan_state p) parent n = preorder p (some parent) n
    preorder_special other_state parent n = []

module _ {F C : Type 0} (visit : PlanNode F → Option ℕ → C → Visit C) where
  -- Visit a list of nodes in turn, until the visitor stops.
  unfoldable pub visit_all : List (Listed F) → C → Bool × C
  visit_all [] c = (true, c)
  visit_all (x ∷ xs) c = descend (visit x.node x.parent c) λ id c'. visit_all xs c'

  and_then-descend :
      (v : Visit C) (h : ℕ → C → Bool × C) (k : C → Bool × C)
      → and_then (descend v h) k ≡ descend v (λ id c. and_then (h id c) k)
  and_then-descend (assigned id c) h k = refl
  and_then-descend (stopped c) h k = refl

  visit_all-append :
      (xs ys : List (Listed F)) (c : C)
      → visit_all (xs ++ ys) c ≡ and_then (visit_all xs c) (visit_all ys)
  unfolding visit_all
  visit_all-append [] ys c = refl
  visit_all-append (x ∷ xs) ys c =
      ap (descend (visit x.node x.parent c)) (λ i id c'. visit_all-append xs ys c' i)
      ∙ sym (and_then-descend (visit x.node x.parent c) (λ id c'. visit_all xs c') (visit_all ys))

  module _ (counter : C → ℕ) where
    -- A visitor's answer gives the counter as the id, and counts on.
    abbrev pub Numbered : C → Visit C → Type 0
    Numbered c (assigned id c') = (id ≡ counter c) × (counter c' ≡ counter c + 1)
    Numbered c (stopped c') = Unit {0}

    abbrev Advances : C → ℕ → Bool × C → Type 0
    Advances c k (true, c') = counter c' ≡ counter c + k
    Advances c k (false, c') = Unit {0}

    module _
        (num : (node : PlanNode F) (parent : Option ℕ) (c : C)
          → Numbered c (visit node parent c)) where
      Advances-shift :
          (c c' : C) (k : ℕ) (r : Bool × C)
          → counter c' ≡ counter c + 1
          → Advances c' k r
          → Advances c (suc k) r
      Advances-shift c c' k (true, c₁) e a = omega arith
      Advances-shift c c' k (false, c₁) e a = tt

      Advances-descend :
          (c : C) (v : Visit C) (xs : List (Listed F))
          → Numbered c v
          → ((c' : C) → Advances c' (length xs) (visit_all xs c'))
          → Advances c (suc (length xs)) (descend v (λ id c'. visit_all xs c'))
      Advances-descend c (assigned id c') xs n h =
          Advances-shift c c' (length xs) (visit_all xs c') n.1 (h c')
      Advances-descend c (stopped c') xs n h = tt

      visit_all-Advances : (xs : List (Listed F)) (c : C) → Advances c (length xs) (visit_all xs c)
      unfolding visit_all
      visit_all-Advances [] c = omega arith
      visit_all-Advances (x ∷ xs) c =
          Advances-descend c (visit x.node x.parent c) xs (num x.node x.parent c)
            (visit_all-Advances xs)

      and_then-cong :
          (c : C) (k : ℕ) (r : Bool × C) (f g : C → Bool × C)
          → Advances c k r
          → ((c' : C) → counter c' ≡ counter c + k → f c' ≡ g c')
          → and_then r f ≡ and_then r g
      and_then-cong c k (true, c') f g a h = h c' a
      and_then-cong c k (false, c') f g a h = refl

      -- One part of a walk, and the rest of it.
      seq :
          (n : ℕ) (xs ys : List (Listed F)) (c : C) (m : Bool × C) (f : C → Bool × C)
          → counter c ≡ n
          → m ≡ visit_all xs c
          → ((c' : C) → counter c' ≡ n + length xs → f c' ≡ visit_all ys c')
          → and_then m f ≡ visit_all (xs ++ ys) c
      seq n xs ys c m f cn e h =
          rw (e, visit_all-append xs ys c)
            (and_then-cong c (length xs) (visit_all xs c) f (visit_all ys) (visit_all-Advances xs c)
              (λ c' e'. h c' (omega arith)))

      -- A subtree is walked as its preorder from `n` is visited.
      abbrev AsListed : (C → Bool × C) → ℕ → List (Listed F) → Type 0
      AsListed walk n xs = (c : C) → counter c ≡ n → walk c ≡ visit_all xs c

      seq_AsListed :
          (n : ℕ) (xs ys : List (Listed F)) (f g : C → Bool × C)
          → AsListed f n xs
          → AsListed g (n + length xs) ys
          → AsListed (λ c. and_then (f c) g) n (xs ++ ys)
      seq_AsListed n xs ys f g hf hg c cn = seq n xs ys c (f c) g cn (hf c cn) hg

      nil_AsListed : (n : ℕ) → AsListed (λ c. (true, c)) n []
      unfolding visit_all
      nil_AsListed n c cn = refl

      node_AsListed :
          (node : PlanNode F) (parent : Option ℕ) (n : ℕ) (xs : List (Listed F))
          (f : ℕ → C → Bool × C)
          → AsListed (f n) (n + 1) xs
          → AsListed
              (λ c. descend (visit node parent c) f)
              n
              (record { node = node; parent = parent } ∷ xs)
      unfolding visit_all
      node_AsListed node parent n xs f h c cn = go (visit node parent c) (num node parent c)
        where
          go : (v : Visit C) → Numbered c v → descend v f ≡ descend v (λ id c'. visit_all xs c')
          go (assigned id c') (e, e') = ap (λ k. f k c') (e ∙ cn) ∙ h c' (e' ∙ ap (λ k. k + 1) cn)
          go (stopped c') u = refl

      mutual
        unfolding walk_planstate_recursive preorder

        walk_AsListed :
            (p : PlanState F) (parent : Option ℕ) (n : ℕ)
            → AsListed (walk_planstate_recursive visit p parent) n (preorder p parent n)
        walk_AsListed no_planstate parent n = nil_AsListed n
        walk_AsListed (planstate none l r sub special) parent n = nil_AsListed n
        walk_AsListed (planstate (some node) l r sub special) parent n =
            node_AsListed node parent n _ _ (
              seq_AsListed (n + 1) _ _ _ _ (walk_AsListed l (some n) (n + 1)) (
                seq_AsListed _ _ _ _ _ (walk_AsListed r (some n) _)
                  (seq_AsListed _ _ _ _ _ (walks_AsListed sub n _) (special_AsListed special n _))))

        walks_AsListed :
            (ps : PlanStates F) (parent n : ℕ)
            → AsListed (walk_planstates visit ps parent) n (preorder_all ps parent n)
        walks_AsListed nil parent n = nil_AsListed n
        walks_AsListed (cons p ps) parent n =
            seq_AsListed n _ _ _ _ (walk_AsListed p (some parent) n) (walks_AsListed ps parent _)

        special_AsListed :
            (t : NodeState F) (parent n : ℕ)
            → AsListed (walk_node_state visit t parent) n (preorder_special t parent n)
        special_AsListed (append_state ps) parent n = walks_AsListed ps parent n
        special_AsListed (cte_scan_state p) parent n = walk_AsListed p (some parent) n
        special_AsListed (merge_append_state ps) parent n = walks_AsListed ps parent n
        special_AsListed (bitmap_and_state ps) parent n = walks_AsListed ps parent n
        special_AsListed (bitmap_or_state ps) parent n = walks_AsListed ps parent n
        special_AsListed (subquery_scan_state p) parent n = walk_AsListed p (some parent) n
        special_AsListed other_state parent n = nil_AsListed n

      -- For a visitor that numbers the nodes by its counter, the walk is the visit of the list of the
      -- nodes in preorder, in turn and until the visitor stops.
      pub walk-visit_all :
          (p : PlanState F) (parent : Option ℕ) (c : C)
          → walk_planstate_recursive visit p parent c ≡ visit_all (preorder p parent (counter c)) c
      walk-visit_all p parent c = walk_AsListed p parent (counter c) c refl
