-- ===== src/Walker/Fill.antt =====
-- What a walk of src/plan_tree_walker.c leaves in the metrics array: one write for each node that is
-- visited, at the number of the node.
use Prim.Native.Nat.{min}
use pg_what_is_happening.Base.{
  ℕ, suc, ◌+◌, ◌<◌, ◌≡◌, refl, sym, ap, ◌∙◌, Bool, true, false, Option, some, List, [], ◌∷◌, ◌++◌,
  inl, inr, arith, append_assoc, length, length-append, if◌then◌else◌, get_elem?, modify,
  Bool-cases,
}
use pg_what_is_happening.Memory.{NodeMetrics}
use pg_what_is_happening.Walker.{PlanNode, Visit, assigned, stopped, WalkerContext}
use pg_what_is_happening.Walker.Order.{Listed, visit_all}

module _ {ℓ} {A : Type ℓ} where
  get_elem?-middle :
      (pre : List A) (m : A) (ms : List A) → get_elem? (pre ++ m ∷ ms) (length pre) ≡ some m
  get_elem?-middle [] m ms = refl
  get_elem?-middle (p ∷ pre) m ms = get_elem?-middle pre m ms

  modify-middle :
      (pre : List A) (m : A) (ms : List A) (f : A → A)
      → modify (pre ++ m ∷ ms) (length pre) f ≡ pre ++ f m ∷ ms
  modify-middle [] m ms f = refl
  modify-middle (p ∷ pre) m ms f = ap (◌∷◌ p) (modify-middle pre m ms f)

module _ {F : Type 0} (good : NodeMetrics F → Bool)
    (write : ℕ → PlanNode F → Option ℕ → NodeMetrics F → NodeMetrics F) where
  -- One write for each listed node, from the number `k` on, until the array ends or an element is
  -- not good.
  abbrev pub fill : ℕ → List (Listed F) → List (NodeMetrics F) → List (NodeMetrics F)
  fill k [] ms = ms
  fill k (x ∷ xs) [] = []
  fill k (x ∷ xs) (m ∷ ms) =
      if good m then write k x.node x.parent m ∷ fill (suc k) xs ms else m ∷ ms

  pub fill-length :
      (k : ℕ) (xs : List (Listed F)) (ms : List (NodeMetrics F)) → length (fill k xs ms) ≡ length ms
  fill-length k [] ms = refl
  fill-length k (x ∷ xs) [] = refl
  fill-length k (x ∷ xs) (m ∷ ms) = elim (Bool-cases (good m)) [
    | inl t ↦ rw t (ap suc (fill-length (suc k) xs ms))
    | inr f ↦ rw f
  ]

  module _ (visit : PlanNode F → Option ℕ → WalkerContext F → Visit (WalkerContext F)) where
    -- What a visitor does at the end of the array, at a good element and at another one.
    pub record Writes : Type 0 where
      pub full :
          (node : PlanNode F) (parent : Option ℕ) (ctx : WalkerContext F)
          → ctx.node_counter ≡ ctx.max_nodes
          → visit node parent ctx ≡ stopped ctx
      pub put :
          (node : PlanNode F) (parent : Option ℕ) (ctx : WalkerContext F) (m : NodeMetrics F)
          → ctx.node_counter < ctx.max_nodes
          → get_elem? ctx.metrics ctx.node_counter ≡ some m
          → good m ≡ true
          → visit node parent ctx
            ≡ assigned ctx.node_counter (record ctx {
              metrics = modify ctx.metrics ctx.node_counter (write ctx.node_counter node parent);
              node_counter = ctx.node_counter + 1;
            })
      pub refuse :
          (node : PlanNode F) (parent : Option ℕ) (ctx : WalkerContext F) (m : NodeMetrics F)
          → ctx.node_counter < ctx.max_nodes
          → get_elem? ctx.metrics ctx.node_counter ≡ some m
          → good m ≡ false
          → visit node parent ctx ≡ stopped (record ctx { node_counter = ctx.node_counter + 1 })

    -- The context part way: `pre` is written, `ms` is to come.
    abbrev pub part_way : List (NodeMetrics F) → List (NodeMetrics F) → WalkerContext F
    part_way pre ms = record {
      metrics = pre ++ ms;
      max_nodes = length pre + length ms;
      node_counter = length pre;
    }

    module _ (w : Writes) where
      length-snoc :
          (pre : List (NodeMetrics F)) (y : NodeMetrics F)
          → length (pre ++ y ∷ []) ≡ suc (length pre)
      length-snoc pre y = omega (arith, length-append pre (y ∷ []))

      part_way-eq :
          (pre : List (NodeMetrics F)) (y m : NodeMetrics F) (ms : List (NodeMetrics F))
          (f : NodeMetrics F → NodeMetrics F)
          → f m ≡ y
          → ◌≡◌ {A = WalkerContext F}
              (record {
                metrics = modify (pre ++ m ∷ ms) (length pre) f;
                max_nodes = length pre + suc (length ms);
                node_counter = length pre + 1;
              })
              (part_way (pre ++ y ∷ []) ms)
      part_way-eq pre y m ms f e i = record {
        metrics =
            (modify-middle pre m ms f
                ∙ (ap (λ z. pre ++ z ∷ ms) e ∙ sym (append_assoc pre (y ∷ []) ms)))
              i;
        max_nodes = size i;
        node_counter = next i;
      }
        where
          size : length pre + suc (length ms) ≡ length (pre ++ y ∷ []) + length ms
          size = omega (arith, length-snoc pre y)

          next : length pre + 1 ≡ length (pre ++ y ∷ [])
          next = omega (arith, length-snoc pre y)

      part_way_put :
          (pre : List (NodeMetrics F)) (x : Listed F) (m : NodeMetrics F)
          (ms : List (NodeMetrics F))
          → good m ≡ true
          → visit x.node x.parent (part_way pre (m ∷ ms))
            ≡ assigned (length pre) (part_way (pre ++ write (length pre) x.node x.parent m ∷ []) ms)
      part_way_put pre x m ms g =
          w.put x.node x.parent (part_way pre (m ∷ ms)) m (omega arith) (get_elem?-middle pre m ms)
            g
          ∙ ap (assigned (length pre)) (
              part_way-eq pre (write (length pre) x.node x.parent m) m ms
                (write (length pre) x.node x.parent) refl)

      -- The array after a walk.
      pub visit_all-fill :
          (xs : List (Listed F)) (pre ms : List (NodeMetrics F))
          → (visit_all visit xs (part_way pre ms)).1.metrics ≡ pre ++ fill (length pre) xs ms
      unfolding visit_all
      visit_all-fill [] pre ms = refl
      visit_all-fill (x ∷ xs) pre [] = rw (w.full x.node x.parent (part_way pre []) (omega arith))
      visit_all-fill (x ∷ xs) pre (m ∷ ms) = elim (Bool-cases (good m)) [
        | inl g ↦
            let y = write (length pre) x.node x.parent m in
            rw (part_way_put pre x m ms g, g)
              (visit_all-fill xs (pre ++ y ∷ []) ms
                ∙ (ap (λ k. (pre ++ y ∷ []) ++ fill k xs ms) (length-snoc pre y)
                    ∙ append_assoc pre (y ∷ []) (fill (suc (length pre)) xs ms)))
        | inr b ↦ rw (
          w.refuse x.node x.parent (part_way pre (m ∷ ms)) m (omega arith)
              (get_elem?-middle pre m ms) b,
          b,
        )
      ]

      -- The counter, if no element stops the walk.
      pub visit_all-counter :
          (xs : List (Listed F)) (pre ms : List (NodeMetrics F))
          → ((m : NodeMetrics F) → good m ≡ true)
          → (visit_all visit xs (part_way pre ms)).1.node_counter
            ≡ length pre + min (length xs) (length ms)
      unfolding visit_all
      visit_all-counter [] pre ms g = omega arith
      visit_all-counter (x ∷ xs) pre [] g =
          rw (w.full x.node x.parent (part_way pre []) (omega arith)) (omega arith)
      visit_all-counter (x ∷ xs) pre (m ∷ ms) g = rw (part_way_put pre x m ms (g m)) (
          omega (
            arith,
            visit_all-counter xs (pre ++ write (length pre) x.node x.parent m ∷ []) ms g,
            length-snoc pre (write (length pre) x.node x.parent m),
          ))
