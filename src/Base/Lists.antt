-- ===== src/Base/Lists.antt =====
-- Lists measured and indexed by native numbers, under the library's names.
use native.Mathlib.Nat.{zero-add}
use Prim.Native.Nat.{ℕ, zero, suc, ◌+◌, min}
use mathlib.Core.Path.{◌≡◌, refl, ap, ◌∙◌}
use mathlib.Core.Logic.{◌≢◌}
use mathlib.Core.List.{List, [], ◌∷◌, ◌++◌}
use mathlib.Core.Option.{Option, none, some}
use native.Mathlib.Omega.{arith}

module _ {ℓ} {A : Type ℓ} where
  abbrev pub length : List A → ℕ
  length [] = 0
  length (x ∷ xs) = suc (length xs)

  abbrev pub get_elem? : List A → ℕ → Option A
  get_elem? [] i = none
  get_elem? (x ∷ xs) zero = some x
  get_elem? (x ∷ xs) (suc i) = get_elem? xs i

  -- A write out of bounds changes nothing.
  abbrev pub set : List A → ℕ → A → List A
  set [] i v = []
  set (x ∷ xs) zero v = v ∷ xs
  set (x ∷ xs) (suc i) v = x ∷ set xs i v

  -- An update in place of the element at an index.
  abbrev pub modify : List A → ℕ → (A → A) → List A
  modify [] i f = []
  modify (x ∷ xs) zero f = f x ∷ xs
  modify (x ∷ xs) (suc i) f = x ∷ modify xs i f

  abbrev pub take : ℕ → List A → List A
  take zero xs = []
  take (suc n) [] = []
  take (suc n) (x ∷ xs) = x ∷ take n xs

  abbrev pub drop : ℕ → List A → List A
  drop zero xs = xs
  drop (suc n) [] = []
  drop (suc n) (x ∷ xs) = drop n xs

  abbrev pub replicate : ℕ → A → List A
  replicate zero a = []
  replicate (suc n) a = a ∷ replicate n a

  pub length-append : (xs ys : List A) → length (xs ++ ys) ≡ length xs + length ys
  length-append [] ys = omega arith
  length-append (x ∷ xs) ys = omega (arith, length-append xs ys)

module _ {ℓ} {A : Type ℓ} where
  pub length-modify : (xs : List A) (i : ℕ) (f : A → A) → length (modify xs i f) ≡ length xs
  length-modify [] i f = refl
  length-modify (x ∷ xs) zero f = refl
  length-modify (x ∷ xs) (suc i) f = ap suc (length-modify xs i f)

  pub length-take : (n : ℕ) (xs : List A) → length (take n xs) ≡ min n (length xs)
  length-take zero xs = omega arith
  length-take (suc n) [] = omega arith
  length-take (suc n) (x ∷ xs) = omega (arith, length-take n xs)

  pub get_elem?-modify_self :
      (xs : List A) (i : ℕ) (f : A → A) {x : A}
      → get_elem? xs i ≡ some x
      → get_elem? (modify xs i f) i ≡ some (f x)
  get_elem?-modify_self [] i f h = cc
  get_elem?-modify_self (y ∷ ys) zero f h = ground arith
  get_elem?-modify_self (y ∷ ys) (suc i) f h = get_elem?-modify_self ys i f h

  pub get_elem?-modify_ne :
      (xs : List A) (i j : ℕ) (f : A → A) → i ≢ j → get_elem? (modify xs i f) j ≡ get_elem? xs j
  get_elem?-modify_ne [] i j f h = refl
  get_elem?-modify_ne (x ∷ xs) zero zero f h = absurd (h refl)
  get_elem?-modify_ne (x ∷ xs) zero (suc j) f h = refl
  get_elem?-modify_ne (x ∷ xs) (suc i) zero f h = refl
  get_elem?-modify_ne (x ∷ xs) (suc i) (suc j) f h =
      get_elem?-modify_ne xs i j f (λ e. h (ap suc e))

  pub modify-modify :
      (l : List A) (i : ℕ) (f g : A → A) → modify (modify l i f) i g ≡ modify l i (λ a. g (f a))
  modify-modify [] i f g = refl
  modify-modify (x ∷ l) zero f g = refl
  modify-modify (x ∷ l) (suc i) f g = ap (◌∷◌ x) (modify-modify l i f g)

  pub modify-same : (l : List A) (i : ℕ) → modify l i (λ a. a) ≡ l
  modify-same [] i = refl
  modify-same (x ∷ l) zero = refl
  modify-same (x ∷ l) (suc i) = ap (◌∷◌ x) (modify-same l i)

  -- Two changes that agree on the element.
  pub modify-agree :
      (l : List A) (i : ℕ) (f g : A → A)
      → ((a : A) → get_elem? l i ≡ some a → f a ≡ g a)
      → modify l i f ≡ modify l i g
  modify-agree [] i f g h = refl
  modify-agree (x ∷ l) zero f g h = ap (λ y. y ∷ l) (h x refl)
  modify-agree (x ∷ l) (suc i) f g h = ap (◌∷◌ x) (modify-agree l i f g h)

  -- A predicate by recursion computes to tuples.
  abbrev pub All {κ} : (A → Type κ) → List A → Type κ
  All P [] = Unit
  All P (x ∷ xs) = P x × All P xs

  pub All-append {κ} : (P : A → Type κ) (xs ys : List A) → All P xs → All P ys → All P (xs ++ ys)
  All-append P [] ys _ hy = hy
  All-append P (x ∷ xs) ys (px, hx) hy = (px, All-append P xs ys hx hy)

-- A function so many times.
abbrev pub iterate {ℓ} : {A : Type ℓ} → (A → A) → ℕ → A → A
iterate f zero a = a
iterate f (suc n) a = iterate f n (f a)

pub iterate-add {ℓ} :
    {A : Type ℓ} (f : A → A) (m n : ℕ) (a : A) → iterate f n (iterate f m a) ≡ iterate f (m + n) a
iterate-add f zero n a = rw zero-add
iterate-add f (suc m) n a = iterate-add f m n (f a) ∙ ap (λ k. iterate f k a) (shifted m n)
  where
    shifted : (m n : ℕ) → suc (m + n) ≡ suc m + n
    shifted m n = omega arith

pub iterate_last {ℓ} :
    {A : Type ℓ} (f : A → A) (n : ℕ) (a : A) → f (iterate f n a) ≡ iterate f n (f a)
iterate_last f zero a = refl
iterate_last f (suc n) a = iterate_last f n (f a)
