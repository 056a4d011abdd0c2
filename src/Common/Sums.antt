-- ===== src/Common/Sums.antt =====
-- Sums over lists, and two lists that correspond entry by entry.
use rolebrief.Common.Tests.{Bool-cases}
use rolebrief.Common.Lists.{length, take, keep, All, All-map_le, Pairs}
use rolebrief.Common.Sort.{sort, insert_by, not_after}
use rolebrief.Common.Int.{ℤ}
use Prim.Native.Nat.{ℕ, zero, suc, ◌+◌, ◌*◌, ◌≤◌}
use mathlib.Core.Path.{◌≡◌, refl}
use mathlib.Core.Logic.{inl, inr}
use mathlib.Core.Bool.{Bool}
use mathlib.Core.List.{List, [], ◌∷◌, map}
use native.Mathlib.Omega.{arith}

module _ {A : Type 0} where
  abbrev pub sum_of : (A → ℕ) → List A → ℕ
  sum_of f [] = 0
  sum_of f (x ∷ xs) = f x + sum_of f xs

  pub sum_of-keep : (f : A → ℕ) (p : A → Bool) (xs : List A) → sum_of f (keep p xs) ≤ sum_of f xs
  sum_of-keep f p [] = omega arith
  sum_of-keep f p (x ∷ xs) = elim (Bool-cases (p x)) [
    | inl kept ↦ rw kept (omega (arith, sum_of-keep f p xs))
    | inr left ↦ rw left (omega (arith, sum_of-keep f p xs))
  ]

  pub sum_of-take : (f : A → ℕ) (n : ℕ) (xs : List A) → sum_of f (take n xs) ≤ sum_of f xs
  sum_of-take f zero xs = omega arith
  sum_of-take f (suc n) [] = omega arith
  sum_of-take f (suc n) (x ∷ xs) = omega (arith, sum_of-take f n xs)

  sum_of-insert_by :
      (f : A → ℕ) (c : A → A → ℤ) (x : A) (xs : List A)
      → sum_of f (insert_by c x xs) ≡ f x + sum_of f xs
  sum_of-insert_by f c x [] = refl
  sum_of-insert_by f c x (y ∷ ys) = elim (Bool-cases (not_after (c x y))) [
    | inl before ↦ rw before refl
    | inr after ↦ rw after (omega (arith, sum_of-insert_by f c x ys))
  ]

  pub sum_of-sort : (f : A → ℕ) (c : A → A → ℤ) (xs : List A) → sum_of f (sort c xs) ≡ sum_of f xs
  unfolding sort
  sum_of-sort f c [] = refl
  sum_of-sort f c (x ∷ xs) = omega (arith, sum_of-insert_by f c x (sort c xs), sum_of-sort f c xs)

  pub sum_of-ones : (f : A → ℕ) (xs : List A) → All (λ x. f x ≡ 1) xs → sum_of f xs ≡ length xs
  sum_of-ones f [] h = refl
  sum_of-ones f (x ∷ xs) h = omega (arith, sum_of-ones f xs h.1, h.0)

  pub sum_of-map :
      (f b r : A → ℕ) (g : A → A) (xs : List A)
      → All (λ x. b x + f (g x) ≤ r x) xs
      → sum_of b xs + sum_of f (map g xs) ≤ sum_of r xs
  sum_of-map f b r g [] h = omega arith
  sum_of-map f b r g (x ∷ xs) h = omega (arith, sum_of-map f b r g xs h.1, h.0)

  pub sum_of-plus :
      (f g : A → ℕ) (xs : List A) → sum_of (λ x. f x + g x) xs ≡ sum_of f xs + sum_of g xs
  sum_of-plus f g [] = refl
  sum_of-plus f g (x ∷ xs) = omega (arith, sum_of-plus f g xs)

  pub sum_of-bound :
      (f : A → ℕ) (n : ℕ) (xs : List A) → All (λ x. f x ≤ n) xs → sum_of f xs ≤ n * length xs
  sum_of-bound f n [] h = omega arith
  sum_of-bound f n (x ∷ xs) h = grind (arith, sum_of-bound f n xs h.1, h.0)

module _ {A B : Type 0} where
  -- The lists are equally long, and their entries are related in turn.
  abbrev pub Each : (A → B → Type 0) → List A → List B → Type 0
  Each R [] [] = Unit
  Each R (x ∷ xs) (y ∷ ys) = R x y × Each R xs ys
  Each R _ _ = ⊥

  pub Each-map :
      (R : A → B → Type 0) (g : A → B) (xs : List A)
      → All (λ x. R x (g x)) xs
      → Each R xs (map g xs)
  Each-map R g [] h = tt
  Each-map R g (x ∷ xs) h = (h.0, Each-map R g xs h.1)

module _ {A : Type 0} where
  pub Each-refl : (R : A → A → Type 0) (xs : List A) → ((x : A) → R x x) → Each R xs xs
  Each-refl R [] r = tt
  Each-refl R (x ∷ xs) r = (r x, Each-refl R xs r)

  -- What the relation carries from an entry to its partner holds of the second list.
  pub Each-All :
      (R : A → A → Type 0) (P : A → Type 0) (xs ys : List A)
      → ((x y : A) → R x y → P x → P y)
      → Each R xs ys
      → All P xs
      → All P ys
  Each-All R P [] [] step r h = tt
  Each-All R P [] (y ∷ ys) step r h = elim r [ ]
  Each-All R P (x ∷ xs) [] step r h = elim r [ ]
  Each-All R P (x ∷ xs) (y ∷ ys) step r h = (step x y r.0 h.0, Each-All R P xs ys step r.1 h.1)

  pub Each-Pairs :
      (R S : A → A → Type 0) (xs ys : List A)
      → ((a b x : A) → R a b → S a x → S b x)
      → ((a b x : A) → R a b → S x a → S x b)
      → Each R xs ys
      → Pairs S xs
      → Pairs S ys
  Each-Pairs R S [] [] left right r h = tt
  Each-Pairs R S [] (y ∷ ys) left right r h = elim r [ ]
  Each-Pairs R S (x ∷ xs) [] left right r h = elim r [ ]
  Each-Pairs R S (x ∷ xs) (y ∷ ys) left right r h = (
    Each-All R (S y) xs ys (λ a b. right a b y) r.1
        (All-map_le (S x) (S y) xs (λ z. left x y z r.0) h.0),
    Each-Pairs R S xs ys left right r.1 h.1,
  )
