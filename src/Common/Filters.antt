-- ===== src/Common/Filters.antt =====
-- Lemmas on filters, searches and tests of lists.
use Prim.Native.Nat.{◌≤◌}
use mathlib.Core.Path.{◌≡◌, refl, ap}
use mathlib.Core.Logic.{inl, inr}
use mathlib.Core.Bool.{Bool, true, false, ◌&&◌}
use mathlib.Core.Option.{none, some, some-injective}
use mathlib.Core.List.{List, [], ◌∷◌, map}
use native.Mathlib.Omega.{arith}
use rolebrief.Common.Tests.{Bool-cases}
use rolebrief.Common.Lists.{length, keep, find, any, All}

module _ {ℓ} {A : Type ℓ} where
  -- A map that leaves the kept entries alone, and keeps none of the others.
  pub keep-map :
      (p : A → Bool) (f : A → A) (xs : List A)
      → All (λ x. (p (f x) ≡ p x) × (p x ≡ true → f x ≡ x)) xs
      → keep p (map f xs) ≡ keep p xs
  keep-map p f [] h = refl
  keep-map p f (x ∷ xs) ((same, alone), h) = elim (Bool-cases (p x)) [
    | inl kept ↦ rw (same, kept) (rw (alone kept) (ap (λ t. x ∷ t) (keep-map p f xs h)))
    | inr left ↦ rw (same, left) (keep-map p f xs h)
  ]

  -- A filter that drops only entries that another one drops.
  pub keep-keep :
      (p q : A → Bool) (xs : List A)
      → All (λ x. p x ≡ true → q x ≡ true) xs
      → keep p (keep q xs) ≡ keep p xs
  keep-keep p q [] h = refl
  keep-keep p q (x ∷ xs) (through, h) = elim (Bool-cases (p x)) [
    | inl kept ↦ rw (through kept, kept) (ap (λ t. x ∷ t) (keep-keep p q xs h))
    | inr left ↦ elim (Bool-cases (q x)) [
      | inl passed ↦ rw (passed, left) (keep-keep p q xs h)
      | inr dropped ↦ rw (dropped, left) (keep-keep p q xs h)
    ]
  ]

  pub length-keep : (p : A → Bool) (xs : List A) → length (keep p xs) ≤ length xs
  length-keep p [] = omega arith
  length-keep p (x ∷ xs) = ground (arith, length-keep p xs)

  pub keep-true : (xs : List A) → keep (λ x. true) xs ≡ xs
  keep-true [] = refl
  keep-true (x ∷ xs) = ap (λ t. x ∷ t) (keep-true xs)

  -- A filter by two tests is one after the other.
  pub keep-and : (p q : A → Bool) (xs : List A) → keep (λ x. p x && q x) xs ≡ keep q (keep p xs)
  keep-and p q [] = refl
  keep-and p q (x ∷ xs) = elim (Bool-cases (p x)) [
    | inr left ↦ rw left (keep-and p q xs)
    | inl kept ↦ elim (Bool-cases (q x)) [
      | inl also ↦ rw (kept, also) (ap (λ t. x ∷ t) (keep-and p q xs))
      | inr dropped ↦ rw (kept, dropped) (keep-and p q xs)
    ]
  ]

  -- A map that leaves the test alone is found through.
  pub find-map :
      (p : A → Bool) (f : A → A) (xs : List A) {x : A}
      → ((y : A) → p (f y) ≡ p y)
      → find p xs ≡ some x
      → find p (map f xs) ≡ some (f x)
  find-map p f [] same e = cc
  find-map p f (y ∷ xs) {x} same e = elim (Bool-cases (p y)) [
    | inl hit ↦ rw (same y) (rw hit (ap (λ z. some (f z)) (some-injective y x (rw hit at e))))
    | inr miss ↦ rw (same y) (rw miss (find-map p f xs {x = x} same (rw miss at e)))
  ]

  pub any-map-false :
      (p : A → Bool) (f : A → A) (xs : List A)
      → ((x : A) → p (f x) ≡ false)
      → any p (map f xs) ≡ false
  any-map-false p f [] h = refl
  any-map-false p f (x ∷ xs) h = rw (h x) (any-map-false p f xs h)

  pub any-keep-false :
      (p q : A → Bool) (xs : List A)
      → ((x : A) → q x ≡ true → p x ≡ false)
      → any p (keep q xs) ≡ false
  any-keep-false p q [] h = refl
  any-keep-false p q (x ∷ xs) h = elim (Bool-cases (q x)) [
    | inl kept ↦ rw kept (rw (h x kept) (any-keep-false p q xs h))
    | inr left ↦ rw left (any-keep-false p q xs h)
  ]

  pub any_of_find :
      (p q : A → Bool) (xs : List A) {x : A} → find p xs ≡ some x → q x ≡ true → any q xs ≡ true
  any_of_find p q [] e h = cc
  any_of_find p q (y ∷ xs) {x} e h = elim (Bool-cases (p y)) [
    | inl hit ↦ rw (some-injective y x (rw hit at e)) (rw h refl)
    | inr miss ↦ ground (arith, any_of_find p q xs {x = x} (rw miss at e) h)
  ]

  pub find-none : (p : A → Bool) (xs : List A) → find p xs ≡ none → All (λ x. p x ≡ false) xs
  find-none p [] e = tt
  find-none p (x ∷ xs) e = elim (Bool-cases (p x)) [
    | inl hit ↦ cc (rw hit at e)
    | inr miss ↦ (miss, find-none p xs (rw miss at e))
  ]
