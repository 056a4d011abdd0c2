-- ===== src/Common/Sort/Tables.antt =====
-- Rows of a table in the order that a query asks for: a sorted list, and what a filter leaves of it.
use mathlib.Core.Logic.{inl, inr}
use mathlib.Core.Bool.{Bool}
use mathlib.Core.List.{List, [], ◌∷◌, Perm}
use mathlib.Core.List.Perm
use rolebrief.Common.Tests.{Bool-cases}
use rolebrief.Common.Lists.{All, Pairs, keep}
use rolebrief.Common.Int.{ℤ}
use rolebrief.Common.Sort.{not_after, insert_by, sort, All-insert_by, All-sort}

module _ {ℓ} {A : Type ℓ} (p : A → Bool) where
  keep-cons-perm :
      (x : A) (xs ys : List A)
      → Perm (keep p xs) (keep p ys)
      → Perm (keep p (x ∷ xs)) (keep p (x ∷ ys))
  keep-cons-perm x xs ys h = elim (Bool-cases (p x)) [
    | inl kept ↦ rw kept (Perm.cons x h)
    | inr left ↦ rw left h
  ]

  keep-swap-perm : (x y : A) (ys : List A) → Perm (keep p (y ∷ x ∷ ys)) (keep p (x ∷ y ∷ ys))
  keep-swap-perm x y ys = elim (Bool-cases (p x)) [
    | inr left ↦ rw left Perm.rfl
    | inl kept ↦ elim (Bool-cases (p y)) [
      | inr left ↦ rw (kept, left) Perm.rfl
      | inl also ↦ rw (kept, also) (Perm.swap x y (keep p ys))
    ]
  ]

  keep-insert_by-perm :
      (compare : A → A → ℤ) (x : A) (xs : List A)
      → Perm (keep p (insert_by compare x xs)) (keep p (x ∷ xs))
  keep-insert_by-perm compare x [] = Perm.rfl
  keep-insert_by-perm compare x (y ∷ ys) = elim (Bool-cases (not_after (compare x y))) [
    | inl before ↦ rw before Perm.rfl
    | inr behind ↦ rw behind (
        Perm.trans
          (keep-cons-perm y (insert_by compare x ys) (x ∷ ys) (keep-insert_by-perm compare x ys))
          (keep-swap-perm x y ys))
  ]

  -- A table that is sorted and then filtered has the entries that pass, as often as they occur.
  pub keep-sort-perm :
      (compare : A → A → ℤ) (xs : List A) → Perm (keep p (sort compare xs)) (keep p xs)
  unfolding sort
  keep-sort-perm compare [] = Perm.rfl
  keep-sort-perm compare (x ∷ xs) =
      Perm.trans (keep-insert_by-perm compare x (sort compare xs))
        (keep-cons-perm x (sort compare xs) xs (keep-sort-perm compare xs))

module _ {A : Type 0} (R : A → A → Type 0) where
  abbrev IsSymmetric : Type 0
  IsSymmetric = (a b : A) → R a b → R b a

  Pairs-insert_by :
      (compare : A → A → ℤ) (x : A) (xs : List A)
      → IsSymmetric
      → All (R x) xs
      → Pairs R xs
      → Pairs R (insert_by compare x xs)
  Pairs-insert_by compare x [] flip h k = (tt, tt)
  Pairs-insert_by compare x (y ∷ ys) flip h k = elim (Bool-cases (not_after (compare x y))) [
    | inl before ↦ rw before (h, k)
    | inr behind ↦ rw behind (
      All-insert_by compare (R y) x ys (flip x y h.0) k.0,
      Pairs-insert_by compare x ys flip h.1 k.1,
    )
  ]

  -- What relates every two entries, either way round, still does when they are sorted.
  pub Pairs-sort :
      (compare : A → A → ℤ) (xs : List A)
      → ((a b : A) → R a b → R b a)
      → Pairs R xs
      → Pairs R (sort compare xs)
  unfolding sort
  Pairs-sort compare [] flip h = tt
  Pairs-sort compare (x ∷ xs) flip h =
      Pairs-insert_by compare x (sort compare xs) flip (All-sort compare (R x) xs h.0)
        (Pairs-sort compare xs flip h.1)
