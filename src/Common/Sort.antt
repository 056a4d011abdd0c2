-- ===== src/Common/Sort.antt =====
-- `Array.prototype.sort` with a comparison function: a stable sort, which puts an element behind
-- those that it does not stand before.
pub mod Tables
use Prim.Native.Nat.{ℕ, zero, suc, ◌-◌}
use mathlib.Core.Path.{◌≡◌, refl, ap, ◌∙◌}
use mathlib.Core.Logic.{inl, inr}
use mathlib.Core.Bool.{Bool, true, false, not}
use mathlib.Core.List.{List, [], ◌∷◌, map, Perm}
use mathlib.Core.List.Perm
use native.Mathlib.Omega.{arith}
use rolebrief.Common.Tests.{leb, if◌then◌else◌, Bool-cases}
use rolebrief.Common.Lists.{All, Pairs, All-map_le, length}
use rolebrief.Common.Int.{ℤ, pos, negsuc, int_leb}

-- `a - b`
abbrev pub difference : ℕ → ℕ → ℤ
difference a b = if leb b a then pos (a - b) else negsuc (b - suc a)

-- `x || y`, of two differences
abbrev pub or_then : ℤ → ℤ → ℤ
or_then (pos zero) y = y
or_then (pos (suc n)) y = pos (suc n)
or_then (negsuc n) y = negsuc n

-- `compare(a, b) <= 0`
abbrev pub not_after : ℤ → Bool
not_after d = int_leb d (pos 0)

abbrev pub is_negative : ℤ → Bool
is_negative (pos n) = false
is_negative (negsuc n) = true

after_flip :
    (d e : ℤ) → is_negative e ≡ not (not_after d) → not_after d ≡ false → not_after e ≡ true
after_flip d e flip h = ground arith

-- A difference and the one the other way round.
abbrev AreOpposite : ℤ → ℤ → Type 0
AreOpposite d e = (is_negative d ≡ not (not_after e)) × (is_negative e ≡ not (not_after d))

or_then_flip :
    (d d' e e' : ℤ)
    → AreOpposite d d'
    → is_negative e ≡ not (not_after e')
    → is_negative (or_then d e) ≡ not (not_after (or_then d' e'))
or_then_flip d d' e e' h k = ground arith

or_then_trans :
    (ab ab' bc bc' ac ac' x y z : ℤ)
    → AreOpposite ab ab'
    → AreOpposite bc bc'
    → AreOpposite ac ac'
    → (not_after ab ≡ true → not_after bc ≡ true → not_after ac ≡ true)
    → (not_after ac' ≡ true → not_after ab ≡ true → not_after bc' ≡ true)
    → (not_after bc ≡ true → not_after ac' ≡ true → not_after ab' ≡ true)
    → (not_after x ≡ true → not_after y ≡ true → not_after z ≡ true)
    → not_after (or_then ab x) ≡ true
    → not_after (or_then bc y) ≡ true
    → not_after (or_then ac z) ≡ true
or_then_trans ab ab' bc bc' ac ac' x y z o1 o2 o3 t1 t2 t3 t4 h k = ground arith

ascending : (m n : ℕ) → is_negative (difference m n) ≡ not (not_after (difference n m))
ascending m n = ground arith

ascending_trans :
    (m n k : ℕ)
    → not_after (difference m n) ≡ true
    → not_after (difference n k) ≡ true
    → not_after (difference m k) ≡ true
ascending_trans m n k p q = ground arith

module _ {ℓ} {A : Type ℓ} where
  -- What the documentation of `sort` asks of a comparison function, as far as the order needs it.
  abbrev pub IsComparison : (A → A → ℤ) → Type ℓ
  IsComparison compare =
      ((a b : A) → is_negative (compare a b) ≡ not (not_after (compare b a)))
      × ((a b c : A)
          → not_after (compare a b) ≡ true
          → not_after (compare b c) ≡ true
          → not_after (compare a c) ≡ true)

  abbrev pub insert_by : (A → A → ℤ) → A → List A → List A
  insert_by compare x [] = x ∷ []
  insert_by compare x (y ∷ ys) =
      let rest = insert_by compare x ys in if not_after (compare x y) then x ∷ y ∷ ys else y ∷ rest

  unfoldable pub sort : (A → A → ℤ) → List A → List A
  sort compare [] = []
  sort compare (x ∷ xs) = insert_by compare x (sort compare xs)

  insert_by-perm :
      (compare : A → A → ℤ) (x : A) (xs : List A) → Perm (insert_by compare x xs) (x ∷ xs)
  insert_by-perm compare x [] = Perm.rfl
  insert_by-perm compare x (y ∷ ys) = elim (Bool-cases (not_after (compare x y))) [
    | inl before ↦ rw before Perm.rfl
    | inr behind ↦
        rw behind (Perm.trans (Perm.cons y (insert_by-perm compare x ys)) (Perm.swap x y ys))
  ]

  pub sort-perm : (compare : A → A → ℤ) (xs : List A) → Perm (sort compare xs) xs
  unfolding sort
  sort-perm compare [] = Perm.rfl
  sort-perm compare (x ∷ xs) =
      Perm.trans (insert_by-perm compare x (sort compare xs)) (Perm.cons x (sort-perm compare xs))

  abbrev pub IsInOrder : (A → A → ℤ) → List A → Type 0
  IsInOrder compare = Pairs (λ a b. not_after (compare a b) ≡ true)

  pub All-insert_by :
      (compare : A → A → ℤ) (P : A → Type 0) (x : A) (xs : List A)
      → P x
      → All P xs
      → All P (insert_by compare x xs)
  All-insert_by compare P x [] p h = (p, h)
  All-insert_by compare P x (y ∷ ys) p h = elim (Bool-cases (not_after (compare x y))) [
    | inl before ↦ rw before (p, h)
    | inr behind ↦ rw behind (h.0, All-insert_by compare P x ys p h.1)
  ]

  insert_by-IsInOrder :
      (compare : A → A → ℤ) (x : A) (xs : List A)
      → IsComparison compare
      → IsInOrder compare xs
      → IsInOrder compare (insert_by compare x xs)
  insert_by-IsInOrder compare x [] c h = (tt, tt)
  insert_by-IsInOrder compare x (y ∷ ys) c h = elim (Bool-cases (not_after (compare x y))) [
    | inl before ↦ rw before ((before, All-map_le _ _ ys (λ z q. c.1 x y z before q) h.0), h)
    | inr behind ↦ rw behind (
      All-insert_by compare _ x ys (after_flip (compare x y) (compare y x) (c.0 y x) behind) h.0,
      insert_by-IsInOrder compare x ys c h.1,
    )
  ]

  pub All-sort :
      (compare : A → A → ℤ) (P : A → Type 0) (xs : List A) → All P xs → All P (sort compare xs)
  unfolding sort
  All-sort compare P [] h = tt
  All-sort compare P (x ∷ xs) h =
      All-insert_by compare P x (sort compare xs) h.0 (All-sort compare P xs h.1)

  length-insert_by :
      (compare : A → A → ℤ) (x : A) (xs : List A)
      → length (insert_by compare x xs) ≡ suc (length xs)
  length-insert_by compare x [] = refl
  length-insert_by compare x (y ∷ ys) = ground (arith, length-insert_by compare x ys)

  pub length-sort : (compare : A → A → ℤ) (xs : List A) → length (sort compare xs) ≡ length xs
  unfolding sort
  length-sort compare [] = refl
  length-sort compare (x ∷ xs) =
      length-insert_by compare x (sort compare xs) ∙ ap suc (length-sort compare xs)

  -- A list sorted by a comparison is in its order.
  pub sort-IsInOrder :
      (compare : A → A → ℤ) (xs : List A)
      → IsComparison compare
      → IsInOrder compare (sort compare xs)
  unfolding sort
  sort-IsInOrder compare [] c = tt
  sort-IsInOrder compare (x ∷ xs) c =
      insert_by-IsInOrder compare x (sort compare xs) c (sort-IsInOrder compare xs c)

map-insert_by {ℓ κ} :
    {A : Type ℓ} {B : Type κ} (f : A → B) (compare : B → B → ℤ) (x : A) (xs : List A)
    → insert_by compare (f x) (map f xs) ≡ map f (insert_by (λ a b. compare (f a) (f b)) x xs)
map-insert_by f compare x [] = refl
map-insert_by f compare x (y ∷ ys) = elim (Bool-cases (not_after (compare (f x) (f y)))) [
  | inl before ↦ rw before refl
  | inr behind ↦ rw behind (ap (λ l. f y ∷ l) (map-insert_by f compare x ys))
]

-- Sorting by a part of the elements.
pub sort-map {ℓ κ} :
    {A : Type ℓ} {B : Type κ} (f : A → B) (compare : B → B → ℤ) (xs : List A)
    → sort compare (map f xs) ≡ map f (sort (λ a b. compare (f a) (f b)) xs)
unfolding sort
sort-map f compare [] = refl
sort-map f compare (x ∷ xs) =
    ap (insert_by compare (f x)) (sort-map f compare xs)
    ∙ map-insert_by f compare x (sort (λ a b. compare (f a) (f b)) xs)

-- One comparison after the other, where the first finds no difference.
pub or_then-IsComparison {ℓ} :
    {A : Type ℓ} (f g : A → A → ℤ)
    → IsComparison f
    → IsComparison g
    → IsComparison (λ a b. or_then (f a b) (g a b))
or_then-IsComparison f g cf cg = (
  (λ a b. or_then_flip (f a b) (f b a) (g a b) (g b a) (cf.0 a b, cf.0 b a) (cg.0 a b)),
  λ a b c.
      or_then_trans (f a b) (f b a) (f b c) (f c b) (f a c) (f c a) (g a b) (g b c) (g a c)
        (cf.0 a b, cf.0 b a) (cf.0 b c, cf.0 c b) (cf.0 a c, cf.0 c a) (cf.1 a b c) (cf.1 c a b)
        (cf.1 b c a) (cg.1 a b c),
)

-- The comparison by a number, ascending and descending.
pub difference-IsComparison {ℓ} :
    {A : Type ℓ} (key : A → ℕ) → IsComparison (λ a b. difference (key a) (key b))
difference-IsComparison key =
    ((λ a b. ascending (key a) (key b)), λ a b c. ascending_trans (key a) (key b) (key c))

pub descending-IsComparison {ℓ} :
    {A : Type ℓ} (key : A → ℕ) → IsComparison (λ a b. difference (key b) (key a))
descending-IsComparison key =
    ((λ a b. ascending (key b) (key a)), λ a b c p q. ascending_trans (key c) (key b) (key a) q p)

-- The comparison by a part of the element.
pub comap-IsComparison {ℓ κ} :
    {A : Type ℓ} {B : Type κ} (compare : B → B → ℤ) (part : A → B)
    → IsComparison compare
    → IsComparison (λ a b. compare (part a) (part b))
comap-IsComparison compare part c =
    ((λ a b. c.0 (part a) (part b)), λ a b d. c.1 (part a) (part b) (part d))

pub swap-IsComparison {ℓ} :
    {A : Type ℓ} (compare : A → A → ℤ) → IsComparison compare → IsComparison (λ a b. compare b a)
swap-IsComparison compare c = ((λ a b. c.0 b a), λ a b d p q. c.1 d b a q p)
