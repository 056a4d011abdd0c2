-- ===== src/Common/Paging.antt =====
-- Pages by a keyset: a page is the front of what stands after the last item of the page before, and
-- a client asks for pages until it is told that there is no next one.
pub mod Keyset
use Prim.Native.Nat.{ℕ, zero, suc, ◌+◌, ◌≤◌, ◌<◌}
use mathlib.Core.Path.{◌≡◌, refl, sym, ap, ◌∙◌, subst}
use mathlib.Core.Logic.{inl, inr}
use mathlib.Core.Bool.{Bool, true, false}
use mathlib.Core.Option
use mathlib.Core.Option.{Option, none, some}
use mathlib.Core.List.{List, [], ◌∷◌, ◌++◌, map, append_assoc, map-append}
use native.Mathlib.Omega.{arith}
use rolebrief.Common.Tests.{ltb, lt→ltb, ltb→lt, if◌then◌else◌, Bool-cases}
use rolebrief.Common.Lists.{
  length, take, drop, keep, All, Pairs, length-take, length-drop, length-map, take-append-drop,
}

abbrev pub last_of {ℓ} : {A : Type ℓ} → List A → Option A
last_of [] = none
last_of (x ∷ []) = some x
last_of (x ∷ y ∷ rest) = last_of (y ∷ rest)

-- The client: a fetch answers a cursor with the items of a page and the next cursor, if there is one.
unfoldable pub follow :
    {B C : Type 0} → (Option C → Option (List B × Option C)) → ℕ → Option C → Option (List B)
follow fetch zero cursor = none
follow fetch (suc fuel) cursor = elim (fetch cursor) [
  | none ↦ none
  | some (items, next) ↦ elim next [
    | none ↦ some items
    | some c ↦ Option.map (λ rest. items ++ rest) (follow fetch fuel (some c))
  ]
]

module _ {B C : Type 0} (fetch : Option C → Option (List B × Option C)) (fuel : ℕ)
    (cursor : Option C) where
  follow-end :
      (items : List B)
      → fetch cursor ≡ some (items, none)
      → follow fetch (suc fuel) cursor ≡ some items
  unfolding follow
  follow-end items e = rw (e, follow) refl

  follow-next :
      (c : C) (items rest : List B)
      → fetch cursor ≡ some (items, some c)
      → follow fetch fuel (some c) ≡ some rest
      → follow fetch (suc fuel) cursor ≡ some (items ++ rest)
  unfolding follow
  follow-next c items rest e tail = rw (e, follow) (rw tail refl)

module _ {A : Type 0} (after : A → A → Bool) where
  -- `after a b`: b stands after a.
  abbrev pub IsChain : List A → Type 0
  IsChain = Pairs (λ a b. (after a b ≡ true) × (after b a ≡ false))

  keep-All :
      (a : A) (ys : List A)
      → All (λ b. (after a b ≡ true) × (after b a ≡ false)) ys
      → keep (after a) ys ≡ ys
  keep-All a [] h = refl
  keep-All a (y ∷ ys) h = rw (h.0.0) (ap (λ r. y ∷ r) (keep-All a ys h.1))

  -- What stands after an item of a chain is the rest of the chain.
  pub keep-after :
      (xs ys : List A) (l : A)
      → after l l ≡ false
      → IsChain (xs ++ (l ∷ ys))
      → keep (after l) (xs ++ (l ∷ ys)) ≡ ys
  keep-after [] ys l self h = rw self (keep-All l ys h.0)
  keep-after (x ∷ xs) ys l self h = rw (before x xs h.0) (keep-after xs ys l self h.1)
    where
      before :
          (x : A) (xs : List A)
          → All (λ b. (after x b ≡ true) × (after b x ≡ false)) (xs ++ (l ∷ ys))
          → after l x ≡ false
      before x [] h = h.0.1
      before x (z ∷ xs) h = before x xs h.1

pub take_all {ℓ} : {A : Type ℓ} (n : ℕ) (xs : List A) → length xs ≤ n → take n xs ≡ xs
take_all zero [] h = refl
take_all zero (x ∷ xs) h = ground arith
take_all (suc n) [] h = refl
take_all (suc n) (x ∷ xs) h = ap (λ t. x ∷ t) (take_all n xs (omega arith))

take-take-suc {ℓ} : {A : Type ℓ} (n : ℕ) (xs : List A) → take n (take (suc n) xs) ≡ take n xs
take-take-suc zero xs = refl
take-take-suc (suc n) [] = refl
take-take-suc (suc n) (x ∷ xs) = ap (λ t. x ∷ t) (take-take-suc n xs)

split_last :
    {A : Type 0} (x : A) (rest : List A)
    → (xs : List A) × (l : A) × (x ∷ rest ≡ xs ++ (l ∷ [])) × (last_of (x ∷ rest) ≡ some l)
split_last x [] = ([], x, refl, refl)
split_last x (y ∷ rest) =
    let (xs, l, e, last) = split_last y rest in (x ∷ xs, l, ap (λ r. x ∷ r) e, last)

page_end :
    {A : Type 0} (n : ℕ) (rows : List A)
    → 0 < n
    → n < length rows
    → (xs : List A) × (l : A) × (take n rows ≡ xs ++ (l ∷ [])) × (last_of (take n rows) ≡ some l)
page_end zero rows p h = ground arith
page_end (suc n) [] p h = ground arith
page_end (suc n) (x ∷ rows) p h = split_last x (take n rows)

module _ {A B : Type 0} (view : A → B) (limit : ℕ) where
  -- `items.length > limit`, after `take: limit + 1`
  abbrev pub has_next : List A → Bool
  has_next rows = ltb limit (length (take (suc limit) rows))

  -- What the services make of the rows they get: at most `limit` of them are shown, and the last one
  -- shown is the start of the next page if a row is left.
  abbrev pub page_of : List A → List B × Option A
  page_of rows =
      let items = take (suc limit) rows in
      let page_items = if has_next rows then take limit items else items in
      (map view page_items, if has_next rows then last_of page_items else none)

  page_of-rest : (rows : List A) → length rows ≤ limit → page_of rows ≡ (map view rows, none)
  page_of-rest rows h = rw (take_all (suc limit) rows (omega arith)) (ground arith)

  page_of-more :
      (rows : List A)
      → limit < length rows
      → page_of rows ≡ (map view (take limit rows), last_of (take limit rows))
  page_of-more rows h =
      rw
        (
          lt→ltb limit (length (take (suc limit) rows))
              (omega (arith, length-take (suc limit) rows)),
          take-take-suc limit rows,
        )
        refl

  pub length-page_of : (rows : List A) → length (page_of rows).0 ≤ limit
  length-page_of rows = elim (Bool-cases (has_next rows)) [
    | inl more ↦
        rw (more, has_next)
          (omega (
            arith,
            length-map (take limit (take (suc limit) rows)) view,
            length-take limit (take (suc limit) rows),
          ))
    | inr ends ↦
        rw (ends, has_next)
          (omega (arith, length-map (take (suc limit) rows) view, leb_of rows ends))
  ]
    where
      leb_of : (rows : List A) → has_next rows ≡ false → length (take (suc limit) rows) ≤ limit
      leb_of rows e = ground arith

-- A page with the cursor of the next one.
abbrev pub with_cursor : {A B C : Type 0} → (A → C) → List B × Option A → List B × Option C
with_cursor cursor_of p = (p.0, Option.map cursor_of p.1)

module _ {A B C : Type 0} (view : A → B) (cursor_of : A → C) (limit : ℕ) (after : A → A → Bool)
    (fetch : Option C → Option (List B × Option C)) (rows : List A) where
  -- A fetch answers a cursor with the page of the rows behind the row that the cursor was made of.
  abbrev pub AnswersPages : Type 0
  AnswersPages =
      (fetch none ≡ some (with_cursor cursor_of (page_of view limit rows)))
      × ((l : A)
          → fetch (some (cursor_of l))
            ≡ some (with_cursor cursor_of (page_of view limit (keep (after l) rows))))

  follow_from :
      (fuel : ℕ) (cursor : Option C) (done rest : List A)
      → 0 < limit
      → ((l : A) → after l l ≡ false)
      → IsChain after rows
      → AnswersPages
      → rows ≡ done ++ rest
      → fetch cursor ≡ some (with_cursor cursor_of (page_of view limit rest))
      → length rest < fuel
      → follow fetch fuel cursor ≡ some (map view rest)
  follow_from zero cursor done rest p irr chain ans e here enough = ground arith
  follow_from (suc fuel) cursor done rest p irr chain ans e here enough =
      elim (Bool-cases (ltb limit (length rest))) [
        | inr ends ↦ follow-end fetch fuel cursor (map view rest) (
            here
            ∙ ap (λ p. some (with_cursor cursor_of p))
                (page_of-rest view limit rest (ground arith)))
        | inl more ↦
            let (xs, l, front, last) = page_end limit rest p (ltb→lt limit (length rest) more) in
            let behind = drop limit rest in
            let split : rest ≡ (xs ++ (l ∷ [])) ++ behind =
              sym (take-append-drop limit rest) ∙ ap (λ t. t ++ behind) front in
            let parts : rows ≡ (done ++ xs) ++ (l ∷ behind) =
              e
              ∙ ap (λ t. done ++ t) (split ∙ append_assoc xs (l ∷ []) behind)
              ∙ sym (append_assoc done xs (l ∷ behind)) in
            let next : fetch (some (cursor_of l))
                ≡ some (with_cursor cursor_of (page_of view limit behind)) =
              ans.1 l
              ∙ ap (λ t. some (with_cursor cursor_of (page_of view limit t)))
                  (ap (keep (after l)) parts
                    ∙ keep-after after (done ++ xs) behind l (irr l)
                        (subst (IsChain after) parts chain)) in
            let first : fetch cursor ≡ some (map view (take limit rest), some (cursor_of l)) =
              here
              ∙ ap (λ p. some (with_cursor cursor_of p))
                  (page_of-more view limit rest (ltb→lt limit (length rest) more))
              ∙ ap (λ o. some (map view (take limit rest), Option.map cursor_of o)) last in
            follow-next fetch fuel cursor (cursor_of l) (map view (take limit rest))
              (map view behind) first
              (follow_from fuel (some (cursor_of l)) (done ++ (xs ++ (l ∷ []))) behind p irr chain
                ans
                (e ∙ ap (λ t. done ++ t) split ∙ sym (append_assoc done (xs ++ (l ∷ [])) behind))
                next (omega (arith, length-drop limit rest, ltb→lt)))
            ∙ ap some (
                sym (map-append view (take limit rest) behind)
                ∙ ap (map view) (take-append-drop limit rest))
      ]

  -- Following the cursors from the first page on gives all the rows, each once and in order.
  pub follow-pages :
      (fuel : ℕ)
      → 0 < limit
      → ((l : A) → after l l ≡ false)
      → IsChain after rows
      → AnswersPages
      → length rows < fuel
      → follow fetch fuel none ≡ some (map view rows)
  follow-pages fuel p irr chain ans enough =
      follow_from fuel none [] rows p irr chain ans refl ans.0 enough
