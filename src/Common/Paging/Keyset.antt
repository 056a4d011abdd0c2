-- ===== src/Common/Paging/Keyset.antt =====
-- Rows ordered by an instant and then by an identifier, both descending, and the boundary that a row
-- is for the page behind it.
use mathlib.Core.List.{Perm}
use Prim.Native.Nat.{ℕ, ◌≤◌}
use mathlib.Core.Path.{◌≡◌, sym}
use mathlib.Core.Logic.{◌≢◌}
use mathlib.Core.Bool.{Bool, true, false, ◌||◌, ◌&&◌}
use mathlib.Core.List.{List}
use native.Mathlib.Omega.{arith}
use rolebrief.Common.Tests.{ltb, ◌==◌}
use rolebrief.Common.Lists.{length, keep, Pairs, Pairs-map_le, Pairs-keep, Pairs-both}
use rolebrief.Common.Filters.{length-keep}
use rolebrief.Common.Int.{ℤ}
use rolebrief.Common.Sort.{
  sort, not_after, difference, or_then, IsComparison, IsInOrder, length-sort, sort-IsInOrder,
  or_then-IsComparison, descending-IsComparison,
}
use rolebrief.Common.Sort.Tables.{keep-sort-perm, Pairs-sort}
use rolebrief.Common.Paging.{IsChain}

module _ {A : Type 0} (time id : A → ℕ) where
  -- `orderBy: [{ time: "desc" }, { id: "desc" }]`
  abbrev pub newest_first : A → A → ℤ
  newest_first a b = or_then (difference (time b) (time a)) (difference (id b) (id a))

  -- `{ OR: [{ time: { lt: t } }, { time: t, id: { lt: i } }] }`
  abbrev pub is_behind : ℕ → ℕ → A → Bool
  is_behind t i a = ltb (time a) t || (time a == t && ltb (id a) i)

  -- `findMany`: the rows in the order asked for, less those that do not match.
  abbrev pub find_many : (A → Bool) → List A → List A
  find_many matches rows = keep matches (sort newest_first rows)

  -- `stands_behind a b`: b stands behind a.
  abbrev pub stands_behind : A → A → Bool
  stands_behind a b = is_behind (time a) (id a) b

  pub behind_self : (a : A) → stands_behind a a ≡ false
  behind_self a = ground arith

  behind_of_order :
      (a b : A)
      → (not_after (newest_first a b) ≡ true) × (id a ≢ id b)
      → (stands_behind a b ≡ true) × (stands_behind b a ≡ false)
  behind_of_order a b h = ground arith

  newest_first-IsComparison : IsComparison newest_first
  newest_first-IsComparison =
      or_then-IsComparison _ _ (descending-IsComparison time) (descending-IsComparison id)

  -- Rows with different identifiers stand one behind the other.
  pub find_many-IsChain :
      (matches : A → Bool) (rows : List A)
      → Pairs (λ a b. id a ≢ id b) rows
      → IsChain stands_behind (find_many matches rows)
  find_many-IsChain matches rows apart = Pairs-map_le _ _ (find_many matches rows) behind_of_order (
      Pairs-keep _ matches (sort newest_first rows) (
        Pairs-both _ _ (sort newest_first rows)
          (sort-IsInOrder newest_first rows newest_first-IsComparison)
          (Pairs-sort (λ a b. id a ≢ id b) newest_first rows (λ a b d e. d (sym e)) apart)))

  pub find_many-IsInOrder :
      (matches : A → Bool) (rows : List A) → IsInOrder newest_first (find_many matches rows)
  find_many-IsInOrder matches rows =
      Pairs-keep _ matches (sort newest_first rows)
        (sort-IsInOrder newest_first rows newest_first-IsComparison)

  pub find_many-perm :
      (matches : A → Bool) (rows : List A) → Perm (find_many matches rows) (keep matches rows)
  find_many-perm matches rows = keep-sort-perm matches newest_first rows

  pub length-find_many :
      (matches : A → Bool) (rows : List A) → length (find_many matches rows) ≤ length rows
  length-find_many matches rows =
      omega (arith, length-keep matches (sort newest_first rows), length-sort newest_first rows)
