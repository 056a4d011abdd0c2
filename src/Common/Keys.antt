-- ===== src/Common/Keys.antt =====
-- Rows of a table that are told apart by a key.
use Prim.Native.Nat.{ℕ}
use mathlib.Core.Path.{◌≡◌, refl, sym}
use mathlib.Core.Logic.{◌≢◌}
use mathlib.Core.List.{List, [], ◌∷◌}
use rolebrief.Common.Lists.{All, All-map_le, All-both, Pairs}

module _ {A : Type 0} (key : A → ℕ) where
  abbrev pub Distinct : A → A → Type 0
  Distinct a b = key a ≢ key b

  -- The row is the only one of the table with its key.
  abbrev pub IsOwner : List A → A → Type 0
  IsOwner rows x = All (λ e. key x ≡ key e → e ≡ x) rows

  pub owners : (rows : List A) → Pairs Distinct rows → All (IsOwner rows) rows
  owners [] d = tt
  owners (x ∷ xs) (apart, d) = (
    (
      λ h. refl,
      All-map_le (Distinct x) (λ e. key x ≡ key e → e ≡ x) xs
          (λ e other same. elim (other same) [ ]) apart,
    ),
    All-map_le (λ y. Distinct x y × IsOwner xs y) (IsOwner (x ∷ xs)) xs
        (λ y h. (λ same. elim (h.0 (sym same)) [ ], h.1))
        (All-both (Distinct x) (IsOwner xs) xs apart (owners xs d)),
  )
