-- ===== src/Base/Sorted.antt =====
-- Python's `sorted` on strings and on pairs of them.
use Prim.Native.Nat.{Ordering}
use Prim.Native.String.{compare}
use Prim.Native.String.{String}
use mathlib.Core.Bool.{Bool, true, false}
use mathlib.Core.List.{List, [], ◌∷◌}
use rtl_buddy_cdc.Base.Tests.{if◌then◌else◌}

abbrev pub precedes : String → String → Bool
precedes a b = elim (compare a b) [ Ordering.lt ↦ true | _ ↦ false ]

-- Pairs by their first names, and where these are the same by their second ones.
abbrev pub pair_precedes : String × String → String × String → Bool
pair_precedes (a, b) (c, d) = elim (compare a c) [
  | Ordering.lt ↦ true
  | Ordering.eq ↦ precedes b d
  | Ordering.gt ↦ false
]

module _ {A : Type 0} (before : A → A → Bool) where
  unfoldable pub insert_before : A → List A → List A
  insert_before x [] = x ∷ []
  insert_before x (y ∷ ys) =
      let rest = insert_before x ys in if before y x then y ∷ rest else x ∷ y ∷ ys

  unfoldable pub sorted : List A → List A
  unfolding insert_before
  sorted [] = []
  sorted (x ∷ xs) = insert_before x (sorted xs)
