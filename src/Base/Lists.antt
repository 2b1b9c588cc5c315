-- ===== src/Base/Lists.antt =====
-- Lists measured and searched by native numbers, under the library's names where it has one.
use Prim.Native.Nat.{ℕ, suc, ◌+◌}
use mathlib.Core.Path.{◌≡◌, refl}
use mathlib.Core.Logic.{◌⊎◌, inl, inr}
use mathlib.Core.Bool.{Bool, true, false, ◌&&◌, ◌||◌}
use mathlib.Core.Option
use mathlib.Core.Option.{Option, none, some}
use mathlib.Core.List.{List, [], ◌∷◌, ◌++◌}
use native.Mathlib.Omega.{arith}
use rtl_buddy_cdc.Base.Tests.{if◌then◌else◌}

module _ {ℓ} {A : Type ℓ} where
  abbrev pub length : List A → ℕ
  length [] = 0
  length (x ∷ xs) = suc (length xs)

  -- `any(p(x) for x in xs)`
  unfoldable pub any : List A → (A → Bool) → Bool
  any [] p = false
  any (x ∷ xs) p = p x || any xs p

  -- `all(p(x) for x in xs)`
  unfoldable pub all : List A → (A → Bool) → Bool
  all [] p = true
  all (x ∷ xs) p = p x && all xs p

  -- The position of the first item that passes the test.
  unfoldable pub find_index : List A → (A → Bool) → Option ℕ
  find_index [] p = none
  find_index (x ∷ xs) p = if p x then some 0 else Option.map suc (find_index xs p)

  unfoldable pub take_while : (A → Bool) → List A → List A
  take_while p [] = []
  take_while p (x ∷ xs) = let rest = take_while p xs in if p x then x ∷ rest else []

  pub length-append : (xs ys : List A) → length (xs ++ ys) ≡ length xs + length ys
  length-append [] ys = omega arith
  length-append (x ∷ xs) ys = omega (arith, length-append xs ys)

  pub any-append : (xs ys : List A) (p : A → Bool) → any (xs ++ ys) p ≡ (any xs p || any ys p)
  unfolding any
  any-append [] ys p = refl
  any-append (x ∷ xs) ys p = ground (arith, any-append xs ys p)

-- A predicate that computes to a tuple, which the tactics read.
abbrev pub All {ℓ κ} : {A : Type ℓ} → (A → Type κ) → List A → Type κ
All P [] = Unit
All P (x ∷ xs) = P x × All P xs

-- Membership, as the place where the item stands.
abbrev pub Within : {A : Type 0} → A → List A → Type 0
Within x [] = ⊥
Within x (y ∷ ys) = (x ≡ y) ⊎ Within x ys

module _ {A : Type 0} where
  pub Within-left : (x : A) (xs ys : List A) → Within x xs → Within x (xs ++ ys)
  Within-left x [] ys h = absurd h
  Within-left x (z ∷ xs) ys (inl same) = inl same
  Within-left x (z ∷ xs) ys (inr later) = inr (Within-left x xs ys later)

  pub Within-right : (x : A) (xs ys : List A) → Within x ys → Within x (xs ++ ys)
  Within-right x [] ys h = h
  Within-right x (z ∷ xs) ys h = inr (Within-right x xs ys h)

  pub Within-append : (x : A) (xs ys : List A) → Within x (xs ++ ys) → Within x xs ⊎ Within x ys
  Within-append x [] ys h = inr h
  Within-append x (z ∷ xs) ys (inl same) = inl (inl same)
  Within-append x (z ∷ xs) ys (inr later) = elim (Within-append x xs ys later) [
    | inl left ↦ inl (inr left)
    | inr right ↦ inr right
  ]

  pub All-Within {κ} : (P : A → Type κ) (x : A) (xs : List A) → All P xs → Within x xs → P x
  All-Within P x [] h w = absurd w
  All-Within P x (y ∷ ys) (p, ps) (inl same) = rw same p
  All-Within P x (y ∷ ys) (p, ps) (inr later) = All-Within P x ys ps later

  pub All-append {κ} : (P : A → Type κ) (xs ys : List A) → All P xs → All P ys → All P (xs ++ ys)
  All-append P [] ys h k = k
  All-append P (x ∷ xs) ys (p, ps) k = (p, All-append P xs ys ps k)

  pub All-map {κ μ} :
      {P : A → Type κ} {Q : A → Type μ}
      → ((x : A) → P x → Q x)
      → (xs : List A) → All P xs
      → All Q xs
  All-map f [] ps = tt
  All-map f (x ∷ xs) (p, ps) = (f x p, All-map f xs ps)
