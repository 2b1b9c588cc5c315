-- ===== src/Base/Unvisited.antt =====
-- A loop that never visits a candidate twice ends: what a walk still has before it.
use Prim.Native.Nat.{ℕ, suc, ◌≤◌}
use mathlib.Core.Path.{◌≡◌, refl, sym, ap}
use mathlib.Core.Logic.{inl, inr}
use mathlib.Core.Bool.{false}
use mathlib.Core.List.{List, [], ◌∷◌}
use native.Mathlib.Omega.{arith}
use rtl_buddy_cdc.Base.Tests.{if◌then◌else◌, Bool-cases}
use rtl_buddy_cdc.Base.Lists.{length, Within}
use rtl_buddy_cdc.Base.Equality.{Eq, contains}

module _ {A : Type 0} ⦃e : Eq A⦄ where
  -- How many of the candidates are not visited.
  abbrev pub unvisited : List A → List A → ℕ
  unvisited visited [] = 0
  unvisited visited (x ∷ xs) =
      let rest = unvisited visited xs in if contains visited x then rest else suc rest

  pub unvisited-length : (visited xs : List A) → unvisited visited xs ≤ length xs
  unvisited-length visited [] = omega arith
  unvisited-length visited (x ∷ xs) = elim (Bool-cases (contains visited x)) [
    | inl old ↦ ground (arith, old, unvisited-length visited xs)
    | inr new ↦ ground (arith, new, unvisited-length visited xs)
  ]

  pub unvisited-grows :
      (y : A) (visited xs : List A) → unvisited (y ∷ visited) xs ≤ unvisited visited xs
  unfolding contains
  unvisited-grows y visited [] = omega arith
  unvisited-grows y visited (x ∷ xs) = ground (arith, unvisited-grows y visited xs)

  -- A visit of a new candidate leaves fewer.
  pub unvisited-visit :
      (y : A) (visited xs : List A)
      → Within y xs
      → contains visited y ≡ false
      → suc (unvisited (y ∷ visited) xs) ≤ unvisited visited xs
  unfolding contains
  unvisited-visit y visited [] w new = absurd w
  unvisited-visit y visited (x ∷ xs) (inl same) new = ground (
    arith,
    (e.beq_iff x y).1 (sym same),
    ap (contains visited) same,
    new,
    unvisited-grows y visited xs,
  )
  unvisited-visit y visited (x ∷ xs) (inr later) new =
      ground (arith, new, unvisited-visit y visited xs later new)

  -- Only what is visited matters, not the order.
  pub unvisited-same :
      (visited others xs : List A)
      → ((x : A) → contains visited x ≡ contains others x)
      → unvisited visited xs ≡ unvisited others xs
  unvisited-same visited others [] same = refl
  unvisited-same visited others (x ∷ xs) same =
      ground (arith, same x, unvisited-same visited others xs same)
