-- ===== src/Base/Dicts.antt =====
-- Python's `dict` as the list of its entries in insertion order. An assignment to a key that is
-- there keeps the place of the key, as in Python.
use mathlib.Core.Path.{◌≡◌, refl, sym, subst}
use mathlib.Core.Logic.{inl, inr}
use mathlib.Core.Option.{Option, none, some, some-injective}
use mathlib.Core.List.{List, [], ◌∷◌}
use native.Mathlib.Omega.{arith}
use rtl_buddy_cdc.Base.Tests.{if◌then◌else◌, Bool-cases}
use rtl_buddy_cdc.Base.Lists.{All, Within}
use rtl_buddy_cdc.Base.Equality.{Eq, ◌==◌, eq_self}

abbrev pub Dict {ℓ κ} : Type ℓ → Type κ → Type (ℓ ⊔ κ)
Dict K V = List (K × V)

module _ {ℓ κ} {K : Type ℓ} {V : Type κ} where
  -- `d.keys()` and `d.values()`
  unfoldable pub keys : Dict K V → List K
  keys [] = []
  keys ((k, v) ∷ d) = k ∷ keys d

  unfoldable pub values : Dict K V → List V
  values [] = []
  values ((k, v) ∷ d) = v ∷ values d

module _ {ℓ κ} {K : Type ℓ} {V : Type κ} ⦃e : Eq K⦄ where
  -- `d.get(k)`
  unfoldable pub lookup : K → Dict K V → Option V
  lookup k [] = none
  lookup k ((j, v) ∷ d) = if k == j then some v else lookup k d

  -- `d[k] = v`
  unfoldable pub insert : K → V → Dict K V → Dict K V
  insert k v [] = (k, v) ∷ []
  insert k v ((j, w) ∷ d) = if k == j then (j, v) ∷ d else (j, w) ∷ insert k v d

  -- `d.pop(k, None)`
  unfoldable pub remove : K → Dict K V → Dict K V
  remove k [] = []
  remove k ((j, w) ∷ d) = if k == j then d else (j, w) ∷ remove k d

  pub lookup-insert :
      (k j : K) (v : V) (d : Dict K V)
      → lookup j (insert k v d) ≡ (if j == k then some v else lookup j d)
  unfolding lookup insert
  lookup-insert k j v [] = refl
  lookup-insert k j v ((i, w) ∷ d) =
      ground (arith, e.beq_iff k i, e.beq_iff j i, e.beq_iff j k, lookup-insert k j v d)

  pub lookup-insert_self : (k : K) (v : V) (d : Dict K V) → lookup k (insert k v d) ≡ some v
  lookup-insert_self k v d = simp (lookup-insert, eq_self)

  -- A property of every entry, after an assignment and of the entry that is found.
  pub All-insert {μ} :
      (P : K × V → Type μ) (k : K) (v : V) (d : Dict K V)
      → P (k, v)
      → All P d
      → All P (insert k v d)
  unfolding insert
  All-insert P k v [] p ps = (p, tt)
  All-insert P k v ((j, w) ∷ d) p (q, qs) = elim (Bool-cases (k == j)) [
    | inl same ↦ rw same (subst (λ i. P (i, v)) ((e.beq_iff k j).0 same) p, qs)
    | inr other ↦ rw other (q, All-insert P k v d p qs)
  ]

  pub All-lookup {μ} :
      (P : K × V → Type μ) (k : K) (v : V) (d : Dict K V) → All P d → lookup k d ≡ some v → P (k, v)
  unfolding lookup
  All-lookup P k v [] ps found = cc
  All-lookup P k v ((j, w) ∷ d) (p, ps) found = elim (Bool-cases (k == j)) [
    | inl same ↦
        subst (λ i. P (i, v)) (sym ((e.beq_iff k j).0 same))
          (subst (λ u. P (j, u)) (some-injective w v (ground (arith, same, found))) p)
    | inr other ↦ All-lookup P k v d ps (ground (arith, other, found))
  ]

module _ {κ} {K : Type κ} {V : Type 0} where
  pub Within-lookup :
      ⦃e : Eq K⦄ → (k : K) (v : V) (d : Dict K V) → lookup k d ≡ some v → Within v (values d)
  unfolding lookup values
  Within-lookup k v [] found = cc
  Within-lookup k v ((j, old) ∷ d) found = elim (Bool-cases (k == j)) [
    | inl hit ↦ inl (ground (arith, hit, found))
    | inr other ↦ inr (Within-lookup k v d (ground (arith, other, found)))
  ]

  -- A property of every entry, at a value.
  pub All-values {μ} :
      (P : K × V → Type μ) (v : V) (d : Dict K V)
      → All P d
      → Within v (values d)
      → (k : K) × P (k, v)
  unfolding values
  All-values P v [] ps w = absurd w
  All-values P v ((k, u) ∷ d) (p, ps) (inl same) = (k, subst (λ x. P (k, x)) (sym same) p)
  All-values P v ((k, u) ∷ d) (p, ps) (inr later) = All-values P v d ps later
