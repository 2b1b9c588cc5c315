-- ===== src/Crossings/Multi.antt =====
-- A `defaultdict(list)` of src/rtl_buddy_cdc/domain.py: what an append leaves under each key.
use mathlib.Core.Path.{subst}
use mathlib.Core.Option.{get_or}
use rtl_buddy_cdc.Base.{
  Bool, true, false, List, [], ◌∷◌, ◌++◌, ◌==◌, ◌≡◌, ◌⊎◌, inl, inr, refl, arith, if◌then◌else◌,
  Dict, lookup, insert, lookup-insert, Within, Within-left, Within-right, Within-append, Bool-cases,
  Eq,
}

module _ {K : Type 0} {A : Type 0} ⦃e : Eq K⦄ where
  -- `d.get(k, ())`
  abbrev pub entries : Dict K (List A) → K → List A
  entries out k = get_or (lookup k out) []

  -- `if free: d[c].append(a)`
  abbrev pub append_if : Bool → K → A → Dict K (List A) → Dict K (List A)
  append_if free c a out = if free then insert c (entries out c ++ a ∷ []) out else out

  entries-insert :
      (c k : K) (vs : List A) (out : Dict K (List A))
      → entries (insert c vs out) k ≡ (if k == c then vs else entries out k)
  entries-insert c k vs out = elim (Bool-cases (k == c)) [
    | inl same ↦ rw (lookup-insert c k vs out, same) refl
    | inr other ↦ rw (lookup-insert c k vs out, other) refl
  ]

  pub entries-append_if :
      (free : Bool) (c : K) (a : A) (out : Dict K (List A)) (k : K) (x : A)
      → Within x (entries (append_if free c a out) k)
      → Within x (entries out k) ⊎ ((x ≡ a) × (k ≡ c) × (free ≡ true))
  entries-append_if false c a out k x w = inl w
  entries-append_if true c a out k x w =
      let at = entries-insert c k (entries out c ++ a ∷ []) out in
      elim (Bool-cases (k == c)) [
        | inr other ↦ inl (subst (Within x) {y = entries out k} (rw (at, other) refl) w)
        | inl same ↦
            let kc = (e.beq_iff k c).0 same in
            elim (Within-append x (entries out c) (a ∷ [])
              (subst (Within x) {y = entries out c ++ a ∷ []} (rw (at, same) refl) w)) [
                | inl old ↦ inl (rw kc old)
                | inr (inl new) ↦ inr (new, kc, refl)
                | inr (inr empty) ↦ absurd empty
              ]
      ]

  pub append_if-Within :
      (free : Bool) (c : K) (a : A) (out : Dict K (List A)) (k : K) (x : A)
      → Within x (entries out k) ⊎ ((x ≡ a) × (k ≡ c) × (free ≡ true))
      → Within x (entries (append_if free c a out) k)
  append_if-Within false c a out k x (inl old) = old
  append_if-Within false c a out k x (inr (same, here, free)) = cc
  append_if-Within true c a out k x w =
      let at = entries-insert c k (entries out c ++ a ∷ []) out in
      elim (Bool-cases (k == c)) [
        | inr other ↦ elim w [
          | inl old ↦ rw (at, other) old
          | inr (same, here, free) ↦ ground (arith, other, here, e.beq_iff k c)
        ]
        | inl hit ↦
            rw (at, hit)
              (elim w [
                | inl old ↦
                    Within-left x (entries out c) (a ∷ [])
                      (subst (λ i. Within x (entries out i)) ((e.beq_iff k c).0 hit) old)
                | inr (same, here, free) ↦ Within-right x (entries out c) (a ∷ []) (inl same)
              ])
      ]
