-- ===== src/Domain/Combine/Decline.antt =====
-- When `_pick_combining_root` (src/rtl_buddy_cdc/domain.py) declines to choose.
use mathlib.Core.Option.{none-ne-some}
use rtl_buddy_cdc.Base.{
  String, Bool, true, false, Option, none, some, List, [], ◌∷◌, ◌==◌, ◌≡◌, ◌≢◌, ◌⊎◌, inl, inr, refl,
  ap, sym, ◌∙◌, string_eq, eq_self, if◌then◌else◌, contains, arith, Bool-cases, Option-cases,
}
use rtl_buddy_cdc.Domain.Combine.{
  distinct_after, distinct, Identity, add_identity, identities, first_declared, pick_among,
  pick_distinct, pick_combining_root,
}
use rtl_buddy_cdc.Domain.Combine.Choice.{
  In, or_right, nothing, skip_undeclared, take_declared, distinct-In,
}

-- Two roots of different clocks.
pub Conflict : Identity → List String → Type 0
Conflict identity rs =
    (r s c d : String) × In r rs × In s rs × (identity r ≡ some c) × (identity s ≡ some d) × (c ≢ d)

NoDup : List String → Type 0
NoDup [] = Unit
NoDup (x ∷ xs) = (contains xs x ≡ false) × NoDup xs

module _ (identity : Identity) where
  add_identity-NoDup :
      (o : Option String) (met : List String) → NoDup met → NoDup (add_identity o met)
  unfolding NoDup add_identity
  add_identity-NoDup none met h = h
  add_identity-NoDup (some c) met h = elim (Bool-cases (contains met c)) [
    | inl old ↦ rw old h
    | inr new ↦ rw new (new, h)
  ]

  identities-NoDup : (met rs : List String) → NoDup met → NoDup (identities identity met rs)
  unfolding identities
  identities-NoDup met [] h = h
  identities-NoDup met (r ∷ rs) h =
      identities-NoDup (add_identity (identity r) met) rs (add_identity-NoDup (identity r) met h)

  added-inv :
      (b : Bool) (met : List String) (c d : String)
      → In c (if b then met else d ∷ met)
      → In c met ⊎ (some d ≡ some c)
  unfolding contains
  added-inv true met c d h = inl h
  added-inv false met c d h = elim (Bool-cases (c == d)) [
    | inl same ↦ inr (ap some (sym ((string_eq.beq_iff c d).0 same)))
    | inr other ↦ inl (or_right other h)
  ]

  -- A clock among the identities that was not met before is a root's.
  add_identity-inv :
      (o : Option String) (met : List String) (c : String)
      → In c (add_identity o met)
      → In c met ⊎ (o ≡ some c)
  unfolding add_identity contains
  add_identity-inv none met c h = inl h
  add_identity-inv (some d) met c h = added-inv (contains met d) met c d h

  identities-inv :
      (met rs : List String) (c : String)
      → In c (identities identity met rs)
      → In c met ⊎ ((r : String) × In r rs × (identity r ≡ some c))
  unfolding identities contains
  identities-inv met [] c h = inl h
  identities-inv met (q ∷ rs) c h = elim (identities-inv (add_identity (identity q) met) rs c h) [
    | inl before ↦ elim (add_identity-inv (identity q) met c before) [
      | inl old ↦ inl old
      | inr declared ↦ inr (q, ground (arith, eq_self q), declared)
    ]
    | inr (r, inside, declared) ↦ inr (r, ground (arith, inside), declared)
  ]

  identities-source :
      (rs : List String) (c : String)
      → In c (identities identity [] rs)
      → (r : String) × In r rs × (identity r ≡ some c)
  identities-source rs c h = elim (identities-inv [] rs c h) [
    | inl before ↦ absurd (nothing c before)
    | inr found ↦ found
  ]

  first_declared-none :
      (rs : List String) (r c : String)
      → first_declared identity rs ≡ none
      → In r rs
      → identity r ≡ some c
      → ⊥
  unfolding first_declared contains
  first_declared-none [] r c h inside e = cc
  first_declared-none (q ∷ rs) r c h inside e = elim (Option-cases (identity q)) [
    | inl undeclared ↦ elim (Bool-cases (r == q)) [
      | inl same ↦
          none-ne-some c (sym undeclared ∙ ap identity (sym ((string_eq.beq_iff r q).0 same)) ∙ e)
      | inr other ↦
          first_declared-none rs r c (sym (skip_undeclared identity q rs undeclared) ∙ h)
            (or_right other inside) e
    ]
    | inr (d, declared) ↦ none-ne-some q (sym h ∙ take_declared identity q rs declared)
  ]

  pick_among-none :
      (real rs : List String)
      → NoDup real
      → ((c : String) → In c real → (r : String) × In r rs × (identity r ≡ some c))
      → pick_among identity real rs ≡ none
      → (rs ≡ []) ⊎ Conflict identity rs
  unfolding pick_among NoDup Conflict contains
  pick_among-none (c ∷ d ∷ real) rs (apart, others) root h =
      let (r, inside, e) = root c (ground (arith, eq_self c)) in
      let (s, inside', e') = root d (ground (arith, eq_self d)) in
      inr (
        r,
        s,
        c,
        d,
        inside,
        inside',
        e,
        e',
        λ same. ground (arith, apart, (string_eq.beq_iff c d).1 same),
      )
  pick_among-none (k ∷ []) rs distinct_clocks root h =
      let (r, inside, e) = root k (ground (arith, eq_self k)) in
      absurd (first_declared-none rs r k h inside e)
  pick_among-none [] [] distinct_clocks root h = inl refl
  pick_among-none [] (q ∷ rs) distinct_clocks root h = cc

  pick_distinct-none :
      (rs : List String)
      → pick_distinct (some identity) rs ≡ none
      → (rs ≡ []) ⊎ Conflict identity rs
  unfolding pick_distinct NoDup
  pick_distinct-none [] h = inl refl
  pick_distinct-none (q ∷ rs) h =
      pick_among-none (identities identity [] (q ∷ rs)) (q ∷ rs) (identities-NoDup [] (q ∷ rs) tt)
        (identities-source (q ∷ rs)) h

distinct-empty : (roots : List String) → distinct roots ≡ [] → roots ≡ []
unfolding distinct distinct_after contains
distinct-empty [] h = refl
distinct-empty (r ∷ rs) h = cc

-- No root is chosen only where there is none, or where two of the roots name different clocks.
pub pick_combining_root-none :
    (identity : Identity) (roots : List String)
    → pick_combining_root (some identity) roots ≡ none
    → (roots ≡ []) ⊎ Conflict identity roots
unfolding pick_combining_root Conflict
pick_combining_root-none identity roots h = elim (pick_distinct-none identity (distinct roots) h) [
  | inl empty ↦ inl (distinct-empty roots empty)
  | inr (r, s, c, d, inside, inside', e, e', apart) ↦ inr (
    r,
    s,
    c,
    d,
    sym (distinct-In roots r) ∙ inside,
    sym (distinct-In roots s) ∙ inside',
    e,
    e',
    apart,
  )
]
