-- ===== src/Domain/Combine/Choice.antt =====
-- What `_pick_combining_root` (src/rtl_buddy_cdc/domain.py) may choose.
use mathlib.Core.Option.{some-injective}
use rtl_buddy_cdc.Base.{
  String, Bool, true, false, ◌||◌, Option, none, some, List, [], ◌∷◌, ◌==◌, ◌≡◌, inl, inr, refl, ap,
  sym, ◌∙◌, string_eq, eq_self, contains, arith, Bool-cases, Option-cases,
}
use rtl_buddy_cdc.Domain.Combine.{
  distinct_after, distinct, Identity, add_identity, identities, first_declared, pick_among,
  pick_distinct, pick_combining_root,
}

abbrev pub In : String → List String → Type 0
In a xs = contains xs a ≡ true

or_false : {a b : Bool} → a ≡ false → b ≡ false → (a || b) ≡ false
or_false {a} {b} e f = ground (arith, e, f)

pub or_right : {a b : Bool} → a ≡ false → (a || b) ≡ true → b ≡ true
or_right {a} {b} e f = ground (arith, e, f)

pub contains-distinct_after :
    (met rs : List String) (a : String)
    → contains met a ≡ false
    → contains (distinct_after met rs) a ≡ contains rs a
unfolding contains distinct_after
contains-distinct_after met [] a h = refl
contains-distinct_after met (r ∷ rs) a h = elim (Bool-cases (contains met r)) [
  | inl old ↦ ground (arith, old, string_eq.beq_iff a r, contains-distinct_after met rs a h)
  | inr new ↦ elim (Bool-cases (a == r)) [
    | inl same ↦ ground (arith, new, same)
    | inr other ↦
        ground (arith, new, other, contains-distinct_after (r ∷ met) rs a (or_false other h))
  ]
]

pub nothing : (a : String) → In a [] → ⊥
unfolding contains
nothing a h = cc

only : {a k : String} → In a (k ∷ []) → a ≡ k
unfolding contains
only {a} {k} h = (string_eq.beq_iff a k).0 (ground (arith, h))

module _ (identity : Identity) where
  -- Every clock met before or declared by a root is among the identities.
  add_identity-met :
      (o : Option String) (met : List String) (c : String) → In c met → In c (add_identity o met)
  unfolding add_identity contains
  add_identity-met none met c h = h
  add_identity-met (some d) met c h = ground arith

  add_identity-new : (met : List String) (c : String) → In c (add_identity (some c) met)
  unfolding add_identity contains
  add_identity-new met c = ground (arith, eq_self c)

  identities-met :
      (met rs : List String) (c : String) → In c met → In c (identities identity met rs)
  unfolding identities contains
  identities-met met [] c h = h
  identities-met met (r ∷ rs) c h =
      identities-met (add_identity (identity r) met) rs c (add_identity-met (identity r) met c h)

  identities-here :
      (met rs : List String) (q r c : String)
      → r ≡ q
      → identity r ≡ some c
      → In c (identities identity met (q ∷ rs))
  unfolding identities
  identities-here met rs q r c same e =
      identities-met (add_identity (identity q) met) rs c
        (rw (sym same, e) (add_identity-new met c))

  identities-root :
      (met rs : List String) (r c : String)
      → In r rs
      → identity r ≡ some c
      → In c (identities identity met rs)
  unfolding identities contains
  identities-root met [] r c h e = cc
  identities-root met (q ∷ rs) r c h e = elim (Bool-cases (r == q)) [
    | inl same ↦ identities-here met rs q r c ((string_eq.beq_iff r q).0 same) e
    | inr other ↦ identities-root (add_identity (identity q) met) rs r c (or_right other h) e
  ]

  pub skip_undeclared :
      (q : String) (rs : List String)
      → identity q ≡ none
      → first_declared identity (q ∷ rs) ≡ first_declared identity rs
  unfolding first_declared
  skip_undeclared q rs e = rw (e, first_declared)

  pub take_declared :
      (q : String) (rs : List String) {c : String}
      → identity q ≡ some c
      → first_declared identity (q ∷ rs) ≡ some q
  unfolding first_declared
  take_declared q rs e = rw (e, first_declared)

  first_declared-root :
      (rs : List String) (r : String) → first_declared identity rs ≡ some r → In r rs
  unfolding first_declared contains
  first_declared-root [] r h = cc
  first_declared-root (q ∷ rs) r h = elim (Option-cases (identity q)) [
    | inl undeclared ↦ ground (arith, undeclared, first_declared-root rs r)
    | inr (c, declared) ↦ ground (arith, declared, eq_self q)
  ]

  first_declared-identity :
      (rs : List String) (r : String)
      → first_declared identity rs ≡ some r
      → (c : String) × (identity r ≡ some c)
  unfolding first_declared
  first_declared-identity [] r h = cc
  first_declared-identity (q ∷ rs) r h = elim (Option-cases (identity q)) [
    | inl undeclared ↦ first_declared-identity rs r (sym (skip_undeclared q rs undeclared) ∙ h)
    | inr (c, declared) ↦ (
      c,
      ap identity (sym (some-injective q r (sym (take_declared q rs declared) ∙ h))) ∙ declared,
    )
  ]

  -- What the chosen root is: one of the roots, of the clock of every root that has one.
  pub Chosen : List String → String → Type 0
  Chosen rs r = In r rs × ((s c : String) → In s rs → identity s ≡ some c → identity r ≡ some c)

  pick_among-Chosen :
      (real rs : List String) (r : String)
      → ((s c : String) → In s rs → identity s ≡ some c → In c real)
      → pick_among identity real rs ≡ some r
      → Chosen rs r
  unfolding pick_among contains Chosen
  pick_among-Chosen (c ∷ d ∷ real) rs r covers h = cc
  pick_among-Chosen (k ∷ []) rs r covers h =
      let (d, declared) = first_declared-identity rs r h in
      let root = first_declared-root rs r h in
      (
        root,
        λ s c inside e.
            declared ∙ ap some (only (covers r d root declared) ∙ sym (only (covers s c inside e))),
      )
  pick_among-Chosen [] [] r covers h = cc
  pick_among-Chosen [] (q ∷ rs) r covers h =
      (ground (arith, eq_self q), λ s c inside e. absurd (nothing c (covers s c inside e)))

  pick_distinct-Chosen :
      (rs : List String) (r : String) → pick_distinct (some identity) rs ≡ some r → Chosen rs r
  unfolding pick_distinct Chosen
  pick_distinct-Chosen [] r h = cc
  pick_distinct-Chosen (q ∷ rs) r h =
      pick_among-Chosen (identities identity [] (q ∷ rs)) (q ∷ rs) r (identities-root [] (q ∷ rs)) h

first-In : (rs : List String) (r : String) → pick_distinct none rs ≡ some r → In r rs
unfolding pick_distinct contains
first-In [] r h = cc
first-In (q ∷ rs) r h = ground (arith, (string_eq.beq_iff r q).1 (some-injective r q (sym h)))

pub distinct-In : (rs : List String) (a : String) → contains (distinct rs) a ≡ contains rs a
unfolding distinct
distinct-In rs a = contains-distinct_after [] rs a refl

pick_combining_root-Chosen :
    (identity : Identity) (roots : List String) (r : String)
    → pick_combining_root (some identity) roots ≡ some r
    → Chosen identity roots r
unfolding pick_combining_root Chosen
pick_combining_root-Chosen identity roots r h =
    let (root, agrees) = pick_distinct-Chosen identity (distinct roots) r h in
    (sym (distinct-In roots r) ∙ root, λ s c inside e. agrees s c (distinct-In roots s ∙ inside) e)

-- Where a root is chosen while one of the roots names a declared clock, the chosen one is a root
-- that names the same clock: no clock of a genuine combine is passed over for another one.
pub pick_combining_root-agrees :
    (identity : Identity) (roots : List String) (r s c : String)
    → pick_combining_root (some identity) roots ≡ some r
    → In s roots
    → identity s ≡ some c
    → In r roots × (identity r ≡ some c)
unfolding Chosen
pick_combining_root-agrees identity roots r s c h inside e =
    let (root, agrees) = pick_combining_root-Chosen identity roots r h in
    (root, agrees s c inside e)

-- Without a clock identity too, the chosen root is one of the roots.
pub pick_combining_root-In :
    (identity : Option Identity) (roots : List String) (r : String)
    → pick_combining_root identity roots ≡ some r
    → In r roots
unfolding Chosen pick_combining_root
pick_combining_root-In (some identity) roots r h = (pick_combining_root-Chosen identity roots r h).0
pick_combining_root-In none roots r h = sym (distinct-In roots r) ∙ first-In (distinct roots) r h
