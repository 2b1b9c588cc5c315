-- ===== src/Rules/Reported.antt =====
-- Which crossings the rules of src/rtl_buddy_cdc/rules.py report.
use mathlib.Core.Option.{some-injective}
use mathlib.Core.Path.{subst}
use rtl_buddy_cdc.Base.{
  Option, some, List, [], ◌∷◌, ◌++◌, ◌≡◌, ◌⊎◌, inl, inr, refl, sym, ap, ◌∙◌, ◌↔◌, Within,
  Within-left, Within-right, Within-append, Option-cases,
}
use rtl_buddy_cdc.Domain.{Crossing}
use rtl_buddy_cdc.Rules.{Violation, collect}

-- A finding of the list is on the crossing.
abbrev pub Reported : Crossing → List Violation → Type 0
Reported c vs = (v : Violation) × Within v vs × (v.crossing ≡ some c)

pub Reported-left : (c : Crossing) (vs ws : List Violation) → Reported c vs → Reported c (vs ++ ws)
Reported-left c vs ws (v, w, on) = (v, Within-left v vs ws w, on)

pub Reported-right : (c : Crossing) (vs ws : List Violation) → Reported c ws → Reported c (vs ++ ws)
Reported-right c vs ws (v, w, on) = (v, Within-right v vs ws w, on)

pub Reported-append :
    (c : Crossing) (vs ws : List Violation) → Reported c (vs ++ ws) → Reported c vs ⊎ Reported c ws
Reported-append c vs ws (v, w, on) = elim (Within-append v vs ws w) [
  | inl left ↦ inl (v, left, on)
  | inr right ↦ inr (v, right, on)
]

module _ (rule : Crossing → Option Violation) where
  collect-Within :
      (c : Crossing) (v : Violation) (cs : List Crossing)
      → rule c ≡ some v
      → Within c cs
      → Within v (collect rule cs)
  unfolding collect
  collect-Within c v [] fires w = absurd w
  collect-Within c v (x ∷ cs) fires (inl same) = rw (collect, sym same, fires) (inl refl)
  collect-Within c v (x ∷ cs) fires (inr later) = elim (Option-cases (rule x)) [
    | inl silent ↦ rw (collect, silent) (collect-Within c v cs fires later)
    | inr (u, other) ↦ rw (collect, other) (inr (collect-Within c v cs fires later))
  ]

  collect-source :
      (v : Violation) (cs : List Crossing)
      → Within v (collect rule cs)
      → (c : Crossing) × Within c cs × (rule c ≡ some v)
  unfolding collect
  collect-source v [] w = absurd w
  collect-source v (x ∷ cs) w = elim (Option-cases (rule x)) [
    | inl silent ↦
        let (c, within, fires) =
          collect-source v cs
            (subst (Within v) {y = collect rule cs} (rw (collect, silent) refl) w) in
        (c, inr within, fires)
    | inr (u, other) ↦
        elim (subst (Within v) {y = u ∷ collect rule cs} (rw (collect, other) refl) w) [
          | inl same ↦ (x, inl refl, other ∙ ap some (sym same))
          | inr later ↦ let (c, within, fires) = collect-source v cs later in (c, inr within, fires)
        ]
  ]

  -- A rule whose findings are on the crossings they are made of reports exactly those.
  pub collect-Reported :
      ((c : Crossing) (v : Violation) → rule c ≡ some v → v.crossing ≡ some c)
      → (c : Crossing) (cs : List Crossing) → Within c cs
      → ((v : Violation) × (rule c ≡ some v)) ↔ Reported c (collect rule cs)
  collect-Reported on c cs w = (
    λ (v, fires). (v, collect-Within c v cs fires w, on c v fires),
    λ (v, within, is_on).
        (let (x, from, fires) = collect-source v cs within in
          (
            v,
            subst (λ y. rule y ≡ some v) (some-injective x c (sym (on x v fires) ∙ is_on)) fires,
          )),
  )
