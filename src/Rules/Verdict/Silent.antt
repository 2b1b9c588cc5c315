-- ===== src/Rules/Verdict/Silent.antt =====
-- The rules of src/rtl_buddy_cdc/rules.py are silent on what `crossing_synchronizer` recognises, and
-- on nothing else.
use mathlib.Core.Path.{subst}
use rtl_buddy_cdc.Base.{
  true, false, not, ◌&&◌, none, some, List, ◌++◌, ◌==◌, ◌≡◌, ◌≢◌, ◌⊎◌, ◌↔◌, inl, inr, refl, sym,
  arith, nat_eq, string_eq, ltb, leb, ◌≤◌, ne_false, Within, Bool-cases, Option-cases,
}
use rtl_buddy_cdc.Sdc.Spec.{unconstrained_sentinel}
use rtl_buddy_cdc.Domain.{Crossing}
use rtl_buddy_cdc.Rules.{Violation, RuleContext}
use rtl_buddy_cdc.Rules.Chain.{chain_has_inter_stage_comb}
use rtl_buddy_cdc.Rules.Single.{
  chain_depth, exempt_from_001, report_001, check_cdc_001, exempt_from_014, report_014,
  check_cdc_014,
}
use rtl_buddy_cdc.Rules.Buses.{exempt_from_004, report_004, check_cdc_004}
use rtl_buddy_cdc.Rules.Reported.{
  Reported, Reported-left, Reported-right, Reported-append, collect-Reported,
}
use rtl_buddy_cdc.Rules.Verdict.{single_bit_scheme, bus_scheme, crossing_synchronizer}

module _ (ctx : RuleContext) where
  report_001-crossing :
      (c : Crossing) (v : Violation) → report_001 ctx c ≡ some v → v.crossing ≡ some c
  unfolding report_001
  report_001-crossing c v fires =
      elim (Bool-cases (not (exempt_from_001 ctx c) && ltb (chain_depth ctx c) 2)) [
        | inr silent ↦ ground (arith, silent, fires)
        | inl fires_if ↦ elim (Option-cases (chain_has_inter_stage_comb ctx c.dst_flop)) [
          | inl no_gate ↦ ground (arith, fires_if, no_gate, fires)
          | inr (nxt, gate) ↦ ground (arith, fires_if, gate, fires)
        ]
      ]

  report_004-crossing :
      (c : Crossing) (v : Violation) → report_004 ctx c ≡ some v → v.crossing ≡ some c
  unfolding report_004
  report_004-crossing c v fires = elim (Bool-cases (exempt_from_004 ctx c)) [
    | inl exempt ↦ ground (arith, exempt, fires)
    | inr bare ↦ ground (arith, bare, fires)
  ]

  -- A bus without a scheme is what CDC-004 does not exempt.
  bus_scheme-exempt :
      (c : Crossing)
      → leb c.width 1 ≡ false
      → (bus_scheme ctx c ≡ none) ↔ (exempt_from_004 ctx c ≡ false)
  unfolding bus_scheme exempt_from_004
  bus_scheme-exempt c wide = ground arith

  single_bit_scheme-exempt :
      (c : Crossing)
      → c.width ≡ 1
      → (c.src_clock == unconstrained_sentinel) ≡ false
      → (single_bit_scheme ctx c ≡ none)
        ↔ ((exempt_from_001 ctx c ≡ false) × (ltb (chain_depth ctx c) 2 ≡ true))
  unfolding single_bit_scheme exempt_from_001
  single_bit_scheme-exempt c one constrained = ground arith

  -- The tests that CDC-001 makes before it looks for a gate behind the destination flop.
  unfoldable pub Unsynchronized : Crossing → Type 0
  Unsynchronized c = (exempt_from_001 ctx c ≡ false) × (ltb (chain_depth ctx c) 2 ≡ true)

  report_001-Unsynchronized :
      (c : Crossing) (v : Violation) → report_001 ctx c ≡ some v → Unsynchronized c
  unfolding report_001 Unsynchronized
  report_001-Unsynchronized c v fires = ground (arith, fires)

  fires_004 :
      (c : Crossing)
      → ((v : Violation) × (report_004 ctx c ≡ some v)) ↔ (exempt_from_004 ctx c ≡ false)
  unfolding report_004
  fires_004 c = elim (Bool-cases (exempt_from_004 ctx c)) [
    | inl exempt ↦
        (λ (v, fires). ground (arith, exempt, fires), λ bare. ground (arith, exempt, bare))
    | inr bare ↦ (
      λ fires. bare,
      λ same. elim (Option-cases (report_004 ctx c)) [
        | inl silent ↦ absurd (ground (arith, bare, silent))
        | inr fires ↦ fires
      ],
    )
  ]

  fires_001 :
      (c : Crossing)
      → Unsynchronized c
      → chain_has_inter_stage_comb ctx c.dst_flop ≡ none
      → (v : Violation) × (report_001 ctx c ≡ some v)
  unfolding report_001 Unsynchronized
  fires_001 c (tests, shallow) no_gate = elim (Option-cases (report_001 ctx c)) [
    | inl silent ↦ absurd (ground (arith, tests, shallow, no_gate, silent))
    | inr fires ↦ fires
  ]

  fires_014 :
      (c : Crossing)
      → Unsynchronized c
      → ((v : Violation) × (report_014 ctx c ≡ some v))
        ⊎ (chain_has_inter_stage_comb ctx c.dst_flop ≡ none)
  unfolding report_014 Unsynchronized exempt_from_014 exempt_from_001
  fires_014 c (tests, shallow) = elim (Option-cases (chain_has_inter_stage_comb ctx c.dst_flop)) [
    | inl no_gate ↦ inr no_gate
    | inr (nxt, gate) ↦ elim (Option-cases (report_014 ctx c)) [
      | inl silent ↦ absurd (ground (arith, tests, gate, silent))
      | inr fires ↦ inl fires
    ]
  ]

  report_014-crossing :
      (c : Crossing) (v : Violation) → report_014 ctx c ≡ some v → v.crossing ≡ some c
  unfolding report_014
  report_014-crossing c v fires = elim (Option-cases (chain_has_inter_stage_comb ctx c.dst_flop)) [
    | inl no_gate ↦ ground (arith, no_gate, fires)
    | inr (nxt, gate) ↦ ground (arith, gate, fires)
  ]

  -- CDC-001 leaves the crossing to CDC-014, which reports it.
  pub Deferred : List Crossing → Crossing → Type 0
  Deferred cs c = Unsynchronized c × Reported c (check_cdc_014 ctx cs)

  -- CDC-001 or CDC-014 has a finding on what passes the tests.
  pub Unsynchronized-Reported :
      (cs : List Crossing) (c : Crossing)
      → Within c cs
      → Unsynchronized c
      → Reported c (check_cdc_001 ctx cs) ⊎ Deferred cs c
  unfolding check_cdc_001 check_cdc_014 Deferred
  Unsynchronized-Reported cs c w bare = elim (fires_014 c bare) [
    | inl fires ↦ inr (bare, (collect-Reported (report_014 ctx) report_014-crossing c cs w).0 fires)
    | inr no_gate ↦ inl (
        (collect-Reported (report_001 ctx) report_001-crossing c cs w).0 (fires_001 c bare no_gate))
  ]

  no_scheme-Unsynchronized :
      (c : Crossing)
      → (c.src_clock == unconstrained_sentinel) ≡ false
      → c.width ≡ 1
      → (crossing_synchronizer ctx c ≡ none) ↔ Unsynchronized c
  unfolding crossing_synchronizer Unsynchronized
  no_scheme-Unsynchronized c constrained one =
      subst (λ o. (o ≡ none) ↔ Unsynchronized c) {x = single_bit_scheme ctx c}
        (sym (rw ((nat_eq.beq_iff c.width 1).1 one) refl))
        (single_bit_scheme-exempt c one constrained)

  no_scheme-wide :
      (c : Crossing)
      → leb c.width 1 ≡ false
      → (crossing_synchronizer ctx c ≡ none) ↔ (exempt_from_004 ctx c ≡ false)
  unfolding crossing_synchronizer
  no_scheme-wide c wide =
      subst (λ o. (o ≡ none) ↔ (exempt_from_004 ctx c ≡ false)) {x = bus_scheme ctx c}
        (ground (arith, wide)) (bus_scheme-exempt c wide)

  Unsynchronized-width : (c : Crossing) → Unsynchronized c → c.width ≡ 1
  unfolding Unsynchronized exempt_from_001
  Unsynchronized-width c (tests, shallow) = ground arith

  exempt-wide : (c : Crossing) → exempt_from_004 ctx c ≡ false → leb c.width 1 ≡ false
  unfolding exempt_from_004
  exempt-wide c bare = ground arith

  -- `crossing_synchronizer` names no scheme for a crossing of a list, which has a bit and no
  -- unconstrained source, exactly when CDC-001 or CDC-004 reports it, or CDC-001 would but for a gate
  -- behind the destination flop, and CDC-014 reports it.
  pub crossing_synchronizer-Reported :
      (cs : List Crossing) (c : Crossing)
      → Within c cs
      → c.src_clock ≢ unconstrained_sentinel
      → 1 ≤ c.width
      → (crossing_synchronizer ctx c ≡ none)
        ↔ (Reported c (check_cdc_001 ctx cs ++ check_cdc_004 ctx cs) ⊎ Deferred cs c)
  unfolding check_cdc_001 check_cdc_004 check_cdc_014 Deferred
  crossing_synchronizer-Reported cs c w constrained some_bit = (
    λ no_scheme. elim (Bool-cases (leb c.width 1)) [
      | inr wide ↦ inl (
          Reported-right c (check_cdc_001 ctx cs) (check_cdc_004 ctx cs) (
            (collect-Reported (report_004 ctx) report_004-crossing c cs w).0
              ((fires_004 c).1 ((no_scheme-wide c wide).0 no_scheme))))
      | inl narrow ↦
          let bare =
            (no_scheme-Unsynchronized c (ne_false constrained) (ground (arith, narrow, some_bit))).0
              no_scheme in
          elim (Unsynchronized-Reported cs c w bare) [
            | inl reported ↦
                inl (Reported-left c (check_cdc_001 ctx cs) (check_cdc_004 ctx cs) reported)
            | inr deferred ↦ inr deferred
          ]
    ],
    λ reported. elim reported [
      | inr (bare, late) ↦
          (no_scheme-Unsynchronized c (ne_false constrained) (Unsynchronized-width c bare)).1 bare
      | inl early ↦ elim (Reported-append c (check_cdc_001 ctx cs) (check_cdc_004 ctx cs) early) [
        | inl by_001 ↦
            let (v, fires) =
              (collect-Reported (report_001 ctx) report_001-crossing c cs w).1 by_001 in
            let bare = report_001-Unsynchronized c v fires in
            (no_scheme-Unsynchronized c (ne_false constrained) (Unsynchronized-width c bare)).1 bare
        | inr by_004 ↦
            let bare =
              (fires_004 c).0
                ((collect-Reported (report_004 ctx) report_004-crossing c cs w).1 by_004) in
            (no_scheme-wide c (exempt-wide c bare)).1 bare
      ]
    ],
  )
