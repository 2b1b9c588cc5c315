-- ===== src/Rules/Buses/Cached.antt =====
-- The verdicts that `check_cdc_012` of src/rtl_buddy_cdc/rules.py keeps by the name of the source flop.
use mathlib.Core.Option.{some-injective}
use rtl_buddy_cdc.Base.{
  String, Bool, true, false, Option, none, some, List, [], ◌∷◌, ◌==◌, ◌≡◌, inl, inr, refl, sym, ap,
  ◌∙◌, arith, nat_eq, string_eq, if◌then◌else◌, Dict, lookup, insert, lookup-insert, Bool-cases,
  Option-cases, Within,
}
use rtl_buddy_cdc.Netlist.Flops.{Flop, flop_name}
use rtl_buddy_cdc.Domain.{Crossing}
use rtl_buddy_cdc.Rules.{Violation, RuleContext, collect}
use rtl_buddy_cdc.Rules.Buses.{
  has_dst_to_src_feedback, checked_source, cached_feedback, report_012, check_012, check_cdc_012,
}

module _ (ctx : RuleContext) where
  -- What the rule would report of a crossing with no verdict kept.
  unfoldable pub uncached_012 : Crossing → Option Violation
  uncached_012 c = elim (checked_source ctx c c.src_flop) [
    | none ↦ none
    | some src ↦ if has_dst_to_src_feedback ctx c then none else some (report_012 ctx c src)
  ]

  -- The two crossings are from different flops, or the same verdict holds for both.
  unfoldable pub Agree : Crossing → Crossing → Type 0
  Agree c d =
      (src tgt : Flop)
      → c.src_flop ≡ some src
      → d.src_flop ≡ some tgt
      → flop_name src ≡ flop_name tgt
      → has_dst_to_src_feedback ctx c ≡ has_dst_to_src_feedback ctx d

  -- A verdict that is kept is right for every crossing of the list that is from its flop.
  Right : Dict String Bool → List Crossing → Type 0
  Right cache cs =
      (d : Crossing) (tgt : Flop) (known : Bool)
      → Within d cs
      → d.src_flop ≡ some tgt
      → lookup (flop_name tgt) cache ≡ some known
      → known ≡ has_dst_to_src_feedback ctx d

  Right-insert :
      (cache : Dict String Bool) (c : Crossing) (cs : List Crossing) (src : Flop) (held : Bool)
      → c.src_flop ≡ some src
      → held ≡ has_dst_to_src_feedback ctx c
      → ((d : Crossing) → Within d cs → Agree c d)
      → Right cache cs
      → Right (insert (flop_name src) held cache) cs
  unfolding Right Agree
  Right-insert cache c cs src held from_flop is agree right d tgt known w from_tgt hit =
      elim (Bool-cases (flop_name tgt == flop_name src)) [
        | inl same ↦
            some-injective known held
              (sym hit ∙ lookup-insert (flop_name src) (flop_name tgt) held cache ∙ rw same refl)
            ∙ is
            ∙ agree d w src tgt from_flop from_tgt
                (sym ((string_eq.beq_iff (flop_name tgt) (flop_name src)).0 same))
        | inr other ↦ right d tgt known w from_tgt (
            sym
              (sym hit ∙ lookup-insert (flop_name src) (flop_name tgt) held cache ∙ rw other refl))
      ]

  cached_feedback-Right :
      (cache : Dict String Bool) (c : Crossing) (cs : List Crossing) (src : Flop)
      → c.src_flop ≡ some src
      → Right cache (c ∷ cs)
      → cached_feedback ctx (lookup (flop_name src) cache) c ≡ has_dst_to_src_feedback ctx c
  unfolding cached_feedback Right
  cached_feedback-Right cache c cs src from_flop right =
      elim (Option-cases (lookup (flop_name src) cache)) [
        | inl new ↦ rw new refl
        | inr (known, hit) ↦ rw hit (right c src known (inl refl) from_flop hit)
      ]

  checked_source-src_flop :
      (c : Crossing) (o : Option Flop) (src : Flop)
      → checked_source ctx c o ≡ some src
      → o ≡ some src
  unfolding checked_source
  checked_source-src_flop c none src h = cc
  checked_source-src_flop c (some f) src h = ground (arith, h)

  check_012-collect :
      (cache : Dict String Bool) (cs : List Crossing)
      → Right cache cs
      → ((c d : Crossing) → Within c cs → Within d cs → Agree c d)
      → check_012 ctx cache cs ≡ collect uncached_012 cs
  unfolding check_012 collect Right uncached_012
  check_012-collect cache [] right agree = refl
  check_012-collect cache (c ∷ cs) right agree =
      let tail : (e f : Crossing) → Within e cs → Within f cs → Agree e f =
        λ e f v w. agree e f (inr v) (inr w) in
      elim (Option-cases (checked_source ctx c c.src_flop)) [
        | inl exempt ↦
            rw (check_012, collect, uncached_012, exempt)
              (check_012-collect cache cs (λ d tgt known w. right d tgt known (inr w)) tail)
        | inr (src, checked) ↦
            let from_flop = checked_source-src_flop c c.src_flop src checked in
            let held = cached_feedback-Right cache c cs src from_flop right in
            let later : (verdict : Bool)
                → verdict ≡ has_dst_to_src_feedback ctx c
                → check_012 ctx (insert (flop_name src) verdict cache) cs
                  ≡ collect uncached_012 cs =
              λ verdict is.
                check_012-collect (insert (flop_name src) verdict cache) cs
                  (Right-insert cache c cs src verdict from_flop is
                    (λ d w. agree c d (inl refl) (inr w))
                    (λ d tgt known w. right d tgt known (inr w)))
                  tail in
            elim (Bool-cases (has_dst_to_src_feedback ctx c)) [
              | inl fed ↦
                  rw (check_012, collect, uncached_012, checked, held ∙ fed, fed)
                    (later true (sym fed))
              | inr unfed ↦
                  rw (check_012, collect, uncached_012, checked, held ∙ unfed, unfed)
                    (ap (λ vs. report_012 ctx c src ∷ vs) (later false (sym unfed)))
            ]
      ]

  -- When all crossings from one flop have or all lack a way back from their destination, CDC-012
  -- reports exactly the crossings that it does not exempt and that have no way back.
  pub check_cdc_012-collect :
      (cs : List Crossing)
      → ((c d : Crossing) → Within c cs → Within d cs → Agree c d)
      → check_cdc_012 ctx cs ≡ collect uncached_012 cs
  unfolding check_cdc_012 Right lookup
  check_cdc_012-collect cs agree = check_012-collect [] cs (λ d tgt known w from_tgt hit. cc) agree
