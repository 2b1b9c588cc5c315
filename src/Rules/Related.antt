-- ===== src/Rules/Related.antt =====
-- `_tag_handshake_related` of src/rtl_buddy_cdc/rules.py: CDC-001 and CDC-002 findings between the clocks of
-- a CDC-012 finding.
use rtl_buddy_cdc.Base.{
  String, Bool, ◌&&◌, ◌||◌, Option, none, some, List, [], ◌∷◌, ◌==◌, string_eq, if◌then◌else◌,
}
use rtl_buddy_cdc.Netlist.Flops.{flop_name}
use rtl_buddy_cdc.Domain.{Crossing, src_name}
use rtl_buddy_cdc.Rules.{handshake_related, Violation}
use rtl_buddy_cdc.Rules.Single.{dst_name}

-- `frozenset({a, b}) == frozenset({c, d})`
unfoldable pub same_pair : String → String → String → String → Bool
same_pair a b c d = (a == c && b == d) || (a == d && b == c)

-- The pairs of clocks in the order of their first CDC-012 findings: the crossing of the first finding
-- on a pair is the one that is looked up, so later ones need not be left out.
unfoldable pub cdc_012_crossings : List Violation → List Crossing
cdc_012_crossings [] = []
cdc_012_crossings (v ∷ vs) = elim v.crossing [
  | none ↦ cdc_012_crossings vs
  | some c ↦ let rest = cdc_012_crossings vs in if v.rule_id == "CDC-012" then c ∷ rest else rest
]

unfoldable pub partner_of : Crossing → List Crossing → Option Crossing
unfolding same_pair
partner_of c [] = none
partner_of c (p ∷ ps) =
    let rest = partner_of c ps in
    if same_pair p.src_clock p.dst_clock c.src_clock c.dst_clock then some p else rest

unfoldable pub gated_source : Crossing → String
gated_source p = elim p.src_flop [ none ↦ src_name p | some f ↦ flop_name f ]

unfoldable pub tag_with : Violation → Crossing → Option Crossing → Violation
unfolding gated_source
tag_with v c none = v
tag_with v c (some p) = record {
  rule_id = v.rule_id;
  severity = v.severity;
  message =
      handshake_related v.message c.src_clock c.dst_clock (gated_source p) (dst_name p) p.src_clock;
  crossing = v.crossing;
  cell_name = v.cell_name;
  instance_path = [];
}

unfoldable pub tag_violation : List Crossing → Violation → Violation
unfolding tag_with partner_of
tag_violation pairs v = elim v.crossing [
  | none ↦ v
  | some c ↦
      if v.rule_id == "CDC-001" || v.rule_id == "CDC-002"
      then tag_with v c (partner_of c pairs)
      else v
]

unfoldable pub tag_violations : List Crossing → List Violation → List Violation
unfolding tag_violation
tag_violations pairs [] = []
tag_violations pairs (v ∷ vs) = tag_violation pairs v ∷ tag_violations pairs vs

-- With no CDC-012 finding there is no partner, so the early return needs no clause of its own.
unfoldable pub tag_handshake_related : List Violation → List Violation
unfolding tag_violations cdc_012_crossings
tag_handshake_related vs = tag_violations (cdc_012_crossings vs) vs
