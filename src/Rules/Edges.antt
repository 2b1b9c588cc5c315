-- ===== src/Rules/Edges.antt =====
-- `_clk_polarity` and `check_cdc_016` of src/rtl_buddy_cdc/rules.py: synchronizer stages on opposite clock
-- edges.
use rtl_buddy_cdc.Base.{
  ℕ, String, Bool, true, false, not, ◌||◌, Option, none, some, List, [], ◌∷◌, ◌==◌, nat_eq,
  string_eq, if◌then◌else◌, contains, lookup,
}
use rtl_buddy_cdc.Text.{split_on}
use rtl_buddy_cdc.Sdc.Tokenizer.{chars, join, Text}
use rtl_buddy_cdc.Netlist.Flops.{Flop, flop_name}
use rtl_buddy_cdc.Domain.{Crossing}
use rtl_buddy_cdc.Rules.{opposite_edge, Violation, RuleContext, on_crossing}
use rtl_buddy_cdc.Rules.Chain.{sync_chain_flops}
use rtl_buddy_cdc.Rules.Single.{dst_name}

-- The first segment that is a `P` or an `N`.
unfoldable pub edge_among : List Text → ℕ
edge_among [] = 1
edge_among (seg ∷ segs) =
    let rest = edge_among segs in
    if join seg == "P" then 1 else (if join seg == "N" then 0 else rest)

-- 1 for the rising edge, 0 for the falling one.
unfoldable pub clk_polarity : Flop → ℕ
unfolding edge_among lookup split_on
clk_polarity f = elim (lookup "CLK_POLARITY" f.cell.parameters) [
  | some p ↦ if p == "1" then 1 else 0
  | none ↦ edge_among (split_on "_" [] (chars f.cell.type))
]

-- The first two neighbours of a chain that disagree.
unfoldable pub opposite_edges : List Flop → Option (Flop × Flop)
unfolding clk_polarity
opposite_edges [] = none
opposite_edges (a ∷ []) = none
opposite_edges (a ∷ b ∷ chain) =
    let rest = opposite_edges (b ∷ chain) in
    if clk_polarity a == clk_polarity b then rest else some (a, b)

module _ (ctx : RuleContext) where
  unfoldable pub exempt_from_016 : List String → Crossing → Bool
  unfolding contains
  exempt_from_016 reported_heads c =
      not (c.width == 1)
      || contains reported_heads (dst_name c)
      || contains ctx.user_syncs (dst_name c)

  -- The loop, with the heads that are reported.
  unfoldable pub report_016 : List String → List Crossing → List Violation
  unfolding exempt_from_016 opposite_edges sync_chain_flops
  report_016 reported_heads [] = []
  report_016 reported_heads (c ∷ cs) = elim (exempt_from_016 reported_heads c) [
    | true ↦ report_016 reported_heads cs
    | false ↦ elim (opposite_edges (sync_chain_flops ctx c.dst_flop c.dst_clock)) [
      | none ↦ report_016 reported_heads cs
      | some (a, b) ↦
          on_crossing "CDC-016" "error"
            (opposite_edge c.src_clock c.dst_clock (flop_name a) (clk_polarity a) (flop_name b)
              (clk_polarity b))
            c (dst_name c)
          ∷ report_016 (dst_name c ∷ reported_heads) cs
    ]
  ]

  unfoldable pub check_cdc_016 : List Crossing → List Violation
  unfolding report_016
  check_cdc_016 = report_016 []
