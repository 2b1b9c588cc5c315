-- ===== src/Rules/Sources.antt =====
-- The rules of src/rtl_buddy_cdc/rules.py on what a flop samples or is reset by: `check_cdc_006`,
-- `check_cdc_015` and `check_cdc_017`.
use mathlib.Core.Option.{get_or}
use rtl_buddy_cdc.Base.{
  precedes, pair_precedes, sorted, String, Bool, true, false, not, ◌||◌, Option, none, some, List,
  [], ◌∷◌, ◌++◌, ◌==◌, nat_eq, string_eq, pair_eq, ltb, if◌then◌else◌, contains, Dict, values,
  lookup, insert,
}
use rtl_buddy_cdc.Sdc.Spec.{
  Clock, ClockSpec, clock_for_port, resolve, are_async, unconstrained_sentinel,
}
use rtl_buddy_cdc.Netlist.{Bit, bit_eq, Cell}
use rtl_buddy_cdc.Netlist.Flops.{Flop, flop_name, is_latch_cell, pin}
use rtl_buddy_cdc.Domain.{Crossing}
use rtl_buddy_cdc.Domain.Filter.{or_name}
use rtl_buddy_cdc.Crossings.Fanout.{nets}
use rtl_buddy_cdc.Rules.{
  glitchy_source, foreign_reset, transparent_latch, Violation, RuleContext, on_crossing, on_cell,
}
use rtl_buddy_cdc.Rules.Fanin.{add_member, backward_fanin, backward_flop_fanin}
use rtl_buddy_cdc.Rules.Chain.{sync_chain_depth, sync_chain_flops}
use rtl_buddy_cdc.Rules.Single.{dst_name}

-- `domains.get(name)`, where an absent name and an absent domain are the same.
unfoldable pub domain_of : Dict String (Option String) → String → Option String
unfolding lookup
domain_of domains name = get_or (lookup name domains) none

abbrev pub report_006 :
    Flop → String → List (String × Option String) → List Violation → List Violation
report_006 f my_clk [] rest = rest
report_006 f my_clk (p ∷ ps) rest =
    on_cell "CDC-006" "error" (glitchy_source (flop_name f) my_clk (p ∷ ps)) (flop_name f) ∷ rest

module _ {Float : Type 0} where
  unfoldable pub clock_ports_of : List (Clock Float) → List String
  clock_ports_of [] = []
  clock_ports_of (clk ∷ clks) = clk.ports ++ clock_ports_of clks

  -- The port's clock, when the port is flagged: an option for each of the two.
  unfoldable pub flag_port : Option (ClockSpec Float) → String → String → Option (Option String)
  unfolding clock_ports_of values contains clock_for_port resolve lookup
  flag_port none my_clk p = some none
  flag_port (some spec) my_clk p =
      if contains (clock_ports_of (values spec.clocks)) p
      then none
      else (elim (lookup p spec.port_clock) [
        | none ↦ some none
        | some port_clk ↦
            if port_clk == unconstrained_sentinel
              || resolve spec port_clk == resolve spec (or_name (clock_for_port spec my_clk) my_clk)
            then none
            else some (some port_clk)
      ])

  unfoldable pub flagged_ports :
      Option (ClockSpec Float) → String → List String → List (String × Option String)
  unfolding flag_port
  flagged_ports spec my_clk [] = []
  flagged_ports spec my_clk (p ∷ ps) = elim (flag_port spec my_clk p) [
    | none ↦ flagged_ports spec my_clk ps
    | some port_clk ↦ (p, port_clk) ∷ flagged_ports spec my_clk ps
  ]

  -- The ports that are flagged at a flop, of those that its data pin is reached from; none when a
  -- flop reaches it.
  unfoldable pub ports_at :
      Option (ClockSpec Float) → String → List String × List String → List (String × Option String)
  unfolding flagged_ports sorted
  ports_at spec my_clk ([], ports) = flagged_ports spec my_clk (sorted precedes ports)
  ports_at spec my_clk (f ∷ fs, ports) = []

  module _ (ctx : RuleContext) (spec : Option (ClockSpec Float)) where
    unfoldable pub check_006 : List Flop → List Violation
    unfolding domain_of contains sync_chain_depth backward_fanin ports_at
    check_006 [] = []
    check_006 (f ∷ fs) = elim (domain_of ctx.domains (flop_name f)) [
      | none ↦ check_006 fs
      | some my_clk ↦
          let rest = check_006 fs in
          if contains ctx.user_syncs (flop_name f) || ltb (sync_chain_depth ctx f my_clk) 2
          then rest
          else report_006 f my_clk
              (ports_at spec my_clk (backward_fanin ctx.circuit ctx.bit_drivers f.d)) rest
    ]

    unfoldable pub check_cdc_006 : List Violation
    unfolding check_006
    check_cdc_006 = check_006 ctx.flops

    -- `_async` of `check_cdc_015`
    unfoldable pub clocks_async : String → String → Bool
    unfolding clock_for_port are_async
    clocks_async a b = elim spec [
      | none ↦ not (a == b)
      | some s ↦ are_async s (or_name (clock_for_port s a) a) (or_name (clock_for_port s b) b)
    ]

    -- The foreign flops behind a reset, with their clocks.
    unfoldable pub offending_sources :
        String → List String → List (String × String) → List (String × String)
    unfolding domain_of clocks_async add_member
    offending_sources dst_clock [] out = out
    offending_sources dst_clock (name ∷ names) out = elim (domain_of ctx.domains name) [
      | none ↦ offending_sources dst_clock names out
      | some src_clk ↦ offending_sources dst_clock names (
          if src_clk == dst_clock || not (clocks_async src_clk dst_clock)
          then out
          else add_member (name, src_clk) out)
    ]

    unfoldable pub offending_resets :
        String → List Flop → List (String × String) → List (String × String)
    unfolding offending_sources backward_flop_fanin pin
    offending_resets dst_clock [] out = out
    offending_resets dst_clock (f ∷ fs) out = offending_resets dst_clock fs (
        offending_sources dst_clock
          (backward_flop_fanin ctx.circuit ctx.bit_drivers (pin f.cell "ARST")) out)

    -- Only a chain of at least two flops is looked at.
    unfoldable pub offending_of : String → List Flop → List (String × String)
    unfolding offending_resets
    offending_of dst_clock (a ∷ b ∷ chain) = offending_resets dst_clock (a ∷ b ∷ chain) []
    offending_of dst_clock _ = []

    unfoldable pub check_015 : List String → List Crossing → List Violation
    unfolding contains offending_of sync_chain_flops sorted
    check_015 reported_heads [] = []
    check_015 reported_heads (c ∷ cs) =
        elim (not (c.width == 1)
          || contains reported_heads (dst_name c)
          || contains ctx.user_syncs (dst_name c)) [
            | true ↦ check_015 reported_heads cs
            | false ↦
                elim (offending_of c.dst_clock (sync_chain_flops ctx c.dst_flop c.dst_clock)) [
                  | [] ↦ check_015 reported_heads cs
                  | source ∷ sources ↦
                      on_crossing "CDC-015" "error"
                        (foreign_reset c.dst_clock (dst_name c)
                          (sorted pair_precedes (source ∷ sources)))
                        c (dst_name c)
                      ∷ check_015 (dst_name c ∷ reported_heads) cs
                ]
          ]

    unfoldable pub check_cdc_015 : List Crossing → List Violation
    unfolding check_015
    check_cdc_015 = check_015 []

-- `d.setdefault(key, value)`
unfoldable pub set_default {ℓ} : {V : Type ℓ} → String → V → Dict String V → Dict String V
unfolding lookup insert
set_default k v d = elim (lookup k d) [ none ↦ insert k v d | some old ↦ d ]

module _ (ctx : RuleContext) where
  -- The flops that a latch's output is the data pin of, by their clocks.
  unfoldable pub latch_destinations : List Bit → Dict String String → Dict String String
  unfolding lookup contains domain_of set_default
  latch_destinations [] out = out
  latch_destinations (q ∷ qs) out = elim (lookup q ctx.d_bit_to_single_bit_flop) [
    | none ↦ latch_destinations qs out
    | some dst ↦ elim (domain_of ctx.domains (flop_name dst)) [
      | none ↦ latch_destinations qs out
      | some clk ↦ latch_destinations qs (
          if contains ctx.user_syncs (flop_name dst)
          then out
          else set_default clk (flop_name dst) out)
    ]
  ]

  unfoldable pub latch_sources : List String → Dict String String → Dict String String
  unfolding domain_of set_default
  latch_sources [] out = out
  latch_sources (name ∷ names) out = elim (domain_of ctx.domains name) [
    | none ↦ latch_sources names out
    | some clk ↦ latch_sources names (set_default clk name out)
  ]

  -- The clocks of both sides are keys, so no pair comes twice for a latch.
  unfoldable pub latch_from : String → String → String → Dict String String → List Violation
  latch_from latch dst_clk dst [] = []
  latch_from latch dst_clk dst ((src_clk, src) ∷ sources) =
      let rest = latch_from latch dst_clk dst sources in
      if src_clk == dst_clk
      then rest
      else on_cell "CDC-017" "error" (transparent_latch src_clk dst_clk latch dst src) latch ∷ rest

  unfoldable pub latch_pairs : String → Dict String String → Dict String String → List Violation
  unfolding latch_from
  latch_pairs latch [] sources = []
  latch_pairs latch ((dst_clk, dst) ∷ dsts) sources =
      latch_from latch dst_clk dst sources ++ latch_pairs latch dsts sources

  -- The order of the sources is that of a set in the source.
  unfoldable pub check_017 : List Cell → List Violation
  unfolding is_latch_cell latch_pairs latch_destinations latch_sources backward_flop_fanin nets pin
  check_017 [] = []
  check_017 (cell ∷ cells) =
      let rest = check_017 cells in
      if is_latch_cell cell.type
      then latch_pairs cell.name (latch_destinations (nets (pin cell "Q")) [])
          (latch_sources (backward_flop_fanin ctx.circuit ctx.bit_drivers (nets (pin cell "D"))) [])
        ++ rest
      else rest

  unfoldable pub check_cdc_017 : List Violation
  unfolding check_017 values
  check_cdc_017 = check_017 (values ctx.circuit.cells)
