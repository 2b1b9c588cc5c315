-- ===== src/Rules/Ports.antt =====
-- The rules of src/rtl_buddy_cdc/rules.py on input ports that the SDC does not type: `check_cdc_011`, with
-- `_backward_port_fanin` and `_unconstrained_srst_captures`, and `check_cdc_021`.
use mathlib.Core.Option.{get_or}
use rtl_buddy_cdc.Base.{
  precedes, sorted, String, Option, none, some, List, [], ◌∷◌, ◌++◌, ◌==◌, nat_eq, string_eq,
  pair_eq, if◌then◌else◌, contains, Dict, keys, values, lookup, insert,
}
use rtl_buddy_cdc.Sdc.Spec.{ClockSpec, unconstrained_sentinel}
use rtl_buddy_cdc.Netlist.{Bit, bit_eq, Port, Module, port_of_bit}
use rtl_buddy_cdc.Netlist.Flops.{Flop, flop_name, pin}
use rtl_buddy_cdc.Domain.{Crossing}
use rtl_buddy_cdc.Crossings.Fanout.{nets}
use rtl_buddy_cdc.Rules.{
  undeclared_clock, many_domains, untyped_input, Violation, Drives, RuleContext, on_cell,
}
use rtl_buddy_cdc.Rules.Fanin.{add_member, no_sweep, Visit, sweep, back_through}
use rtl_buddy_cdc.Rules.Single.{dst_name}
use rtl_buddy_cdc.Rules.Sources.{domain_of, clock_ports_of}

-- `port is not None and port.direction == "input"`
unfoldable pub input_port_name : Option Port → Option String
input_port_name none = none
input_port_name (some p) = if p.direction == "input" then some p.name else none

module _ (m : Module) where
  unfoldable pub visit_port_fanin : Drives → Visit
  unfolding input_port_name port_of_bit lookup back_through add_member
  visit_port_fanin drivers expands bit s = elim (input_port_name (port_of_bit m bit)) [
    | some name ↦ record s { ports_found = add_member name s.ports_found }
    | none ↦ elim (lookup bit drivers) [
      | none ↦ s
      | some (cell_name, port, idx) ↦
          if port == "Q" then s else back_through m expands (lookup cell_name m.cells) s
    ]
  ]

  unfoldable pub backward_port_fanin : Drives → List Bit → List String
  unfolding sweep visit_port_fanin nets
  backward_port_fanin drivers start_bits =
      (sweep (visit_port_fanin drivers) 12 (nets start_bits) no_sweep).ports_found

-- What an untyped port reaches: clocks with the names of flops.
abbrev pub Captures : Type 0
Captures = Dict String (List (String × String))

-- `out[port].add(dst)`, of a `defaultdict(set)`.
unfoldable pub capture_port : String → String × String → Captures → Captures
unfolding lookup insert add_member
capture_port port dst out = insert port (add_member dst (get_or (lookup port out) [])) out

unfoldable pub untyped_ports : Dict String String → List String
untyped_ports [] = []
untyped_ports ((port, clk) ∷ ports) =
    let rest = untyped_ports ports in if clk == unconstrained_sentinel then port ∷ rest else rest

unfoldable pub capture_ports : List String → String × String → List String → Captures → Captures
unfolding contains capture_port
capture_ports untyped dst [] out = out
capture_ports untyped dst (p ∷ ps) out =
    capture_ports untyped dst ps (if contains untyped p then capture_port p dst out else out)

module _ (ctx : RuleContext) where
  -- The flops' synchronous reset pins. The captures of the crossings are `out` here, where the source
  -- joins the two dictionaries afterwards.
  unfoldable pub srst_captures : List String → List Flop → Captures → Captures
  unfolding domain_of capture_ports backward_port_fanin pin
  srst_captures untyped [] out = out
  srst_captures untyped (f ∷ fs) out = elim (domain_of ctx.domains (flop_name f)) [
    | none ↦ srst_captures untyped fs out
    | some dst_clk ↦ srst_captures untyped fs (
        capture_ports untyped (dst_clk, flop_name f)
          (backward_port_fanin ctx.circuit ctx.bit_drivers (pin f.cell "SRST")) out)
  ]

  unfoldable pub port_captures : List Crossing → Captures → Captures
  unfolding capture_port
  port_captures [] out = out
  port_captures (c ∷ cs) out = elim c.src_port [
    | none ↦ port_captures cs out
    | some port ↦ port_captures cs (
        if c.src_clock == unconstrained_sentinel
        then capture_port port (c.dst_clock, dst_name c) out
        else out)
  ]

  -- The members of a list, once each.
  unfoldable pub as_set : List String → List String
  unfolding add_member
  as_set [] = []
  as_set (x ∷ xs) = add_member x (as_set xs)

  unfoldable pub dst_clocks : List (String × String) → List String
  dst_clocks [] = []
  dst_clocks ((clk, cell) ∷ dsts) = clk ∷ dst_clocks dsts

  unfoldable pub dst_cells : List (String × String) → List String
  dst_cells [] = []
  dst_cells ((clk, cell) ∷ dsts) = cell ∷ dst_cells dsts

  -- By the clocks and by the cells, both sorted. A port that is captured has one of each.
  abbrev pub finding_011 : String → List String → List String → List Violation → List Violation
  finding_011 port (clk ∷ []) (cell ∷ cells) rest =
      on_cell "CDC-011" "warning" (untyped_input port clk) cell ∷ rest
  finding_011 port (clk ∷ other ∷ clks) (cell ∷ cells) rest =
      on_cell "CDC-011" "error" (many_domains port (clk ∷ other ∷ clks)) cell ∷ rest
  finding_011 port _ _ rest = rest

  unfoldable pub report_011 : Captures → List String → List Violation
  unfolding lookup sorted as_set dst_clocks dst_cells
  report_011 captures [] = []
  report_011 captures (port ∷ ports) =
      let dsts = get_or (lookup port captures) [] in
      finding_011 port (sorted precedes (as_set (dst_clocks dsts)))
        (sorted precedes (dst_cells dsts)) (report_011 captures ports)

  unfoldable pub with_srst : {Float : Type 0} → Option (ClockSpec Float) → Captures → Captures
  unfolding srst_captures untyped_ports
  with_srst none out = out
  with_srst (some spec) out = srst_captures (untyped_ports spec.port_clock) ctx.flops out

  unfoldable pub check_cdc_011 :
      {Float : Type 0} → Option (ClockSpec Float) → List Crossing → List Violation
  unfolding report_011 with_srst port_captures sorted keys
  check_cdc_011 spec crossings =
      let captures = with_srst spec (port_captures crossings []) in
      report_011 captures (sorted precedes (keys captures))

  -- `undeclared[domain].append(name)`
  unfoldable pub undeclared_flops :
      List String → List Flop → Dict String (List String) → Dict String (List String)
  unfolding domain_of lookup input_port_name contains insert
  undeclared_flops declared [] out = out
  undeclared_flops declared (f ∷ fs) out = elim (domain_of ctx.domains (flop_name f)) [
    | none ↦ undeclared_flops declared fs out
    | some domain ↦ elim (input_port_name (lookup domain ctx.circuit.ports)) [
      | none ↦ undeclared_flops declared fs out
      | some port ↦ undeclared_flops declared fs (
          if contains declared domain
          then out
          else insert domain (get_or (lookup domain out) [] ++ flop_name f ∷ []) out)
    ]
  ]

  abbrev pub finding_021 : String → List String → List Violation → List Violation
  finding_021 port [] rest = rest
  finding_021 port (f ∷ fs) rest =
      on_cell "CDC-021" "error" (undeclared_clock port (f ∷ fs)) f ∷ rest

  unfoldable pub report_021 : Dict String (List String) → List String → List Violation
  unfolding lookup sorted as_set
  report_021 undeclared [] = []
  report_021 undeclared (port ∷ ports) =
      finding_021 port (sorted precedes (as_set (get_or (lookup port undeclared) [])))
        (report_021 undeclared ports)

  unfoldable pub check_cdc_021 : {Float : Type 0} → Option (ClockSpec Float) → List Violation
  unfolding report_021 undeclared_flops clock_ports_of values sorted keys
  check_cdc_021 none = []
  check_cdc_021 (some spec) =
      let undeclared = undeclared_flops (clock_ports_of (values spec.clocks)) ctx.flops [] in
      report_021 undeclared (sorted precedes (keys undeclared))
