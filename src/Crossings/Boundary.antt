-- ===== src/Crossings/Boundary.antt =====
-- Blackbox instances in `find_crossings` (src/rtl_buddy_cdc/domain.py): their summaries, and the
-- synthetic flops for their input pins.
use rtl_buddy_cdc.Base.{
  String, Option, none, some, List, [], ◌∷◌, ◌++◌, string_eq, Dict, lookup, insert,
}
use rtl_buddy_cdc.Sdc.Tokenizer.{chars, join}
use rtl_buddy_cdc.Netlist.{Bit, constant, Cell, Module, BoundarySummary, PortBoundary}
use rtl_buddy_cdc.Netlist.Flops.{pin}
use rtl_buddy_cdc.Domain.{FlopDomain}
use rtl_buddy_cdc.Crossings.Fanout.{nets}

abbrev pub unknown_boundary_clock : String
unknown_boundary_clock = "<unconstrained>"

abbrev boundary_sink_type : String
boundary_sink_type = "$boundary_sink"

abbrev boundary_sink_clk : Bit
boundary_sink_clk = constant "<boundary-sink-clk>"

abbrev pub Boundaries : Type 0
Boundaries = Dict String BoundarySummary

-- By the instance, or else by the module's type.
unfoldable pub boundary_for : Boundaries → String → String → Option BoundarySummary
boundary_for boundaries inst module_type = elim (lookup inst boundaries) [
  | some summary ↦ some summary
  | none ↦ lookup module_type boundaries
]

-- The synthetic domains, and the instance and port of each by its name.
abbrev pub Sinks : Type 0
Sinks = List FlopDomain × Dict String (String × String)

abbrev pub sink_name : String → String → String
sink_name inst port = join (chars inst ++ chars "." ++ chars port)

abbrev pub sink_clock : BoundarySummary → PortBoundary → Option String
sink_clock summary pb = elim pb.src_clock [ some clock ↦ some clock | none ↦ summary.clock ]

unfoldable pub sink_domain :
    BoundarySummary → String → String → PortBoundary → List Bit → FlopDomain
sink_domain summary inst port pb d_bits = record {
  flop = record {
    cell = record {
      name = sink_name inst port;
      type = boundary_sink_type;
      connections = ("D", d_bits) ∷ [];
      parameters = [];
      attributes = [];
    };
    clk = boundary_sink_clk;
    d = d_bits;
    q = [];
  };
  clock = sink_clock summary pb;
}

-- A port without a net has no sink.
unfoldable pub add_sink :
    BoundarySummary → String → String → PortBoundary → List Bit → Sinks → Sinks
unfolding sink_domain
add_sink summary inst port pb [] sinks = sinks
add_sink summary inst port pb (b ∷ bs) (domains, by_name) = (
  domains ++ sink_domain summary inst port pb (b ∷ bs) ∷ [],
  insert (sink_name inst port) (inst, port) by_name,
)

unfoldable pub sink_ports :
    BoundarySummary → String → Cell → Dict String PortBoundary → Sinks → Sinks
unfolding add_sink nets pin
sink_ports summary inst cell [] sinks = sinks
sink_ports summary inst cell ((port, pb) ∷ ports) sinks =
    sink_ports summary inst cell ports (add_sink summary inst port pb (nets (pin cell port)) sinks)

sink_cell : Option BoundarySummary → String → Cell → Sinks → Sinks
unfolding sink_ports
sink_cell none inst cell sinks = sinks
sink_cell (some summary) inst cell sinks = sink_ports summary inst cell summary.input_ports sinks

unfoldable pub sink_cells : Boundaries → Dict String Cell → Sinks → Sinks
unfolding sink_cell boundary_for
sink_cells boundaries [] sinks = sinks
sink_cells boundaries ((inst, cell) ∷ cells) sinks =
    sink_cells boundaries cells (sink_cell (boundary_for boundaries inst cell.type) inst cell sinks)

unfoldable pub boundary_sink_flops : Module → Boundaries → Sinks
unfolding sink_cells
boundary_sink_flops m boundaries = sink_cells boundaries m.cells ([], [])
