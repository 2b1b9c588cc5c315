-- ===== src/Crossings/Find.antt =====
-- `find_crossings` of src/rtl_buddy_cdc/domain.py: the walks from the flops, from the ports and from
-- the blackbox instances.
pub mod Indexed
pub mod Sound
pub mod Ports
pub mod Paths
pub mod Nets
pub mod Complete
use mathlib.Core.Option.{get_or}
use rtl_buddy_cdc.Base.{
  ℕ, String, Bool, true, false, not, ◌&&◌, ◌||◌, Option, none, some, List, [], ◌∷◌, ◌++◌, ◌==◌,
  string_eq, pair_eq, if◌then◌else◌, Dict, lookup, insert, values,
}
use rtl_buddy_cdc.Netlist.{Bit, Cell, Module, Port, BoundarySummary, PortBoundary}
use rtl_buddy_cdc.Netlist.Flops.{Flop, flop_name, pin}
use rtl_buddy_cdc.Domain.{FlopDomain, Crossing}
use rtl_buddy_cdc.Domain.Assign.{assign_domains}
use rtl_buddy_cdc.Crossings.Fanout.{
  Consumers, build_bit_consumers, lane_fanout, output_fanout, nets,
}
use rtl_buddy_cdc.Crossings.Walk.{walk}
use rtl_buddy_cdc.Crossings.Group.{
  Endpoint, from_flop, from_port, from_boundary, Group, FlopsByBit, index_flops, Search, land,
  crossings_of,
}
use rtl_buddy_cdc.Crossings.Boundary.{
  Boundaries, Sinks, boundary_for, boundary_sink_flops, unknown_boundary_clock,
}
use rtl_buddy_cdc.Crossings.Prune.{Distances, distances_to, useful}

-- `domains[fd.flop.cell.name] = fd`
unfoldable pub add_domains : List FlopDomain → Dict String FlopDomain → Dict String FlopDomain
add_domains [] out = out
add_domains (fd ∷ fds) out = add_domains fds (insert (flop_name fd.flop) fd out)

-- What every walk reads.
pub record Design : Type 0 where
  pub circuit : Module
  pub domains : Dict String FlopDomain
  pub consumers : Consumers
  pub by_d : FlopsByBit
  pub max_hops : ℕ

-- No pruning.
abbrev pub always : Bit → ℕ → Bool
always bit hops = true

-- A flop does not cross to itself, nor inside its domain.
abbrev pub flop_search : Design → Flop → String → Search (String × String)
flop_search d src clock = record {
  domains = d.domains;
  by_d = d.by_d;
  key = λ dst. (flop_name src, dst);
  origin = from_flop src;
  src_clock = clock;
  passes_over = λ dst dst_clock. dst == flop_name src || dst_clock == clock;
}

unfoldable pub walk_flop :
    Design → Distances → FlopDomain → Dict (String × String) Group → Dict (String × String) Group
unfolding walk land lane_fanout useful nets
walk_flop d dist fd groups = elim fd.clock [
  | none ↦ groups
  | some clock ↦
      walk d.max_hops (lane_fanout d.circuit d.consumers) (useful dist d.max_hops clock)
        (land (flop_search d fd.flop clock)) (nets fd.flop.q) groups
]

unfoldable pub walk_flops :
    Design
    → Distances
    → List FlopDomain
    → Dict (String × String) Group
    → Dict (String × String) Group
unfolding walk_flop
walk_flops d dist [] groups = groups
walk_flops d dist (fd ∷ fds) groups = walk_flops d dist fds (walk_flop d dist fd groups)

abbrev pub port_search : Design → String → String → Search (String × String)
port_search d port clock = record {
  domains = d.domains;
  by_d = d.by_d;
  key = λ dst. (port, dst);
  origin = from_port port;
  src_clock = clock;
  passes_over = λ dst dst_clock. dst_clock == clock;
}

-- Only the input ports of the module count.
unfoldable pub walk_port :
    Design
    → String
    → String
    → Option Port
    → Dict (String × String) Group
    → Dict (String × String) Group
unfolding walk land lane_fanout nets
walk_port d name clock none groups = groups
walk_port d name clock (some port) groups =
    if port.direction == "input"
    then walk d.max_hops (lane_fanout d.circuit d.consumers) always
        (land (port_search d name clock)) (nets port.bits) groups
    else groups

unfoldable pub walk_ports :
    Design → Dict String String → Dict (String × String) Group → Dict (String × String) Group
unfolding walk_port
walk_ports d [] groups = groups
walk_ports d ((name, clock) ∷ more) groups =
    walk_ports d more (walk_port d name clock (lookup name d.circuit.ports) groups)

abbrev is_src_clock : Option String → String → Bool
is_src_clock none dst_clock = false
is_src_clock (some clock) dst_clock = dst_clock == clock

abbrev pub boundary_search :
    Design → String → String → Option String → Search (String × (String × String))
boundary_search d inst port src_clock = record {
  domains = d.domains;
  by_d = d.by_d;
  key = λ dst. (inst, (port, dst));
  origin = from_boundary inst port;
  src_clock = get_or src_clock unknown_boundary_clock;
  passes_over = λ dst dst_clock. is_src_clock src_clock dst_clock;
}

abbrev pub BoundaryGroups : Type 0
BoundaryGroups = Dict (String × (String × String)) Group

unfoldable pub walk_boundary_ports :
    Design → String → Cell → Dict String PortBoundary → BoundaryGroups → BoundaryGroups
unfolding walk land output_fanout nets
walk_boundary_ports d inst cell [] groups = groups
walk_boundary_ports d inst cell ((port, pb) ∷ ports) groups =
    walk_boundary_ports d inst cell ports (
      walk d.max_hops (output_fanout d.circuit d.consumers) always
        (land (boundary_search d inst port pb.src_clock)) (nets (pin cell port)) groups)

unfoldable pub walk_boundary :
    Design → String → Cell → Option BoundarySummary → BoundaryGroups → BoundaryGroups
unfolding walk_boundary_ports
walk_boundary d inst cell none groups = groups
walk_boundary d inst cell (some summary) groups =
    walk_boundary_ports d inst cell summary.ports groups

unfoldable pub walk_boundaries :
    Design → Boundaries → Dict String Cell → BoundaryGroups → BoundaryGroups
unfolding walk_boundary boundary_for
walk_boundaries d boundaries [] groups = groups
walk_boundaries d boundaries ((inst, cell) ∷ cells) groups =
    walk_boundaries d boundaries cells
      (walk_boundary d inst cell (boundary_for boundaries inst cell.type) groups)

-- The arguments of `find_crossings`; an absent dictionary is the empty one.
pub record Options : Type 0 where
  pub max_hops : ℕ
  pub port_clock : Dict String String
  pub pin_clocks : Dict String String
  pub clock_for_port : Option (String → Option String)
  pub boundaries : Boundaries
  pub max_depth : ℕ
  pub scan_mode_flops : List String

unfoldable pub sinks_of : Module → Options → Sinks
unfolding boundary_sink_flops
sinks_of m o = boundary_sink_flops m o.boundaries

unfoldable pub design_of : Module → Options → Design
unfolding add_domains index_flops build_bit_consumers sinks_of assign_domains
design_of m o =
    let domains =
      add_domains (sinks_of m o).0
        (add_domains (assign_domains m o.pin_clocks o.clock_for_port o.max_depth) []) in
    record {
      circuit = m;
      domains = domains;
      consumers = build_bit_consumers m;
      by_d = index_flops (values domains) [];
      max_hops = o.max_hops;
    }

unfoldable pub flop_groups : Design → Dict (String × String) Group
unfolding walk_flops distances_to
flop_groups d =
    walk_flops d (distances_to d.circuit d.by_d d.domains d.max_hops) (values d.domains) []

unfoldable pub find_crossings : Module → Options → List Crossing
unfolding design_of flop_groups walk_ports walk_boundaries crossings_of sinks_of
find_crossings m o =
    let d = design_of m o in
    let emit = crossings_of (sinks_of m o).1 o.scan_mode_flops in
    emit (values (flop_groups d))
    ++ emit (values (walk_ports d o.port_clock []))
    ++ emit (values (walk_boundaries d o.boundaries m.cells []))
