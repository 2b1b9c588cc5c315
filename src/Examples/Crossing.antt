-- ===== src/Examples/Crossing.antt =====
-- A netlist with two crossings for `find_crossings` (src/rtl_buddy_cdc/domain.py): an input port into
-- a flop, and that flop through a buffer into one on another clock.
use mathlib.Core.Path.{subst}
use rtl_buddy_cdc.Base.{
  ℕ, suc, ◌≤◌, String, true, false, none, some, List, [], ◌∷◌, ◌≡◌, inl, inr, refl, Within, lookup,
  string_eq, contains, any, sym, insert, values,
}
use rtl_buddy_cdc.Netlist.{Bit, net, Cell, Module, Port}
use rtl_buddy_cdc.Netlist.Flops.{Flop}
use rtl_buddy_cdc.Domain.{Crossing}
use rtl_buddy_cdc.Netlist.{is_net, bit_beq, bit_eq, port_of_bit}
use rtl_buddy_cdc.Netlist.Flops.{pin, find_flops}
use rtl_buddy_cdc.Netlist.Drivers.{bit_drivers, driver}
use rtl_buddy_cdc.Domain.Trace.{trace_clock_root}
use rtl_buddy_cdc.Domain.Assign.{assign_domains, build_bit_to_clock}
use rtl_buddy_cdc.Crossings.Fanout.{lane_fanout, build_bit_consumers, consumers_of}
use rtl_buddy_cdc.Base.{◌↔◌}
use rtl_buddy_cdc.Crossings.Fanout.Index.{Reads, build_bit_consumers-Reads}
use rtl_buddy_cdc.Crossings.Walk.{walk_levels, mark, start_frontier}
use rtl_buddy_cdc.Crossings.Walk.Ends.{walk_levels-end}
use rtl_buddy_cdc.Crossings.Find.{Design, Options, find_crossings, design_of}
use rtl_buddy_cdc.Crossings.Find.Sound.{FlopWay}
use rtl_buddy_cdc.Crossings.Find.Ports.{PortWay}
use rtl_buddy_cdc.Crossings.Find.Paths.{find_crossings-FlopWay, find_crossings-PortWay}
use rtl_buddy_cdc.Crossings.Find.Complete.{find_crossings-of_port}

abbrev make_cell : String → String → List (String × List Bit) → Cell
make_cell name type connections = record {
  name = name;
  type = type;
  connections = connections;
  parameters = [];
  attributes = [];
}

abbrev cell_a : Cell
cell_a = make_cell "ff_a" "$dff" (("CLK", net 2 ∷ []) ∷ ("D", net 4 ∷ []) ∷ ("Q", net 5 ∷ []) ∷ [])

abbrev cell_buf : Cell
cell_buf = make_cell "buf" "$buf" (("A", net 5 ∷ []) ∷ ("Y", net 6 ∷ []) ∷ [])

abbrev cell_b : Cell
cell_b = make_cell "ff_b" "$dff" (("CLK", net 3 ∷ []) ∷ ("D", net 6 ∷ []) ∷ ("Q", net 7 ∷ []) ∷ [])

abbrev ff_a : Flop
ff_a = record { cell = cell_a; clk = net 2; d = net 4 ∷ []; q = net 5 ∷ [] }

abbrev ff_b : Flop
ff_b = record { cell = cell_b; clk = net 3; d = net 6 ∷ []; q = net 7 ∷ [] }

abbrev pub input_port : String → Bit → Port
input_port name bit = record { name = name; direction = "input"; bits = bit ∷ [] }

abbrev pub crossed : Module
crossed = record {
  name = "top";
  ports =
      ("clk_a", input_port "clk_a" (net 2))
      ∷ ("clk_b", input_port "clk_b" (net 3))
      ∷ ("din", input_port "din" (net 4))
      ∷ [];
  cells = ("ff_a", cell_a) ∷ ("buf", cell_buf) ∷ ("ff_b", cell_b) ∷ [];
  netnames = [];
  is_blackbox = false;
  boundary = none;
}

abbrev options : Options
options = record {
  max_hops = 4;
  port_clock = ("din", "ext") ∷ [];
  pin_clocks = [];
  clock_for_port = none;
  boundaries = [];
  max_depth = 16;
  scan_mode_flops = [];
}

abbrev found : List Crossing
found = find_crossings crossed options

abbrev a_to_b : Crossing
a_to_b = record {
  src_clock = "clk_a";
  dst_flop = ff_b;
  dst_clock = "clk_b";
  min_hops = 1;
  width = 1;
  src_flop = some ff_a;
  src_port = none;
  src_boundary = none;
  dst_boundary = none;
  scan_mode = false;
}

abbrev din_to_a : Crossing
din_to_a = record {
  src_clock = "ext";
  dst_flop = ff_a;
  dst_clock = "clk_a";
  min_hops = 0;
  width = 1;
  src_flop = none;
  src_port = some "din";
  src_boundary = none;
  dst_boundary = none;
  scan_mode = false;
}

found_crossings : find_crossings crossed options ≡ a_to_b ∷ din_to_a ∷ []
unfolding find_crossings lookup insert values contains any trace_clock_root bit_drivers port_of_bit
    bit_beq driver pin is_net find_flops assign_domains build_bit_to_clock consumers_of
found_crossings = refl

abbrev crossed_design : Design
crossed_design = design_of crossed options

find_crossings-FlopWay_example : FlopWay crossed_design ff_a "clk_a" ff_b "clk_b" 1
find_crossings-FlopWay_example =
    find_crossings-FlopWay crossed options a_to_b ff_a
      (subst (Within a_to_b) (sym found_crossings) (inl refl)) refl

find_crossings-PortWay_example :
    PortWay crossed_design (("din", "ext") ∷ []) "din" "ext" ff_a "clk_a" 0
find_crossings-PortWay_example =
    find_crossings-PortWay crossed options din_to_a "din"
      (subst (Within din_to_a) (sym found_crossings) (inr (inl refl))) refl

din_way : PortWay crossed_design (("din", "ext") ∷ []) "din" "ext" ff_a "clk_a" 0
din_way =
    find_crossings-PortWay crossed options din_to_a "din"
      (subst (Within din_to_a) (sym found_crossings) (inr (inl refl))) refl

find_crossings-of_port_example :
    (c : Crossing) × Within c (find_crossings crossed options)
    × (c.src_port ≡ some "din")
    × (c.dst_flop ≡ ff_a)
    × (c.min_hops ≤ 0)
find_crossings-of_port_example =
    find_crossings-of_port crossed options "din" "ext" ff_a "clk_a" 0 din_way

abbrev count_landing : Bit → ℕ → ℕ → ℕ
count_landing b h n = suc n

walk_levels-end_example :
    (walk_levels 4
      (lane_fanout crossed (build_bit_consumers crossed))
      (λ b h. true)
      count_landing
      5
      (start_frontier (net 5 ∷ []))
      (mark (start_frontier (net 5 ∷ [])) [])
      0).0
    ≡ []
walk_levels-end_example =
    walk_levels-end 4 (lane_fanout crossed (build_bit_consumers crossed)) (λ b h. true)
      count_landing (net 5 ∷ []) 0

build_bit_consumers-Reads_example :
    Within ("buf", "A", 0) (consumers_of (build_bit_consumers crossed) (net 5))
    ↔ Reads (values crossed.cells) (net 5) ("buf", "A", 0)
build_bit_consumers-Reads_example = build_bit_consumers-Reads crossed (net 5) ("buf", "A", 0)
