-- ===== src/Examples/Tracing.antt =====
-- A concrete netlist for src/rtl_buddy_cdc/domain.py: a gated clock behind a buffer.
use rtl_buddy_cdc.Base.{
  String, true, false, none, some, List, [], ◌∷◌, ◌≡◌, ◌⊎◌, refl, lookup, contains, insert, values,
  string_eq, ◌==◌, if◌then◌else◌,
}
use rtl_buddy_cdc.Netlist.{Cell, net, bit_eq, Module, is_net, port_of_bit, bit_beq}
use rtl_buddy_cdc.Netlist.Drivers.{bit_drivers, driver}
use rtl_buddy_cdc.Netlist.Flops.{pin}
use rtl_buddy_cdc.Domain.Combine.{Identity, pick_combining_root}
use rtl_buddy_cdc.Domain.Combine.Choice.{In, pick_combining_root-agrees}
use rtl_buddy_cdc.Domain.Combine.Decline.{Conflict, pick_combining_root-none}
use rtl_buddy_cdc.Domain.Trace.{Context, trace_clock_root}
use rtl_buddy_cdc.Netlist.Flops.{Flop, find_flops}
use rtl_buddy_cdc.Sdc.Spec.{clock_for_port, owner_of_port, separates, in_different}
use rtl_buddy_cdc.Domain.{Crossing}
use rtl_buddy_cdc.Domain.Assign.{assign_domains}
use rtl_buddy_cdc.Domain.Assign.Clocked.{IsClocked, assign_domains-IsClocked}
use rtl_buddy_cdc.Domain.Filter.{clock_of, filter_async}
use rtl_buddy_cdc.Domain.Filter.Derived.{IsDerived, filter_async-IsDerived}
use rtl_buddy_cdc.Base.{any, find_index, All, map, Option}
use rtl_buddy_cdc.Examples.Clocks.{divided, quarter_root, half_root}
use rtl_buddy_cdc.Domain.Trace.Path.{ClockPath, trace_clock_root-ClockPath}

-- Every name but `en` is a clock of that name.
abbrev identity : Identity
identity name = if name == "en" then none else some name

abbrev roots : List String
roots = "en" ∷ "clk" ∷ "en" ∷ []

picked : pick_combining_root (some identity) roots ≡ some "clk"
unfolding pick_combining_root
picked = refl

clk_root : In "clk" roots
unfolding contains
clk_root = refl

pick_combining_root-agrees_example : In "clk" roots × (identity "clk" ≡ some "clk")
pick_combining_root-agrees_example =
    pick_combining_root-agrees identity roots "clk" "clk" "clk" picked clk_root refl

abbrev conflicting : List String
conflicting = "a" ∷ "en" ∷ "b" ∷ []

declined : pick_combining_root (some identity) conflicting ≡ none
unfolding pick_combining_root
declined = refl

pick_combining_root-none_example : (conflicting ≡ []) ⊎ Conflict identity conflicting
pick_combining_root-none_example = pick_combining_root-none identity conflicting declined

-- `clk` through a buffer and an `$and` with `en`.
abbrev gated : Module
gated = record {
  name = "top";
  ports =
      ("clk", record { name = "clk"; direction = "input"; bits = net 2 ∷ [] })
      ∷ ("en", record { name = "en"; direction = "input"; bits = net 3 ∷ [] })
      ∷ [];
  cells =
      (
        "buf",
        record {
          name = "buf";
          type = "$buf";
          connections = ("A", net 2 ∷ []) ∷ ("Y", net 4 ∷ []) ∷ [];
          parameters = [];
          attributes = [];
        },
      )
      ∷ (
        "gate",
        record {
          name = "gate";
          type = "$and";
          connections = ("A", net 4 ∷ []) ∷ ("B", net 3 ∷ []) ∷ ("Y", net 5 ∷ []) ∷ [];
          parameters = [];
          attributes = [];
        },
      )
      ∷ [];
  netnames = [];
  is_blackbox = false;
  boundary = none;
}

abbrev gated_context : Context
gated_context = record {
  circuit = gated;
  drivers = bit_drivers gated;
  bit_to_clock = [];
  allow_divider = true;
  identity = some identity;
}

traced : trace_clock_root gated_context 16 (net 5) ≡ some "clk"
unfolding trace_clock_root bit_drivers lookup port_of_bit values bit_beq driver pin insert
    pick_combining_root contains is_net
traced = refl

trace_clock_root-ClockPath_example : ClockPath gated_context (net 5) "clk"
trace_clock_root-ClockPath_example =
    trace_clock_root-ClockPath gated_context 16 (net 5) "clk" traced

-- `gated` with a flop on the gated clock, whose port the SDC calls `core`.
abbrev flop_cell : Cell
flop_cell = record {
  name = "ff";
  type = "$dff";
  connections = ("CLK", net 5 ∷ []) ∷ ("D", net 6 ∷ []) ∷ ("Q", net 7 ∷ []) ∷ [];
  parameters = [];
  attributes = [];
}

abbrev clocked : Module
clocked = record gated { cells = ("ff", flop_cell) ∷ gated.cells }

abbrev core_port : String → Option String
core_port name = if name == "clk" then some "core" else none

assign_domains-IsClocked_example :
    (map (λ fd. fd.flop) (assign_domains clocked [] (some core_port) 16) ≡ find_flops clocked)
    × All (IsClocked clocked [] (some core_port) 16) (assign_domains clocked [] (some core_port) 16)
assign_domains-IsClocked_example = assign_domains-IsClocked clocked [] (some core_port) 16

-- A flop on the one derived clock drives a flop on the other.
abbrev flop : Flop
flop = record { cell = flop_cell; clk = net 5; d = net 6 ∷ []; q = net 7 ∷ [] }

abbrev crossing : Crossing
crossing = record {
  src_clock = "quarter";
  dst_flop = flop;
  dst_clock = "half";
  min_hops = 0;
  width = 1;
  src_flop = some flop;
  src_port = none;
  src_boundary = none;
  dst_boundary = none;
  scan_mode = false;
}

crossing-IsDerived : IsDerived divided "clk" crossing
unfolding IsDerived clock_of clock_for_port owner_of_port lookup separates in_different any
    find_index contains
crossing-IsDerived = (2, 1, quarter_root, half_root, refl, refl, refl)

filter_async-IsDerived_example : filter_async divided (crossing ∷ []) ≡ []
filter_async-IsDerived_example =
    filter_async-IsDerived divided "clk" (crossing ∷ []) (crossing-IsDerived, tt)
