-- ===== src/Examples/Ruling.antt =====
-- A netlist for the rules of src/rtl_buddy_cdc/rules.py: one flop on one clock feeds two synchronizers on
-- another, one of two flops and one that is a packed register, and a bus is captured under an enable
-- there.
use mathlib.Core.Option.{get_or}
use rtl_buddy_cdc.Base.{
  ◌∙◌, ℕ, ◌≤◌, String, false, none, some, List, [], ◌∷◌, ◌++◌, ◌≡◌, ◌⊎◌, ◌↔◌, inl, inr, refl, sym,
  arith, ap, Within, string_eq, values, length,
}
use rtl_buddy_cdc.Netlist.{Bit, net, Cell, Module, bit_beq, bit_eq, port_of_bit}
use rtl_buddy_cdc.Netlist.Flops.{Flop}
use rtl_buddy_cdc.Domain.{Crossing}
use rtl_buddy_cdc.Domain.Trace.{trace_clock_root}
use rtl_buddy_cdc.Domain.Assign.{assign_domains, build_bit_to_clock}
use rtl_buddy_cdc.Rules.{RuleContext, collect}
use rtl_buddy_cdc.Rules.Index.{readers_of, lane_drivers, bit_reader_count}
use rtl_buddy_cdc.Rules.Index.Readers.{reading_pins, bit_reader_count-reading_pins}
use rtl_buddy_cdc.Rules.Chain.{
  packed_head, effective_sync_chain_depth, sync_chain_depth, sync_chain_flops,
}
use rtl_buddy_cdc.Rules.Chain.Stages.{sync_chain_depth-length}
use rtl_buddy_cdc.Rules.Chain.Wired.{Wired, sync_chain_flops-Wired}
use rtl_buddy_cdc.Rules.Packed.{packed_shift_register_depth}
use rtl_buddy_cdc.Rules.Packed.Bounds.{Shifted, packed_shift_register_depth-Shifted}
use rtl_buddy_cdc.Rules.Single.{exempt_from_001, check_cdc_001}
use rtl_buddy_cdc.Rules.Buses.{has_dst_to_src_feedback, check_cdc_004, check_cdc_012}
use rtl_buddy_cdc.Rules.Buses.Cached.{Agree, uncached_012, check_cdc_012-collect}
use rtl_buddy_cdc.Rules.Reported.{Reported}
use rtl_buddy_cdc.Rules.Verdict.{two_ff, mux, crossing_synchronizer}
use rtl_buddy_cdc.Rules.Verdict.Silent.{Deferred, crossing_synchronizer-Reported}
use rtl_buddy_cdc.Rules.Verdict.Renamed.{check_cdc_001-Unclocked}
use rtl_buddy_cdc.Rules.Context.{BoundaryFacts, build_context}

abbrev flop_cell : String → Bit → List Bit → List Bit → Cell
flop_cell name clk d q = record {
  name = name;
  type = "$dff";
  connections = ("CLK", clk ∷ []) ∷ ("D", d) ∷ ("Q", q) ∷ [];
  parameters = [];
  attributes = [];
}

abbrev flop : String → Bit → List Bit → List Bit → Flop
flop name clk d q = record { cell = flop_cell name clk d q; clk = clk; d = d; q = q }

abbrev source : Flop
source = flop "source" (net 2) (net 4 ∷ []) (net 5 ∷ [])

abbrev first : Flop
first = flop "first" (net 3) (net 5 ∷ []) (net 6 ∷ [])

abbrev second : Flop
second = flop "second" (net 3) (net 6 ∷ []) (net 7 ∷ [])

abbrev packed : Flop
packed = flop "packed" (net 3) (net 5 ∷ net 8 ∷ []) (net 8 ∷ net 9 ∷ [])

abbrev bus_source : Flop
bus_source = flop "bus_source" (net 2) (net 10 ∷ net 11 ∷ []) (net 12 ∷ net 13 ∷ [])

abbrev capture_cell : Cell
capture_cell = record {
  name = "capture";
  type = "$dffe";
  connections =
      ("CLK", net 3 ∷ [])
      ∷ ("D", net 12 ∷ net 13 ∷ [])
      ∷ ("EN", net 7 ∷ [])
      ∷ ("Q", net 14 ∷ net 15 ∷ [])
      ∷ [];
  parameters = [];
  attributes = [];
}

abbrev capture : Flop
capture = record {
  cell = capture_cell;
  clk = net 3;
  d = net 12 ∷ net 13 ∷ [];
  q = net 14 ∷ net 15 ∷ [];
}

abbrev ruled : Module
ruled = record {
  name = "top";
  ports =
      ("clk_a", record { name = "clk_a"; direction = "input"; bits = net 2 ∷ [] })
      ∷ ("clk_b", record { name = "clk_b"; direction = "input"; bits = net 3 ∷ [] })
      ∷ [];
  cells =
      ("source", source.cell)
      ∷ ("first", first.cell)
      ∷ ("second", second.cell)
      ∷ ("packed", packed.cell)
      ∷ ("bus_source", bus_source.cell)
      ∷ ("capture", capture_cell)
      ∷ [];
  netnames = [];
  is_blackbox = false;
  boundary = none;
}

abbrev no_facts : BoundaryFacts
no_facts = record { sync_depth = []; reconvergence = []; user_syncs = [] }

-- No attribute is looked up, so the names need not be lowered.
abbrev ruled_context : RuleContext
ruled_context = build_context (λ name. name) no_facts none 16 ruled

abbrev from_source : Flop → String → ℕ → Crossing
from_source dst dst_clock width = record {
  src_clock = "clk_a";
  dst_flop = dst;
  dst_clock = dst_clock;
  min_hops = 0;
  width = width;
  src_flop = some source;
  src_port = none;
  src_boundary = none;
  dst_boundary = none;
  scan_mode = false;
}

-- The SDC calls the clock of the port `clk_b` another name.
abbrev renamed : Crossing
renamed = from_source first "core_clk" 1

abbrev bus : Crossing
bus = record {
  src_clock = "clk_a";
  dst_flop = capture;
  dst_clock = "clk_b";
  min_hops = 0;
  width = 2;
  src_flop = some bus_source;
  src_port = none;
  src_boundary = none;
  dst_boundary = none;
  scan_mode = false;
}

recognised : crossing_synchronizer ruled_context (from_source first "clk_b" 1) ≡ some two_ff
unfolding crossing_synchronizer build_context effective_sync_chain_depth bit_beq trace_clock_root
    build_bit_to_clock port_of_bit
recognised = refl

gated_bus : crossing_synchronizer ruled_context bus ≡ some mux
unfolding crossing_synchronizer build_context bit_beq trace_clock_root build_bit_to_clock
    port_of_bit
gated_bus = refl

packed_depth :
    packed_shift_register_depth packed (bit_reader_count ruled) ruled (lane_drivers ruled) ≡ some 2
unfolding packed_shift_register_depth bit_beq bit_reader_count lane_drivers values
packed_depth = refl

crossing_synchronizer-Reported_example : (crossing_synchronizer ruled_context renamed ≡ none) ↔ (
    Reported renamed
      (check_cdc_001 ruled_context (renamed ∷ []) ++ check_cdc_004 ruled_context (renamed ∷ []))
    ⊎ Deferred ruled_context (renamed ∷ []) renamed)
crossing_synchronizer-Reported_example =
    crossing_synchronizer-Reported ruled_context (renamed ∷ []) renamed (inl refl) (λ same. cc)
      (omega arith)

check_cdc_001-Unclocked_example :
    Reported renamed (check_cdc_001 ruled_context (renamed ∷ []))
    ⊎ Deferred ruled_context (renamed ∷ []) renamed
unfolding exempt_from_001 build_context assign_domains packed_head bit_beq trace_clock_root
    build_bit_to_clock port_of_bit
check_cdc_001-Unclocked_example =
    check_cdc_001-Unclocked (λ name. name) no_facts 16 ruled (renamed ∷ []) renamed (inl refl) refl
      (λ e. cc, (λ e. cc, (λ e. cc, (λ e. cc, (λ e. cc, (λ e. cc, tt)))))) refl refl

sync_chain_depth-length_example :
    sync_chain_depth ruled_context first "clk_b"
    ≡ get_or
        (packed_head ruled_context first)
        (length (sync_chain_flops ruled_context first "clk_b"))
sync_chain_depth-length_example = sync_chain_depth-length ruled_context "clk_b" first

sync_chain_flops-Wired_example :
    (later : List Flop) × (sync_chain_flops ruled_context first "clk_b" ≡ first ∷ later)
    × Wired (λ name. name) no_facts none 16 ruled "clk_b" ("first" ∷ []) first later
sync_chain_flops-Wired_example =
    sync_chain_flops-Wired (λ name. name) no_facts none 16 ruled "clk_b" first

bit_reader_count-reading_pins_example :
    readers_of (bit_reader_count ruled) (net 5) ≡ length (reading_pins ruled (net 5))
bit_reader_count-reading_pins_example = bit_reader_count-reading_pins ruled (net 5)

packed_shift_register_depth-Shifted_example :
    (2 ≤ 2)
    × (2 ≤ length packed.q)
    × Shifted packed (bit_reader_count ruled) ruled (lane_drivers ruled) 2
packed_shift_register_depth-Shifted_example =
    packed_shift_register_depth-Shifted packed (bit_reader_count ruled) ruled (lane_drivers ruled) 2
      packed_depth

one_bus : (c d : Crossing) → Within c (bus ∷ []) → Within d (bus ∷ []) → Agree ruled_context c d
unfolding Agree
one_bus c d (inl is_bus) (inl is_too) src tgt from_c from_d same =
    ap (has_dst_to_src_feedback ruled_context) (is_bus ∙ sym is_too)
one_bus c d (inr none_left) w src tgt from_c from_d same = absurd none_left
one_bus c d (inl is_bus) (inr none_left) src tgt from_c from_d same = absurd none_left

check_cdc_012-collect_example :
    check_cdc_012 ruled_context (bus ∷ []) ≡ collect (uncached_012 ruled_context) (bus ∷ [])
check_cdc_012-collect_example = check_cdc_012-collect ruled_context (bus ∷ []) one_bus
