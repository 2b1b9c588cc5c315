-- ===== src/Examples/Keeping.antt =====
-- Runs of src/rtl_buddy_cdc/rules.py in which a rule decides by less than it should: a verdict that
-- `check_cdc_012` keeps for another destination clock, and a falling edge that `_clk_polarity` does not see.
use rtl_buddy_cdc.Base.{String, false, none, some, List, [], ◌∷◌, ◌≡◌, refl, length}
use rtl_buddy_cdc.Netlist.{Bit, net, Module, Port, bit_beq, port_of_bit}
use rtl_buddy_cdc.Netlist.Flops.{Flop}
use rtl_buddy_cdc.Sdc.Tokenizer.{join}
use rtl_buddy_cdc.Domain.{Crossing}
use rtl_buddy_cdc.Domain.Trace.{trace_clock_root}
use rtl_buddy_cdc.Domain.Assign.{build_bit_to_clock}
use rtl_buddy_cdc.Rules.{RuleContext, collect}
use rtl_buddy_cdc.Rules.Context.{build_context}
use rtl_buddy_cdc.Rules.Edges.{clk_polarity}
use rtl_buddy_cdc.Rules.Buses.{
  checked_source, cached_feedback, check_012, has_dst_to_src_feedback, check_cdc_012,
}
use rtl_buddy_cdc.Rules.Buses.Cached.{uncached_012}

-- A flop with an enable.
abbrev gated : String → Bit → List Bit → Bit → List Bit → Flop
gated name clk d en q = record {
  cell = record {
    name = name;
    type = "$dffe";
    connections = ("CLK", clk ∷ []) ∷ ("D", d) ∷ ("EN", en ∷ []) ∷ ("Q", q) ∷ [];
    parameters = [];
    attributes = [];
  };
  clk = clk;
  d = d;
  q = q;
}

-- The sender waits for the flop `ack` of one destination. Each destination captures under an enable
-- of its own domain.
abbrev sender : Flop
sender = gated "sender" (net 2) (net 10 ∷ net 11 ∷ []) (net 20) (net 12 ∷ net 13 ∷ [])

abbrev ack : Flop
ack = gated "ack" (net 3) (net 21 ∷ []) (net 20) (net 20 ∷ [])

abbrev go : Flop
go = gated "go" (net 4) (net 22 ∷ []) (net 23) (net 23 ∷ [])

abbrev answering : Flop
answering = gated "answering" (net 3) (net 12 ∷ net 13 ∷ []) (net 20) (net 14 ∷ net 15 ∷ [])

abbrev silent : Flop
silent = gated "silent" (net 4) (net 12 ∷ net 13 ∷ []) (net 23) (net 16 ∷ net 17 ∷ [])

abbrev clock_port : String → Bit → Port
clock_port name bit = record { name = name; direction = "input"; bits = bit ∷ [] }

abbrev two_captures : Module
two_captures = record {
  name = "top";
  ports =
      ("clk_a", clock_port "clk_a" (net 2))
      ∷ ("clk_b", clock_port "clk_b" (net 3))
      ∷ ("clk_c", clock_port "clk_c" (net 4))
      ∷ [];
  cells =
      ("sender", sender.cell)
      ∷ ("ack", ack.cell)
      ∷ ("go", go.cell)
      ∷ ("answering", answering.cell)
      ∷ ("silent", silent.cell)
      ∷ [];
  netnames = [];
  is_blackbox = false;
  boundary = none;
}

abbrev captures_context : RuleContext
captures_context =
    build_context (λ name. name) (record { sync_depth = []; reconvergence = []; user_syncs = [] })
      none 16 two_captures

abbrev sent_to : Flop → String → Crossing
sent_to dst dst_clock = record {
  src_clock = "clk_a";
  dst_flop = dst;
  dst_clock = dst_clock;
  min_hops = 0;
  width = 2;
  src_flop = some sender;
  src_port = none;
  src_boundary = none;
  dst_boundary = none;
  scan_mode = false;
}

abbrev to_answering : Crossing
to_answering = sent_to answering "clk_b"

abbrev to_silent : Crossing
to_silent = sent_to silent "clk_c"

-- Of the two crossings only the second has no way back.
one_unheld : length (collect (uncached_012 captures_context) (to_answering ∷ to_silent ∷ [])) ≡ 1
unfolding collect uncached_012 checked_source has_dst_to_src_feedback build_context bit_beq
    trace_clock_root build_bit_to_clock port_of_bit
one_unheld = refl

none_reported : check_cdc_012 captures_context (to_answering ∷ to_silent ∷ []) ≡ []
unfolding check_cdc_012 check_012 cached_feedback has_dst_to_src_feedback build_context bit_beq
    trace_clock_root build_bit_to_clock port_of_bit
none_reported = refl

both_reported : length (check_cdc_012 captures_context (to_silent ∷ to_answering ∷ [])) ≡ 2
unfolding check_cdc_012 check_012 cached_feedback has_dst_to_src_feedback build_context bit_beq
    trace_clock_root build_bit_to_clock port_of_bit
both_reported = refl

abbrev of_type : String → Flop
of_type type = record {
  cell = record { name = "ff"; type = type; connections = []; parameters = []; attributes = [] };
  clk = net 2;
  d = [];
  q = [];
}

-- The edge is read from a segment that is one letter, and missed in one of two.
falling_edge : clk_polarity (of_type "$_DFF_N_") ≡ 0
unfolding clk_polarity join
falling_edge = refl

missed_falling_edge : clk_polarity (of_type "$_DFFE_NP_") ≡ 1
unfolding clk_polarity join
missed_falling_edge = refl
