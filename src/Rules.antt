-- ===== src/Rules.antt =====
-- The rule pack of src/rtl_buddy_cdc/rules.py: what a finding is, and the views of a netlist that the
-- rules share. A rule that is called without a context builds one: here it is always given one.
pub mod Tags
pub mod Index
pub mod ResetMux
pub mod Packed
pub mod Context
pub mod Chain
pub mod Fanin
pub mod Bus
pub mod Single
pub mod Edges
pub mod Buses
pub mod Recovery
pub mod Groups
pub mod Sliced
pub mod Ports
pub mod Rates
pub mod Sources
pub mod Reported
pub mod Verdict
pub mod Related
use rtl_buddy_cdc.Base.{ℕ, String, Option, none, some, List, [], ◌∷◌, Dict}
use rtl_buddy_cdc.Netlist.{Bit, Module}
use rtl_buddy_cdc.Netlist.Flops.{Flop}
use rtl_buddy_cdc.Domain.{Crossing}

-- The text of a finding, as the values that the source writes into it. A list of names that the
-- source shortens in the text is whole here.
pub data Message : Type 0 where
  unsynchronized : (src_clock dst_clock src_desc dst_flop : String) (depth : ℕ) → Message
  insufficient_depth :
      (src_clock dst_clock : String) (depth required_depth : ℕ) (dst_flop : String) → Message
  logic_before_synchronizer :
      (src_clock dst_clock : String) (min_hops : ℕ) (src_name dst_flop : String) → Message
  unprotected_bus :
      (src_clock dst_clock : String) (width : ℕ) (src_name dst_flop : String) → Message
  reconvergent :
      (src_name : String) (chains : ℕ) (dst_clock : String) (dst_names : List String)
      (inside : Option (String × List String))
      → Message
  logic_between_stages : (src_clock dst_clock head next : String) → Message
  opposite_edge :
      (src_clock dst_clock first : String) (first_edge : ℕ) (second : String) (second_edge : ℕ)
      → Message
  cascaded : (depth : ℕ) (dst_clock head src_name : String) → Message
  glitchy_source : (flop clock : String) (ports : List (String × Option String)) → Message
  foreign_reset : (dst_clock head : String) (sources : List (String × String)) → Message
  transparent_latch : (src_clock dst_clock latch dst_flop src_flop : String) → Message
  shared_decoder : (driver : String) (lanes : List String) (dst_clock : String) → Message
  sliced_bus : (src_name : String) (width : ℕ) (lanes : List String) (dst_clock : String) → Message
  undeclared_clock : (port : String) (flops : List String) → Message
  many_domains : (port : String) (dst_clocks : List String) → Message
  untyped_input : (port dst_clock : String) → Message
  short_pulse : (src_flop dst_flop src_clock dst_clock : String) → Message
  event_loss : (src_flop dst_flop src_clock dst_clock : String) → Message
  data_hold : (src_flop dst_flop : String) (width : ℕ) (src_clock dst_clock : String) → Message
  handshake_related :
      (message : Message) (src_clock dst_clock src_name dst_name ack_clock : String) → Message

-- An absent `instance_path` is the empty one.
pub record Violation : Type 0 where
  pub rule_id : String
  pub severity : String
  pub message : Message
  pub crossing : Option Crossing
  pub cell_name : Option String
  pub instance_path : List String

abbrev pub Drives : Type 0
Drives = Dict Bit (String × String × ℕ)

-- `_RuleContext`, less the clock specification, which the rules that read it take themselves, and
-- less the reset side and the module names of the boundary cells, which the rules on resets and on
-- the clock network read. A set is the list of its members.
pub record RuleContext : Type 0 where
  pub circuit : Module
  pub flops : List Flop
  pub flops_by_d : Dict (List Bit) (List Flop)
  pub domains : Dict String (Option String)
  pub bit_drivers : Drives
  pub bit_consumers : Dict Bit (List (String × String × ℕ))
  pub reader_counts : Dict Bit ℕ
  pub user_syncs : List String
  pub user_grays : List String
  pub user_statics : List String
  pub user_handshakes : List String
  pub user_glitchless_mux_bits : List Bit
  pub d_bit_to_single_bit_flop : Dict Bit Flop
  pub srst_mux_data_bit_to_single_bit_flop : Dict Bit Flop
  pub boundary_sync_depth : Dict String ℕ
  pub boundary_reconvergence : Dict String (List (List String))
  pub max_depth : ℕ

-- What the loop of a rule over the crossings appends: at most one finding for each.
unfoldable pub collect : (Crossing → Option Violation) → List Crossing → List Violation
collect rule [] = []
collect rule (c ∷ cs) = elim (rule c) [ none ↦ collect rule cs | some v ↦ v ∷ collect rule cs ]

-- A finding on a crossing.
abbrev pub on_crossing : String → String → Message → Crossing → String → Violation
on_crossing rule_id severity message c cell_name = record {
  rule_id = rule_id;
  severity = severity;
  message = message;
  crossing = some c;
  cell_name = some cell_name;
  instance_path = [];
}

-- A finding on a cell.
abbrev pub on_cell : String → String → Message → String → Violation
on_cell rule_id severity message cell_name = record {
  rule_id = rule_id;
  severity = severity;
  message = message;
  crossing = none;
  cell_name = some cell_name;
  instance_path = [];
}
