-- ===== src/Rules/Index.antt =====
-- The indices of a netlist that src/rtl_buddy_cdc/rules.py builds once for all rules: `_bit_drivers`,
-- `_bit_reader_count`, `_index_flops_by_d` and the loops of `_build_context`.
pub mod Readers
use mathlib.Core.Option.{get_or}
use rtl_buddy_cdc.Base.{
  ℕ, suc, String, ◌||◌, List, [], ◌∷◌, ◌++◌, ◌==◌, string_eq, list_eq, if◌then◌else◌, Dict, lookup,
  insert, values,
}
use rtl_buddy_cdc.Netlist.{Bit, bit_eq, net, is_net, Cell, Module}
use rtl_buddy_cdc.Netlist.Flops.{Flop, pin}
use rtl_buddy_cdc.Crossings.Fanout.{Consumers, consume_bits}
use rtl_buddy_cdc.Rules.{Drives}

-- The loop over the bits of one output port.
unfoldable pub drive_lanes : String → String → ℕ → List Bit → Drives → Drives
unfolding is_net
drive_lanes cell port idx [] out = out
drive_lanes cell port idx (b ∷ bs) out =
    drive_lanes cell port (suc idx) bs (if is_net b then insert b (cell, port, idx) out else out)

unfoldable pub drive_outputs : List Cell → Drives → Drives
unfolding drive_lanes pin
drive_outputs [] out = out
drive_outputs (c ∷ cs) out =
    drive_outputs cs
      (drive_lanes c.name "Q" 0 (pin c "Q") (drive_lanes c.name "Y" 0 (pin c "Y") out))

unfoldable pub lane_drivers : Module → Drives
unfolding drive_outputs
lane_drivers m = drive_outputs (values m.cells) []

abbrev pub Readers : Type 0
Readers = Dict Bit ℕ

-- `counts.get(b, 0)`
unfoldable pub readers_of : Readers → Bit → ℕ
readers_of counts b = get_or (lookup b counts) 0

unfoldable pub count_bits : List Bit → Readers → Readers
unfolding readers_of is_net
count_bits [] counts = counts
count_bits (b ∷ bs) counts =
    count_bits bs (if is_net b then insert b (suc (readers_of counts b)) counts else counts)

unfoldable pub count_ports : Dict String (List Bit) → Readers → Readers
unfolding count_bits
count_ports [] counts = counts
count_ports ((port, bits) ∷ ports) counts =
    count_ports ports
      (if port == "Y" || port == "Q" || port == "CLK" then counts else count_bits bits counts)

unfoldable pub count_cells : List Cell → Readers → Readers
unfolding count_ports
count_cells [] counts = counts
count_cells (c ∷ cs) counts = count_cells cs (count_ports c.connections counts)

unfoldable pub bit_reader_count : Module → Readers
unfolding count_cells
bit_reader_count m = count_cells (values m.cells) []

-- The sites that read a bit, but for the outputs and the clock pins.
unfoldable pub read_ports : String → Dict String (List Bit) → Consumers → Consumers
unfolding consume_bits
read_ports cell [] out = out
read_ports cell ((port, bits) ∷ ports) out =
    read_ports cell ports (
      if port == "Y" || port == "Q" || port == "CLK"
      then out
      else consume_bits cell port 0 bits out)

unfoldable pub read_cells : List Cell → Consumers → Consumers
unfolding read_ports
read_cells [] out = out
read_cells (c ∷ cs) out = read_cells cs (read_ports c.name c.connections out)

unfoldable pub data_consumers : Module → Consumers
unfolding read_cells
data_consumers m = read_cells (values m.cells) []

unfoldable pub index_flop_by_d : Flop → Dict (List Bit) (List Flop) → Dict (List Bit) (List Flop)
index_flop_by_d f by_d = insert f.d (get_or (lookup f.d by_d) [] ++ f ∷ []) by_d

unfoldable pub index_by_d : List Flop → Dict (List Bit) (List Flop) → Dict (List Bit) (List Flop)
unfolding index_flop_by_d
index_by_d [] by_d = by_d
index_by_d (f ∷ fs) by_d = index_by_d fs (index_flop_by_d f by_d)

unfoldable pub index_flops_by_d : List Flop → Dict (List Bit) (List Flop)
unfolding index_by_d
index_flops_by_d fs = index_by_d fs []

unfoldable pub index_single_bit : List Bit → Flop → Dict Bit Flop → Dict Bit Flop
index_single_bit (net n ∷ []) f out = insert (net n) f out
index_single_bit _ f out = out

-- The flops by their data pin of one bit.
unfoldable pub single_bit_flops : List Flop → Dict Bit Flop → Dict Bit Flop
unfolding index_single_bit
single_bit_flops [] out = out
single_bit_flops (f ∷ fs) out = single_bit_flops fs (index_single_bit f.d f out)
