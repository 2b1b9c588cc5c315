-- ===== src/Netlist/Drivers.antt =====
-- `_bit_drivers` of src/rtl_buddy_cdc/domain.py: which cell drives a net.
pub mod Pins
use rtl_buddy_cdc.Base.{
  String, Option, none, some, List, [], ◌∷◌, string_eq, if◌then◌else◌, Dict, lookup, insert, values,
}
use rtl_buddy_cdc.Netlist.{Bit, bit_eq, is_net, Cell, Module}
use rtl_buddy_cdc.Netlist.Flops.{pin}

abbrev pub Drivers : Type 0
Drivers = Dict Bit (String × String)

-- The loop over the bits of one port.
unfoldable pub drive_bits : String → String → List Bit → Drivers → Drivers
drive_bits cell port [] out = out
drive_bits cell port (b ∷ bs) out =
    drive_bits cell port bs (if is_net b then insert b (cell, port) out else out)

unfoldable pub drive_cells : List Cell → Drivers → Drivers
unfolding drive_bits is_net
drive_cells [] out = out
drive_cells (c ∷ cs) out =
    drive_cells cs (drive_bits c.name "Q" (pin c "Q") (drive_bits c.name "Y" (pin c "Y") out))

unfoldable pub bit_drivers : Module → Drivers
unfolding drive_cells
bit_drivers m = drive_cells (values m.cells) []

-- `module.cells[drivers.get(bit)]`, with the port. A name that is no key is a `KeyError` in the
-- source, and `none` here: `bit_drivers` names only cells of the module, each by its `name`.
unfoldable pub driver : Module → Drivers → Bit → Option (Cell × String)
driver m drivers bit = elim (lookup bit drivers) [
  | none ↦ none
  | some (cell_name, port) ↦ elim (lookup cell_name m.cells) [
    | none ↦ none
    | some cell ↦ some (cell, port)
  ]
]
