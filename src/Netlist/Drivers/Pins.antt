-- ===== src/Netlist/Drivers/Pins.antt =====
-- The index `_bit_drivers` of src/rtl_buddy_cdc/domain.py against the output pins of the cells.
use rtl_buddy_cdc.Base.{
  String, ◌&&◌, Option, none, some, List, [], ◌∷◌, ◌==◌, ◌≡◌, inl, inr, refl, sym, ◌∙◌, arith,
  string_eq, if◌then◌else◌, contains, lookup, insert, lookup-insert, values, Bool-cases,
  Option-cases,
}
use rtl_buddy_cdc.Netlist.{Bit, bit_eq, is_net, Cell, Module}
use rtl_buddy_cdc.Netlist.Flops.{pin}
use rtl_buddy_cdc.Netlist.Drivers.{Drivers, drive_bits, drive_cells, bit_drivers, driver}

-- The port of the cell that drives the net: `Q`, or else `Y`.
abbrev pub output_port : Cell → Bit → Option (String × String)
output_port c b =
    if is_net b && contains (pin c "Q") b
    then some (c.name, "Q")
    else if is_net b && contains (pin c "Y") b
    then some (c.name, "Y")
    else none

-- The last cell that drives the net, with its port.
pub driving_pin : List Cell → Bit → Option (String × String)
driving_pin [] b = none
driving_pin (c ∷ cs) b = elim (driving_pin cs b) [
  | some later ↦ some later
  | none ↦ output_port c b
]

lookup-drive_bits :
    (cell port : String) (bs : List Bit) (out : Drivers) (b : Bit)
    → lookup b (drive_bits cell port bs out)
      ≡ (if is_net b && contains bs b then some (cell, port) else lookup b out)
unfolding drive_bits contains
lookup-drive_bits cell port [] out b = ground arith
lookup-drive_bits cell port (x ∷ bs) out b = elim (Bool-cases (is_net x)) [
  | inr const ↦ elim (Bool-cases (b == x)) [
    | inl same ↦
        ground
          (arith, const, same, (bit_eq.beq_iff b x).0 same, lookup-drive_bits cell port bs out b)
    | inr other ↦ ground (arith, const, other, lookup-drive_bits cell port bs out b)
  ]
  | inl free ↦ elim (Bool-cases (b == x)) [
    | inl same ↦ ground (
      arith,
      free,
      same,
      (bit_eq.beq_iff b x).0 same,
      lookup-insert x b (cell, port) out,
      lookup-drive_bits cell port bs (insert x (cell, port) out) b,
    )
    | inr other ↦ ground (
      arith,
      free,
      other,
      lookup-insert x b (cell, port) out,
      lookup-drive_bits cell port bs (insert x (cell, port) out) b,
    )
  ]
]

drive_cell : Cell → Drivers → Drivers
drive_cell c out = drive_bits c.name "Q" (pin c "Q") (drive_bits c.name "Y" (pin c "Y") out)

lookup-drive_cell :
    (c : Cell) (out : Drivers) (b : Bit)
    → lookup b (drive_cell c out)
      ≡ (elim (output_port c b) [ some p ↦ some p | none ↦ lookup b out ])
unfolding drive_cell
lookup-drive_cell c out b = elim (Bool-cases (is_net b && contains (pin c "Q") b)) [
  | inl q ↦
      rw (lookup-drive_bits c.name "Q" (pin c "Q") (drive_bits c.name "Y" (pin c "Y") out) b, q)
        refl
  | inr not_q ↦ elim (Bool-cases (is_net b && contains (pin c "Y") b)) [
    | inl y ↦
        rw
          (
            lookup-drive_bits c.name "Q" (pin c "Q") (drive_bits c.name "Y" (pin c "Y") out) b,
            not_q,
            lookup-drive_bits c.name "Y" (pin c "Y") out b,
            y,
          )
          refl
    | inr not_y ↦
        rw
          (
            lookup-drive_bits c.name "Q" (pin c "Q") (drive_bits c.name "Y" (pin c "Y") out) b,
            not_q,
            lookup-drive_bits c.name "Y" (pin c "Y") out b,
            not_y,
          )
          refl
  ]
]

lookup-drive_cells :
    (cs : List Cell) (out : Drivers) (b : Bit)
    → lookup b (drive_cells cs out)
      ≡ (elim (driving_pin cs b) [ some p ↦ some p | none ↦ lookup b out ])
unfolding drive_cells driving_pin drive_cell
lookup-drive_cells [] out b = refl
lookup-drive_cells (c ∷ cs) out b =
    lookup-drive_cells cs (drive_cell c out) b ∙ (elim (Option-cases (driving_pin cs b)) [
      | inr (p, later) ↦ rw later refl
      | inl none_later ↦ rw none_later (lookup-drive_cell c out b)
    ])

-- The index gives every bit its last driving pin.
pub bit_drivers-driving_pin :
    (m : Module) (b : Bit) → lookup b (bit_drivers m) ≡ driving_pin (values m.cells) b
unfolding bit_drivers lookup
bit_drivers-driving_pin m b =
    lookup-drive_cells (values m.cells) [] b
    ∙ (elim (Option-cases (driving_pin (values m.cells) b)) [
      | inr (p, last) ↦ rw last refl
      | inl undriven ↦ rw undriven refl
    ])

-- So a net's driver is the cell of the name that its last driving pin has.
pub driver-driving_pin :
    (m : Module) (b : Bit) (c : Cell) (port : String)
    → driver m (bit_drivers m) b ≡ some (c, port)
    → (name : String) × (driving_pin (values m.cells) b ≡ some (name, port))
      × (lookup name m.cells ≡ some c)
unfolding driver
driver-driving_pin m b c port drives =
    let at = bit_drivers-driving_pin m b in
    elim (Option-cases (lookup b (bit_drivers m))) [
      | inl undriven ↦ ground (arith, undriven, drives)
      | inr ((name, from), driven) ↦ elim (Option-cases (lookup name m.cells)) [
        | inl unknown ↦ ground (arith, driven, unknown, drives)
        | inr (d, known) ↦ (
          name,
          sym at ∙ ground (arith, driven, known, drives),
          known ∙ ground (arith, driven, known, drives),
        )
      ]
    ]

pub driver_of-driving_pin :
    (m : Module) (b : Bit) (c : Cell) (name port : String)
    → driving_pin (values m.cells) b ≡ some (name, port)
    → lookup name m.cells ≡ some c
    → driver m (bit_drivers m) b ≡ some (c, port)
unfolding driver
driver_of-driving_pin m b c name port by known =
    rw (bit_drivers-driving_pin m b ∙ by, driver, known) refl
