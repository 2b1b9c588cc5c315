-- ===== src/Pulse.antt =====
-- `classify_d_pin_shape` of src/rtl_buddy_cdc/pulse.py: whether a flop's data pin is driven by an
-- edge detector.
pub mod Detector
pub mod Toggle
use rtl_buddy_cdc.Base.{
  ℕ, String, Bool, true, false, ◌&&◌, ◌||◌, Option, none, some, List, [], ◌∷◌, ◌==◌, string_eq,
  if◌then◌else◌, contains, Dict, lookup,
}
use rtl_buddy_cdc.Netlist.{Bit, bit_eq, is_net, Cell, Module}
use rtl_buddy_cdc.Netlist.Flops.{is_ff_cell, pin}

pub data PulseShape : Type 0 where
  pulse other : PulseShape

abbrev pub not_types : List String
not_types = "$not" ∷ "$logic_not" ∷ "$_NOT_" ∷ []

abbrev pub and_types : List String
and_types = "$and" ∷ "$logic_and" ∷ "$_AND_" ∷ []

unfoldable pub only_bit : List Bit → Option Bit
only_bit (b ∷ []) = some b
only_bit _ = none

-- `flop_domains.get(cell_name) == src_clock`
unfoldable pub is_in_domain : Option (Option String) → String → Bool
is_in_domain (some (some clock)) src_clock = clock == src_clock
is_in_domain _ src_clock = false

-- What the classifier never changes.
pub record PulseContext : Type 0 where
  pub src_clock : String
  pub circuit : Module
  pub pulse_drivers : Dict Bit (String × String × ℕ)
  pub flop_domains : Dict String (Option String)

module _ (ctx : PulseContext) where
  cell_of : Option (String × String × ℕ) → Option (String × String × Cell)
  cell_of none = none
  cell_of (some (name, port, index)) = elim (lookup name ctx.circuit.cells) [
    | none ↦ none
    | some cell ↦ some (name, port, cell)
  ]

  -- The cell that drives a bit, behind its name and its output port.
  unfoldable pub driving : Bit → Option (String × String × Cell)
  unfolding cell_of
  driving bit = cell_of (lookup bit ctx.pulse_drivers)

  unfoldable pub flop_d : Option (String × String × Cell) → Option Bit
  unfolding only_bit is_in_domain
  flop_d none = none
  flop_d (some (name, port, cell)) =
      if port == "Q"
        && is_ff_cell cell.type
        && is_in_domain (lookup name ctx.flop_domains) ctx.src_clock
      then only_bit (pin cell "D")
      else none

  unfoldable pub src_flop_d_pin : Bit → Option Bit
  unfolding flop_d driving
  src_flop_d_pin q_bit = flop_d (driving q_bit)

  unfoldable pub inverter_input : Option (String × String × Cell) → Option Bit
  unfolding only_bit
  inverter_input none = none
  inverter_input (some (name, port, cell)) =
      if contains not_types cell.type && port == "Y" then only_bit (pin cell "A") else none

  unfoldable pub is_delay : Option Bit → Bit → Bool
  is_delay none direct_bit = false
  is_delay (some delay_d) direct_bit = delay_d == direct_bit

  unfoldable pub detector_pair : Option Bit → Option Bit → Bit → Bool
  unfolding is_delay src_flop_d_pin
  detector_pair none delay_q direct_bit = false
  detector_pair (some d) none direct_bit = false
  detector_pair (some d) (some delay_q) direct_bit =
      if is_net delay_q then is_delay (src_flop_d_pin delay_q) direct_bit else false

  unfoldable pub is_edge_detector_pair : Bit → Bit → Bool
  unfolding detector_pair inverter_input driving
  is_edge_detector_pair direct_bit inverted_bit =
      detector_pair (src_flop_d_pin direct_bit) (inverter_input (driving inverted_bit)) direct_bit

  unfoldable pub either_order : List Bit → List Bit → Bool
  unfolding is_edge_detector_pair
  either_order (a ∷ []) (b ∷ []) =
      if is_net a && is_net b then is_edge_detector_pair a b || is_edge_detector_pair b a else false
  either_order _ _ = false

  unfoldable pub detects : Option (String × String × Cell) → Bool
  unfolding either_order
  detects none = false
  detects (some (name, port, cell)) =
      if contains and_types cell.type && port == "Y"
      then either_order (pin cell "A") (pin cell "B")
      else false

  unfoldable pub classify_d_pin_shape : Bit → PulseShape
  unfolding detects driving
  classify_d_pin_shape d_bit =
      if is_net d_bit && detects (driving d_bit) then PulseShape.pulse else PulseShape.other
