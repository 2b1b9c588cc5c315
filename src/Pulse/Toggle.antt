-- ===== src/Pulse/Toggle.antt =====
-- `classify_toggle_d_pin` of src/rtl_buddy_cdc/pulse.py: whether a flop's data pin chooses between its
-- output and the inverse of it.
pub mod Shape
use rtl_buddy_cdc.Base.{
  String, Bool, true, false, ◌&&◌, ◌||◌, Option, none, some, List, [], ◌∷◌, ◌==◌, string_eq,
  if◌then◌else◌,
}
use rtl_buddy_cdc.Netlist.{Bit, bit_eq, is_net, Cell}
use rtl_buddy_cdc.Netlist.Flops.{pin}
use rtl_buddy_cdc.Pulse.{PulseContext, driving, inverter_input, is_delay}

pub data ToggleShape : Type 0 where
  toggle no_toggle : ToggleShape

-- Of the context only the netlist and the drivers are read.
module _ (ctx : PulseContext) where
  -- `direct` is the output, and the other bit its inverse.
  unfoldable pub is_toggle_pair : Bit → Bit → Bit → Bool
  unfolding is_delay inverter_input driving
  is_toggle_pair src_q_bit direct inverted =
      direct == src_q_bit && is_delay ctx (inverter_input ctx (driving ctx inverted)) src_q_bit

  unfoldable pub toggles_between : Bit → List Bit → List Bit → Bool
  unfolding is_toggle_pair
  toggles_between src_q_bit (a ∷ []) (b ∷ []) =
      (is_net a && is_net b) && (is_toggle_pair src_q_bit a b || is_toggle_pair src_q_bit b a)
  toggles_between src_q_bit _ _ = false

  unfoldable pub toggles : Bit → Option (String × String × Cell) → Bool
  unfolding toggles_between
  toggles src_q_bit none = false
  toggles src_q_bit (some (name, port, cell)) =
      (cell.type == "$mux" && port == "Y")
      && toggles_between src_q_bit (pin cell "A") (pin cell "B")

  unfoldable pub classify_toggle_d_pin : Bit → Bit → ToggleShape
  unfolding toggles driving
  classify_toggle_d_pin d_bit src_q_bit =
      if (is_net d_bit && is_net src_q_bit) && toggles src_q_bit (driving ctx d_bit)
      then toggle
      else no_toggle
