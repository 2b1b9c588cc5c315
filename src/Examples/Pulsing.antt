-- ===== src/Examples/Pulsing.antt =====
-- A concrete edge detector for src/rtl_buddy_cdc/pulse.py.
use rtl_buddy_cdc.Pulse.Toggle.{toggle, classify_toggle_d_pin}
use rtl_buddy_cdc.Pulse.Toggle.Shape.{Toggle, classify_toggle_d_pin-Toggle}
use rtl_buddy_cdc.Base.{◌↔◌}
use rtl_buddy_cdc.Base.{
  String, true, false, none, some, List, [], ◌∷◌, ◌≡◌, refl, contains, lookup, Dict, string_eq,
}
use rtl_buddy_cdc.Netlist.{Bit, net, bit_eq, bit_beq, is_net, Cell, Module}
use rtl_buddy_cdc.Netlist.Flops.{is_ff_cell, pin}
use rtl_buddy_cdc.Pulse.{PulseShape, PulseContext, classify_d_pin_shape}
use rtl_buddy_cdc.Pulse.Detector.{EdgeDetector, classify_d_pin_shape-EdgeDetector}

cell : String → String → Dict String (List Bit) → String × Cell
cell name type connections = (
  name,
  record { name = name; type = type; connections = connections; parameters = []; attributes = [] },
)

-- `req & ~req_d`
abbrev detector : Module
unfolding cell
detector = record {
  name = "top";
  ports = [];
  cells =
      cell "req" "$dff" (("D", net 10 ∷ []) ∷ ("Q", net 11 ∷ []) ∷ [])
      ∷ cell "req_d" "$dff" (("D", net 11 ∷ []) ∷ ("Q", net 12 ∷ []) ∷ [])
      ∷ cell "inv" "$not" (("A", net 12 ∷ []) ∷ ("Y", net 13 ∷ []) ∷ [])
      ∷ cell "gate" "$and" (("A", net 11 ∷ []) ∷ ("B", net 13 ∷ []) ∷ ("Y", net 14 ∷ []) ∷ [])
      ∷ [];
  netnames = [];
  is_blackbox = false;
  boundary = none;
}

abbrev pulse_context : PulseContext
pulse_context = record {
  src_clock = "clk";
  circuit = detector;
  pulse_drivers =
      (net 11, ("req", "Q", 0))
      ∷ (net 12, ("req_d", "Q", 0))
      ∷ (net 13, ("inv", "Y", 0))
      ∷ (net 14, ("gate", "Y", 0))
      ∷ [];
  flop_domains = ("req", some "clk") ∷ ("req_d", some "clk") ∷ [];
}

classified : classify_d_pin_shape pulse_context (net 14) ≡ PulseShape.pulse
unfolding classify_d_pin_shape detector cell contains lookup pin is_net bit_beq is_ff_cell
classified = refl

classify_d_pin_shape-EdgeDetector_example :
    (is_net (net 14) ≡ true) × EdgeDetector pulse_context (net 14)
classify_d_pin_shape-EdgeDetector_example =
    classify_d_pin_shape-EdgeDetector pulse_context (net 14) classified

-- A flop whose next value is its own output or the inverse.
abbrev toggling : Module
toggling = record detector {
  cells =
      cell "state" "$dff" (("D", net 22 ∷ []) ∷ ("Q", net 20 ∷ []) ∷ [])
      ∷ cell "inv" "$not" (("A", net 20 ∷ []) ∷ ("Y", net 21 ∷ []) ∷ [])
      ∷ cell "choice" "$mux"
          (("A", net 20 ∷ []) ∷ ("B", net 21 ∷ []) ∷ ("S", net 2 ∷ []) ∷ ("Y", net 22 ∷ []) ∷ [])
      ∷ [];
}

abbrev toggle_context : PulseContext
toggle_context = record pulse_context {
  circuit = toggling;
  pulse_drivers =
      (net 20, ("state", "Q", 0)) ∷ (net 21, ("inv", "Y", 0)) ∷ (net 22, ("choice", "Y", 0)) ∷ [];
}

classify_toggle_d_pin-Toggle_example :
    (classify_toggle_d_pin toggle_context (net 22) (net 20) ≡ toggle)
    ↔ Toggle toggle_context (net 22) (net 20)
classify_toggle_d_pin-Toggle_example = classify_toggle_d_pin-Toggle toggle_context (net 22) (net 20)

toggles_found : classify_toggle_d_pin toggle_context (net 22) (net 20) ≡ toggle
unfolding classify_toggle_d_pin cell contains lookup pin is_net bit_beq
toggles_found = refl
