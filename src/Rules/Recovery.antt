-- ===== src/Rules/Recovery.antt =====
-- The pulse synchronizer in src/rtl_buddy_cdc/rules.py: `_has_xor_tail_pulse_recovery` and
-- `_is_pulse_synchronizer_source`.
use rtl_buddy_cdc.Base.{
  String, Bool, true, false, not, ◌&&◌, ◌||◌, Option, none, some, List, [], ◌∷◌, ◌++◌, ◌==◌,
  string_eq, if◌then◌else◌, any, contains, Dict, lookup, values,
}
use rtl_buddy_cdc.Netlist.{Bit, bit_eq, net, Cell}
use rtl_buddy_cdc.Netlist.Flops.{Flop, is_ff_cell, pin}
use rtl_buddy_cdc.Pulse.{is_in_domain, PulseContext}
use rtl_buddy_cdc.Pulse.Toggle.{ToggleShape, toggle, no_toggle, classify_toggle_d_pin}
use rtl_buddy_cdc.Rules.{RuleContext}
use rtl_buddy_cdc.Rules.Fanin.{input_nets}
use rtl_buddy_cdc.Rules.Chain.{sync_chain_flops}

-- What the scan over the cells has found behind the tail of the chain.
pub record Tail : Type 0 where
  pub follow_flop_q : Option Bit
  pub xor_cells : List Cell

unfoldable pub is_xor_cell : Cell → Bool
is_xor_cell cell = cell.type == "$xor" || cell.type == "$_XOR_"

-- The output of a follow-on flop of one bit in the domain.
unfoldable pub follow_q :
    Dict String (Option String) → String → Cell → List Bit → List Bit → Option Bit
unfolding is_in_domain lookup
follow_q domains clock cell (net q ∷ []) (d ∷ []) =
    if is_in_domain (lookup cell.name domains) clock then some (net q) else none
follow_q domains clock cell _ _ = none

-- The last flop of a chain of at least two.
unfoldable pub tail_of : List Flop → Option Flop
tail_of [] = none
tail_of (f ∷ []) = none
tail_of (f ∷ g ∷ []) = some g
tail_of (f ∷ g ∷ h ∷ fs) = tail_of (g ∷ h ∷ fs)

module _ (ctx : RuleContext) where
  -- The loop over the pins of an XOR or a flop, up to the pin that ends it.
  unfoldable pub scan_pins : String → Bit → Cell → Dict String (List Bit) → Tail → Tail
  unfolding is_xor_cell follow_q contains pin
  scan_pins clock tail_q cell [] s = s
  scan_pins clock tail_q cell ((port, bits) ∷ ports) s =
      let later = scan_pins clock tail_q cell ports s in
      if port == "Y" || port == "Q" || port == "CLK" || port == "C" || not (contains bits tail_q)
      then later
      else (if is_xor_cell cell
          then record s { xor_cells = s.xor_cells ++ cell ∷ [] }
          else (if not (port == "D")
              then s
              else (elim (follow_q ctx.domains clock cell (pin cell "Q") (pin cell "D")) [
                | none ↦ later
                | some q ↦ record s { follow_flop_q = some q }
              ])))

  unfoldable pub scan_cells : String → Bit → List Cell → Tail → Tail
  unfolding scan_pins is_xor_cell is_ff_cell
  scan_cells clock tail_q [] s = s
  scan_cells clock tail_q (cell ∷ cells) s = scan_cells clock tail_q cells (
      if is_xor_cell cell || is_ff_cell cell.type
      then scan_pins clock tail_q cell cell.connections s
      else s)

  unfoldable pub recovers_from : Bit → Tail → Bool
  unfolding any contains input_nets
  recovers_from tail_q s = elim s.follow_flop_q [
    | none ↦ false
    | some q ↦ any s.xor_cells (λ xor.
        contains (input_nets xor.connections) tail_q && contains (input_nets xor.connections) q)
  ]

  unfoldable pub recovers_after : String → Option (List Bit) → Bool
  unfolding recovers_from scan_cells values
  recovers_after clock (some (net q ∷ [])) = recovers_from (net q) (
      scan_cells clock (net q) (values ctx.circuit.cells)
        (record { follow_flop_q = none; xor_cells = [] }))
  recovers_after clock _ = false

  unfoldable pub output_of_tail : Option Flop → Option (List Bit)
  output_of_tail none = none
  output_of_tail (some f) = some f.q

  unfoldable pub has_xor_tail_pulse_recovery : Flop → String → Bool
  unfolding recovers_after output_of_tail tail_of sync_chain_flops
  has_xor_tail_pulse_recovery head head_clock =
      recovers_after head_clock (output_of_tail (tail_of (sync_chain_flops ctx head head_clock)))

  -- The classifier reads the netlist and the drivers only.
  abbrev pub toggle_view : PulseContext
  toggle_view = record {
    src_clock = "";
    circuit = ctx.circuit;
    pulse_drivers = ctx.bit_drivers;
    flop_domains = ctx.domains;
  }

  unfoldable pub is_toggle : ToggleShape → Bool
  is_toggle toggle = true
  is_toggle no_toggle = false

  unfoldable pub toggles_on : List Bit → List Bit → Bool
  unfolding is_toggle classify_toggle_d_pin
  toggles_on (d ∷ []) (q ∷ []) = is_toggle (classify_toggle_d_pin toggle_view d q)
  toggles_on _ _ = false

  unfoldable pub is_pulse_synchronizer_source : Flop → Bool
  unfolding toggles_on pin
  is_pulse_synchronizer_source src = toggles_on (pin src.cell "D") (pin src.cell "Q")
