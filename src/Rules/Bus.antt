-- ===== src/Rules/Bus.antt =====
-- The protections of a bus in src/rtl_buddy_cdc/rules.py: `_trace_through_bus_buffers`,
-- `_is_gated_bus_crossing`, `_is_gray_encoded_source` and `_is_multibit_sync_first_stage`.
use mathlib.Core.Option.{get_or}
use rtl_buddy_cdc.Base.{
  ℕ, zero, suc, String, Bool, true, false, not, ◌&&◌, ◌||◌, Option, none, some, List, [], ◌∷◌, ◌++◌,
  ◌==◌, nat_eq, string_eq, list_eq, leb, if◌then◌else◌, all, any, contains, length, Dict, lookup,
}
use rtl_buddy_cdc.Netlist.{Bit, bit_eq, net, constant, is_net, Cell, Module}
use rtl_buddy_cdc.Netlist.Flops.{Flop, flop_name, is_ff_cell, pin}
use rtl_buddy_cdc.Domain.{Crossing}
use rtl_buddy_cdc.Pulse.{is_in_domain}
use rtl_buddy_cdc.Crossings.Fanout.{bit_at, nets}
use rtl_buddy_cdc.Rules.{Drives, RuleContext}
use rtl_buddy_cdc.Rules.Fanin.{
  add_member, backward_flop_fanin, Sweep, no_sweep, visit_bits, Visit, input_nets,
}

abbrev pub bus_buffer_types : List String
bus_buffer_types = "$not" ∷ "$buf" ∷ "$pos" ∷ "$_BUF_" ∷ "$_NOT_" ∷ []

-- The driver of a net, with its cell. A name that is no key is a `KeyError` in the source; the drivers
-- name only cells of the module.
unfoldable pub driver_with_cell : Module → Option (String × String × ℕ) → Option (String × ℕ × Cell)
unfolding lookup
driver_with_cell m none = none
driver_with_cell m (some (cell_name, port, idx)) = elim (lookup cell_name m.cells) [
  | none ↦ none
  | some cell ↦ some (cell_name, idx, cell)
]

unfoldable pub net_driver : Module → Drives → Bit → Option (String × ℕ × Cell)
unfolding driver_with_cell lookup
net_driver m drivers (net n) = driver_with_cell m (lookup (net n) drivers)
net_driver m drivers (constant s) = none

-- The net behind a transparent buffer, on the same lane.
unfoldable pub behind_buffer : ℕ → Cell → List Bit
unfolding contains pin bit_at nets
behind_buffer idx cell =
    if contains bus_buffer_types cell.type && length (pin cell "A") == length (pin cell "Y")
    then nets (bit_at idx (pin cell "A"))
    else []

-- The loop, with the buffers that may still be passed.
unfoldable pub trace_through_bus_buffers : ℕ → Module → Drives → Bit → Option (String × ℕ × Cell)
unfolding behind_buffer net_driver
trace_through_bus_buffers zero m drivers bit = net_driver m drivers bit
trace_through_bus_buffers (suc left) m drivers bit = elim (net_driver m drivers bit) [
  | none ↦ none
  | some (cell_name, idx, cell) ↦ elim (behind_buffer idx cell) [
    | [] ↦ some (cell_name, idx, cell)
    | b ∷ rest ↦ trace_through_bus_buffers left m drivers b
  ]
]

-- At least one flop was reached, and each is in the domain.
unfoldable pub all_in_domain : Dict String (Option String) → String → List String → Bool
unfolding all is_in_domain lookup
all_in_domain domains clock [] = false
all_in_domain domains clock (name ∷ names) =
    all (name ∷ names) (λ f. is_in_domain (lookup f domains) clock)

-- The cells that drive the data pins; `none` when nothing drives one of the nets.
unfoldable pub data_drivers : Module → Drives → List Bit → List String → Option (List String)
unfolding trace_through_bus_buffers add_member
data_drivers m drivers [] found = some found
data_drivers m drivers (d ∷ ds) found = elim (trace_through_bus_buffers 2 m drivers d) [
  | none ↦ none
  | some (cell_name, idx, cell) ↦ data_drivers m drivers ds (add_member cell_name found)
]

module _ (ctx : RuleContext) where
  unfoldable pub enable_gated : Cell → String → Bool
  unfolding is_ff_cell pin nets backward_flop_fanin all_in_domain
  enable_gated cell clock =
      is_ff_cell cell.type
      && all_in_domain ctx.domains clock
          (backward_flop_fanin ctx.circuit ctx.bit_drivers (nets (pin cell "EN")))

  unfoldable pub mux_gated : Option (List String) → String → Bool
  unfolding lookup pin backward_flop_fanin all_in_domain
  mux_gated (some (cell_name ∷ [])) clock = elim (lookup cell_name ctx.circuit.cells) [
    | none ↦ false
    | some cell ↦
        cell.type == "$mux"
        && all_in_domain ctx.domains clock
            (backward_flop_fanin ctx.circuit ctx.bit_drivers (pin cell "S"))
  ]
  mux_gated _ clock = false

  unfoldable pub is_gated_bus_crossing : Crossing → Bool
  unfolding enable_gated mux_gated data_drivers nets
  is_gated_bus_crossing c =
      enable_gated c.dst_flop.cell c.dst_clock
      || mux_gated (data_drivers ctx.circuit ctx.bit_drivers (nets c.dst_flop.d) []) c.dst_clock

  -- Every bit of the second operand is the next one of the first, up to a constant.
  unfoldable pub shifted_operand : List Bit → List Bit → Bool
  unfolding is_net
  shifted_operand (a ∷ []) (b ∷ []) = not (is_net b)
  shifted_operand (a ∷ a' ∷ as_rest) (b ∷ bs) =
      let rest = shifted_operand (a' ∷ as_rest) bs in is_net a' && is_net b && a' == b && rest
  shifted_operand _ _ = false

  unfoldable pub is_gray_cell : Cell → Bool
  unfolding pin shifted_operand
  is_gray_cell cell =
      cell.type == "$xor"
      && (leb 2 (length (pin cell "A")) && shifted_operand (pin cell "A") (pin cell "B"))

  -- A visit of the search for the encoder. That one was found is a name among the cells found, and
  -- it stays there where the source returns at once.
  unfoldable pub gray_through : String → Option Cell → Sweep → Sweep
  unfolding is_gray_cell input_nets add_member
  gray_through cell_name none s = s
  gray_through cell_name (some cell) s =
      if is_gray_cell cell
      then record s { cells_found = add_member cell_name s.cells_found }
      else record s { nxt = s.nxt ++ input_nets cell.connections }

  unfoldable pub visit_gray : Visit
  unfolding gray_through lookup
  visit_gray expands bit s = elim (lookup bit ctx.bit_drivers) [
    | none ↦ s
    | some (cell_name, port, idx) ↦
        if port == "Q" then s else gray_through cell_name (lookup cell_name ctx.circuit.cells) s
  ]

  -- Unlike the other searches this one still looks at the cells of its last level, so it has a level
  -- more than `max_back_hops`.
  unfoldable pub gray_levels : ℕ → List Bit → Sweep → Sweep
  unfolding visit_bits visit_gray
  gray_levels zero frontier s = s
  gray_levels (suc left) frontier s =
      let t = visit_bits visit_gray true frontier s in
      gray_levels left t.nxt (record t { nxt = [] })

  unfoldable pub finds_any : Sweep → Bool
  finds_any s = not (s.cells_found == [])

  unfoldable pub is_gray_encoded_source : Flop → Bool
  unfolding gray_levels finds_any nets
  is_gray_encoded_source f = finds_any (gray_levels 9 (nets f.d) no_sweep)

  unfoldable pub continues_at : Flop → String → Flop → Bool
  unfolding is_in_domain lookup
  continues_at dst_flop dst_clock f =
      not (flop_name f == flop_name dst_flop)
      && is_in_domain (lookup (flop_name f) ctx.domains) dst_clock

  unfoldable pub is_multibit_sync_first_stage : Flop → String → Bool
  unfolding all any is_net lookup continues_at
  is_multibit_sync_first_stage dst_flop dst_clock =
      (leb 2 (length dst_flop.q) && length dst_flop.d == length dst_flop.q && all dst_flop.q is_net)
      && any (get_or (lookup dst_flop.q ctx.flops_by_d) []) (continues_at dst_flop dst_clock)
