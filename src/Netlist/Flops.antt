-- ===== src/Netlist/Flops.antt =====
-- src/rtl_buddy_cdc/flops.py: which cells are flip-flops, and their pins.
use mathlib.Core.Option.{get_or}
use rtl_buddy_cdc.Base.{
  ℕ, String, Bool, ◌||◌, Option, none, some, List, [], ◌∷◌, ◌==◌, string_eq, if◌then◌else◌, any,
  contains, length, lookup, values,
}
use rtl_buddy_cdc.Sdc.Tokenizer.{chars}
use rtl_buddy_cdc.Sdc.Names.{starts_with}
use rtl_buddy_cdc.Netlist.{Bit, Cell, Module}

abbrev pub ff_cell_types : List String
ff_cell_types =
    "$dff" ∷ "$dffe" ∷ "$adff" ∷ "$adffe" ∷ "$aldff" ∷ "$aldffe" ∷ "$sdff" ∷ "$sdffe" ∷ "$sdffce"
    ∷ "$dffsr" ∷ "$dffsre" ∷ []

abbrev pub gate_level_ff_prefixes : List String
gate_level_ff_prefixes =
    "$_DFF_" ∷ "$_DFFE_" ∷ "$_SDFF_" ∷ "$_SDFFE_" ∷ "$_SDFFCE_" ∷ "$_DFFSR_" ∷ "$_DFFSRE_"
    ∷ "$_ALDFF_" ∷ "$_ALDFFE_" ∷ []

abbrev pub has_prefix : String → String → Bool
has_prefix s p = starts_with (chars p) (chars s)

unfoldable pub is_ff_cell : String → Bool
unfolding contains any starts_with
is_ff_cell cell_type =
    contains ff_cell_types cell_type || any gate_level_ff_prefixes (has_prefix cell_type)

unfoldable pub is_latch_cell : String → Bool
unfolding starts_with
is_latch_cell cell_type = cell_type == "$dlatch" || has_prefix cell_type "$_DLATCH_"

-- `cell.connections.get(port, ())`
unfoldable pub pin : Cell → String → List Bit
pin cell port = get_or (lookup port cell.connections) []

-- `a or b`, of which an absent and an empty connection count as false.
or_bits : List Bit → List Bit → List Bit
or_bits [] other = other
or_bits (b ∷ bs) other = b ∷ bs

-- The empty list is `None`.
unfoldable pub flop_clk_pin : Cell → List Bit
unfolding pin or_bits
flop_clk_pin cell = or_bits (pin cell "CLK") (pin cell "C")

pub record Flop : Type 0 where
  pub cell : Cell
  pub clk : Bit
  pub d : List Bit
  pub q : List Bit

abbrev pub flop_name : Flop → String
flop_name f = f.cell.name

abbrev pub flop_width : Flop → ℕ
flop_width f = length f.q

-- The flop of a cell whose clock connection is one bit.
unfoldable pub flop_of : Cell → List Bit → Option Flop
unfolding pin
flop_of cell (clk ∷ []) =
    some (record { cell = cell; clk = clk; d = pin cell "D"; q = pin cell "Q" })
flop_of cell _ = none

with_flop : Option Flop → List Flop → List Flop
with_flop none fs = fs
with_flop (some f) fs = f ∷ fs

unfoldable pub flops_among : List Cell → List Flop
unfolding flop_of with_flop is_ff_cell flop_clk_pin
flops_among [] = []
flops_among (cell ∷ cells) =
    let rest = flops_among cells in
    if is_ff_cell cell.type then with_flop (flop_of cell (flop_clk_pin cell)) rest else rest

unfoldable pub find_flops : Module → List Flop
unfolding flops_among
find_flops m = flops_among (values m.cells)
