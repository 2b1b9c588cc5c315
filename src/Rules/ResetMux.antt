-- ===== src/Rules/ResetMux.antt =====
-- A synchronous reset in front of a flop: `_constant_leg_reset_mux_data_bits` and
-- `_srst_mux_data_bit_to_single_bit_flop` of src/rtl_buddy_cdc/rules.py.
use rtl_buddy_cdc.Base.{
  ℕ, String, Bool, true, false, not, ◌&&◌, Option, none, some, List, [], ◌∷◌, ◌==◌, nat_eq,
  string_eq, list_eq, if◌then◌else◌, all, length, Dict, lookup, insert, values,
}
use rtl_buddy_cdc.Netlist.{Bit, bit_eq, net, is_net, Cell, Module}
use rtl_buddy_cdc.Netlist.Flops.{Flop, pin}
use rtl_buddy_cdc.Rules.{Drives}
use rtl_buddy_cdc.Rules.Index.{Readers, readers_of}

unfoldable pub are_constants : List Bit → Bool
unfolding all is_net
are_constants bits = all bits (λ b. not (is_net b))

-- The leg that is not constant, when exactly one is.
unfoldable pub live_leg : Bool → Bool → List Bit → List Bit → Option (List Bit)
live_leg true true a b = none
live_leg false false a b = none
live_leg false true a b = some a
live_leg true false a b = some b

unfoldable pub mux_data_leg : Flop → Readers → Cell → Option (List Bit)
unfolding live_leg are_constants pin all readers_of
mux_data_leg head counts cell =
    let y = pin cell "Y" in
    let a = pin cell "A" in
    let b = pin cell "B" in
    let n = length head.d in
    if cell.type == "$mux"
      && (length y == n && (length a == n && length b == n))
      && y == head.d
      && all y (λ yb. readers_of counts yb == 1)
    then live_leg (are_constants a) (are_constants b) a b
    else none

unfoldable pub cell_behind_y : Module → Option (String × String × ℕ) → Option Cell
unfolding lookup
cell_behind_y m none = none
cell_behind_y m (some (cell_name, port, idx)) =
    if port == "Y" then lookup cell_name m.cells else none

unfoldable pub leg_behind : Flop → Readers → Option Cell → Option (List Bit)
unfolding mux_data_leg
leg_behind head counts none = none
leg_behind head counts (some cell) = mux_data_leg head counts cell

-- With no first bit, or a constant one, nothing drives it.
unfoldable pub first_driver : List Bit → Drives → Option (String × String × ℕ)
unfolding lookup
first_driver (net n ∷ bits) drivers = lookup (net n) drivers
first_driver _ drivers = none

unfoldable pub constant_leg_reset_mux_data_bits :
    Flop → Module → Drives → Readers → Option (List Bit)
unfolding leg_behind cell_behind_y first_driver
constant_leg_reset_mux_data_bits head m drivers counts =
    leg_behind head counts (cell_behind_y m (first_driver head.d drivers))

-- `out.setdefault(leg[0], flop)`
unfoldable pub index_leg : Option (List Bit) → Flop → Dict Bit Flop → Dict Bit Flop
unfolding lookup insert
index_leg (some (net n ∷ bits)) flop out = elim (lookup (net n) out) [
  | none ↦ insert (net n) flop out
  | some first ↦ out
]
index_leg _ flop out = out

unfoldable pub index_legs : Module → Drives → Readers → List Flop → Dict Bit Flop → Dict Bit Flop
unfolding index_leg constant_leg_reset_mux_data_bits
index_legs m drivers counts [] out = out
index_legs m drivers counts (f ∷ fs) out =
    index_legs m drivers counts fs
      (index_leg (constant_leg_reset_mux_data_bits f m drivers counts) f out)

unfoldable pub srst_mux_data_bit_to_single_bit_flop :
    Module → Dict Bit Flop → Drives → Readers → Dict Bit Flop
unfolding index_legs values
srst_mux_data_bit_to_single_bit_flop m single drivers counts =
    index_legs m drivers counts (values single) []
