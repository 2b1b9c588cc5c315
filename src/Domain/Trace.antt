-- ===== src/Domain/Trace.antt =====
-- `trace_clock_root` and `_trace` of src/rtl_buddy_cdc/domain.py. The recorders `on_combine` and
-- `on_clock_control` observe the walk without changing it, and are left out.
pub mod Sound
pub mod Path
use rtl_buddy_cdc.Base.{
  ℕ, zero, suc, String, Bool, true, false, not, ◌&&◌, ◌||◌, Option, none, some, List, [], ◌∷◌, ◌==◌,
  string_eq, map, if◌then◌else◌, contains, Dict, lookup,
}
use rtl_buddy_cdc.Netlist.{Bit, bit_eq, is_net, Port, Cell, Module, port_of_bit}
use rtl_buddy_cdc.Netlist.Flops.{is_ff_cell, is_latch_cell, pin, flop_clk_pin}
use rtl_buddy_cdc.Netlist.Drivers.{Drivers, driver}
use rtl_buddy_cdc.Domain.Combine.{Identity, pick_combining_root}

abbrev pub buffer_types : List String
buffer_types = "$not" ∷ "$logic_not" ∷ "$buf" ∷ "$pos" ∷ "$reduce_bool" ∷ "$_BUF_" ∷ "$_NOT_" ∷ []

abbrev pub gate_types : List String
gate_types = "$and" ∷ "$or" ∷ "$logic_and" ∷ "$logic_or" ∷ "$xor" ∷ "$xnor" ∷ []

abbrev pub mux_types : List String
mux_types = "$mux" ∷ "$pmux" ∷ []

-- How the walk goes on behind a bit: it ends, follows one bit, combines the roots of the legs, or
-- takes the first leg that has a root.
pub data Onward : Type 0 where
  ends : Option String → Onward
  follows : Bit → Onward
  combines : List Bit → Onward
  selects : List Bit → Onward

unfoldable pub with_leg : List Bit → List Bit → List Bit
with_leg [] rest = rest
with_leg (b ∷ bs) rest = b ∷ rest

-- The first bit of each of the ports that is connected.
unfoldable pub legs : Cell → List String → List Bit
unfolding with_leg
legs cell [] = []
legs cell (port ∷ ports) = with_leg (pin cell port) (legs cell ports)

-- Along the first of the bits, where there is one.
unfoldable pub follow_or : List Bit → Onward → Onward
follow_or [] other = other
follow_or (b ∷ bs) other = follows b

-- The latch clause.
unfoldable pub through_latch : Bool → Cell → String → Onward
unfolding legs
through_latch allow_divider cell out_port =
    if allow_divider && is_latch_cell cell.type && out_port == "Q"
    then combines (legs cell ("D" ∷ "EN" ∷ "E" ∷ []))
    else ends none

-- The divider clause: a flop without a clock pin falls through to the latch clause.
unfoldable pub through_divider : Bool → Cell → String → Onward
unfolding through_latch follow_or
through_divider allow_divider cell out_port =
    if allow_divider && is_ff_cell cell.type && out_port == "Q"
    then follow_or (flop_clk_pin cell) (through_latch allow_divider cell out_port)
    else through_latch allow_divider cell out_port

-- The clauses on the type of the driving cell.
unfoldable pub through_cell : Bool → Cell → String → Onward
unfolding through_divider follow_or contains
through_cell allow_divider cell out_port =
    if contains buffer_types cell.type
    then follow_or (pin cell "A") (ends none)
    else if contains gate_types cell.type
    then combines (legs cell ("A" ∷ "B" ∷ []))
    else if contains mux_types cell.type
    then selects (legs cell ("A" ∷ "B" ∷ []))
    else through_divider allow_divider cell out_port

-- What the walk never changes.
pub record Context : Type 0 where
  pub circuit : Module
  pub drivers : Drivers
  pub bit_to_clock : Dict Bit String
  pub allow_divider : Bool
  pub identity : Option Identity

unfoldable pub input_name : Option Port → Option String
input_name none = none
input_name (some p) = if p.direction == "input" then some p.name else none

-- From a bit that no generated clock takes over and that is no input port.
unfoldable pub driven : Context → Option (Cell × String) → Onward
unfolding through_cell
driven ctx none = ends none
driven ctx (some (cell, out_port)) = through_cell ctx.allow_divider cell out_port

-- A generated clock, else an input port, else what the driver says.
unfoldable pub behind : Option String → Option String → Onward → Onward
behind (some clock) input driver_says = ends (some clock)
behind none (some name) driver_says = ends (some name)
behind none none driver_says = driver_says

unfoldable pub onward : Context → Bit → Onward
unfolding driven input_name behind
onward ctx bit =
    behind (lookup bit ctx.bit_to_clock) (input_name (port_of_bit ctx.circuit bit))
      (driven ctx (driver ctx.circuit ctx.drivers bit))

-- `[r for r in legs if r is not None]`
unfoldable pub resolved : List (Option String) → List String
resolved [] = []
resolved (none ∷ rs) = resolved rs
resolved (some r ∷ rs) = r ∷ resolved rs

unfoldable pub first_resolved : List (Option String) → Option String
first_resolved [] = none
first_resolved (none ∷ rs) = first_resolved rs
first_resolved (some r ∷ rs) = some r

-- What the walk makes of the roots behind the next bits, which `step` finds.
unfoldable pub arrive : Option Identity → (Bit → Option String) → Onward → Option String
unfolding resolved first_resolved
arrive identity step (ends root) = root
arrive identity step (follows b) = step b
arrive identity step (combines bs) = pick_combining_root identity (resolved (map step bs))
arrive identity step (selects bs) = first_resolved (map step bs)

-- `_trace`: a number of hops is left, and `seen` holds the bits on the way here.
unfoldable pub trace : Context → ℕ → List Bit → Bit → Option String
unfolding arrive onward
trace ctx zero seen bit = none
trace ctx (suc depth) seen bit = elim (is_net bit && not (contains seen bit)) [
  | false ↦ none
  | true ↦ arrive ctx.identity (λ b. trace ctx depth (bit ∷ seen) b) (onward ctx bit)
]

unfoldable pub trace_clock_root : Context → ℕ → Bit → Option String
unfolding trace
trace_clock_root ctx max_depth bit = trace ctx max_depth [] bit
