-- ===== src/Rules/Fanin.antt =====
-- The searches through combinational cells in src/rtl_buddy_cdc/rules.py: `_backward_fanin`,
-- `_forward_reachable_cells` and `_backward_flop_fanin`. A level of the search is the frontier of one
-- depth, so the loop is a recursion on the hops that are left.
use rtl_buddy_cdc.Base.{
  ℕ, zero, suc, String, Bool, true, false, not, ◌||◌, Option, none, some, List, [], ◌∷◌, ◌++◌, ◌==◌,
  Eq, nat_eq, string_eq, if◌then◌else◌, contains, Dict, lookup,
}
use rtl_buddy_cdc.Netlist.{Bit, bit_eq, Port, Cell, Module, port_of_bit}
use rtl_buddy_cdc.Netlist.Flops.{is_ff_cell, pin}
use rtl_buddy_cdc.Crossings.Fanout.{nets, consumers_of, Consumers, Site}
use rtl_buddy_cdc.Rules.{Drives}

-- `xs.add(x)`
unfoldable pub add_member {ℓ} : {A : Type ℓ} ⦃e : Eq A⦄ → A → List A → List A
unfolding contains
add_member x xs = if contains xs x then xs else x ∷ xs

-- The state of a search. The names are those of the cells that it found, and of the ports.
pub record Sweep : Type 0 where
  pub seen : List Bit
  pub expanded : List String
  pub cells_found : List String
  pub ports_found : List String
  pub nxt : List Bit

abbrev pub no_sweep : Sweep
no_sweep = record { seen = []; expanded = []; cells_found = []; ports_found = []; nxt = [] }

-- The nets that a cell reads.
unfoldable pub input_nets : Dict String (List Bit) → List Bit
unfolding nets
input_nets [] = []
input_nets ((port, bits) ∷ ports) =
    let rest = input_nets ports in if port == "Y" || port == "Q" then rest else nets bits ++ rest

-- What a search does with a bit that it has not seen, below its depth bound or at it.
abbrev pub Visit : Type 0
Visit = Bool → Bit → Sweep → Sweep

unfoldable pub visit_bits : Visit → Bool → List Bit → Sweep → Sweep
unfolding contains
visit_bits visit expands [] s = s
visit_bits visit expands (b ∷ bs) s =
    visit_bits visit expands bs
      (if contains s.seen b then s else visit expands b (record s { seen = b ∷ s.seen }))

-- The loop over the frontiers, with the hops that are left.
unfoldable pub sweep : Visit → ℕ → List Bit → Sweep → Sweep
unfolding visit_bits
sweep visit zero frontier s = visit_bits visit false frontier s
sweep visit (suc left) frontier s =
    let t = visit_bits visit true frontier s in sweep visit left t.nxt (record t { nxt = [] })

module _ (m : Module) where
  -- A bit that nothing drives: an input port is found.
  unfoldable pub found_port : Option Port → Sweep → Sweep
  unfolding add_member
  found_port none s = s
  found_port (some p) s =
      if p.direction == "input"
      then record s { ports_found = add_member p.name s.ports_found }
      else s

  -- A name that is no key is a `KeyError` in the source; the drivers name only cells of the module.
  unfoldable pub back_through : Bool → Option Cell → Sweep → Sweep
  unfolding input_nets
  back_through true (some cell) s = record s { nxt = s.nxt ++ input_nets cell.connections }
  back_through expands _ s = s

  unfoldable pub visit_fanin : Drives → Visit
  unfolding found_port back_through lookup port_of_bit add_member
  visit_fanin drivers expands bit s = elim (lookup bit drivers) [
    | none ↦ found_port (port_of_bit m bit) s
    | some (cell_name, port, idx) ↦
        if port == "Q"
        then record s { cells_found = add_member cell_name s.cells_found }
        else back_through expands (lookup cell_name m.cells) s
  ]

  unfoldable pub backward_fanin : Drives → List Bit → List String × List String
  unfolding sweep visit_fanin nets
  backward_fanin drivers start_bits =
      let s = sweep (visit_fanin drivers) 12 (nets start_bits) no_sweep in
      (s.cells_found, s.ports_found)

  unfoldable pub visit_flop_fanin : Drives → Visit
  unfolding back_through lookup add_member contains
  visit_flop_fanin drivers expands bit s = elim (lookup bit drivers) [
    | none ↦ s
    | some (cell_name, port, idx) ↦
        if port == "Q"
        then record s { cells_found = add_member cell_name s.cells_found }
        else (if not expands || contains s.expanded cell_name
            then s
            else back_through true (lookup cell_name m.cells)
                (record s { expanded = cell_name ∷ s.expanded }))
  ]

  unfoldable pub backward_flop_fanin : Drives → List Bit → List String
  unfolding sweep visit_flop_fanin nets
  backward_flop_fanin drivers start_bits =
      (sweep (visit_flop_fanin drivers) 12 (nets start_bits) no_sweep).cells_found

  unfoldable pub reach_cell : Bool → String → Option Cell → Sweep → Sweep
  unfolding is_ff_cell nets pin contains add_member
  reach_cell expands cell_name none s = s
  reach_cell expands cell_name (some cell) s =
      let t = record s { cells_found = add_member cell_name s.cells_found } in
      if is_ff_cell cell.type || not expands || contains s.expanded cell_name then t else record t {
        expanded = cell_name ∷ t.expanded;
        nxt = t.nxt ++ nets (pin cell "Y") ++ nets (pin cell "Q");
      }

  unfoldable pub reach_sites : Bool → List Site → Sweep → Sweep
  unfolding reach_cell lookup
  reach_sites expands [] s = s
  reach_sites expands ((cell_name, port, idx) ∷ sites) s =
      reach_sites expands sites (reach_cell expands cell_name (lookup cell_name m.cells) s)

  unfoldable pub visit_cells : Consumers → Visit
  unfolding reach_sites consumers_of
  visit_cells consumers expands bit s = reach_sites expands (consumers_of consumers bit) s

  unfoldable pub forward_reachable_cells : Consumers → List Bit → List String
  unfolding sweep visit_cells nets
  forward_reachable_cells consumers start_bits =
      (sweep (visit_cells consumers) 12 (nets start_bits) no_sweep).cells_found
