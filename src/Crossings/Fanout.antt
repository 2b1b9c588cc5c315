-- ===== src/Crossings/Fanout.antt =====
-- The data fanout of a net: `_build_bit_consumers`, `_cell_outputs` and `_lane_targets` of
-- src/rtl_buddy_cdc/domain.py, and the bits to which one hop of a walk leads.
pub mod Index
use mathlib.Core.Option.{get_or}
use rtl_buddy_cdc.Base.{
  ℕ, zero, suc, String, Bool, not, ◌&&◌, Option, none, some, List, [], ◌∷◌, ◌++◌, ◌==◌, nat_eq,
  string_eq, ltb, if◌then◌else◌, contains, length, Dict, lookup, insert, values,
}
use rtl_buddy_cdc.Netlist.{Bit, bit_eq, is_net, Cell, Module}
use rtl_buddy_cdc.Netlist.Flops.{pin, is_ff_cell}

-- A site that reads a bit: `(cell_name, port_name, bit_idx)`.
abbrev pub Site : Type 0
Site = String × String × ℕ

abbrev pub Consumers : Type 0
Consumers = Dict Bit (List Site)

-- `consumers[b].append(site)`, of a `defaultdict(list)`.
unfoldable pub append_site : Bit → Site → Consumers → Consumers
append_site b site out = insert b (get_or (lookup b out) [] ++ site ∷ []) out

unfoldable pub consume_bits : String → String → ℕ → List Bit → Consumers → Consumers
unfolding append_site
consume_bits cell port idx [] out = out
consume_bits cell port idx (b ∷ bs) out =
    consume_bits cell port (suc idx) bs
      (if is_net b then append_site b (cell, port, idx) out else out)

unfoldable pub consume_ports : String → Dict String (List Bit) → Consumers → Consumers
unfolding consume_bits
consume_ports cell [] out = out
consume_ports cell ((port, bits) ∷ ports) out =
    consume_ports cell ports (if port == "CLK" then out else consume_bits cell port 0 bits out)

unfoldable pub consume_cells : List Cell → Consumers → Consumers
unfolding consume_ports
consume_cells [] out = out
consume_cells (c ∷ cs) out = consume_cells cs (consume_ports c.name c.connections out)

unfoldable pub build_bit_consumers : Module → Consumers
unfolding consume_cells
build_bit_consumers m = consume_cells (values m.cells) []

-- `consumers.get(bit, ())`
unfoldable pub consumers_of : Consumers → Bit → List Site
consumers_of consumers bit = get_or (lookup bit consumers) []

-- The table of output ports is empty, so every cell has the default one.
unfoldable pub cell_outputs : Cell → List Bit
cell_outputs cell = pin cell "Y"

abbrev pub lane_aligned_types : List String
lane_aligned_types =
    "$and" ∷ "$or" ∷ "$xor" ∷ "$xnor" ∷ "$not" ∷ "$buf" ∷ "$pos" ∷ "$mux" ∷ "$pmux" ∷ "$bwmux"
    ∷ "$_AND_" ∷ "$_OR_" ∷ "$_XOR_" ∷ "$_XNOR_" ∷ "$_NOT_" ∷ "$_NAND_" ∷ "$_NOR_" ∷ "$_ANDNOT_"
    ∷ "$_ORNOT_" ∷ "$_BUF_" ∷ "$_MUX_" ∷ []

-- `bits[i]`, as a list: the index is in range or there is none.
unfoldable pub bit_at : ℕ → List Bit → List Bit
bit_at n [] = []
bit_at zero (b ∷ bs) = b ∷ []
bit_at (suc n) (b ∷ bs) = bit_at n bs

unfoldable pub lane_targets : Cell → String → ℕ → List Bit
unfolding bit_at cell_outputs
lane_targets cell port idx =
    let ybits = pin cell "Y" in
    let inbits = pin cell port in
    if contains lane_aligned_types cell.type
      && length inbits == length ybits
      && ltb idx (length ybits)
    then bit_at idx ybits
    else cell_outputs cell

unfoldable pub nets : List Bit → List Bit
nets [] = []
nets (b ∷ bs) = let rest = nets bs in if is_net b then b ∷ rest else rest

-- A flop and a `$scopeinfo` cell are no way on.
unfoldable pub is_transit : Cell → Bool
is_transit cell = not (cell.type == "$scopeinfo") && not (is_ff_cell cell.type)

-- The nets behind a cell that reads the bit. A name that is no key is a `KeyError` in the source:
-- `build_bit_consumers` names only cells of the module, each by its `name`.
unfoldable pub through_site : (Cell → String → ℕ → List Bit) → Option Cell → String → ℕ → List Bit
unfolding is_transit
through_site outputs none port idx = []
through_site outputs (some cell) port idx =
    if is_transit cell then nets (outputs cell port idx) else []

unfoldable pub through_sites : (Cell → String → ℕ → List Bit) → Module → List Site → List Bit
unfolding through_site
through_sites outputs m [] = []
through_sites outputs m ((cell_name, port, idx) ∷ sites) =
    through_site outputs (lookup cell_name m.cells) port idx ++ through_sites outputs m sites

-- Where one hop leads from a bit: along the lanes, or to every output of the cells.
unfoldable pub lane_fanout : Module → Consumers → Bit → List Bit
unfolding through_sites lane_targets
lane_fanout m consumers bit = through_sites lane_targets m (consumers_of consumers bit)

unfoldable pub output_fanout : Module → Consumers → Bit → List Bit
unfolding through_sites
output_fanout m consumers bit =
    through_sites (λ cell port idx. cell_outputs cell) m (consumers_of consumers bit)
