-- ===== src/Crossings/Prune.antt =====
-- `_make_fanout_filter` of src/rtl_buddy_cdc/domain.py: the pruning test of the walks that start at
-- flops. The source tells lists of predecessors apart by `id`: here each list has a number.
use mathlib.Core.Option.{get_or}
use rtl_buddy_cdc.Base.{
  ℕ, zero, suc, ◌-◌, String, Bool, false, not, ◌&&◌, ◌||◌, Option, none, some, List, [], ◌∷◌, ◌++◌,
  ◌==◌, nat_eq, string_eq, leb, if◌then◌else◌, contains, length, Dict, lookup, insert, values,
}
use rtl_buddy_cdc.Netlist.{Bit, bit_eq, is_net, Cell, Module}
use rtl_buddy_cdc.Netlist.Flops.{Flop, flop_name, pin}
use rtl_buddy_cdc.Domain.{FlopDomain}
use rtl_buddy_cdc.Crossings.Fanout.{lane_aligned_types, cell_outputs, bit_at, nets, is_transit}
use rtl_buddy_cdc.Crossings.Group.{FlopsByBit}

-- A list of predecessor bits.
abbrev pub Preds : Type 0
Preds = ℕ × List Bit

-- `rev`, and the number of the next list.
pub record Reverse : Type 0 where
  pub fresh : ℕ
  pub rev : Dict Bit (List Preds)

unfoldable pub preds_of : Dict Bit (List Preds) → Bit → List Preds
preds_of rev bit = get_or (lookup bit rev) []

-- `for ob in outs: rev[ob].append(preds)`
unfoldable pub append_preds : List Bit → Preds → Dict Bit (List Preds) → Dict Bit (List Preds)
unfolding preds_of
append_preds [] preds rev = rev
append_preds (ob ∷ obs) preds rev =
    append_preds obs preds (insert ob (preds_of rev ob ++ preds ∷ []) rev)

-- The new list of predecessors of these outputs, unless it is empty.
unfoldable pub add_preds : List Bit → List Bit → Reverse → Reverse
unfolding append_preds
add_preds obs [] r = r
add_preds obs (b ∷ bs) r = record {
  fresh = suc r.fresh;
  rev = append_preds obs (r.fresh, b ∷ bs) r.rev;
}

-- A port whose lanes are the lanes of the output.
unfoldable pub is_lane_port : Bool → ℕ → String → List Bit → Bool
is_lane_port lane_cell width port bits = not (port == "CLK") && (lane_cell && length bits == width)

-- `lane_ports`
unfoldable pub lane_ports : Bool → ℕ → Dict String (List Bit) → List (List Bit)
unfolding is_lane_port
lane_ports lane_cell width [] = []
lane_ports lane_cell width ((port, bits) ∷ ports) =
    let rest = lane_ports lane_cell width ports in
    if is_lane_port lane_cell width port bits then bits ∷ rest else rest

-- `all_preds`
unfoldable pub all_preds : Bool → ℕ → Dict String (List Bit) → List Bit
unfolding is_lane_port nets
all_preds lane_cell width [] = []
all_preds lane_cell width ((port, bits) ∷ ports) =
    let rest = all_preds lane_cell width ports in
    if port == "CLK" || is_lane_port lane_cell width port bits then rest else nets bits ++ rest

-- The `k`-th lanes.
unfoldable pub lane : ℕ → List (List Bit) → List Bit
unfolding nets bit_at
lane k [] = []
lane k (bits ∷ ports) = nets (bit_at k bits) ++ lane k ports

unfoldable pub add_lanes : ℕ → List (List Bit) → List Bit → Reverse → Reverse
unfolding add_preds lane
add_lanes k ports [] r = r
add_lanes k ports (yb ∷ ybits) r =
    add_lanes (suc k) ports ybits (if is_net yb then add_preds (yb ∷ []) (lane k ports) r else r)

unfoldable pub reverse_cell : Cell → Reverse → Reverse
unfolding add_lanes lane_ports all_preds nets
reverse_cell cell r =
    let ybits = pin cell "Y" in
    let lane_cell = contains lane_aligned_types cell.type in
    let width = length ybits in
    add_lanes 0 (lane_ports lane_cell width cell.connections) ybits
      (add_preds (nets (cell_outputs cell)) (all_preds lane_cell width cell.connections) r)

unfoldable pub reverse_cells : List Cell → Reverse → Reverse
unfolding reverse_cell is_transit
reverse_cells [] r = r
reverse_cells (cell ∷ cells) r =
    reverse_cells cells (if is_transit cell then reverse_cell cell r else r)

unfoldable pub reverse_edges : Module → Dict Bit (List Preds)
unfolding reverse_cells
reverse_edges m = (reverse_cells (values m.cells) (record { fresh = 0; rev = [] })).rev

-- `seeds_by_clock`
abbrev pub Seeds : Type 0
Seeds = Dict String (List Bit)

unfoldable pub add_seed : Bit → Option FlopDomain → Seeds → Seeds
add_seed bit none out = out
add_seed bit (some fd) out = elim fd.clock [
  | none ↦ out
  | some clock ↦ insert clock (get_or (lookup clock out) [] ++ bit ∷ []) out
]

unfoldable pub seed_flops : Dict String FlopDomain → Bit → List Flop → Seeds → Seeds
unfolding add_seed
seed_flops domains bit [] out = out
seed_flops domains bit (f ∷ fs) out =
    seed_flops domains bit fs (add_seed bit (lookup (flop_name f) domains) out)

unfoldable pub seeds_by_clock : Dict String FlopDomain → FlopsByBit → Seeds → Seeds
unfolding seed_flops
seeds_by_clock domains [] out = out
seeds_by_clock domains ((bit, fs) ∷ by_d) out =
    seeds_by_clock domains by_d (seed_flops domains bit fs out)

-- `dist_to[bit][clock]`
abbrev pub Distances : Type 0
Distances = Dict Bit (Dict String ℕ)

unfoldable pub distances_at : Distances → Bit → Dict String ℕ
distances_at dist bit = get_or (lookup bit dist) []

unfoldable pub set_distance : String → ℕ → Bit → Distances → Distances
unfolding distances_at
set_distance clock depth bit dist = insert bit (insert clock depth (distances_at dist bit)) dist

-- `list(dict.fromkeys(seeds))`: the first of each bit, behind those that stand already.
unfoldable pub distinct_bits : List Bit → List Bit → List Bit
distinct_bits [] seen = []
distinct_bits (b ∷ bs) seen =
    let later = distinct_bits bs (b ∷ seen) in
    let rest = distinct_bits bs seen in if contains seen b then rest else b ∷ later

unfoldable pub seed_distances : String → List Bit → Distances → Distances
unfolding set_distance
seed_distances clock [] dist = dist
seed_distances clock (b ∷ bs) dist = seed_distances clock bs (set_distance clock 0 b dist)

-- The state of the backward walk of one clock: `expanded`, `dist_to` and `nxt`.
pub record Back : Type 0 where
  pub expanded : List ℕ
  pub dist : Distances
  pub nxt : List Bit

-- `dist_to.setdefault(pb, {})`, with the new distance where the clock has none. A bit that gets an
-- empty dictionary only counts as one without a distance.
unfoldable pub reach_bit : String → ℕ → Bit → Back → Back
unfolding set_distance distances_at
reach_bit clock depth pb s = elim (lookup clock (distances_at s.dist pb)) [
  | some d ↦ s
  | none ↦ record {
    expanded = s.expanded;
    dist = set_distance clock depth pb s.dist;
    nxt = s.nxt ++ pb ∷ [];
  }
]

unfoldable pub reach_bits : String → ℕ → List Bit → Back → Back
unfolding reach_bit
reach_bits clock depth [] s = s
reach_bits clock depth (pb ∷ pbs) s = reach_bits clock depth pbs (reach_bit clock depth pb s)

-- A list is read once for a clock.
unfoldable pub reach_lists : String → ℕ → List Preds → Back → Back
unfolding reach_bits
reach_lists clock depth [] s = s
reach_lists clock depth ((id, preds) ∷ lists) s = reach_lists clock depth lists (
    if contains s.expanded id
    then s
    else reach_bits clock depth preds
        (record { expanded = id ∷ s.expanded; dist = s.dist; nxt = s.nxt }))

unfoldable pub reach_frontier : Dict Bit (List Preds) → String → ℕ → List Bit → Back → Back
unfolding reach_lists preds_of
reach_frontier rev clock depth [] s = s
reach_frontier rev clock depth (b ∷ bs) s =
    reach_frontier rev clock depth bs (reach_lists clock depth (preds_of rev b) s)

-- `while frontier and depth < max_hops`, with the number of levels left. An empty frontier changes
-- nothing any more.
unfoldable pub walk_back :
    Dict Bit (List Preds) → String → ℕ → ℕ → List Bit → List ℕ → Distances → Distances
unfolding reach_frontier
walk_back rev clock zero depth frontier expanded dist = dist
walk_back rev clock (suc left) depth frontier expanded dist =
    let s =
      reach_frontier rev clock (suc depth) frontier
        (record { expanded = expanded; dist = dist; nxt = [] }) in
    walk_back rev clock left (suc depth) s.nxt s.expanded s.dist

unfoldable pub clock_distances : Dict Bit (List Preds) → ℕ → Seeds → Distances → Distances
unfolding walk_back seed_distances distinct_bits
clock_distances rev max_hops [] dist = dist
clock_distances rev max_hops ((clock, seeds) ∷ more) dist =
    let frontier = distinct_bits seeds [] in
    clock_distances rev max_hops more
      (walk_back rev clock max_hops 0 frontier [] (seed_distances clock frontier dist))

unfoldable pub distances_to : Module → FlopsByBit → Dict String FlopDomain → ℕ → Distances
unfolding clock_distances seeds_by_clock reverse_edges
distances_to m by_d domains max_hops =
    clock_distances (reverse_edges m) max_hops (seeds_by_clock domains by_d []) []

-- `any(d <= budget for c, d in dists.items() if c != src_clock)`
unfoldable pub foreign_within : ℕ → String → Dict String ℕ → Bool
foreign_within budget src_clock [] = false
foreign_within budget src_clock ((c, d) ∷ dists) =
    (not (c == src_clock) && leb d budget) || foreign_within budget src_clock dists

-- The function that `_make_fanout_filter` returns. The walk asks it only below `max_hops`.
unfoldable pub useful : Distances → ℕ → String → Bit → ℕ → Bool
unfolding foreign_within distances_at
useful dist max_hops src_clock bit hops =
    foreign_within (max_hops - hops) src_clock (distances_at dist bit)
