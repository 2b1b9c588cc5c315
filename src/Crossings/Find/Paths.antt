-- ===== src/Crossings/Find/Paths.antt =====
-- Each crossing of `find_crossings` (src/rtl_buddy_cdc/domain.py) is a path of the netlist between
-- two clocks.
use mathlib.Core.Path.{subst}
use mathlib.Core.Option.{some-injective}
use rtl_buddy_cdc.Base.{
  ℕ, String, Option, none, some, List, [], ◌∷◌, ◌++◌, string_eq, pair_eq, ◌≡◌, ◌⊎◌, inl, inr, refl,
  ap, sym, ◌∙◌, Dict, lookup, values, Within, All,
}
use rtl_buddy_cdc.Netlist.{Bit, bit_eq, Module}
use rtl_buddy_cdc.Netlist.Flops.{Flop, flop_name, pin}
use rtl_buddy_cdc.Domain.{Crossing}
use rtl_buddy_cdc.Crossings.Fanout.{nets}
use rtl_buddy_cdc.Crossings.Walk.{walk}
use rtl_buddy_cdc.Crossings.Group.{
  Group, merge, first_group, known_domain, land, crossing_of, crossings_of,
}
use rtl_buddy_cdc.Crossings.Group.Landing.{Admits, land-All}
use rtl_buddy_cdc.Crossings.Find.{Design, always, flop_groups, walk_ports}
use rtl_buddy_cdc.Base.{All-values, Within-append}
use rtl_buddy_cdc.Netlist.{Cell, PortBoundary, BoundarySummary}
use rtl_buddy_cdc.Crossings.Fanout.{output_fanout}
use rtl_buddy_cdc.Crossings.Group.{flop_start, port_start}
use rtl_buddy_cdc.Crossings.Boundary.{Boundaries, boundary_for}
use rtl_buddy_cdc.Crossings.Find.{
  BoundaryGroups, boundary_search, walk_boundary_ports, walk_boundary, walk_boundaries, Options,
  sinks_of, design_of, find_crossings,
}
use rtl_buddy_cdc.Crossings.Find.Indexed.{design_of-IsIndexed}
use rtl_buddy_cdc.Crossings.Find.Sound.{walk-All, FlopWay, FlopEntry, flop_groups-FlopEntry}
use rtl_buddy_cdc.Crossings.Find.Ports.{PortWay, PortEntry, walk_ports-PortEntry}

-- No flop and no port starts the crossing.
abbrev BoundaryEntry : (String × (String × String)) × Group → Type 0
BoundaryEntry (k, g) = (flop_start g.origin ≡ none) × (port_start g.origin ≡ none)

boundary-Admits :
    (d : Design) (inst port : String) (clock : Option String) (b : Bit) (h : ℕ) (dst : Flop)
    → Admits BoundaryEntry
        (boundary_search d inst port clock)
        b
        h
        (flop_name dst)
        (known_domain (lookup (flop_name dst) d.domains))
unfolding Admits merge first_group flop_start port_start
boundary-Admits d inst port clock b h dst f dst_clock known lands none olds = (refl, refl)
boundary-Admits d inst port clock b h dst f dst_clock known lands (some g) olds = olds g refl

walk_boundary_ports-All :
    (d : Design) (inst : String) (cell : Cell) (ports : Dict String PortBoundary)
    (groups : BoundaryGroups)
    → All BoundaryEntry groups
    → All BoundaryEntry (walk_boundary_ports d inst cell ports groups)
unfolding walk_boundary_ports
walk_boundary_ports-All d inst cell [] groups ps = ps
walk_boundary_ports-All d inst cell ((port, pb) ∷ ports) groups ps =
    let s = boundary_search d inst port pb.src_clock in
    let sources = nets (pin cell port) in
    let fanout = output_fanout d.circuit d.consumers in
    walk_boundary_ports-All d inst cell ports
      (walk d.max_hops fanout always (land s) sources groups)
      (walk-All BoundaryEntry d.max_hops fanout always (land s) sources groups
        (λ b h gs le path held.
          land-All BoundaryEntry s b h gs
            (λ dst w. boundary-Admits d inst port pb.src_clock b h dst) held)
        ps)

walk_boundary-All :
    (d : Design) (inst : String) (cell : Cell) (o : Option BoundarySummary)
    (groups : BoundaryGroups)
    → All BoundaryEntry groups
    → All BoundaryEntry (walk_boundary d inst cell o groups)
unfolding walk_boundary
walk_boundary-All d inst cell none groups ps = ps
walk_boundary-All d inst cell (some summary) groups ps =
    walk_boundary_ports-All d inst cell summary.ports groups ps

walk_boundaries-All :
    (d : Design) (boundaries : Boundaries) (cells : Dict String Cell) (groups : BoundaryGroups)
    → All BoundaryEntry groups
    → All BoundaryEntry (walk_boundaries d boundaries cells groups)
unfolding walk_boundaries
walk_boundaries-All d boundaries [] groups ps = ps
walk_boundaries-All d boundaries ((inst, cell) ∷ cells) groups ps =
    let o = boundary_for boundaries inst cell.type in
    walk_boundaries-All d boundaries cells (walk_boundary d inst cell o groups)
      (walk_boundary-All d inst cell o groups ps)

crossings_of-Within :
    (sinks : Dict String (String × String)) (scan : List String) (gs : List Group) (c : Crossing)
    → Within c (crossings_of sinks scan gs)
    → (g : Group) × Within g gs × (c ≡ crossing_of sinks scan g)
unfolding crossings_of
crossings_of-Within sinks scan [] c w = absurd w
crossings_of-Within sinks scan (g ∷ gs) c (inl same) = (g, inl refl, same)
crossings_of-Within sinks scan (g ∷ gs) c (inr later) =
    let (h, w, same) = crossings_of-Within sinks scan gs c later in (h, inr w, same)

-- The group of a crossing, with what holds of the entries of its dictionary.
group_of :
    {K : Type 0} (P : K × Group → Type 0) (sinks : Dict String (String × String))
    (scan : List String) (groups : Dict K Group) (c : Crossing)
    → All P groups
    → Within c (crossings_of sinks scan (values groups))
    → (k : K) × (g : Group) × P (k, g) × (c ≡ crossing_of sinks scan g)
group_of P sinks scan groups c ps w =
    let (g, within, same) = crossings_of-Within sinks scan (values groups) c w in
    let (k, p) = All-values P g groups ps within in (k, g, p, same)

FlopOf : Module → Options → Crossing → Type 0
FlopOf m o c =
    (src : Flop) × (c.src_flop ≡ some src)
    × (c.src_port ≡ none)
    × FlopWay (design_of m o) src c.src_clock c.dst_flop c.dst_clock c.min_hops

PortOf : Module → Options → Crossing → Type 0
PortOf m o c =
    (name : String) × (c.src_flop ≡ none)
    × (c.src_port ≡ some name)
    × PortWay (design_of m o) o.port_clock name c.src_clock c.dst_flop c.dst_clock c.min_hops

flop_kind :
    (m : Module) (o : Options) (sinks : Dict String (String × String)) (scan : List String)
    (k : String × String) (g : Group)
    → FlopEntry (design_of m o) (k, g)
    → FlopOf m o (crossing_of sinks scan g)
unfolding FlopOf crossing_of flop_start port_start
flop_kind m o sinks scan k g (src, start, key, way) =
    (src, ap flop_start start, ap port_start start, way)

port_kind :
    (m : Module) (o : Options) (sinks : Dict String (String × String)) (scan : List String)
    (k : String × String) (g : Group)
    → PortEntry (design_of m o) o.port_clock (k, g)
    → PortOf m o (crossing_of sinks scan g)
unfolding PortOf crossing_of flop_start port_start
port_kind m o sinks scan k g (name, start, key, way) =
    (name, ap flop_start start, ap port_start start, way)

boundary_kind :
    (sinks : Dict String (String × String)) (scan : List String) (k : String × (String × String))
    (g : Group)
    → BoundaryEntry (k, g)
    → ((crossing_of sinks scan g).src_flop ≡ none) × ((crossing_of sinks scan g).src_port ≡ none)
unfolding crossing_of
boundary_kind sinks scan k g entry = entry

-- Each crossing is one of three kinds.
kinds :
    (m : Module) (o : Options) (c : Crossing)
    → Within c (find_crossings m o)
    → FlopOf m o c ⊎ (PortOf m o c ⊎ ((c.src_flop ≡ none) × (c.src_port ≡ none)))
unfolding find_crossings
kinds m o c w =
    let d = design_of m o in
    let sinks = (sinks_of m o).1 in
    let scan = o.scan_mode_flops in
    let flops = crossings_of sinks scan (values (flop_groups d)) in
    let ports = crossings_of sinks scan (values (walk_ports d o.port_clock [])) in
    let bounds = crossings_of sinks scan (values (walk_boundaries d o.boundaries m.cells [])) in
    let indexed = design_of-IsIndexed m o in
    elim (Within-append c (flops ++ ports) bounds w) [
      | inr of_bound ↦
          let (k, g, entry, same) =
            group_of BoundaryEntry sinks scan (walk_boundaries d o.boundaries m.cells []) c
              (walk_boundaries-All d o.boundaries m.cells [] tt) of_bound in
          inr (
            inr (
              subst (λ (x : Crossing). (x.src_flop ≡ none) × (x.src_port ≡ none)) (sym same)
                (boundary_kind sinks scan k g entry)))
      | inl rest ↦ elim (Within-append c flops ports rest) [
        | inl of_flop ↦
            let (k, g, entry, same) =
              group_of (FlopEntry d) sinks scan (flop_groups d) c (flop_groups-FlopEntry d indexed)
                of_flop in
            inl (subst (FlopOf m o) (sym same) (flop_kind m o sinks scan k g entry))
        | inr of_port ↦
            let (k, g, entry, same) =
              group_of (PortEntry d o.port_clock) sinks scan (walk_ports d o.port_clock []) c
                (walk_ports-PortEntry d o.port_clock o.port_clock [] indexed (λ e v. v) tt)
                of_port in
            inr (inl (subst (PortOf m o) (sym same) (port_kind m o sinks scan k g entry)))
      ]
    ]

-- A crossing that names a source flop is a path: its two flops are different and stand in the
-- table of domains under its two clocks, which differ; and from a net of the source's `Q` to a `D`
-- bit of the destination lead exactly `min_hops` cells, no more than `max_hops`.
pub find_crossings-FlopWay :
    (m : Module) (o : Options) (c : Crossing) (src : Flop)
    → Within c (find_crossings m o)
    → c.src_flop ≡ some src
    → FlopWay (design_of m o) src c.src_clock c.dst_flop c.dst_clock c.min_hops
unfolding FlopOf PortOf
find_crossings-FlopWay m o c src w named = elim (kinds m o c w) [
  | inl (src', is, other, way) ↦
      subst (λ f. FlopWay (design_of m o) f c.src_clock c.dst_flop c.dst_clock c.min_hops)
        (some-injective src' src (sym is ∙ named)) way
  | inr (inl (name, is, port, way)) ↦ cc
  | inr (inr (is, other)) ↦ cc
]

-- A crossing that names a source port is a path: the port is an input of the module with the
-- crossing's source clock, the destination stands in the table of domains under another clock, and
-- from a net of the port to a `D` bit of it lead exactly `min_hops` cells, no more than `max_hops`.
pub find_crossings-PortWay :
    (m : Module) (o : Options) (c : Crossing) (name : String)
    → Within c (find_crossings m o)
    → c.src_port ≡ some name
    → PortWay (design_of m o) o.port_clock name c.src_clock c.dst_flop c.dst_clock c.min_hops
unfolding FlopOf PortOf
find_crossings-PortWay m o c name w named = elim (kinds m o c w) [
  | inl (src, is, other, way) ↦ cc
  | inr (inl (name', is, port, way)) ↦
      subst
        (λ n. PortWay (design_of m o) o.port_clock n c.src_clock c.dst_flop c.dst_clock c.min_hops)
        (some-injective name' name (sym port ∙ named)) way
  | inr (inr (is, other)) ↦ cc
]
