-- ===== src/Crossings/Find/Complete.antt =====
-- `find_crossings` (src/rtl_buddy_cdc/domain.py) misses no path within its budget.
use mathlib.Core.Path.{subst}
use rtl_buddy_cdc.Base.{
  ℕ, ◌≤◌, String, Bool, true, false, Option, none, some, List, [], ◌∷◌, ◌++◌, ◌==◌, string_eq,
  pair_eq, ◌≡◌, inl, inr, refl, ap, sym, ◌∙◌, arith, Dict, lookup, values, Within, Bool-cases,
}
use rtl_buddy_cdc.Netlist.{Bit, bit_eq, is_net, Module, Port}
use rtl_buddy_cdc.Netlist.Flops.{Flop, flop_name}
use rtl_buddy_cdc.Domain.{Crossing}
use rtl_buddy_cdc.Crossings.Fanout.{lane_fanout, nets}
use rtl_buddy_cdc.Crossings.Walk.{walk}
use rtl_buddy_cdc.Crossings.Walk.Visits.{walk_visits, land_all, walk-visits, land_all-ind}
use rtl_buddy_cdc.Crossings.Walk.Reach.{Hops}
use rtl_buddy_cdc.Crossings.Group.{
  Group, Search, known_domain, flops_at, land, crossing_of, crossings_of, port_start,
}
use rtl_buddy_cdc.Crossings.Find.{Design, always, flop_groups, port_search, walk_port, walk_ports}
use rtl_buddy_cdc.Crossings.Find.Indexed.{IsIndexed}
use rtl_buddy_cdc.Base.{Eq, All-lookup, Within-left, Within-right, Within-lookup}
use rtl_buddy_cdc.Crossings.Walk.Visits.{land_all-Within}
use rtl_buddy_cdc.Crossings.Walk.Reach.{source, hop}
use rtl_buddy_cdc.Crossings.Walk.Complete.{OpenHops, begin, onto, walk_visits-OpenHops}
use rtl_buddy_cdc.Crossings.Group.Landing.{Noted, land-keeps, land-Noted}
use rtl_buddy_cdc.Crossings.Find.{Options, sinks_of, design_of, find_crossings, walk_boundaries}
use rtl_buddy_cdc.Crossings.Find.Indexed.{design_of-IsIndexed}
use rtl_buddy_cdc.Crossings.Find.Sound.{Reaches, same_entry}
use rtl_buddy_cdc.Crossings.Find.Ports.{PortWay, PortEntry, walk_ports-PortEntry}
use rtl_buddy_cdc.Crossings.Find.Nets.{Hops-is_net}

-- Without pruning every way is open.
Hops-OpenHops :
    {fanout : Bit → List Bit} {sources : List Bit} {n : ℕ} {b : Bit}
    → Hops fanout sources n b
    → OpenHops fanout always sources n b
Hops-OpenHops (source w) = begin w
Hops-OpenHops (hop path w) = onto (Hops-OpenHops path) (λ h le. refl) w

module _ {K : Type 0} ⦃e : Eq K⦄ (s : Search K) (max_hops : ℕ) (fanout : Bit → List Bit)
    (test : Bit → ℕ → Bool) where
  Noted-later :
      (k : K) (h n : ℕ) (groups : Dict K Group) → h ≤ n → Noted k h groups → Noted k n groups
  unfolding Noted
  Noted-later k h n groups le (g, found, near) = (g, found, omega (arith, le, near))

  -- A walk notes each destination that it can reach.
  walk-Noted :
      (sources : List Bit) (groups : Dict K Group) (n : ℕ) (b : Bit) (dst f : Flop) (clock : String)
      → OpenHops fanout test sources n b
      → n ≤ max_hops
      → Within dst (flops_at s.by_d b)
      → known_domain (lookup (flop_name dst) s.domains) ≡ some (f, clock)
      → s.passes_over (flop_name dst) clock ≡ false
      → Noted (s.key (flop_name dst)) n (walk max_hops fanout test (land s) sources groups)
  walk-Noted sources groups n b dst f clock path le w known lands =
      let (h, near, visit) = walk_visits-OpenHops max_hops fanout test sources n b path le in
      let vs = walk_visits max_hops fanout test sources in
      let k = s.key (flop_name dst) in
      rw (walk-visits max_hops fanout test (land s) sources groups) (
        Noted-later k h n (land_all (land s) vs groups) near (
          land_all-Within (land s) (Noted k h) vs groups (b, h) (λ c i gs. land-keeps s c i gs k h)
            (λ gs. land-Noted s b h gs dst f clock w known lands) visit))

  walk-keeps :
      (sources : List Bit) (groups : Dict K Group) (k : K) (h : ℕ)
      → Noted k h groups
      → Noted k h (walk max_hops fanout test (land s) sources groups)
  walk-keeps sources groups k h noted =
      rw (walk-visits max_hops fanout test (land s) sources groups) (
        land_all-ind (land s) (Noted k h) (walk_visits max_hops fanout test sources) groups
          (λ c i gs w. land-keeps s c i gs k h) noted)

walk_port-keeps :
    (d : Design) (name clock : String) (o : Option Port) (groups : Dict (String × String) Group)
    (k : String × String) (h : ℕ)
    → Noted k h groups
    → Noted k h (walk_port d name clock o groups)
unfolding walk_port
walk_port-keeps d name clock none groups k h noted = noted
walk_port-keeps d name clock (some port) groups k h noted =
    elim (Bool-cases (port.direction == "input")) [
      | inr other ↦ rw other noted
      | inl input ↦ rw input (
          walk-keeps (port_search d name clock) d.max_hops (lane_fanout d.circuit d.consumers)
            always (nets port.bits) groups k h noted)
    ]

walk_ports-keeps :
    (d : Design) (rest : Dict String String) (groups : Dict (String × String) Group)
    (k : String × String) (h : ℕ)
    → Noted k h groups
    → Noted k h (walk_ports d rest groups)
unfolding walk_ports
walk_ports-keeps d [] groups k h noted = noted
walk_ports-keeps d ((name, clock) ∷ rest) groups k h noted =
    let o = lookup name d.circuit.ports in
    walk_ports-keeps d rest (walk_port d name clock o groups) k h
      (walk_port-keeps d name clock o groups k h noted)

-- What a destination of a way is to the index.
pub destination :
    (d : Design)
    → IsIndexed d
    → (f : Flop) (clock : String) (b : Bit)
    → lookup (flop_name f) d.domains ≡ some (record { flop = f; clock = some clock })
    → Within b f.d
    → is_net b ≡ true
    → Within f (flops_at d.by_d b)
      × (known_domain (lookup (flop_name f) d.domains) ≡ some (f, clock))
unfolding IsIndexed known_domain
destination d (indexed, named, listed, kept) f clock b found pin free = (
  (named b (flop_name f) (record { flop = f; clock = some clock }) found pin free).1,
  rw found refl,
)

walk_ports-Noted :
    (d : Design) (port_clock rest : Dict String String) (groups : Dict (String × String) Group)
    (name clock : String) (dst : Flop) (dst_clock : String) (n : ℕ)
    → IsIndexed d
    → Within (name, clock) rest
    → PortWay d port_clock name clock dst dst_clock n
    → Noted (name, flop_name dst) n (walk_ports d rest groups)
unfolding walk_ports PortWay Reaches walk_port
walk_ports-Noted d port_clock [] groups name clock dst dst_clock n indexed w way = absurd w
walk_ports-Noted d port_clock (e ∷ rest) groups name clock dst dst_clock n indexed (inr later) way =
    walk_ports-Noted d port_clock rest (walk_port d e.0 e.1 (lookup e.0 d.circuit.ports) groups)
      name clock dst dst_clock n indexed later way
walk_ports-Noted d port_clock (e ∷ rest) groups name clock dst dst_clock n indexed (inl here)
      (port, of_port, input, typed, foreign, (found, le, (b, path, pin))) =
    let (at_b, known) =
      destination d indexed dst dst_clock b found pin
        (Hops-is_net d.circuit d.consumers port.bits n b path) in
    let noted =
      walk-Noted (port_search d name clock) d.max_hops (lane_fanout d.circuit d.consumers) always
        (nets port.bits) groups n b dst dst dst_clock (Hops-OpenHops path) le at_b known foreign in
    let here_noted : Noted (name, flop_name dst) n
        (walk_port d name clock (lookup name d.circuit.ports) groups) =
      rw (of_port, input) noted in
    walk_ports-keeps d rest (walk_port d e.0 e.1 (lookup e.0 d.circuit.ports) groups)
      (name, flop_name dst) n
      (subst
        (λ (x : String × String).
          Noted (name, flop_name dst) n (walk_port d x.0 x.1 (lookup x.0 d.circuit.ports) groups))
        here here_noted)

crossings_of-crossing_of :
    (sinks : Dict String (String × String)) (scan : List String) (gs : List Group) (g : Group)
    → Within g gs
    → Within (crossing_of sinks scan g) (crossings_of sinks scan gs)
unfolding crossings_of
crossings_of-crossing_of sinks scan [] g w = absurd w
crossings_of-crossing_of sinks scan (h ∷ gs) g (inl same) = inl (ap (crossing_of sinks scan) same)
crossings_of-crossing_of sinks scan (h ∷ gs) g (inr later) =
    inr (crossings_of-crossing_of sinks scan gs g later)

crossing_of-port_start :
    (sinks : Dict String (String × String)) (scan : List String) (g : Group)
    → (crossing_of sinks scan g).src_port ≡ port_start g.origin
unfolding crossing_of
crossing_of-port_start sinks scan g = refl

crossing_of-dst_flop :
    (sinks : Dict String (String × String)) (scan : List String) (g : Group)
    → (crossing_of sinks scan g).dst_flop ≡ g.dst_flop
unfolding crossing_of
crossing_of-dst_flop sinks scan g = refl

crossing_of-min_hops :
    (sinks : Dict String (String × String)) (scan : List String) (g : Group)
    → (crossing_of sinks scan g).min_hops ≡ g.min_hops
unfolding crossing_of
crossing_of-min_hops sinks scan g = refl

walk_ports-Noted_whole :
    (d : Design) (port_clock : Dict String String) (name clock : String) (dst : Flop)
    (dst_clock : String) (n : ℕ)
    → IsIndexed d
    → PortWay d port_clock name clock dst dst_clock n
    → Noted (name, flop_name dst) n (walk_ports d port_clock [])
unfolding PortWay
walk_ports-Noted_whole d port_clock name clock dst dst_clock n indexed way =
    let (port, of_port, input, typed, foreign, reaches) = way in
    walk_ports-Noted d port_clock port_clock [] name clock dst dst_clock n indexed typed way

group_below :
    {K : Type 0} ⦃e : Eq K⦄ (k : K) (n : ℕ) (groups : Dict K Group)
    → Noted k n groups
    → (g : Group) × (lookup k groups ≡ some g) × (g.min_hops ≤ n)
unfolding Noted
group_below k n groups noted = noted

port_group :
    (d : Design) (port_clock : Dict String String) (name clock : String) (dst : Flop)
    (dst_clock : String) (n : ℕ) (g : Group)
    → PortEntry d port_clock ((name, flop_name dst), g)
    → PortWay d port_clock name clock dst dst_clock n
    → (port_start g.origin ≡ some name) × (g.dst_flop ≡ dst)
unfolding PortWay Reaches port_start
port_group d port_clock name clock dst dst_clock n g
      (name', start, key, (port', of_port', input', typed', foreign', reaches'))
      (port, of_port, input, typed, foreign, reaches) =
    (
      ap port_start start ∙ ap (λ (k : String × String). some k.0) (sym key),
      same_entry d.domains g.dst_flop dst (some g.dst_clock) (some dst_clock)
          (ap (λ (k : String × String). k.1) (sym key)) reaches'.0 reaches.0,
    )

-- For each way from an input port with a clock to a `D` bit of a flop on another clock that passes
-- no more than `max_hops` cells, there is a crossing from the port to the flop, of as many hops or
-- fewer.
pub find_crossings-of_port :
    (m : Module) (o : Options) (name src_clock : String) (dst : Flop) (dst_clock : String) (n : ℕ)
    → PortWay (design_of m o) o.port_clock name src_clock dst dst_clock n
    → (c : Crossing) × Within c (find_crossings m o)
      × (c.src_port ≡ some name)
      × (c.dst_flop ≡ dst)
      × (c.min_hops ≤ n)
unfolding find_crossings
find_crossings-of_port m o name src_clock dst dst_clock n way =
    let d = design_of m o in
    let sinks = (sinks_of m o).1 in
    let scan = o.scan_mode_flops in
    let groups = walk_ports d o.port_clock [] in
    let flops = crossings_of sinks scan (values (flop_groups d)) in
    let ports = crossings_of sinks scan (values groups) in
    let bounds = crossings_of sinks scan (values (walk_boundaries d o.boundaries m.cells [])) in
    let indexed = design_of-IsIndexed m o in
    let k : String × String = (name, flop_name dst) in
    let (g, found, near) =
      group_below k n groups
        (walk_ports-Noted_whole d o.port_clock name src_clock dst dst_clock n indexed way) in
    let entry =
      All-lookup (PortEntry d o.port_clock) k g groups
        (walk_ports-PortEntry d o.port_clock o.port_clock [] indexed (λ e w. w) tt) found in
    let (named, is_dst) = port_group d o.port_clock name src_clock dst dst_clock n g entry way in
    let c = crossing_of sinks scan g in
    let within = Within-left c (flops ++ ports) bounds (
      Within-right c flops ports
        (crossings_of-crossing_of sinks scan (values groups) g (Within-lookup k g groups found))) in
    (
      c,
      within,
      crossing_of-port_start sinks scan g ∙ named,
      crossing_of-dst_flop sinks scan g ∙ is_dst,
      rw (crossing_of-min_hops sinks scan g) near,
    )
