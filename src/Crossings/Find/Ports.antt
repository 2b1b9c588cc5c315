-- ===== src/Crossings/Find/Ports.antt =====
-- The groups that `find_crossings` (src/rtl_buddy_cdc/domain.py) collects from the input ports.
use mathlib.Core.Path.{subst}
use mathlib.Core.Option.{some-injective}
use rtl_buddy_cdc.Base.{
  ℕ, ◌≤◌, String, true, false, Option, none, some, [], ◌∷◌, ◌==◌, string_eq, pair_eq, ◌≡◌, inl, inr,
  refl, ap, sym, ◌∙◌, Dict, lookup, Within, All, Bool-cases,
}
use rtl_buddy_cdc.Netlist.{Bit, bit_eq, Port}
use rtl_buddy_cdc.Netlist.Flops.{Flop, flop_name}
use rtl_buddy_cdc.Crossings.Fanout.{lane_fanout, nets}
use rtl_buddy_cdc.Crossings.Walk.Reach.{Hops}
use rtl_buddy_cdc.Crossings.Group.{
  from_port, Group, merge, first_group, known_domain, flops_at, land,
}
use rtl_buddy_cdc.Crossings.Group.Landing.{Admits, land-All}
use rtl_buddy_cdc.Crossings.Find.{Design, always, port_search, walk_port, walk_ports}
use rtl_buddy_cdc.Crossings.Find.Indexed.{IsIndexed}
use rtl_buddy_cdc.Crossings.Find.Sound.{Reaches, landing, Reaches-merge, same_entry, walk-All}

-- The crossing starts at an input port with a clock and ends at a flop on another clock.
unfoldable pub PortWay : Design → Dict String String → String → String → Flop → String → ℕ → Type 0
PortWay d port_clock name src_clock dst dst_clock hops =
    (port : Port) × (lookup name d.circuit.ports ≡ some port)
    × ((port.direction == "input") ≡ true)
    × Within (name, src_clock) port_clock
    × ((dst_clock == src_clock) ≡ false)
    × Reaches d (lane_fanout d.circuit d.consumers) (nets port.bits) dst dst_clock hops

abbrev pub PortEntry : Design → Dict String String → (String × String) × Group → Type 0
PortEntry d port_clock (k, g) =
    (name : String) × (g.origin ≡ from_port name)
    × (k ≡ (name, flop_name g.dst_flop))
    × PortWay d port_clock name g.src_clock g.dst_flop g.dst_clock g.min_hops

port-Admits :
    (d : Design) (port_clock : Dict String String)
    → IsIndexed d
    → (name clock : String) (port : Port) → lookup name d.circuit.ports ≡ some port
    → (port.direction == "input") ≡ true
    → Within (name, clock) port_clock
    → (b : Bit) (h : ℕ) → h ≤ d.max_hops
    → Hops (lane_fanout d.circuit d.consumers) (nets port.bits) h b
    → (dst : Flop) → Within dst (flops_at d.by_d b)
    → Admits
        (PortEntry d port_clock)
        (port_search d name clock)
        b
        h
        (flop_name dst)
        (known_domain (lookup (flop_name dst) d.domains))
unfolding Admits merge first_group PortWay Reaches
port-Admits d port_clock indexed name clock port of_port input typed b h le path dst w f dst_clock
      known lands none olds =
    let (same, found, pin) = landing d indexed b dst f dst_clock w known in
    (
      name,
      refl,
      ap (λ (g : Flop). (name, flop_name g)) same,
      (port, of_port, input, typed, lands, (found, le, (b, path, pin))),
    )
port-Admits d port_clock indexed name clock port of_port input typed b h le path dst w f dst_clock
      known lands (some g) olds =
    let (same, found, pin) = landing d indexed b dst f dst_clock w known in
    let (name', start, key, (port', of_port', input', typed', foreign, reaches)) = olds g refl in
    let port_is : port ≡ port' =
      some-injective port port'
        (sym of_port ∙ ap (λ (p : String × String). lookup p.0 d.circuit.ports) key ∙ of_port') in
    let dst_is : f ≡ g.dst_flop =
      same_entry d.domains f g.dst_flop (some dst_clock) (some g.dst_clock)
        (ap (λ (x : Flop). flop_name x) (sym same) ∙ ap (λ (p : String × String). p.1) key) found
        reaches.0 in
    let fresh = first_group (port_search d name clock) b h f dst_clock in
    let fanout = lane_fanout d.circuit d.consumers in
    (
      name',
      start,
      key,
      (
        port',
        of_port',
        input',
        typed',
        foreign,
        Reaches-merge d fanout (nets port'.bits) h b fresh g reaches le
            (subst (λ (x : Port). Hops fanout (nets x.bits) h b) port_is path)
            (subst (λ (x : Flop). Within b x.d) dst_is pin),
      ),
    )

walk_port-All :
    (d : Design) (port_clock : Dict String String) (name clock : String) (o : Option Port)
    (groups : Dict (String × String) Group)
    → IsIndexed d
    → lookup name d.circuit.ports ≡ o
    → Within (name, clock) port_clock
    → All (PortEntry d port_clock) groups
    → All (PortEntry d port_clock) (walk_port d name clock o groups)
unfolding walk_port
walk_port-All d port_clock name clock none groups indexed found typed ps = ps
walk_port-All d port_clock name clock (some port) groups indexed found typed ps =
    elim (Bool-cases (port.direction == "input")) [
      | inr other ↦ rw other ps
      | inl input ↦
          let s = port_search d name clock in
          rw input (
            walk-All (PortEntry d port_clock) d.max_hops (lane_fanout d.circuit d.consumers) always
              (land s) (nets port.bits) groups
              (λ b h gs le path held.
                land-All (PortEntry d port_clock) s b h gs
                  (port-Admits d port_clock indexed name clock port found input typed b h le path)
                  held)
              ps)
    ]

-- The groups of the ports stand for paths.
pub walk_ports-PortEntry :
    (d : Design) (port_clock rest : Dict String String) (groups : Dict (String × String) Group)
    → IsIndexed d
    → ((e : String × String) → Within e rest → Within e port_clock)
    → All (PortEntry d port_clock) groups
    → All (PortEntry d port_clock) (walk_ports d rest groups)
unfolding walk_ports
walk_ports-PortEntry d port_clock [] groups indexed sub ps = ps
walk_ports-PortEntry d port_clock ((name, clock) ∷ rest) groups indexed sub ps =
    walk_ports-PortEntry d port_clock rest
      (walk_port d name clock (lookup name d.circuit.ports) groups) indexed (λ e w. sub e (inr w))
      (walk_port-All d port_clock name clock (lookup name d.circuit.ports) groups indexed refl
        (sub (name, clock) (inl refl)) ps)
