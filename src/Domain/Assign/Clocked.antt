-- ===== src/Domain/Assign/Clocked.antt =====
-- Where the domains of `assign_domains` (src/rtl_buddy_cdc/domain.py) come from.
use rtl_buddy_cdc.Base.{
  ℕ, ◌<◌, String, true, Option, none, some, List, [], ◌∷◌, ◌≡◌, ◌⊎◌, inl, inr, refl, sym, ap, ◌∙◌,
  string_eq, map, Dict, All, lookup, values, Option-cases,
}
use rtl_buddy_cdc.Netlist.{Bit, bit_eq, is_net, Cell, Module}
use rtl_buddy_cdc.Netlist.Flops.{Flop, find_flops}
use rtl_buddy_cdc.Netlist.Drivers.Pins.{driving_pin, driver-driving_pin}
use rtl_buddy_cdc.Domain.{FlopDomain}
use rtl_buddy_cdc.Domain.Trace.{driven, trace_clock_root}
use rtl_buddy_cdc.Domain.Trace.Sound.{Passes}
use rtl_buddy_cdc.Domain.Trace.Path.{
  ClockPath, declared, input, through, trace_clock_root-ClockPath,
}
use rtl_buddy_cdc.Domain.Assign.{canonical, flop_domain, domains_of, assign_domains}
use rtl_buddy_cdc.Domain.Assign.Straight.{input_of, Straight, context, trace_clock_root-Straight}
use rtl_buddy_cdc.Domain.Assign.Pins.{declared_clock, build_bit_to_clock-declared_clock}

-- The clock that the SDC knows a root by: the port's, where it has one, and else the root's own name.
abbrev pub Named : Option (String → Option String) → String → String → Type 0
Named none root clock = clock ≡ root
Named (some clock_for_port) root clock =
    (clock_for_port root ≡ some clock) ⊎ ((clock_for_port root ≡ none) × (clock ≡ root))

canonical-Named :
    (clock_for_port : Option (String → Option String)) (root : String)
    → Named clock_for_port root (canonical clock_for_port root)
unfolding canonical
canonical-Named none root = refl
canonical-Named (some f) root = elim (Option-cases (f root)) [
  | inl unknown ↦ inr (unknown, rw unknown refl)
  | inr (clock, known) ↦ inl (known ∙ rw known refl)
]

module _ (m : Module) (pin_clocks : Dict String String) where
  -- `Clocks bit root`: from the root, which is the clock of the first generated clock's pin on a net
  -- or else the name of an input port on it, a chain of nets through clock-tree cells leads to the bit.
  -- The nets on the way are neither; the cell behind each is the last with an output pin on it.
  pub data Clocks : Bit → String → Type 0 where
    from_pin :
        {bit : Bit} {root : String}
        → is_net bit ≡ true
        → declared_clock m pin_clocks bit ≡ some root
        → Clocks bit root
    from_port :
        {bit : Bit} {root : String}
        → is_net bit ≡ true
        → declared_clock m pin_clocks bit ≡ none
        → input_of m pin_clocks bit ≡ some root
        → Clocks bit root
    behind_cell :
        {bit b : Bit} {root : String}
        → (c : Cell) (name out_port : String) → is_net bit ≡ true
        → declared_clock m pin_clocks bit ≡ none
        → input_of m pin_clocks bit ≡ none
        → driving_pin (values m.cells) bit ≡ some (name, out_port)
        → lookup name m.cells ≡ some c
        → Passes true c out_port b
        → Clocks b root
        → Clocks bit root

  module _ (clock_for_port : Option (String → Option String)) where
    Clocks-ClockPath :
        {bit : Bit} {root : String}
        → ClockPath (context m pin_clocks clock_for_port) bit root
        → Clocks bit root
    Clocks-ClockPath (declared {bit} net at) =
        from_pin net (sym (build_bit_to_clock-declared_clock m pin_clocks bit) ∙ at)
    Clocks-ClockPath (input {bit} net off at) =
        from_port net (sym (build_bit_to_clock-declared_clock m pin_clocks bit) ∙ off) at
    Clocks-ClockPath (through {bit} c out_port net off outside drives passes path) =
        let (name, driven, known) = driver-driving_pin m bit c out_port drives in
        behind_cell c name out_port net
          (sym (build_bit_to_clock-declared_clock m pin_clocks bit) ∙ off) outside driven known
          passes (Clocks-ClockPath path)

    -- A domain is missing only where no root is straight behind fewer buffers and inverters than the
    -- budget. A domain is the clock of a root from which a clock path leads to the flop's clock pin.
    pub IsClocked : ℕ → FlopDomain → Type 0
    IsClocked max_depth fd =
        ((fd.clock ≡ none) × ¬ ((n : ℕ) × (n < max_depth) × Straight m pin_clocks n fd.flop.clk))
        ⊎ ((root : String) × (clock : String) × (fd.clock ≡ some clock)
            × Named clock_for_port root clock
            × Clocks fd.flop.clk root)

    flop_domain-IsClocked :
        (max_depth : ℕ) (f : Flop)
        → IsClocked max_depth
            (flop_domain (context m pin_clocks clock_for_port) clock_for_port max_depth f)
    unfolding IsClocked flop_domain
    flop_domain-IsClocked max_depth f =
        elim (Option-cases
          (trace_clock_root (context m pin_clocks clock_for_port) max_depth f.clk)) [
            | inl untraced ↦ inl (
              rw (untraced, flop_domain) refl,
              (λ (n, le, straight).
                  let (root, traced) =
                    trace_clock_root-Straight m pin_clocks clock_for_port max_depth n f.clk le
                      straight in
                  cc (sym untraced ∙ traced)),
            )
            | inr (root, traced) ↦ inr (
              root,
              canonical clock_for_port root,
              rw (traced, flop_domain) refl,
              canonical-Named clock_for_port root,
              Clocks-ClockPath (
                  trace_clock_root-ClockPath (context m pin_clocks clock_for_port) max_depth f.clk
                    root traced),
            )
          ]

    domains_of-IsClocked :
        (max_depth : ℕ) (fs : List Flop)
        → (map
              (λ fd. fd.flop)
              (domains_of (context m pin_clocks clock_for_port) clock_for_port max_depth fs)
            ≡ fs)
          × All
              (IsClocked max_depth)
              (domains_of (context m pin_clocks clock_for_port) clock_for_port max_depth fs)
    unfolding domains_of flop_domain
    domains_of-IsClocked max_depth [] = (refl, tt)
    domains_of-IsClocked max_depth (f ∷ fs) =
        let (same, clocked) = domains_of-IsClocked max_depth fs in
        (ap (λ gs. f ∷ gs) same, (flop_domain-IsClocked max_depth f, clocked))

-- Every flop of the module gets exactly one domain, in the order of the flops. It is the SDC's clock
-- of a root, which is a generated clock's pin or else an input port, from whose net a chain of nets
-- leads through the cells of the clock tree to the flop's clock pin; where the SDC knows no clock of
-- the root, it is the root's name. There is none only where no chain of fewer buffers and inverters
-- than the hop budget leads from the net of a root to the flop's clock pin.
pub assign_domains-IsClocked :
    (m : Module) (pin_clocks : Dict String String)
    (clock_for_port : Option (String → Option String)) (max_depth : ℕ)
    → (map (λ fd. fd.flop) (assign_domains m pin_clocks clock_for_port max_depth) ≡ find_flops m)
      × All
          (IsClocked m pin_clocks clock_for_port max_depth)
          (assign_domains m pin_clocks clock_for_port max_depth)
unfolding assign_domains
assign_domains-IsClocked m pin_clocks clock_for_port max_depth =
    domains_of-IsClocked m pin_clocks clock_for_port max_depth (find_flops m)
