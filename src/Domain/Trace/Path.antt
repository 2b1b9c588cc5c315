-- ===== src/Domain/Trace/Path.antt =====
-- Where the root that `_trace` (src/rtl_buddy_cdc/domain.py) finds comes from.
use rtl_buddy_cdc.Base.{
  ℕ, zero, suc, String, Bool, true, false, not, ◌&&◌, Option, none, some, List, [], ◌∷◌, ◌==◌, ◌≡◌,
  ◌⊎◌, inl, inr, refl, sym, ap, arith, string_eq, map, if◌then◌else◌, contains, lookup, eq_self,
  Bool-cases,
}
use rtl_buddy_cdc.Netlist.{Bit, bit_eq, is_net, Cell, port_of_bit}
use rtl_buddy_cdc.Netlist.Flops.{is_ff_cell, is_latch_cell, pin, flop_clk_pin}
use rtl_buddy_cdc.Netlist.Drivers.{driver}
use rtl_buddy_cdc.Domain.Combine.{Identity}
use rtl_buddy_cdc.Domain.Trace.{
  buffer_types, gate_types, mux_types, Onward, ends, follows, combines, selects, legs, follow_or,
  through_latch, through_divider, through_cell, Context, input_name, driven, onward, resolved,
  first_resolved, behind, arrive, trace, trace_clock_root,
}
use rtl_buddy_cdc.Domain.Combine.Choice.{In, or_right, pick_combining_root-In}
use rtl_buddy_cdc.Domain.Trace.Sound.{Among, Passes, nexts, none-Among, through_cell-Passes}

-- `ClockPath ctx bit root`: the bit's clock comes from the root, by nets only, each from a cell
-- that lets a clock through, up to a bit of a generated clock's pin or an input port.
pub data ClockPath (ctx : Context) : Bit → String → Type 0 where
  declared :
      {bit : Bit} {root : String}
      → is_net bit ≡ true
      → lookup bit ctx.bit_to_clock ≡ some root
      → ClockPath ctx bit root
  input :
      {bit : Bit} {root : String}
      → is_net bit ≡ true
      → lookup bit ctx.bit_to_clock ≡ none
      → input_name (port_of_bit ctx.circuit bit) ≡ some root
      → ClockPath ctx bit root
  through :
      {bit b : Bit} {root : String}
      → (cell : Cell) (out_port : String) → is_net bit ≡ true
      → lookup bit ctx.bit_to_clock ≡ none
      → input_name (port_of_bit ctx.circuit bit) ≡ none
      → driver ctx.circuit ctx.drivers bit ≡ some (cell, out_port)
      → Passes ctx.allow_divider cell out_port b
      → ClockPath ctx b root
      → ClockPath ctx bit root

-- The root that a hop ends with.
root_of : Onward → Option String
root_of (ends root) = root
root_of (follows b) = none
root_of (combines bs) = none
root_of (selects bs) = none

choose-rootless :
    (t : Bool) (x y : Onward)
    → root_of x ≡ none
    → root_of y ≡ none
    → root_of (if t then x else y) ≡ none
choose-rootless true x y h k = h
choose-rootless false x y h k = k

follow_or-rootless :
    (bits : List Bit) (o : Onward) → root_of o ≡ none → root_of (follow_or bits o) ≡ none
unfolding follow_or root_of
follow_or-rootless [] o h = h
follow_or-rootless (b ∷ bs) o h = refl

through_latch-rootless :
    (allow_divider : Bool) (cell : Cell) (out_port : String)
    → root_of (through_latch allow_divider cell out_port) ≡ none
unfolding through_latch root_of
through_latch-rootless allow_divider cell out_port =
    choose-rootless (allow_divider && is_latch_cell cell.type && out_port == "Q")
      (combines (legs cell ("D" ∷ "EN" ∷ "E" ∷ []))) (ends none) refl refl

through_divider-rootless :
    (allow_divider : Bool) (cell : Cell) (out_port : String)
    → root_of (through_divider allow_divider cell out_port) ≡ none
unfolding through_divider
through_divider-rootless allow_divider cell out_port =
    let latch = through_latch-rootless allow_divider cell out_port in
    let after = through_latch allow_divider cell out_port in
    choose-rootless (allow_divider && is_ff_cell cell.type && out_port == "Q")
      (follow_or (flop_clk_pin cell) after) after
      (follow_or-rootless (flop_clk_pin cell) after latch) latch

driven-rootless : (ctx : Context) (o : Option (Cell × String)) → root_of (driven ctx o) ≡ none
unfolding driven through_cell root_of
driven-rootless ctx none = refl
driven-rootless ctx (some (cell, out_port)) =
    let pins = legs cell ("A" ∷ "B" ∷ []) in
    let after = through_divider ctx.allow_divider cell out_port in
    let after_gate = if contains mux_types cell.type then selects pins else after in
    choose-rootless (contains buffer_types cell.type) (follow_or (pin cell "A") (ends none))
      (if contains gate_types cell.type then combines pins else after_gate)
      (follow_or-rootless (pin cell "A") (ends none) refl)
      (choose-rootless (contains gate_types cell.type) (combines pins) after_gate refl (
        choose-rootless (contains mux_types cell.type) (selects pins) after refl
          (through_divider-rootless ctx.allow_divider cell out_port)))

module _ (ctx : Context) where
  -- Where a hop ends with a root, it is a generated clock's or an input port's.
  behind-root :
      (d i : Option String) (o : Onward) (r : String)
      → root_of o ≡ none
      → root_of (behind d i o) ≡ some r
      → (d ≡ some r) ⊎ ((d ≡ none) × (i ≡ some r))
  unfolding behind root_of
  behind-root (some clock) i o r none_behind h = inl h
  behind-root none (some name) o r none_behind h = inr (refl, h)
  behind-root none none o r none_behind h = cc

  behind-Among :
      (d i : Option String) (o : Onward) (b : Bit)
      → Among b (nexts (behind d i o))
      → (d ≡ none) × (i ≡ none) × Among b (nexts o)
  unfolding behind nexts
  behind-Among (some clock) i o b h = absurd (none-Among b h)
  behind-Among none (some name) o b h = absurd (none-Among b h)
  behind-Among none none o b h = (refl, refl, h)

  driven-Among :
      (o : Option (Cell × String)) (b : Bit)
      → Among b (nexts (driven ctx o))
      → (cell : Cell) × (out_port : String) × (o ≡ some (cell, out_port))
        × Passes ctx.allow_divider cell out_port b
  unfolding driven nexts
  driven-Among none b h = absurd (none-Among b h)
  driven-Among (some (cell, out_port)) b h =
      (cell, out_port, refl, through_cell-Passes ctx.allow_divider cell out_port b h)

  onward-root :
      (bit : Bit) (r : String)
      → is_net bit ≡ true
      → root_of (onward ctx bit) ≡ some r
      → ClockPath ctx bit r
  unfolding onward
  onward-root bit r is_a_net h =
      let out = driver ctx.circuit ctx.drivers bit in
      let port = input_name (port_of_bit ctx.circuit bit) in
      elim (behind-root (lookup bit ctx.bit_to_clock) port (driven ctx out) r
        (driven-rootless ctx out) h) [
          | inl clocked ↦ declared is_a_net clocked
          | inr (unclocked, named) ↦ input is_a_net unclocked named
        ]

  onward-through :
      (bit b : Bit) (r : String)
      → is_net bit ≡ true
      → Among b (nexts (onward ctx bit))
      → ClockPath ctx b r
      → ClockPath ctx bit r
  unfolding onward
  onward-through bit b r is_a_net among path =
      let out = driver ctx.circuit ctx.drivers bit in
      let port = input_name (port_of_bit ctx.circuit bit) in
      let (unclocked, unnamed, among') =
        behind-Among (lookup bit ctx.bit_to_clock) port (driven ctx out) b among in
      let (cell, out_port, drives, passes) = driven-Among out b among' in
      through cell out_port is_a_net unclocked unnamed drives passes path

resolved-∷-inv :
    (o : Option String) (os : List (Option String)) (r : String)
    → In r (resolved (o ∷ os))
    → (o ≡ some r) ⊎ In r (resolved os)
unfolding resolved contains
resolved-∷-inv none os r h = inr h
resolved-∷-inv (some q) os r h = elim (Bool-cases (r == q)) [
  | inl same ↦ inl (ap some (sym ((string_eq.beq_iff r q).0 same)))
  | inr other ↦ inr (or_right other h)
]

first_resolved-∷-inv :
    (o : Option String) (os : List (Option String)) (r : String)
    → first_resolved (o ∷ os) ≡ some r
    → (o ≡ some r) ⊎ (first_resolved os ≡ some r)
unfolding first_resolved
first_resolved-∷-inv none os r h = inr h
first_resolved-∷-inv (some q) os r h = inl h

module _ (step : Bit → Option String) where
  resolved-In :
      (bs : List Bit) (r : String)
      → In r (resolved (map step bs))
      → (b : Bit) × Among b bs × (step b ≡ some r)
  unfolding resolved contains
  resolved-In [] r h = cc
  resolved-In (b ∷ bs) r h = elim (resolved-∷-inv (step b) (map step bs) r h) [
    | inl here ↦ (b, ground (arith, eq_self b), here)
    | inr later ↦
        let (c, among, found) = resolved-In bs r later in (c, ground (arith, among), found)
  ]

  first_resolved-In :
      (bs : List Bit) (r : String)
      → first_resolved (map step bs) ≡ some r
      → (b : Bit) × Among b bs × (step b ≡ some r)
  unfolding first_resolved contains
  first_resolved-In [] r h = cc
  first_resolved-In (b ∷ bs) r h = elim (first_resolved-∷-inv (step b) (map step bs) r h) [
    | inl here ↦ (b, ground (arith, eq_self b), here)
    | inr later ↦
        let (c, among, found) = first_resolved-In bs r later in (c, ground (arith, among), found)
  ]

  arrive-root :
      (identity : Option Identity) (o : Onward) (r : String)
      → arrive identity step o ≡ some r
      → (root_of o ≡ some r) ⊎ ((b : Bit) × Among b (nexts o) × (step b ≡ some r))
  unfolding arrive nexts root_of contains
  arrive-root identity (ends root) r h = inl h
  arrive-root identity (follows b) r h = inr (b, ground (arith, eq_self b), h)
  arrive-root identity (combines bs) r h =
      inr (resolved-In bs r (pick_combining_root-In identity (resolved (map step bs)) r h))
  arrive-root identity (selects bs) r h = inr (first_resolved-In bs r h)

arrives :
    (ctx : Context) (bit : Bit) (r : String) (step : Bit → Option String)
    → ((b : Bit) → step b ≡ some r → ClockPath ctx b r)
    → is_net bit ≡ true
    → arrive ctx.identity step (onward ctx bit) ≡ some r
    → ClockPath ctx bit r
arrives ctx bit r step further is_a_net h =
    elim (arrive-root step ctx.identity (onward ctx bit) r h) [
      | inl ended ↦ onward-root ctx bit r is_a_net ended
      | inr (b, among, stepped) ↦ onward-through ctx bit b r is_a_net among (further b stepped)
    ]

guarded :
    (a b : Bool) (o : Option String) (r : String)
    → elim (a && not b) [ false ↦ none | true ↦ o ] ≡ some r
    → (a ≡ true) × (o ≡ some r)
guarded true false o r h = (refl, h)
guarded true true o r h = cc
guarded false b o r h = cc

trace-ClockPath :
    (ctx : Context) (depth : ℕ) (seen : List Bit) (bit : Bit) (r : String)
    → trace ctx depth seen bit ≡ some r
    → ClockPath ctx bit r
unfolding trace
trace-ClockPath ctx zero seen bit r h = cc
trace-ClockPath ctx (suc depth) seen bit r h =
    let (is_a_net, h') = guarded (is_net bit) (contains seen bit) _ r h in
    arrives ctx bit r (λ b. trace ctx depth (bit ∷ seen) b)
      (λ b. trace-ClockPath ctx depth (bit ∷ seen) b r) is_a_net h'

-- A root that the walk finds from a bit within any budget is the clock of a real path: a chain of
-- nets from a pin of a generated clock or from an input port to the bit, in which each net is an
-- output of a cell of the clock tree that lets a clock through from the net before.
pub trace_clock_root-ClockPath :
    (ctx : Context) (max_depth : ℕ) (bit : Bit) (r : String)
    → trace_clock_root ctx max_depth bit ≡ some r
    → ClockPath ctx bit r
unfolding trace_clock_root
trace_clock_root-ClockPath ctx max_depth bit r h = trace-ClockPath ctx max_depth [] bit r h
