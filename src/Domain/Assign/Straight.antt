-- ===== src/Domain/Assign/Straight.antt =====
-- Flops that `assign_domains` (src/rtl_buddy_cdc/domain.py) never leaves without a domain: those with a
-- root straight behind buffers and inverters.
use rtl_buddy_cdc.Base.{
  ℕ, zero, suc, ◌<◌, String, Bool, true, false, ◌||◌, Option, none, some, List, [], ◌∷◌, ◌==◌, ◌≡◌,
  inl, inr, refl, sym, ap, ◌∙◌, arith, string_eq, Dict, All, All-map, contains, lookup, values,
  Bool-cases,
}
use mathlib.Core.Path.{subst}
use rtl_buddy_cdc.Netlist.{Bit, bit_eq, is_net, Cell, Module, port_of_bit}
use rtl_buddy_cdc.Netlist.Flops.{pin}
use rtl_buddy_cdc.Netlist.Drivers.{bit_drivers, driver}
use rtl_buddy_cdc.Netlist.Drivers.Pins.{driving_pin, driver_of-driving_pin}
use rtl_buddy_cdc.Domain.Combine.{Identity}
use rtl_buddy_cdc.Domain.Trace.{
  buffer_types, Onward, follows, follow_or, through_cell, Context, input_name, driven, onward,
  behind, arrive, trace, trace_clock_root,
}
use rtl_buddy_cdc.Domain.Assign.{build_bit_to_clock, domain_context}
use rtl_buddy_cdc.Domain.Assign.Pins.{declared_clock, build_bit_to_clock-declared_clock}

abbrev is_some : Option String → Bool
is_some none = false
is_some (some name) = true

-- A hop that has a root arrives with it.
arrive-root :
    (identity : Option Identity) (walk : Bit → Option String) (d i : Option String) (o : Onward)
    → (is_some d || is_some i) ≡ true
    → (root : String) × (arrive identity walk (behind d i o) ≡ some root)
unfolding arrive behind
arrive-root identity walk (some c) i o h = (c, refl)
arrive-root identity walk none (some name) o h = (name, refl)
arrive-root identity walk none none o h = cc

module _ (m : Module) (pin_clocks : Dict String String) where
  abbrev pub input_of : Bit → Option String
  input_of bit = input_name (port_of_bit m bit)

  -- The net is itself that of a generated clock's pin or of an input port.
  abbrev pub is_root : Bit → Bool
  is_root bit = is_some (declared_clock m pin_clocks bit) || is_some (input_of bit)

  -- So many buffers and inverters lead from the net of a root to the net.
  pub data Straight : ℕ → Bit → Type 0 where
    at_root : {bit : Bit} → is_net bit ≡ true → is_root bit ≡ true → Straight 0 bit
    buffered :
        {n : ℕ} {bit b : Bit}
        → (c : Cell) (name out_port : String) (bs : List Bit) → is_net bit ≡ true
        → is_root bit ≡ false
        → driving_pin (values m.cells) bit ≡ some (name, out_port)
        → lookup name m.cells ≡ some c
        → contains buffer_types c.type ≡ true
        → pin c "A" ≡ b ∷ bs
        → Straight n b
        → Straight (suc n) bit

  -- There is one number of hops only.
  next_bit :
      {b b' : Bit} (bit : Bit) (c c' : Cell) (name name' out out' : String) (bs bs' : List Bit)
      → driving_pin (values m.cells) bit ≡ some (name, out)
      → driving_pin (values m.cells) bit ≡ some (name', out')
      → lookup name m.cells ≡ some c
      → lookup name' m.cells ≡ some c'
      → pin c "A" ≡ b ∷ bs
      → pin c' "A" ≡ b' ∷ bs'
      → b ≡ b'
  next_bit bit c c' name name' out out' bs bs' by by' is is' fst fst' =
      let same : name ≡ name' = cc (sym by ∙ by') in
      let cells : c ≡ c' = cc (sym is ∙ (ap (λ n. lookup n m.cells) same ∙ is')) in
      cc (sym fst ∙ (ap (λ x. pin x "A") cells ∙ fst'))

  Straight-unique : {n k : ℕ} {b : Bit} → Straight n b → Straight k b → n ≡ k
  Straight-unique (at_root net at) (at_root net' at') = refl
  Straight-unique (at_root net at) (buffered c name out bs net' off by is buf fst s) =
      cc (sym at ∙ off)
  Straight-unique (buffered c name out bs net off by is buf fst s) (at_root net' at) =
      cc (sym at ∙ off)
  Straight-unique (buffered {bit = bit} c name out bs net off by is buf fst s)
        (buffered {n = k} c' name' out' bs' net' off' by' is' buf' fst' s') =
      let same = next_bit bit c c' name name' out out' bs bs' by by' is is' fst fst' in
      ap suc (Straight-unique s (subst (Straight k) (sym same) s'))

  -- Every net seen has more hops to go.
  Fresh : ℕ → List Bit → Type 0
  Fresh n seen = All (λ b. (k : ℕ) → Straight k b → n < k) seen

  Fresh-contains :
      (n : ℕ) (seen : List Bit) (bit : Bit)
      → Fresh n seen
      → Straight n bit
      → contains seen bit ≡ false
  unfolding contains Fresh
  Fresh-contains n [] bit fresh s = refl
  Fresh-contains n (x ∷ seen) bit (more, fresh) s = elim (Bool-cases (bit == x)) [
    | inr other ↦ rw other (Fresh-contains n seen bit fresh s)
    | inl same ↦
        absurd (omega (arith, more n (subst (Straight n) ((bit_eq.beq_iff bit x).0 same) s)))
  ]

  Fresh-step :
      (n : ℕ) (seen : List Bit) (bit : Bit)
      → Fresh (suc n) seen
      → Straight (suc n) bit
      → Fresh n (bit ∷ seen)
  unfolding Fresh
  Fresh-step n seen bit fresh s = (
    (λ k s'. omega (arith, Straight-unique s s')),
    All-map (λ b more k s'. omega (arith, more k s')) seen fresh,
  )

  module _ (clock_for_port : Option (String → Option String)) where
    abbrev pub context : Context
    context = domain_context m pin_clocks clock_for_port

    through_buffer :
        (c : Cell) (out_port : String) (b : Bit) (bs : List Bit)
        → contains buffer_types c.type ≡ true
        → pin c "A" ≡ b ∷ bs
        → driven context (some (c, out_port)) ≡ follows b
    unfolding driven through_cell follow_or
    through_buffer c out_port b bs buf fst = rw (buf, fst, follow_or) refl

    off_root :
        (x y : Option String) (o : Onward) → (is_some x || is_some y) ≡ false → behind x y o ≡ o
    unfolding behind
    off_root none none o h = refl
    off_root none (some y) o h = cc
    off_root (some x) y o h = cc

    trace-Straight :
        (depth n : ℕ) (seen : List Bit) (bit : Bit)
        → n < depth
        → Fresh n seen
        → Straight n bit
        → (root : String) × (trace context depth seen bit ≡ some root)
    unfolding trace onward
    trace-Straight zero n seen bit le fresh s = absurd (omega (arith, le))
    trace-Straight (suc depth) n seen bit le fresh (at_root net at) =
        let new = Fresh-contains n seen bit fresh (at_root net at) in
        let index = build_bit_to_clock-declared_clock m pin_clocks bit in
        let (root, found) =
          arrive-root context.identity (λ b. trace context depth (bit ∷ seen) b)
            (lookup bit (build_bit_to_clock m pin_clocks)) (input_of bit)
            (driven context (driver m (bit_drivers m) bit)) (rw index at) in
        (root, rw (trace, net, new) found)
    trace-Straight (suc depth) (suc n) seen bit le fresh
          (buffered {b = b} c name out bs net off by is buf fst s) =
        let way = buffered c name out bs net off by is buf fst s in
        let new = Fresh-contains (suc n) seen bit fresh way in
        let index = build_bit_to_clock-declared_clock m pin_clocks bit in
        let onto =
          off_root (lookup bit (build_bit_to_clock m pin_clocks)) (input_of bit)
            (driven context (driver m (bit_drivers m) bit)) (rw index off)
          ∙ (ap (driven context) (driver_of-driving_pin m bit c name out by is)
              ∙ through_buffer c out b bs buf fst) in
        let (root, found) =
          trace-Straight depth n (bit ∷ seen) b (omega (arith, le))
            (Fresh-step n seen bit fresh way) s in
        (root, rw (trace, net, new) (rw onto (unfold arrive in found)))

    -- Within the budget the walk finds a root from there.
    pub trace_clock_root-Straight :
        (max_depth n : ℕ) (bit : Bit)
        → n < max_depth
        → Straight n bit
        → (root : String) × (trace_clock_root context max_depth bit ≡ some root)
    unfolding trace_clock_root Fresh
    trace_clock_root-Straight max_depth n bit le s = trace-Straight max_depth n [] bit le tt s
