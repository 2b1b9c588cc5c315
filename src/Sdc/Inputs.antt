-- ===== src/Sdc/Inputs.antt =====
-- `synthesize_unconstrained_inputs` of src/rtl_buddy_cdc/sdc.py.
use rtl_buddy_cdc.Base.{
  String, Bool, true, false, ◌&&◌, ◌||◌, Option, none, some, List, [], ◌∷◌, ◌++◌, ◌==◌, ◌≡◌, inl,
  inr, refl, ◌∙◌, arith, string_eq, any, contains, contains-append, if◌then◌else◌, insert,
  lookup-insert, values, Within, Bool-cases, Option-cases, eq_self,
}
use rtl_buddy_cdc.Netlist.{Port, Module}
use rtl_buddy_cdc.Sdc.Spec.{ClockSpec, clock_for_port, unconstrained_sentinel}

abbrev pub is_untyped : Option String → Bool
is_untyped none = true
is_untyped (some clock) = false

any_input :
    (ports : List Port) (port : Port)
    → Within port ports
    → (port.direction == "input") ≡ true
    → any ports (λ p. p.direction == "input" && port.name == p.name) ≡ true
unfolding any
any_input [] port within input = absurd within
any_input (p ∷ ports) port (inl same) input = rw (← same) (rw (input, eq_self port.name) refl)
any_input (p ∷ ports) port (inr later) input = rw (any_input ports port later input) (ground arith)

-- The spec that the source mutates, and the names that got the sentinel.
abbrev pub Synthesis : Type 0 → Type 0
Synthesis Float = ClockSpec Float × List String

module _ {Float : Type 0} where
  unfoldable pub type_port : String → Synthesis Float → Synthesis Float
  type_port name (spec, names) = (
    record spec { port_clock = insert name unconstrained_sentinel spec.port_clock },
    names ++ name ∷ [],
  )

  unfoldable pub synthesize_port : Port → Synthesis Float → Synthesis Float
  unfolding type_port clock_for_port
  synthesize_port port (spec, names) =
      if port.direction == "input"
      then elim (clock_for_port spec port.name) [
        | some clock ↦ (spec, names)
        | none ↦ type_port port.name (spec, names)
      ]
      else (spec, names)

  unfoldable pub synthesize_ports : List Port → Synthesis Float → Synthesis Float
  unfolding synthesize_port
  synthesize_ports [] s = s
  synthesize_ports (port ∷ ports) s = synthesize_ports ports (synthesize_port port s)

  unfoldable pub synthesize_unconstrained_inputs : ClockSpec Float → Module → Synthesis Float
  unfolding synthesize_ports
  synthesize_unconstrained_inputs spec m = synthesize_ports (values m.ports) (spec, [])

  clock_for_port-insert :
      (spec : ClockSpec Float) (port name clock : String)
      → clock_for_port (record spec { port_clock = insert port clock spec.port_clock }) name
        ≡ (if name == port then some clock else clock_for_port spec name)
  unfolding clock_for_port
  clock_for_port-insert spec port name clock = elim (Bool-cases (name == port)) [
    | inl same ↦ rw (clock_for_port, lookup-insert port name clock spec.port_clock, same) refl
    | inr other ↦ rw (clock_for_port, lookup-insert port name clock spec.port_clock, other) refl
  ]

  -- An input port has that name, and the spec knows no clock of it.
  abbrev pub is_untyped_input : ClockSpec Float → List Port → String → Bool
  is_untyped_input spec ports name =
      is_untyped (clock_for_port spec name)
      && any ports (λ p. p.direction == "input" && name == p.name)

  -- What the ports leave: exactly the names of their untyped inputs are added, with the sentinel for
  -- their clock, and no other name's clock changes.
  abbrev Types : List Port → Synthesis Float → Synthesis Float → String → Type 0
  Types ports before after name =
      (contains after.1 name ≡ (contains before.1 name || is_untyped_input before.0 ports name))
      × (clock_for_port after.0 name ≡ (
          if is_untyped_input before.0 ports name
          then some unconstrained_sentinel
          else clock_for_port before.0 name))

  synthesize_port-Types :
      (port : Port) (s : Synthesis Float) (name : String)
      → Types (port ∷ []) s (synthesize_port port s) name
  unfolding synthesize_port any type_port contains
  synthesize_port-Types port (spec, names) name = elim (Bool-cases (port.direction == "input")) [
    | inr output ↦ rw output (ground arith, ground arith)
    | inl input ↦ elim (Option-cases (clock_for_port spec port.name)) [
      | inr (clock, typed) ↦ elim (Bool-cases (name == port.name)) [
        | inr other ↦ rw (input, typed, other) (ground arith, ground arith)
        | inl same ↦
            rw (input, typed, same, (string_eq.beq_iff name port.name).0 same, typed)
              (ground arith, ground arith)
      ]
      | inl untyped ↦ elim (Bool-cases (name == port.name)) [
        | inr other ↦ (
          rw (input, untyped, other)
              (contains-append names (port.name ∷ []) name ∙ rw other (ground arith)),
          rw (input, untyped, other)
              (clock_for_port-insert spec port.name name unconstrained_sentinel
                ∙ rw other (ground arith)),
        )
        | inl same ↦
            let e = (string_eq.beq_iff name port.name).0 same in
            (
              rw (input, untyped, e, untyped)
                  (contains-append names (port.name ∷ []) port.name
                    ∙ rw (eq_self port.name) (ground arith)),
              rw (input, untyped, e, untyped)
                  (clock_for_port-insert spec port.name port.name unconstrained_sentinel
                    ∙ rw (eq_self port.name) (ground arith)),
            )
      ]
    ]
  ]

  synthesize_ports-Types :
      (ports : List Port) (s : Synthesis Float) (name : String)
      → Types ports s (synthesize_ports ports s) name
  unfolding synthesize_ports any
  synthesize_ports-Types [] (spec, names) name = (ground arith, ground arith)
  synthesize_ports-Types (port ∷ ports) s name =
      let (listed, clocked) = synthesize_ports-Types ports (synthesize_port port s) name in
      let (listed', clocked') = synthesize_port-Types port s name in (ground arith, ground arith)

  -- The synthesis returns exactly the names of the input ports that had no clock; each of these has
  -- the sentinel for its clock afterwards, and every other name has the clock that it had, or none.
  pub synthesize_unconstrained_inputs-exactly :
      (spec : ClockSpec Float) (m : Module) (name : String)
      → (contains (synthesize_unconstrained_inputs spec m).1 name
          ≡ is_untyped_input spec (values m.ports) name)
        × (clock_for_port (synthesize_unconstrained_inputs spec m).0 name ≡ (
            if is_untyped_input spec (values m.ports) name
            then some unconstrained_sentinel
            else clock_for_port spec name))
  unfolding synthesize_unconstrained_inputs contains
  synthesize_unconstrained_inputs-exactly spec m name =
      synthesize_ports-Types (values m.ports) (spec, []) name

  -- Afterwards every input port of the module has a clock.
  pub synthesize_unconstrained_inputs-typed :
      (spec : ClockSpec Float) (m : Module) (port : Port)
      → Within port (values m.ports)
      → (port.direction == "input") ≡ true
      → (clock : String) × (clock_for_port (synthesize_unconstrained_inputs spec m).0 port.name
          ≡ some clock)
  synthesize_unconstrained_inputs-typed spec m port within input =
      let clocked = (synthesize_unconstrained_inputs-exactly spec m port.name).1 in
      let found = any_input (values m.ports) port within input in
      elim (Option-cases (clock_for_port spec port.name)) [
        | inl untyped ↦ (unconstrained_sentinel, clocked ∙ rw (untyped, found) refl)
        | inr (clock, typed) ↦ (clock, clocked ∙ rw typed refl)
      ]
