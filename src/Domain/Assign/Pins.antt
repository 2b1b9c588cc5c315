-- ===== src/Domain/Assign/Pins.antt =====
-- Which clock the pins of generated clocks give a net in `_build_bit_to_clock` of
-- src/rtl_buddy_cdc/domain.py.
use rtl_buddy_cdc.Base.{
  String, ◌&&◌, Option, none, some, List, [], ◌∷◌, ◌==◌, ◌≡◌, inl, inr, refl, ◌∙◌, arith, string_eq,
  if◌then◌else◌, contains, Dict, lookup, insert, lookup-insert, Bool-cases, Option-cases,
}
use rtl_buddy_cdc.Netlist.{Bit, bit_eq, is_net, Module}
use rtl_buddy_cdc.Domain.Assign.{to_netname, claim_bits, bits_of, claim_pins, build_bit_to_clock}

abbrev first_of : Option String → Option String → Option String
first_of (some c) later = some c
first_of none later = later

-- The clock of the first pin, in the order of the SDC, on whose net the bit stands.
pub declared_clock : Module → Dict String String → Bit → Option String
declared_clock m [] b = none
declared_clock m ((pin_path, clock) ∷ pins) b =
    if is_net b && contains (bits_of (lookup (to_netname pin_path) m.netnames)) b
    then some clock
    else declared_clock m pins b

lookup-claim_bits :
    (clock : String) (bits : List Bit) (out : Dict Bit String) (b : Bit)
    → lookup b (claim_bits clock bits out)
      ≡ first_of (lookup b out) (if is_net b && contains bits b then some clock else none)
unfolding claim_bits contains
lookup-claim_bits clock [] out b = elim (Option-cases (lookup b out)) [
  | inl e ↦ ground (arith, e)
  | inr (c, e) ↦ rw e refl
]
lookup-claim_bits clock (x ∷ bits) out b = elim (Bool-cases (is_net x)) [
  | inr const ↦ elim (Bool-cases (b == x)) [
    | inl same ↦
        ground (arith, const, same, (bit_eq.beq_iff b x).0 same, lookup-claim_bits clock bits out b)
    | inr other ↦ ground (arith, const, other, lookup-claim_bits clock bits out b)
  ]
  | inl free ↦ elim (Option-cases (lookup x out)) [
    | inr (c, taken) ↦ elim (Bool-cases (b == x)) [
      | inl same ↦ ground (
        arith,
        free,
        taken,
        same,
        (bit_eq.beq_iff b x).0 same,
        lookup-claim_bits clock bits out b,
      )
      | inr other ↦ ground (arith, free, taken, other, lookup-claim_bits clock bits out b)
    ]
    | inl new ↦ elim (Bool-cases (b == x)) [
      | inl same ↦ ground (
        arith,
        free,
        new,
        same,
        (bit_eq.beq_iff b x).0 same,
        lookup-insert x b clock out,
        lookup-claim_bits clock bits (insert x clock out) b,
      )
      | inr other ↦ ground (
        arith,
        free,
        new,
        other,
        lookup-insert x b clock out,
        lookup-claim_bits clock bits (insert x clock out) b,
      )
    ]
  ]
]

lookup-claim_pins :
    (m : Module) (pins : Dict String String) (out : Dict Bit String) (b : Bit)
    → lookup b (claim_pins m pins out) ≡ first_of (lookup b out) (declared_clock m pins b)
unfolding claim_pins declared_clock
lookup-claim_pins m [] out b = elim (Option-cases (lookup b out)) [
  | inl e ↦ rw e refl
  | inr (c, e) ↦ rw e refl
]
lookup-claim_pins m ((pin_path, clock) ∷ pins) out b =
    let bits = bits_of (lookup (to_netname pin_path) m.netnames) in
    lookup-claim_pins m pins (claim_bits clock bits out) b ∙ (elim (Option-cases (lookup b out)) [
      | inr (c, e) ↦ rw (lookup-claim_bits clock bits out b, e) refl
      | inl e ↦ elim (Bool-cases (is_net b && contains bits b)) [
        | inl stands ↦ rw (lookup-claim_bits clock bits out b, e, stands) refl
        | inr absent ↦ rw (lookup-claim_bits clock bits out b, e, absent) refl
      ]
    ])

-- The index gives every bit the clock that the pins declare, and no other bit a clock.
pub build_bit_to_clock-declared_clock :
    (m : Module) (pins : Dict String String) (b : Bit)
    → lookup b (build_bit_to_clock m pins) ≡ declared_clock m pins b
unfolding build_bit_to_clock lookup
build_bit_to_clock-declared_clock m pins b = lookup-claim_pins m pins [] b
