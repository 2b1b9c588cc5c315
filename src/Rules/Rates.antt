-- ===== src/Rules/Rates.antt =====
-- The rules of src/rtl_buddy_cdc/rules.py on events that a slower clock can miss: `check_cdc_009` and
-- `check_cdc_013`. A period is a Python float: its type is the parameter `Float`, and the test
-- `src.period * PULSE_FACTOR >= dst.period` is the parameter `covers`. The findings leave the periods
-- out of their text.
use rtl_buddy_cdc.Base.{
  String, Bool, true, false, not, ◌&&◌, Option, none, some, List, [], ◌∷◌, ◌==◌, nat_eq, string_eq,
  if◌then◌else◌, contains, Dict, lookup,
}
use rtl_buddy_cdc.Sdc.Spec.{Clock, ClockSpec, unconstrained_sentinel}
use rtl_buddy_cdc.Netlist.{Bit}
use rtl_buddy_cdc.Netlist.Flops.{Flop, flop_name, pin}
use rtl_buddy_cdc.Domain.{Crossing}
use rtl_buddy_cdc.Pulse.{PulseShape, classify_d_pin_shape}
use rtl_buddy_cdc.Rules.{short_pulse, event_loss, Violation, RuleContext, collect, on_crossing}
use rtl_buddy_cdc.Rules.Recovery.{has_xor_tail_pulse_recovery, is_pulse_synchronizer_source}
use rtl_buddy_cdc.Rules.Single.{dst_name}

module _ {Float : Type 0} (covers : Float → Float → Bool) (ctx : RuleContext) where
  -- Both clocks are declared, and a pulse of one cycle of the first may be too short for the second.
  unfoldable pub is_faster : Option (Clock Float) → Option (Clock Float) → Bool
  is_faster (some src) (some dst) = not (covers src.period dst.period)
  is_faster _ _ = false

  -- The source flop of a crossing of one bit into a slower clock.
  unfoldable pub fast_source : Dict String (Clock Float) → Crossing → Option Flop
  unfolding is_faster lookup
  fast_source clocks c =
      if not (c.src_clock == unconstrained_sentinel)
        && c.width == 1
        && is_faster (lookup c.src_clock clocks) (lookup c.dst_clock clocks)
      then c.src_flop
      else none

  abbrev is_pulse : PulseShape → Bool
  is_pulse PulseShape.pulse = true
  is_pulse PulseShape.other = false

  unfoldable pub pulses_on : Crossing → List Bit → Bool
  unfolding classify_d_pin_shape
  pulses_on c (d ∷ []) = is_pulse (
      classify_d_pin_shape
        (record {
          src_clock = c.src_clock;
          circuit = ctx.circuit;
          pulse_drivers = ctx.bit_drivers;
          flop_domains = ctx.domains;
        })
        d)
  pulses_on c _ = false

  unfoldable pub report_009 : Dict String (Clock Float) → Crossing → Option Violation
  unfolding fast_source pulses_on pin
  report_009 clocks c = elim (fast_source clocks c) [
    | none ↦ none
    | some src ↦
        if pulses_on c (pin src.cell "D")
        then some (
            on_crossing "CDC-009" "warning"
              (short_pulse (flop_name src) (dst_name c) c.src_clock c.dst_clock) c (flop_name src))
        else none
  ]

  unfoldable pub check_cdc_009 : Option (ClockSpec Float) → List Crossing → List Violation
  unfolding collect report_009
  check_cdc_009 none crossings = []
  check_cdc_009 (some spec) crossings = collect (report_009 spec.clocks) crossings

  unfoldable pub report_013 : Dict String (Clock Float) → Crossing → Option Violation
  unfolding fast_source contains is_pulse_synchronizer_source has_xor_tail_pulse_recovery
  report_013 clocks c = elim (fast_source clocks c) [
    | none ↦ none
    | some src ↦
        if not (contains ctx.user_handshakes (flop_name src))
          && is_pulse_synchronizer_source ctx src
          && not (has_xor_tail_pulse_recovery ctx c.dst_flop c.dst_clock)
        then some (
            on_crossing "CDC-013" "warning"
              (event_loss (flop_name src) (dst_name c) c.src_clock c.dst_clock) c (flop_name src))
        else none
  ]

  unfoldable pub check_cdc_013 : Option (ClockSpec Float) → List Crossing → List Violation
  unfolding collect report_013
  check_cdc_013 none crossings = []
  check_cdc_013 (some spec) crossings = collect (report_013 spec.clocks) crossings
