-- ===== src/Domain/Assign.antt =====
-- `assign_domains` of src/rtl_buddy_cdc/domain.py, with `_build_bit_to_clock` and
-- `_clock_identity_fn`.
pub mod Pins
pub mod Straight
pub mod Clocked
use mathlib.Core.Option.{get_or}
use rtl_buddy_cdc.Base.{
  ℕ, String, true, not, Option, none, some, List, [], ◌∷◌, ◌==◌, string_eq, if◌then◌else◌, contains,
  Dict, lookup, insert, values,
}
use rtl_buddy_cdc.Sdc.Tokenizer.{is}
use rtl_buddy_cdc.Sdc.Spec.{unconstrained_sentinel}
use rtl_buddy_cdc.Netlist.{Bit, bit_eq, is_net, Module, Netname}
use rtl_buddy_cdc.Netlist.Flops.{Flop, find_flops}
use rtl_buddy_cdc.Netlist.Drivers.{bit_drivers}
use rtl_buddy_cdc.Domain.{FlopDomain}
use rtl_buddy_cdc.Domain.Combine.{Identity}
use rtl_buddy_cdc.Domain.Trace.{Context, trace_clock_root}

-- `pin_path.replace("/", ".")`
unfoldable pub to_netname : String → String
to_netname String.[] = String.[]
to_netname (String.◌∷◌ c s) = String.◌∷◌ (if is c b'/' then "." else c) (to_netname s)

-- `out.setdefault(b, clk_name)` for every net of the list.
unfoldable pub claim_bits : String → List Bit → Dict Bit String → Dict Bit String
claim_bits clock [] out = out
claim_bits clock (b ∷ bs) out =
    claim_bits clock bs
      (if is_net b then elim (lookup b out) [ none ↦ insert b clock out | some c ↦ out ] else out)

bits_of : Option Netname → List Bit
bits_of none = []
bits_of (some nn) = nn.bits

unfoldable pub claim_pins : Module → Dict String String → Dict Bit String → Dict Bit String
unfolding claim_bits bits_of to_netname
claim_pins m [] out = out
claim_pins m ((pin_path, clock) ∷ pins) out =
    claim_pins m pins (claim_bits clock (bits_of (lookup (to_netname pin_path) m.netnames)) out)

unfoldable pub build_bit_to_clock : Module → Dict String String → Dict Bit String
unfolding claim_pins
build_bit_to_clock m pin_clocks = claim_pins m pin_clocks []

abbrev generated_identity : List String → String → Option String
generated_identity generated root = if contains generated root then some root else none

-- The function that `_clock_identity_fn` returns.
unfoldable pub clock_identity : Option (String → Option String) → List String → Identity
clock_identity none generated root = generated_identity generated root
clock_identity (some clock_for_port) generated root = elim (clock_for_port root) [
  | none ↦ generated_identity generated root
  | some named ↦
      if not (named == unconstrained_sentinel)
      then some named
      else generated_identity generated root
]

-- The name of a root by the SDC, where it has one.
unfoldable pub canonical : Option (String → Option String) → String → String
canonical none root = root
canonical (some clock_for_port) root = get_or (clock_for_port root) root

unfoldable pub flop_domain : Context → Option (String → Option String) → ℕ → Flop → FlopDomain
unfolding canonical
flop_domain ctx clock_for_port max_depth f = record {
  flop = f;
  clock = elim (trace_clock_root ctx max_depth f.clk) [
    | none ↦ none
    | some root ↦ some (canonical clock_for_port root)
  ];
}

unfoldable pub domains_of :
    Context → Option (String → Option String) → ℕ → List Flop → List FlopDomain
unfolding flop_domain
domains_of ctx clock_for_port max_depth [] = []
domains_of ctx clock_for_port max_depth (f ∷ fs) =
    flop_domain ctx clock_for_port max_depth f ∷ domains_of ctx clock_for_port max_depth fs

abbrev pub domain_context : Module → Dict String String → Option (String → Option String) → Context
domain_context m pin_clocks clock_for_port =
    let bit_to_clock = build_bit_to_clock m pin_clocks in
    record {
      circuit = m;
      drivers = bit_drivers m;
      bit_to_clock = bit_to_clock;
      allow_divider = true;
      identity = some (clock_identity clock_for_port (values bit_to_clock));
    }

-- An absent `pin_clocks` is the empty one.
unfoldable pub assign_domains :
    Module → Dict String String → Option (String → Option String) → ℕ → List FlopDomain
unfolding domains_of
assign_domains m pin_clocks clock_for_port max_depth =
    domains_of (domain_context m pin_clocks clock_for_port) clock_for_port max_depth (find_flops m)
