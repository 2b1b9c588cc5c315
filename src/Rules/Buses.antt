-- ===== src/Rules/Buses.antt =====
-- The rules on a bus in src/rtl_buddy_cdc/rules.py: `check_cdc_004`, and `check_cdc_012` with
-- `_has_dst_to_src_feedback`.
pub mod Cached
use rtl_buddy_cdc.Base.{
  ℕ, zero, suc, String, Bool, true, false, not, ◌&&◌, ◌||◌, Option, none, some, List, [], ◌∷◌, ◌++◌,
  ◌==◌, nat_eq, string_eq, leb, if◌then◌else◌, contains, Dict, lookup, insert,
}
use rtl_buddy_cdc.Sdc.Spec.{unconstrained_sentinel}
use rtl_buddy_cdc.Netlist.{Bit, Module}
use rtl_buddy_cdc.Netlist.Flops.{Flop, flop_name, is_ff_cell}
use rtl_buddy_cdc.Domain.{Crossing, src_name}
use rtl_buddy_cdc.Pulse.{is_in_domain}
use rtl_buddy_cdc.Crossings.Fanout.{nets}
use rtl_buddy_cdc.Rules.{
  Message, unprotected_bus, data_hold, Violation, RuleContext, collect, on_crossing,
}
use rtl_buddy_cdc.Rules.Fanin.{backward_flop_fanin}
use rtl_buddy_cdc.Rules.Bus.{
  is_gated_bus_crossing, is_gray_encoded_source, is_multibit_sync_first_stage,
}
use rtl_buddy_cdc.Rules.Single.{source_among, dst_name}

-- The loop of `_flop_input_fanin_bits` over the pins.
unfoldable pub input_fanin_ports : Bool → Dict String (List Bit) → List Bit
unfolding nets
input_fanin_ports is_ff [] = []
input_fanin_ports is_ff ((port, bits) ∷ ports) =
    let rest = input_fanin_ports is_ff ports in
    if port == "CLK" || port == "Y" || port == "Q" || (is_ff && port == "C")
    then rest
    else nets bits ++ rest

unfoldable pub flop_input_fanin_bits : Flop → List Bit
unfolding input_fanin_ports is_ff_cell
flop_input_fanin_bits f = input_fanin_ports (is_ff_cell f.cell.type) f.cell.connections

-- `{f.cell.name: f for f in flops}`
unfoldable pub flops_by_name : List Flop → Dict String Flop → Dict String Flop
unfolding insert
flops_by_name [] out = out
flops_by_name (f ∷ fs) out = flops_by_name fs (insert (flop_name f) f out)

-- A hop of the feedback walk: the flops seen, those to go on from, and whether the destination's
-- domain was reached, where the source returns at once.
pub record Feedback : Type 0 where
  pub seen : List String
  pub nxt : List Flop
  pub reached : Bool

module _ (ctx : RuleContext) where
  -- A cache holds what it was given for the name, so a hit is the search again.
  unfoldable pub fanin_of : Flop → List String
  unfolding backward_flop_fanin flop_input_fanin_bits
  fanin_of f = backward_flop_fanin ctx.circuit ctx.bit_drivers (flop_input_fanin_bits f)

  unfoldable pub follow : Option Flop → List Flop → List Flop
  follow none nxt = nxt
  follow (some f) nxt = nxt ++ f ∷ []

  unfoldable pub feed_name : Dict String Flop → String → String → String → Feedback → Feedback
  unfolding contains is_in_domain lookup follow
  feed_name by_name src_clock dst_clock name s =
      let t = record s { seen = name ∷ s.seen } in
      if contains s.seen name
      then s
      else (if is_in_domain (lookup name ctx.domains) dst_clock
          then record t { reached = true }
          else (if is_in_domain (lookup name ctx.domains) src_clock
              then record t { nxt = follow (lookup name by_name) t.nxt }
              else t))

  unfoldable pub feed_names : Dict String Flop → String → String → List String → Feedback → Feedback
  unfolding feed_name
  feed_names by_name src_clock dst_clock [] s = s
  feed_names by_name src_clock dst_clock (n ∷ ns) s =
      feed_names by_name src_clock dst_clock ns (feed_name by_name src_clock dst_clock n s)

  unfoldable pub feed_flops : Dict String Flop → String → String → List Flop → Feedback → Feedback
  unfolding feed_names fanin_of
  feed_flops by_name src_clock dst_clock [] s = s
  feed_flops by_name src_clock dst_clock (f ∷ fs) s =
      feed_flops by_name src_clock dst_clock fs
        (feed_names by_name src_clock dst_clock (fanin_of f) s)

  -- The loop over the hops.
  unfoldable pub feed_hops : Dict String Flop → String → String → ℕ → Feedback → Bool
  unfolding feed_flops
  feed_hops by_name src_clock dst_clock zero s = s.reached
  feed_hops by_name src_clock dst_clock (suc hops) s =
      feed_hops by_name src_clock dst_clock hops
        (feed_flops by_name src_clock dst_clock s.nxt (record s { nxt = [] }))

  unfoldable pub feedback_from : Option Flop → String → String → Bool
  unfolding feed_hops flops_by_name
  feedback_from none src_clock dst_clock = false
  feedback_from (some f) src_clock dst_clock =
      feed_hops (flops_by_name ctx.flops []) src_clock dst_clock 6
        (record { seen = flop_name f ∷ []; nxt = f ∷ []; reached = false })

  unfoldable pub has_dst_to_src_feedback : Crossing → Bool
  unfolding feedback_from
  has_dst_to_src_feedback c = feedback_from c.src_flop c.src_clock c.dst_clock

  unfoldable pub encodes_gray : Option Flop → Bool
  unfolding is_gray_encoded_source
  encodes_gray none = false
  encodes_gray (some f) = is_gray_encoded_source ctx f

  unfoldable pub exempt_from_004 : Crossing → Bool
  unfolding source_among is_multibit_sync_first_stage encodes_gray is_gated_bus_crossing
  exempt_from_004 c =
      leb c.width 1
      || source_among ctx.user_grays c.src_flop
      || source_among ctx.user_statics c.src_flop
      || (is_multibit_sync_first_stage ctx c.dst_flop c.dst_clock && encodes_gray c.src_flop)
      || is_gated_bus_crossing ctx c

  unfoldable pub report_004 : Crossing → Option Violation
  unfolding exempt_from_004
  report_004 c =
      if exempt_from_004 c
      then none
      else some (
          on_crossing "CDC-004" "error"
            (unprotected_bus c.src_clock c.dst_clock c.width (src_name c) (dst_name c)) c
            (dst_name c))

  unfoldable pub check_cdc_004 : List Crossing → List Violation
  unfolding collect report_004
  check_cdc_004 = collect report_004

  unfoldable pub exempt_from_012 : Crossing → Flop → Bool
  unfolding is_gated_bus_crossing contains is_gray_encoded_source
  exempt_from_012 c src =
      c.src_clock == unconstrained_sentinel
      || leb c.width 1
      || not (is_gated_bus_crossing ctx c)
      || contains ctx.user_grays (flop_name src)
      || is_gray_encoded_source ctx src
      || contains ctx.user_handshakes (flop_name src)
      || contains ctx.user_handshakes (dst_name c)

  -- The source flop, unless the rule leaves the crossing alone.
  unfoldable pub checked_source : Crossing → Option Flop → Option Flop
  unfolding exempt_from_012
  checked_source c none = none
  checked_source c (some src) = if exempt_from_012 c src then none else some src

  unfoldable pub cached_feedback : Option Bool → Crossing → Bool
  cached_feedback (some known) c = known
  cached_feedback none c = has_dst_to_src_feedback c

  abbrev pub report_012 : Crossing → Flop → Violation
  report_012 c src =
      on_crossing "CDC-012" "warning"
        (data_hold (flop_name src) (dst_name c) c.width c.src_clock c.dst_clock) c (flop_name src)

  -- The loop, with the verdicts on the source flops by their names.
  unfoldable pub check_012 : Dict String Bool → List Crossing → List Violation
  unfolding checked_source
  check_012 cache [] = []
  check_012 cache (c ∷ cs) = elim (checked_source c c.src_flop) [
    | none ↦ check_012 cache cs
    | some src ↦
        let held = cached_feedback (lookup (flop_name src) cache) c in
        let rest = check_012 (insert (flop_name src) held cache) cs in
        if held then rest else report_012 c src ∷ rest
  ]

  unfoldable pub check_cdc_012 : List Crossing → List Violation
  check_cdc_012 = check_012 []
