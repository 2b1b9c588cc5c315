-- ===== src/Rules/Single.antt =====
-- The rules on a crossing of one bit in src/rtl_buddy_cdc/rules.py: `check_cdc_001`, `check_cdc_002`,
-- `check_cdc_003` and `check_cdc_014`.
use rtl_buddy_cdc.Base.{
  ℕ, String, Bool, true, false, not, ◌&&◌, ◌||◌, Option, none, some, List, [], ◌++◌, ◌==◌, nat_eq,
  string_eq, ltb, leb, if◌then◌else◌, contains, any,
}
use rtl_buddy_cdc.Sdc.Spec.{unconstrained_sentinel}
use rtl_buddy_cdc.Sdc.Tokenizer.{chars, join}
use rtl_buddy_cdc.Netlist.{Bit, bit_eq, is_net}
use rtl_buddy_cdc.Netlist.Flops.{Flop, flop_name}
use rtl_buddy_cdc.Domain.{Crossing, src_name}
use rtl_buddy_cdc.Rules.{
  unsynchronized, insufficient_depth, logic_before_synchronizer, logic_between_stages, Violation,
  RuleContext, collect, on_crossing,
}
use rtl_buddy_cdc.Rules.ResetMux.{constant_leg_reset_mux_data_bits}
use rtl_buddy_cdc.Rules.Chain.{effective_sync_chain_depth, chain_has_inter_stage_comb}

-- The source is a flop, and of the named ones.
unfoldable pub source_among : List String → Option Flop → Bool
unfolding contains
source_among names none = false
source_among names (some f) = contains names (flop_name f)

-- `src_desc`
unfoldable pub describe_source : Crossing → Option Flop → String
describe_source c (some f) = join (chars "flop " ++ chars (flop_name f))
describe_source c none = src_name c

abbrev pub dst_name : Crossing → String
dst_name c = flop_name c.dst_flop

module _ (ctx : RuleContext) where
  abbrev pub chain_depth : Crossing → ℕ
  chain_depth c = effective_sync_chain_depth ctx c.dst_flop c.dst_clock

  -- The rule leaves the crossing alone whatever the depth of its chain is.
  unfoldable pub exempt_from_001 : Crossing → Bool
  unfolding source_among contains
  exempt_from_001 c =
      not (c.width == 1)
      || c.src_clock == unconstrained_sentinel
      || contains ctx.user_syncs (dst_name c)
      || contains ctx.user_handshakes (dst_name c)
      || source_among ctx.user_statics c.src_flop

  -- A follow-on flop behind a gate leaves the crossing to CDC-014.
  unfoldable pub report_001 : Crossing → Option Violation
  unfolding exempt_from_001 effective_sync_chain_depth chain_has_inter_stage_comb describe_source
  report_001 c =
      if not (exempt_from_001 c) && ltb (chain_depth c) 2
      then (elim (chain_has_inter_stage_comb ctx c.dst_flop) [
        | some nxt ↦ none
        | none ↦ some (
            on_crossing "CDC-001" "error"
              (unsynchronized c.src_clock c.dst_clock (describe_source c c.src_flop) (dst_name c)
                (chain_depth c))
              c (dst_name c))
      ])
      else none

  unfoldable pub check_cdc_001 : List Crossing → List Violation
  unfolding collect report_001
  check_cdc_001 = collect report_001

  unfoldable pub exempt_from_002 : Crossing → Bool
  unfolding source_among contains
  exempt_from_002 c =
      not (c.width == 1)
      || c.src_clock == unconstrained_sentinel
      || contains ctx.user_syncs (dst_name c)
      || source_among ctx.user_statics c.src_flop

  unfoldable pub report_002 : ℕ → Crossing → Option Violation
  unfolding exempt_from_002 effective_sync_chain_depth
  report_002 required_depth c =
      if not (exempt_from_002 c) && leb 2 (chain_depth c) && ltb (chain_depth c) required_depth
      then some (
          on_crossing "CDC-002" "warning"
            (insufficient_depth c.src_clock c.dst_clock (chain_depth c) required_depth (dst_name c))
            c (dst_name c))
      else none

  unfoldable pub check_cdc_002 : ℕ → List Crossing → List Violation
  unfolding collect report_002
  check_cdc_002 required_depth crossings =
      if leb required_depth 2 then [] else collect (report_002 required_depth) crossings

  unfoldable pub enters_leg : Option (List Bit) → Option Flop → Bool
  unfolding any is_net contains
  enters_leg (some data_leg) (some src) = any src.q (λ qb. is_net qb && contains data_leg qb)
  enters_leg _ _ = false

  unfoldable pub crossing_enters_through_reset_mux_only : Crossing → Bool
  unfolding enters_leg constant_leg_reset_mux_data_bits
  crossing_enters_through_reset_mux_only c =
      enters_leg
        (constant_leg_reset_mux_data_bits c.dst_flop ctx.circuit ctx.bit_drivers ctx.reader_counts)
        c.src_flop

  -- `Crossing.is_port_sourced` of src/rtl_buddy_cdc/domain.py
  unfoldable pub is_port_sourced : Crossing → Bool
  is_port_sourced c = elim c.src_port [ none ↦ false | some port ↦ true ]

  unfoldable pub exempt_from_003 : Crossing → Bool
  unfolding source_among contains crossing_enters_through_reset_mux_only is_port_sourced
  exempt_from_003 c =
      not (c.width == 1)
      || ltb c.min_hops 1
      || is_port_sourced c
      || contains ctx.user_syncs (dst_name c)
      || source_among ctx.user_statics c.src_flop
      || crossing_enters_through_reset_mux_only c

  unfoldable pub report_003 : Crossing → Option Violation
  unfolding exempt_from_003 effective_sync_chain_depth
  report_003 c =
      if not (exempt_from_003 c) && not (ltb (chain_depth c) 2)
      then some (
          on_crossing "CDC-003" "error"
            (logic_before_synchronizer c.src_clock c.dst_clock c.min_hops (src_name c) (dst_name c))
            c (dst_name c))
      else none

  unfoldable pub check_cdc_003 : List Crossing → List Violation
  unfolding collect report_003
  check_cdc_003 = collect report_003

  unfoldable pub exempt_from_014 : Crossing → Bool
  unfolding contains
  exempt_from_014 c =
      not (c.width == 1)
      || contains ctx.user_syncs (dst_name c)
      || contains ctx.user_handshakes (dst_name c)

  unfoldable pub report_014 : Crossing → Option Violation
  unfolding exempt_from_014 chain_has_inter_stage_comb
  report_014 c =
      if not (exempt_from_014 c)
      then (elim (chain_has_inter_stage_comb ctx c.dst_flop) [
        | none ↦ none
        | some nxt ↦ some (
            on_crossing "CDC-014" "error"
              (logic_between_stages c.src_clock c.dst_clock (dst_name c) (flop_name nxt)) c
              (dst_name c))
      ])
      else none

  unfoldable pub check_cdc_014 : List Crossing → List Violation
  unfolding collect report_014
  check_cdc_014 = collect report_014
