-- ===== src/Rules/Verdict.antt =====
-- `crossing_synchronizer` of src/rtl_buddy_cdc/rules.py: the scheme that protects a crossing, for the
-- domain map.
pub mod Silent
pub mod Renamed
use rtl_buddy_cdc.Base.{
  ℕ, String, Bool, true, false, ◌&&◌, ◌||◌, Option, none, some, ◌==◌, nat_eq, string_eq, ltb,
  if◌then◌else◌, contains,
}
use rtl_buddy_cdc.Netlist.Flops.{Flop, flop_name}
use rtl_buddy_cdc.Domain.{Crossing}
use rtl_buddy_cdc.Rules.{RuleContext}
use rtl_buddy_cdc.Rules.Bus.{is_gated_bus_crossing, is_multibit_sync_first_stage}
use rtl_buddy_cdc.Rules.Single.{source_among, dst_name, chain_depth}
use rtl_buddy_cdc.Rules.Buses.{encodes_gray, has_dst_to_src_feedback}
use rtl_buddy_cdc.Rules.Recovery.{has_xor_tail_pulse_recovery, is_pulse_synchronizer_source}

-- The values of `SYNCHRONIZER_SCHEMES`.
pub data Scheme : Type 0 where
  two_ff pulse gray handshake mux static glitchless : Scheme

module _ (ctx : RuleContext) where
  unfoldable pub sends_pulses : Option Flop → Bool
  unfolding is_pulse_synchronizer_source
  sends_pulses none = false
  sends_pulses (some f) = is_pulse_synchronizer_source ctx f

  unfoldable pub single_bit_scheme : Crossing → Option Scheme
  unfolding contains source_among sends_pulses has_xor_tail_pulse_recovery
  single_bit_scheme c =
      if contains ctx.user_syncs (dst_name c)
      then some two_ff
      else (if contains ctx.user_handshakes (dst_name c)
          then some handshake
          else (if source_among ctx.user_statics c.src_flop
              then some static
              else (if ltb (chain_depth ctx c) 2
                  then none
                  else (if sends_pulses c.src_flop
                        && has_xor_tail_pulse_recovery ctx c.dst_flop c.dst_clock
                      then some pulse
                      else some two_ff))))

  unfoldable pub holds_payload : Crossing → Option Flop → Bool
  unfolding contains has_dst_to_src_feedback
  holds_payload c none = false
  holds_payload c (some src) =
      contains ctx.user_handshakes (flop_name src)
      || contains ctx.user_handshakes (dst_name c)
      || has_dst_to_src_feedback ctx c

  unfoldable pub bus_scheme : Crossing → Option Scheme
  unfolding source_among is_multibit_sync_first_stage encodes_gray is_gated_bus_crossing
      holds_payload
  bus_scheme c =
      if source_among ctx.user_grays c.src_flop
      then some gray
      else (if source_among ctx.user_statics c.src_flop
          then some static
          else (if is_multibit_sync_first_stage ctx c.dst_flop c.dst_clock
                && encodes_gray ctx c.src_flop
              then some gray
              else (if is_gated_bus_crossing ctx c
                  then some (
                      if encodes_gray ctx c.src_flop
                      then gray
                      else (if holds_payload c c.src_flop then handshake else mux))
                  else none)))

  unfoldable pub crossing_synchronizer : Crossing → Option Scheme
  unfolding single_bit_scheme bus_scheme
  crossing_synchronizer c = if c.width == 1 then single_bit_scheme c else bus_scheme c
