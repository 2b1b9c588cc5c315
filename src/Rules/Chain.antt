-- ===== src/Rules/Chain.antt =====
-- Synchronizer chains in src/rtl_buddy_cdc/rules.py: `_sync_chain_depth`, `_sync_chain_flops`,
-- `_effective_sync_chain_depth` and `_chain_has_inter_stage_comb`.
pub mod Stages
pub mod Fed
pub mod Wired
use rtl_buddy_cdc.Base.{
  ℕ, zero, suc, ◌+◌, String, Bool, not, ◌&&◌, Option, none, some, List, [], ◌∷◌, ◌++◌, ◌==◌, nat_eq,
  string_eq, if◌then◌else◌, contains, length, Dict, lookup,
}
use rtl_buddy_cdc.Netlist.{Bit, bit_eq, net, constant, is_net, Cell}
use rtl_buddy_cdc.Netlist.Flops.{Flop, flop_name, is_ff_cell, pin}
use rtl_buddy_cdc.Pulse.{is_in_domain}
use rtl_buddy_cdc.Crossings.Fanout.{consumers_of}
use rtl_buddy_cdc.Rules.{RuleContext}
use rtl_buddy_cdc.Rules.Index.{readers_of}
use rtl_buddy_cdc.Rules.Packed.{packed_shift_register_depth}

module _ (ctx : RuleContext) where
  -- The flop whose data pin the bit is, or whose reset mux it enters.
  unfoldable pub flop_fed_by : Bit → Option Flop
  unfolding lookup
  flop_fed_by b = elim (lookup b ctx.d_bit_to_single_bit_flop) [
    | some nxt ↦ some nxt
    | none ↦ lookup b ctx.srst_mux_data_bit_to_single_bit_flop
  ]

  unfoldable pub stage_after : String → List String → Bit → Option Flop
  unfolding flop_fed_by contains is_in_domain readers_of
  stage_after head_clock visited b =
      if is_net b && readers_of ctx.reader_counts b == 1
      then (elim (flop_fed_by b) [
        | none ↦ none
        | some nxt ↦
            if not (contains visited (flop_name nxt))
              && is_in_domain (lookup (flop_name nxt) ctx.domains) head_clock
            then some nxt
            else none
      ])
      else none

  -- One round of the loops: the next stage, if the chain goes on.
  unfoldable pub next_stage : String → List String → List Bit → List Bit → Option Flop
  unfolding stage_after
  next_stage head_clock visited (b ∷ []) (d ∷ []) = stage_after head_clock visited b
  next_stage head_clock visited _ _ = none

  -- The loop of `_sync_chain_depth`. Every round visits a new flop of the indices, so there is fuel
  -- enough for all of them.
  unfoldable pub stage_depth : ℕ → String → List String → Flop → ℕ → ℕ
  unfolding next_stage
  stage_depth zero head_clock visited current depth = depth
  stage_depth (suc fuel) head_clock visited current depth =
      elim (next_stage head_clock visited current.q current.d) [
        | none ↦ depth
        | some nxt ↦ stage_depth fuel head_clock (flop_name nxt ∷ visited) nxt (suc depth)
      ]

  abbrev pub chain_fuel : ℕ
  chain_fuel = length ctx.d_bit_to_single_bit_flop + length ctx.srst_mux_data_bit_to_single_bit_flop

  -- `len(q) != 1 or len(q) != len(d)`, where only the head can be a packed register.
  unfoldable pub packed_head : Flop → Option ℕ
  unfolding packed_shift_register_depth
  packed_head head =
      if length head.q == 1 && length head.d == 1
      then none
      else packed_shift_register_depth head ctx.reader_counts ctx.circuit ctx.bit_drivers

  unfoldable pub sync_chain_depth : Flop → String → ℕ
  unfolding packed_head stage_depth
  sync_chain_depth head head_clock = elim (packed_head head) [
    | some depth ↦ depth
    | none ↦ stage_depth chain_fuel head_clock (flop_name head ∷ []) head 1
  ]

  unfoldable pub effective_sync_chain_depth : Flop → String → ℕ
  unfolding sync_chain_depth lookup
  effective_sync_chain_depth dst_flop dst_clock =
      elim (lookup (flop_name dst_flop) ctx.boundary_sync_depth) [
        | some proven ↦ proven
        | none ↦ sync_chain_depth dst_flop dst_clock
      ]

  -- The loop of `_sync_chain_flops`.
  unfoldable pub stages : ℕ → String → List String → Flop → List Flop → List Flop
  unfolding next_stage
  stages zero head_clock visited current out = out
  stages (suc fuel) head_clock visited current out =
      elim (next_stage head_clock visited current.q current.d) [
        | none ↦ out
        | some nxt ↦ stages fuel head_clock (flop_name nxt ∷ visited) nxt (out ++ nxt ∷ [])
      ]

  unfoldable pub sync_chain_flops : Flop → String → List Flop
  unfolding stages
  sync_chain_flops head head_clock =
      stages chain_fuel head_clock (flop_name head ∷ []) head (head ∷ [])

  -- A flop of the head's domain that is not the head and not behind its own reset mux.
  unfoldable pub gated_stage : Flop → Bit → String → Bit → Option Flop
  unfolding lookup is_in_domain
  gated_stage head head_q head_clock yb = elim (lookup yb ctx.d_bit_to_single_bit_flop) [
    | none ↦ none
    | some nxt ↦
        if is_net yb
          && not (flop_name nxt == flop_name head)
          && is_in_domain (lookup (flop_name nxt) ctx.domains) head_clock
        then (elim (lookup head_q ctx.srst_mux_data_bit_to_single_bit_flop) [
          | none ↦ some nxt
          | some behind ↦ if flop_name behind == flop_name nxt then none else some nxt
        ])
        else none
  ]

  unfoldable pub gated_stage_among : Flop → Bit → String → List Bit → Option Flop
  unfolding gated_stage
  gated_stage_among head head_q head_clock [] = none
  gated_stage_among head head_q head_clock (yb ∷ ybs) =
      elim (gated_stage head head_q head_clock yb) [
        | some nxt ↦ some nxt
        | none ↦ gated_stage_among head head_q head_clock ybs
      ]

  unfoldable pub gated_stage_through : Flop → Bit → String → Option Cell → Option Flop
  unfolding gated_stage_among is_ff_cell pin
  gated_stage_through head head_q head_clock none = none
  gated_stage_through head head_q head_clock (some cell) =
      if is_ff_cell cell.type then none else gated_stage_among head head_q head_clock (pin cell "Y")

  unfoldable pub gated_stage_behind : Flop → Bit → String → List (String × String × ℕ) → Option Flop
  unfolding gated_stage_through lookup
  gated_stage_behind head head_q head_clock [] = none
  gated_stage_behind head head_q head_clock ((cell_name, port, idx) ∷ sites) =
      elim (gated_stage_through head head_q head_clock (lookup cell_name ctx.circuit.cells)) [
        | some nxt ↦ some nxt
        | none ↦ gated_stage_behind head head_q head_clock sites
      ]

  unfoldable pub inter_stage_from : Flop → List Bit → Option (Option String) → Option Flop
  unfolding gated_stage_behind consumers_of
  inter_stage_from head (net n ∷ []) (some (some head_clock)) =
      gated_stage_behind head (net n) head_clock (consumers_of ctx.bit_consumers (net n))
  inter_stage_from head _ _ = none

  unfoldable pub chain_has_inter_stage_comb : Flop → Option Flop
  unfolding inter_stage_from lookup
  chain_has_inter_stage_comb head =
      inter_stage_from head head.q (lookup (flop_name head) ctx.domains)
