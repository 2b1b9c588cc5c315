-- ===== src/Rules/Context.antt =====
-- `_build_context` of src/rtl_buddy_cdc/rules.py.
use rtl_buddy_cdc.Base.{ℕ, String, Option, List, [], ◌∷◌, ◌++◌, string_eq, Dict, insert}
use rtl_buddy_cdc.Netlist.{Module}
use rtl_buddy_cdc.Netlist.Flops.{find_flops, flop_name}
use rtl_buddy_cdc.Domain.{FlopDomain}
use rtl_buddy_cdc.Domain.Assign.{assign_domains}
use rtl_buddy_cdc.Rules.{RuleContext}
use rtl_buddy_cdc.Rules.Tags.{
  user_sync_flop_names, user_gray_flop_names, user_static_flop_names, user_handshake_flop_names,
  user_glitchless_clock_mux_bits,
}
use rtl_buddy_cdc.Rules.Index.{
  lane_drivers, bit_reader_count, data_consumers, index_flops_by_d, single_bit_flops,
}
use rtl_buddy_cdc.Rules.ResetMux.{srst_mux_data_bit_to_single_bit_flop}

-- `{fd.flop.cell.name: fd.clock for fd in flop_domains}`
unfoldable pub domains_by_name :
    List FlopDomain → Dict String (Option String) → Dict String (Option String)
unfolding insert
domains_by_name [] out = out
domains_by_name (fd ∷ fds) out = domains_by_name fds (insert (flop_name fd.flop) fd.clock out)

-- What the caller passes on from the analysis of the boundaries. An absent map is the empty one.
pub record BoundaryFacts : Type 0 where
  pub sync_depth : Dict String ℕ
  pub reconvergence : Dict String (List (List String))
  pub user_syncs : List String

-- `lower` is `str.lower`. No clock pins are passed to `assign_domains`. What the context has of resets
-- and of the modules of boundary cells is left out, as in `RuleContext`.
unfoldable pub build_context :
    (String → String) → BoundaryFacts → Option (String → Option String) → ℕ → Module → RuleContext
unfolding domains_by_name assign_domains find_flops index_flops_by_d lane_drivers data_consumers
    bit_reader_count user_sync_flop_names user_gray_flop_names user_static_flop_names
    user_handshake_flop_names user_glitchless_clock_mux_bits single_bit_flops
    srst_mux_data_bit_to_single_bit_flop
build_context lower boundary clock_for_port max_depth m =
    let flops = find_flops m in
    let drivers = lane_drivers m in
    let counts = bit_reader_count m in
    let single = single_bit_flops flops [] in
    record {
      circuit = m;
      flops = flops;
      flops_by_d = index_flops_by_d flops;
      domains = domains_by_name (assign_domains m [] clock_for_port max_depth) [];
      bit_drivers = drivers;
      bit_consumers = data_consumers m;
      reader_counts = counts;
      user_syncs = user_sync_flop_names lower m ++ boundary.user_syncs;
      user_grays = user_gray_flop_names m;
      user_statics = user_static_flop_names m;
      user_handshakes = user_handshake_flop_names m;
      user_glitchless_mux_bits = user_glitchless_clock_mux_bits m;
      d_bit_to_single_bit_flop = single;
      srst_mux_data_bit_to_single_bit_flop =
          srst_mux_data_bit_to_single_bit_flop m single drivers counts;
      boundary_sync_depth = boundary.sync_depth;
      boundary_reconvergence = boundary.reconvergence;
      max_depth = max_depth;
    }
