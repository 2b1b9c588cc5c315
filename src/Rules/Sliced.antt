-- ===== src/Rules/Sliced.antt =====
-- The rules of src/rtl_buddy_cdc/rules.py on lanes that are synchronized one by one: `check_cdc_019` and
-- `check_cdc_020`.
use mathlib.Core.Option.{get_or}
use rtl_buddy_cdc.Base.{
  precedes, pair_precedes, sorted, ℕ, String, Bool, ◌&&◌, ◌||◌, Option, none, some, List, [], ◌∷◌,
  nat_eq, string_eq, pair_eq, ltb, if◌then◌else◌, any, contains, length, Dict, keys, values, lookup,
  insert,
}
use rtl_buddy_cdc.Netlist.{Bit, bit_eq, Cell}
use rtl_buddy_cdc.Netlist.Flops.{Flop, flop_name, is_ff_cell, pin}
use rtl_buddy_cdc.Domain.{Crossing}
use rtl_buddy_cdc.Crossings.Fanout.{nets}
use rtl_buddy_cdc.Rules.{shared_decoder, sliced_bus, Violation, RuleContext, on_cell}
use rtl_buddy_cdc.Rules.ResetMux.{cell_behind_y, first_driver}
use rtl_buddy_cdc.Rules.Bus.{is_gray_encoded_source, is_multibit_sync_first_stage}
use rtl_buddy_cdc.Rules.Fanin.{add_member}
use rtl_buddy_cdc.Rules.Single.{dst_name}

-- `groups[key][name] = value`, of a `defaultdict(dict)`.
unfoldable pub put_lane {ℓ} :
    {V : Type ℓ}
    → String × String
    → String
    → V
    → Dict (String × String) (Dict String V)
    → Dict (String × String) (Dict String V)
unfolding lookup insert
put_lane key name value groups =
    insert key (insert name value (get_or (lookup key groups) [])) groups

abbrev pub by_key {ℓ} : {V : Type ℓ} → (String × String) × V → (String × String) × V → Bool
by_key (key, v) (other, w) = pair_precedes key other

-- The groups of CDC-019, and those that a user's tag suppresses.
pub record Decoders : Type 0 where
  pub groups : Dict (String × String) (Dict String String)
  pub suppressed : List (String × String)

module _ (ctx : RuleContext) where
  -- A combinational cell with at least two nets for its outputs.
  unfoldable pub decoder : Option Cell → Option Cell
  unfolding is_ff_cell nets pin
  decoder none = none
  decoder (some cell) =
      if is_ff_cell cell.type || ltb (length (nets (pin cell "Y"))) 2 then none else some cell

  -- The name under which the drivers have the cell that drives the bit.
  unfoldable pub driver_name : Option (String × String × ℕ) → Option String
  unfolding decoder cell_behind_y
  driver_name none = none
  driver_name (some (name, port, idx)) =
      elim (decoder (cell_behind_y ctx.circuit (some (name, port, idx)))) [
        | none ↦ none
        | some cell ↦ some name
      ]

  unfoldable pub decoder_of : List Bit → Option String
  unfolding driver_name first_driver
  decoder_of (d ∷ []) = driver_name (first_driver (d ∷ []) ctx.bit_drivers)
  decoder_of _ = none

  unfoldable pub add_lane : Crossing → Flop → Option String → Decoders → Decoders
  unfolding contains add_member put_lane
  add_lane c src none s = s
  add_lane c src (some driver) s =
      let name = flop_name src in
      if contains ctx.user_grays name
        || contains ctx.user_statics name
        || contains ctx.user_syncs name
      then record s { suppressed = add_member (driver, c.dst_clock) s.suppressed }
      else record s { groups = put_lane (driver, c.dst_clock) name (dst_name c) s.groups }

  unfoldable pub group_lanes : List Crossing → Decoders → Decoders
  unfolding add_lane decoder_of
  group_lanes [] s = s
  group_lanes (c ∷ cs) s = elim c.src_flop [
    | none ↦ group_lanes cs s
    | some src ↦ group_lanes cs (add_lane c src (decoder_of src.d) s)
  ]

  abbrev report_019 : String → String → List String → List Violation → List Violation
  report_019 driver dst_clock (first ∷ second ∷ lanes) rest =
      on_cell "CDC-019" "warning" (shared_decoder driver (first ∷ second ∷ lanes) dst_clock) first
      ∷ rest
  report_019 driver dst_clock _ rest = rest

  unfoldable pub report_groups_019 :
      List (String × String) → List ((String × String) × Dict String String) → List Violation
  unfolding contains sorted keys
  report_groups_019 suppressed [] = []
  report_groups_019 suppressed (((driver, dst_clock), lanes) ∷ groups) =
      let rest = report_groups_019 suppressed groups in
      if contains suppressed (driver, dst_clock)
      then rest
      else report_019 driver dst_clock (sorted precedes (keys lanes)) rest

  unfoldable pub check_cdc_019 : List Crossing → List Violation
  unfolding report_groups_019 group_lanes sorted
  check_cdc_019 crossings =
      let s = group_lanes crossings (record { groups = []; suppressed = [] }) in
      report_groups_019 s.suppressed (sorted by_key s.groups)

  -- The groups of CDC-020. The source keeps the flop of a name beside them, the last one of the name.
  unfoldable pub group_slices :
      List Crossing
      → Dict (String × String) (Dict String Flop)
      → Dict (String × String) (Dict String Flop)
  unfolding put_lane
  group_slices [] out = out
  group_slices (c ∷ cs) out = elim c.src_flop [
    | none ↦ group_slices cs out
    | some src ↦ group_slices cs (
        if ltb (length src.q) 2
        then out
        else put_lane (flop_name src, c.dst_clock) (dst_name c) c.dst_flop out)
  ]

  unfoldable pub wide_sources : List Crossing → Dict String Flop → Dict String Flop
  unfolding insert
  wide_sources [] out = out
  wide_sources (c ∷ cs) out = elim c.src_flop [
    | none ↦ wide_sources cs out
    | some src ↦
        wide_sources cs (if ltb (length src.q) 2 then out else insert (flop_name src) src out)
  ]

  unfoldable pub exempt_from_020 : Flop → String → List Flop → Bool
  unfolding contains is_gray_encoded_source is_multibit_sync_first_stage any
  exempt_from_020 src dst_clock dsts =
      ltb (length dsts) 2
      || contains ctx.user_grays (flop_name src)
      || contains ctx.user_statics (flop_name src)
      || contains ctx.user_handshakes (flop_name src)
      || (is_gray_encoded_source ctx src
          && any dsts (λ dst. is_multibit_sync_first_stage ctx dst dst_clock))

  -- Every name of a group is one of the sources.
  unfoldable pub report_groups_020 :
      Dict String Flop → List ((String × String) × Dict String Flop) → List Violation
  unfolding lookup exempt_from_020 values keys sorted
  report_groups_020 sources [] = []
  report_groups_020 sources (((name, dst_clock), lanes) ∷ groups) = elim (lookup name sources) [
    | none ↦ report_groups_020 sources groups
    | some src ↦
        let rest = report_groups_020 sources groups in
        if exempt_from_020 src dst_clock (values lanes)
        then rest
        else on_cell "CDC-020" "warning"
            (sliced_bus name (length src.q) (sorted precedes (keys lanes)) dst_clock) name
          ∷ rest
  ]

  unfoldable pub check_cdc_020 : List Crossing → List Violation
  unfolding report_groups_020 wide_sources group_slices sorted
  check_cdc_020 crossings =
      report_groups_020 (wide_sources crossings []) (sorted by_key (group_slices crossings []))
