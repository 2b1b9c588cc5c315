-- ===== src/Rules/Packed.antt =====
-- `_packed_shift_register_depth` of src/rtl_buddy_cdc/rules.py: the depth of a synchronizer that is one
-- register of several bits.
pub mod Lanes
pub mod Hops
pub mod Bounds
use rtl_buddy_cdc.Base.{
  ℕ, zero, suc, Bool, true, false, not, ◌&&◌, ◌||◌, Option, none, some, List, [], ◌∷◌, ◌++◌, ◌==◌,
  nat_eq, leb, ltb, if◌then◌else◌, all, contains, find_index, length, Dict, lookup, insert,
}
use rtl_buddy_cdc.Netlist.{Bit, bit_eq, is_net, Module}
use rtl_buddy_cdc.Netlist.Flops.{Flop}
use rtl_buddy_cdc.Crossings.Fanout.{bit_at}
use rtl_buddy_cdc.Rules.{Drives}
use rtl_buddy_cdc.Rules.Index.{Readers, readers_of}
use rtl_buddy_cdc.Rules.ResetMux.{constant_leg_reset_mux_data_bits}

unfoldable pub has_repeat : List Bit → Bool
unfolding contains
has_repeat [] = false
has_repeat (b ∷ bs) = contains bs b || has_repeat bs

-- The lanes' successors, and the lanes that the register itself does not feed; `none` when a lane
-- feeds two.
unfoldable pub lanes : List Bit → ℕ → List Bit → Dict ℕ ℕ → List ℕ → Option (Dict ℕ ℕ × List ℕ)
unfolding find_index lookup insert
lanes q i [] succ external = some (succ, external)
lanes q i (db ∷ ds) succ external = elim (find_index q (λ qb. qb == db)) [
  | none ↦ lanes q (suc i) ds succ (external ++ i ∷ [])
  | some j ↦ elim (lookup j succ) [
    | none ↦ lanes q (suc i) ds (insert j i succ) external
    | some other ↦ none
  ]
]

-- One round of the loop: the next lane, when this one feeds it alone and it is new.
unfoldable pub next_lane : List Bit → Readers → Dict ℕ ℕ → List ℕ → ℕ → Option ℕ
unfolding all bit_at readers_of lookup contains
next_lane q counts succ visited cur =
    if all (bit_at cur q) (λ b. readers_of counts b == 1)
    then (elim (lookup cur succ) [
      | none ↦ none
      | some nxt ↦ if contains visited nxt then none else some nxt
    ])
    else none

-- The loop. Every round visits a new lane of the register, so its width is fuel enough.
unfoldable pub shift_depth : ℕ → List Bit → Readers → Dict ℕ ℕ → List ℕ → ℕ → ℕ → ℕ
unfolding next_lane
shift_depth zero q counts succ visited cur depth = depth
shift_depth (suc fuel) q counts succ visited cur depth =
    elim (next_lane q counts succ visited cur) [
      | none ↦ depth
      | some nxt ↦ shift_depth fuel q counts succ (nxt ∷ visited) nxt (suc depth)
    ]

abbrev pub at_least_two : ℕ → Option ℕ
at_least_two depth = if leb 2 depth then some depth else none

unfoldable pub depth_through : List Bit → Readers → Option (Dict ℕ ℕ × List ℕ) → Option ℕ
unfolding shift_depth
depth_through q counts (some (succ, cur ∷ [])) =
    at_least_two (shift_depth (length q) q counts succ (cur ∷ []) cur 1)
depth_through q counts _ = none

-- The data leg of a reset in front of the register, or its own data pins.
unfoldable pub shifted_bits : Flop → Option (List Bit) → List Bit
shifted_bits head (some leg) = leg
shifted_bits head none = head.d

unfoldable pub packed_shift_register_depth : Flop → Readers → Module → Drives → Option ℕ
unfolding depth_through lanes has_repeat all is_net shifted_bits constant_leg_reset_mux_data_bits
packed_shift_register_depth head counts m drivers =
    let bits = shifted_bits head (constant_leg_reset_mux_data_bits head m drivers counts) in
    if (leb 2 (length head.q) && length head.d == length head.q)
      && all head.q is_net
      && all bits is_net
      && not (has_repeat head.q)
    then depth_through head.q counts (lanes head.q 0 bits [] [])
    else none
