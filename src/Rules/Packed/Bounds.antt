-- ===== src/Rules/Packed/Bounds.antt =====
-- The depth of a packed shift register in src/rtl_buddy_cdc/rules.py against its width.
use mathlib.Core.Option.{some-injective}
use rtl_buddy_cdc.Base.{
  unvisited, unvisited-length, unvisited-visit, ℕ, zero, suc, ◌+◌, ◌≤◌, Bool, true, false, Option,
  none, some, List, [], ◌∷◌, ◌++◌, ◌==◌, ◌≡◌, inl, inr, refl, sym, ap, ◌∙◌, arith, nat_eq,
  string_eq, contains, find_index, length, length-append, Dict, lookup, insert, values,
  Within-lookup, Bool-cases, Option-cases,
}
use rtl_buddy_cdc.Netlist.{Bit, bit_eq, Cell, Module}
use rtl_buddy_cdc.Netlist.Flops.{Flop, pin}
use rtl_buddy_cdc.Rules.{Drives}
use rtl_buddy_cdc.Rules.Index.{Readers}
use rtl_buddy_cdc.Rules.ResetMux.{
  live_leg, are_constants, mux_data_leg, cell_behind_y, leg_behind, first_driver,
  constant_leg_reset_mux_data_bits,
}
use rtl_buddy_cdc.Rules.Packed.Lanes.{outside}
use rtl_buddy_cdc.Rules.Packed.Hops.{
  Shift, last, hop, lanes-outside, next_lane-IsHop, next_lane-stops,
}
use rtl_buddy_cdc.Rules.Packed.{
  has_repeat, lanes, next_lane, shift_depth, depth_through, shifted_bits,
  packed_shift_register_depth,
}

-- A reset's data leg is as wide as the flop's data pin.
live_leg-length :
    (s t : Bool) (a b leg : List Bit) (n : ℕ)
    → live_leg s t a b ≡ some leg
    → length a ≡ n
    → length b ≡ n
    → length leg ≡ n
unfolding live_leg
live_leg-length true true a b leg n h la lb = cc
live_leg-length false false a b leg n h la lb = cc
live_leg-length false true a b leg n h la lb = cc
live_leg-length true false a b leg n h la lb = cc

leg_behind-length :
    (head : Flop) (counts : Readers) (o : Option Cell) (leg : List Bit)
    → leg_behind head counts o ≡ some leg
    → length leg ≡ length head.d
unfolding leg_behind mux_data_leg
leg_behind-length head counts none leg h = cc
leg_behind-length head counts (some cell) leg h =
    live_leg-length (are_constants (pin cell "A")) (are_constants (pin cell "B")) (pin cell "A")
      (pin cell "B") leg (length head.d) (ground (arith, h)) (ground (arith, h)) (ground (arith, h))

shifted_bits-length :
    (head : Flop) (counts : Readers) (m : Module) (drivers : Drives)
    → length (shifted_bits head (constant_leg_reset_mux_data_bits head m drivers counts))
      ≡ length head.d
unfolding shifted_bits constant_leg_reset_mux_data_bits
shifted_bits-length head counts m drivers =
    elim (Option-cases (constant_leg_reset_mux_data_bits head m drivers counts)) [
      | inl no_reset ↦ rw (shifted_bits, no_reset) refl
      | inr (leg, reset) ↦
          rw (shifted_bits, reset)
            (leg_behind-length head counts (cell_behind_y m (first_driver head.d drivers)) leg
              reset)
    ]

length-insert :
    (j i : ℕ) (d : Dict ℕ ℕ) → lookup j d ≡ none → length (insert j i d) ≡ suc (length d)
unfolding lookup insert
length-insert j i [] new = refl
length-insert j i ((k, v) ∷ d) new = elim (Bool-cases (j == k)) [
  | inl same ↦ ground (arith, same, new)
  | inr other ↦ ground (arith, other, new, length-insert j i d (ground (arith, other, new)))
]

-- Every lane has one place: as a successor or as an external lane.
lanes-length :
    (q : List Bit) (i : ℕ) (ds : List Bit) (succ succ' : Dict ℕ ℕ) (external external' : List ℕ)
    → lanes q i ds succ external ≡ some (succ', external')
    → length succ' + length external' ≡ length succ + length external + length ds
unfolding lanes
lanes-length q i [] succ succ' external external' h = omega (
  arith,
  ap (λ p. length p.0 + length p.1) (some-injective (succ, external) (succ', external') h),
)
lanes-length q i (db ∷ ds) succ succ' external external' h =
    elim (Option-cases (find_index q (λ qb. qb == db))) [
      | inl outside ↦ omega (
        arith,
        length-append external (i ∷ []),
        lanes-length q (suc i) ds succ succ' (external ++ i ∷ []) external'
            (rw (lanes, outside) at h),
      )
      | inr (j, inside) ↦ elim (Option-cases (lookup j succ)) [
        | inr (other, taken) ↦ ground (arith, rw (lanes, inside, taken) at h)
        | inl free ↦ omega (
          arith,
          length-insert j i succ free,
          lanes-length q (suc i) ds (insert j i succ) succ' external external'
              (rw (lanes, inside, free) at h),
        )
      ]
    ]

module _ (q bits : List Bit) (counts : Readers) (succ : Dict ℕ ℕ) (external : List ℕ)
    (collected : lanes q 0 bits [] [] ≡ some (succ, external))
    (distinct : has_repeat q ≡ false) where
  next_lane-fewer :
      (visited : List ℕ) (cur nxt : ℕ)
      → next_lane q counts succ visited cur ≡ some nxt
      → suc (unvisited (nxt ∷ visited) (values succ)) ≤ unvisited visited (values succ)
  unfolding next_lane
  next_lane-fewer visited cur nxt goes_on = elim (Option-cases (lookup cur succ)) [
    | inl ends ↦ ground (arith, ends, goes_on)
    | inr (lane, follows) ↦
        let same : lane ≡ nxt = ground (arith, follows, goes_on) in
        unvisited-visit nxt visited (values succ)
          (Within-lookup cur nxt succ (follows ∙ ap some same))
          (ap (contains visited) (sym same) ∙ ground (arith, follows, goes_on))
  ]

  shift_depth-Shift :
      (fuel : ℕ) (visited : List ℕ) (cur depth : ℕ)
      → unvisited visited (values succ) ≤ fuel
      → (later : List ℕ) × Shift q bits counts visited cur later
        × (shift_depth fuel q counts succ visited cur depth ≡ depth + length later)
        × (length later ≤ unvisited visited (values succ))
  unfolding shift_depth
  shift_depth-Shift zero visited cur depth enough =
      elim (Option-cases (next_lane q counts succ visited cur)) [
        | inl ends ↦ (
          [],
          last visited cur (next_lane-stops q bits counts succ external collected visited cur ends),
          omega arith,
          omega arith,
        )
        | inr (nxt, goes_on) ↦
            absurd (omega (arith, enough, next_lane-fewer visited cur nxt goes_on))
      ]
  shift_depth-Shift (suc fuel) visited cur depth enough =
      elim (Option-cases (next_lane q counts succ visited cur)) [
        | inl ends ↦ (
          [],
          last visited cur (next_lane-stops q bits counts succ external collected visited cur ends),
          rw (shift_depth, ends) (omega arith),
          omega arith,
        )
        | inr (nxt, goes_on) ↦
            let fewer = next_lane-fewer visited cur nxt goes_on in
            let (hops, new) =
              next_lane-IsHop q bits counts succ external collected visited cur nxt distinct
                goes_on in
            let (later, walked, deep, few) =
              shift_depth-Shift fuel (nxt ∷ visited) nxt (suc depth)
                (omega (arith, enough, fewer)) in
            (
              nxt ∷ later,
              hop visited cur nxt later hops new walked,
              rw (shift_depth, goes_on) (omega (arith, deep)),
              omega (arith, few, fewer),
            )
      ]

length-values : (d : Dict ℕ ℕ) → length (values d) ≡ length d
unfolding values
length-values [] = refl
length-values ((k, v) ∷ d) = omega (arith, length-values d)

abbrev data_bits : Flop → Readers → Module → Drives → List Bit
data_bits head counts m drivers =
    shifted_bits head (constant_leg_reset_mux_data_bits head m drivers counts)

-- A register through which a bit is shifted from its one external lane, up to where the shift ends.
pub Shifted : Flop → Readers → Module → Drives → ℕ → Type 0
Shifted head counts m drivers depth =
    (cur : ℕ) × (later : List ℕ) × (outside head.q 0 (data_bits head counts m drivers) ≡ cur ∷ [])
    × Shift head.q (data_bits head counts m drivers) counts (cur ∷ []) cur later
    × (depth ≡ suc (length later))

depth_through-Shifted :
    (head : Flop) (counts : Readers) (m : Module) (drivers : Drives) (depth : ℕ)
    → length head.d ≡ length head.q
    → has_repeat head.q ≡ false
    → (o : Option (Dict ℕ ℕ × List ℕ))
    → lanes head.q 0
        (shifted_bits head (constant_leg_reset_mux_data_bits head m drivers counts))
        []
        []
      ≡ o
    → depth_through head.q counts o ≡ some depth
    → (2 ≤ depth) × (depth ≤ length head.q) × Shifted head counts m drivers depth
unfolding depth_through Shifted
depth_through-Shifted head counts m drivers depth square distinct none found h = cc
depth_through-Shifted head counts m drivers depth square distinct (some (succ, [])) found h = cc
depth_through-Shifted head counts m drivers depth square distinct (some (succ, a ∷ b ∷ rest)) found
      h =
    cc
depth_through-Shifted head counts m drivers depth square distinct (some (succ, cur ∷ [])) found h =
    let bits = shifted_bits head (constant_leg_reset_mux_data_bits head m drivers counts) in
    let wide = lanes-length head.q 0 bits [] succ [] (cur ∷ []) found in
    let equal = shifted_bits-length head counts m drivers in
    let room = unvisited-length (cur ∷ []) (values succ) in
    let (later, walked, deep, few) =
      shift_depth-Shift head.q bits counts succ (cur ∷ []) found distinct (length head.q) (cur ∷ [])
        cur 1 (omega (arith, wide, equal, room, square, length-values succ)) in
    let at : shift_depth (length head.q) head.q counts succ (cur ∷ []) cur 1 ≡ depth =
      ground (arith, h) in
    (
      ground (arith, h),
      omega (arith, at, deep, few, wide, equal, room, square, length-values succ),
      (
        cur,
        later,
        sym (lanes-outside head.q 0 bits [] succ [] (cur ∷ []) found),
        walked,
        omega (arith, at, deep),
      ),
    )

-- A packed shift register has a depth of at least two and at most its width. That is one more than the
-- hops of the shift from the one lane whose data is no output of the register. At each hop the output
-- of a lane, which no other lane drives and which the reader counts give one reader, is the data of
-- one other lane alone, that the shift has not met; from the last lane there is no such hop.
pub packed_shift_register_depth-Shifted :
    (head : Flop) (counts : Readers) (m : Module) (drivers : Drives) (depth : ℕ)
    → packed_shift_register_depth head counts m drivers ≡ some depth
    → (2 ≤ depth) × (depth ≤ length head.q) × Shifted head counts m drivers depth
unfolding packed_shift_register_depth
packed_shift_register_depth-Shifted head counts m drivers depth h =
    depth_through-Shifted head counts m drivers depth (ground (arith, h)) (ground (arith, h))
      (lanes head.q 0 (shifted_bits head (constant_leg_reset_mux_data_bits head m drivers counts))
        [] [])
      refl (ground (arith, h))
