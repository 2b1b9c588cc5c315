-- ===== src/Rules/Chain/Fed.antt =====
-- What the indices of `_build_context` in src/rtl_buddy_cdc/rules.py say of the stages of a chain.
use rtl_buddy_cdc.Base.{
  ℕ, String, Option, none, some, List, [], ◌∷◌, ◌≡◌, ◌⊎◌, inl, inr, refl, ◌∙◌, arith, nat_eq,
  string_eq, Dict, lookup, values, All, All-insert, All-lookup, Option-cases,
}
use rtl_buddy_cdc.Netlist.{Bit, bit_eq, net, constant, Module}
use rtl_buddy_cdc.Netlist.Flops.{Flop, find_flops}
use rtl_buddy_cdc.Rules.{RuleContext, Drives}
use rtl_buddy_cdc.Rules.Index.{
  Readers, lane_drivers, bit_reader_count, index_single_bit, single_bit_flops,
}
use rtl_buddy_cdc.Rules.ResetMux.{
  constant_leg_reset_mux_data_bits, index_leg, index_legs, srst_mux_data_bit_to_single_bit_flop,
}
use rtl_buddy_cdc.Rules.Chain.{flop_fed_by}
use rtl_buddy_cdc.Rules.Context.{BoundaryFacts, build_context}

-- Every flop of an index has the bit of its key for its data pin.
abbrev HasD : Bit × Flop → Type 0
HasD (b, f) = f.d ≡ b ∷ []

index_single_bit-HasD :
    (f : Flop) (out : Dict Bit Flop) (d : List Bit)
    → f.d ≡ d
    → All HasD out
    → All HasD (index_single_bit d f out)
unfolding index_single_bit
index_single_bit-HasD f out (net n ∷ []) same all = All-insert HasD (net n) f out same all
index_single_bit-HasD f out [] same all = all
index_single_bit-HasD f out (constant s ∷ []) same all = all
index_single_bit-HasD f out (net n ∷ c ∷ bits) same all = all
index_single_bit-HasD f out (constant s ∷ c ∷ bits) same all = all

single_bit_flops-HasD :
    (fs : List Flop) (out : Dict Bit Flop) → All HasD out → All HasD (single_bit_flops fs out)
unfolding single_bit_flops
single_bit_flops-HasD [] out all = all
single_bit_flops-HasD (f ∷ fs) out all =
    single_bit_flops-HasD fs (index_single_bit f.d f out) (index_single_bit-HasD f out f.d refl all)

module _ (m : Module) (drivers : Drives) (counts : Readers) where
  -- The bit is the first one of the leg that is not constant of a synchronous reset's multiplexer,
  -- whose output is the data pin of the flop.
  abbrev HasLeg : Bit × Flop → Type 0
  HasLeg (b, f) =
      (rest : List Bit) × (constant_leg_reset_mux_data_bits f m drivers counts ≡ some (b ∷ rest))

  index_leg-HasLeg :
      (leg : Option (List Bit)) (f : Flop) (out : Dict Bit Flop)
      → constant_leg_reset_mux_data_bits f m drivers counts ≡ leg
      → All HasLeg out
      → All HasLeg (index_leg leg f out)
  unfolding index_leg
  index_leg-HasLeg none f out is all = all
  index_leg-HasLeg (some []) f out is all = all
  index_leg-HasLeg (some (constant s ∷ bits)) f out is all = all
  index_leg-HasLeg (some (net n ∷ bits)) f out is all = elim (Option-cases (lookup (net n) out)) [
    | inl free ↦ rw (index_leg, free) (All-insert HasLeg (net n) f out (bits, is) all)
    | inr (first, taken) ↦ rw (index_leg, taken) all
  ]

  index_legs-HasLeg :
      (fs : List Flop) (out : Dict Bit Flop)
      → All HasLeg out
      → All HasLeg (index_legs m drivers counts fs out)
  unfolding index_legs
  index_legs-HasLeg [] out all = all
  index_legs-HasLeg (f ∷ fs) out all =
      index_legs-HasLeg fs (index_leg (constant_leg_reset_mux_data_bits f m drivers counts) f out)
        (index_leg-HasLeg (constant_leg_reset_mux_data_bits f m drivers counts) f out refl all)

module _ (lower : String → String) (boundary : BoundaryFacts)
    (clock_for_port : Option (String → Option String)) (max_depth : ℕ) (m : Module) where
  abbrev pub context : RuleContext
  context = build_context lower boundary clock_for_port max_depth m

  -- The bit is the data pin of the flop, or the data leg of the synchronous reset in front of it.
  pub Feeds : Bit → Flop → Type 0
  Feeds b f =
      (f.d ≡ b ∷ [])
      ⊎ ((rest : List Bit) × (constant_leg_reset_mux_data_bits f m (lane_drivers m)
              (bit_reader_count m)
            ≡ some (b ∷ rest)))

  pub flop_fed_by-Feeds : (b : Bit) (f : Flop) → flop_fed_by context b ≡ some f → Feeds b f
  unfolding flop_fed_by build_context Feeds srst_mux_data_bit_to_single_bit_flop
  flop_fed_by-Feeds b f fed =
      let single = single_bit_flops (find_flops m) [] in
      elim (Option-cases (lookup b single)) [
        | inr (g, direct) ↦ inl (
            All-lookup HasD b f single (single_bit_flops-HasD (find_flops m) [] tt)
              (direct ∙ ground (arith, direct, fed)))
        | inl indirect ↦ inr (
            All-lookup (HasLeg m (lane_drivers m) (bit_reader_count m)) b f
              (index_legs m (lane_drivers m) (bit_reader_count m) (values single) [])
              (index_legs-HasLeg m (lane_drivers m) (bit_reader_count m) (values single) [] tt)
              (ground (arith, indirect, fed)))
      ]
