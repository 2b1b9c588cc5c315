-- ===== src/Rules/Chain/Wired.antt =====
-- How the flops that `_sync_chain_flops` of src/rtl_buddy_cdc/rules.py returns hang together in the
-- netlist.
use rtl_buddy_cdc.Base.{
  ℕ, String, true, false, Option, none, List, [], ◌∷◌, ◌≡◌, string_eq, contains, lookup,
}
use rtl_buddy_cdc.Netlist.{Bit, Module}
use rtl_buddy_cdc.Netlist.Flops.{Flop, flop_name}
use rtl_buddy_cdc.Pulse.{is_in_domain}
use rtl_buddy_cdc.Crossings.Fanout.{Site}
use rtl_buddy_cdc.Rules.Index.Readers.{reading_pins, reading_pins_of_one}
use rtl_buddy_cdc.Rules.Chain.{next_stage, sync_chain_flops}
use rtl_buddy_cdc.Rules.Chain.Stages.{
  Stages, last, stage, Follows, next_stage-Follows, sync_chain_flops-Stages,
}
use rtl_buddy_cdc.Rules.Chain.Fed.{context, Feeds, flop_fed_by-Feeds}
use rtl_buddy_cdc.Rules.Context.{BoundaryFacts, build_context}

module _ (lower : String → String) (boundary : BoundaryFacts)
    (clock_for_port : Option (String → Option String)) (max_depth : ℕ) (m : Module)
    (clock : String) where
  -- Each flop is fed by the one output of the flop before it, which one pin alone of the netlist reads,
  -- and is in the domain, and is none of those
  -- before it; and from the last one the loop does not go on.
  pub Wired : List String → Flop → List Flop → Type 0
  Wired visited previous [] =
      next_stage (context lower boundary clock_for_port max_depth m) clock visited previous.q
        previous.d
      ≡ none
  Wired visited previous (f ∷ later) =
      ((b : Bit) × (previous.q ≡ b ∷ [])
        × ((pin : Site) × (reading_pins m b ≡ pin ∷ []))
        × Feeds lower boundary clock_for_port max_depth m b f
        × (contains visited (flop_name f) ≡ false)
        × (is_in_domain
              (lookup (flop_name f) (context lower boundary clock_for_port max_depth m).domains)
              clock
            ≡ true))
      × Wired (flop_name f ∷ visited) f later

  Stages-Wired :
      (visited : List String) (previous : Flop) (later : List Flop)
      → Stages (context lower boundary clock_for_port max_depth m) clock visited previous later
      → Wired visited previous later
  unfolding Wired Follows build_context
  Stages-Wired visited previous [] (last _ _ ends) = ends
  Stages-Wired visited previous (f ∷ later) (stage _ _ _ _ goes_on rest) =
      let (b, output, alone, fed, new, inside) =
        next_stage-Follows (context lower boundary clock_for_port max_depth m) clock visited
          previous.q previous.d f goes_on in
      (
        (
          b,
          output,
          reading_pins_of_one m b alone,
          flop_fed_by-Feeds lower boundary clock_for_port max_depth m b f fed,
          new,
          inside,
        ),
        Stages-Wired (flop_name f ∷ visited) f later rest,
      )

  -- In the context of a module a chain is its head and flops that are each other's only successors:
  -- every one after the head is fed, by its one data pin or through its own synchronous reset, by the
  -- one output of the flop before it, which is read by one pin alone of all that the netlist has,
  -- ports Y, Q and CLK aside; each is in the head's clock domain and none is there twice. The chain ends only at a flop from which
  -- the walk does not go on.
  pub sync_chain_flops-Wired :
      (head : Flop)
      → (later : List Flop) × (sync_chain_flops
            (context lower boundary clock_for_port max_depth m)
            head
            clock
          ≡ head ∷ later)
        × Wired (flop_name head ∷ []) head later
  sync_chain_flops-Wired head =
      let (later, walked, all) =
        sync_chain_flops-Stages (context lower boundary clock_for_port max_depth m) clock head in
      (later, all, Stages-Wired (flop_name head ∷ []) head later walked)
