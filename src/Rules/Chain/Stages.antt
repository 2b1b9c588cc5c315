-- ===== src/Rules/Chain/Stages.antt =====
-- The chain that `_sync_chain_flops` of src/rtl_buddy_cdc/rules.py returns, stage by stage.
use mathlib.Core.Option.{get_or}
use mathlib.Core.List.{append_assoc, append-nil}
use mathlib.Core.Path.{subst}
use rtl_buddy_cdc.Base.{
  unvisited, unvisited-length, unvisited-visit, ℕ, zero, suc, ◌≤◌, String, true, false, none, some,
  List, [], ◌∷◌, ◌++◌, ◌≡◌, inl, inr, refl, sym, ap, ◌∙◌, arith, nat_eq, string_eq, contains,
  length, map, Dict, lookup, values, Within, Within-left, Within-right, Within-lookup, Option-cases,
  length-append,
}
use rtl_buddy_cdc.Netlist.{Bit, bit_eq}
use rtl_buddy_cdc.Netlist.Flops.{Flop, flop_name}
use rtl_buddy_cdc.Pulse.{is_in_domain}
use rtl_buddy_cdc.Rules.{RuleContext}
use rtl_buddy_cdc.Rules.Index.{readers_of}
use rtl_buddy_cdc.Rules.Chain.{
  flop_fed_by, stage_after, next_stage, stage_depth, chain_fuel, packed_head, sync_chain_depth,
  stages, sync_chain_flops,
}

module _ (ctx : RuleContext) (clock : String) where
  -- The stages behind a flop, up to the last: from it the chain does not go on.
  pub data Stages : List String → Flop → List Flop → Type 0 where
    last :
        (visited : List String) (current : Flop)
        → next_stage ctx clock visited current.q current.d ≡ none
        → Stages visited current []
    stage :
        (visited : List String) (current nxt : Flop) (later : List Flop)
        → next_stage ctx clock visited current.q current.d ≡ some nxt
        → Stages (flop_name nxt ∷ visited) nxt later
        → Stages visited current (nxt ∷ later)

  -- A next stage is behind the one output, which nothing else reads, and new, and in the domain.
  unfoldable pub Follows : List String → List Bit → Flop → Type 0
  Follows visited q nxt =
      (b : Bit) × (q ≡ b ∷ [])
      × (readers_of ctx.reader_counts b ≡ 1)
      × (flop_fed_by ctx b ≡ some nxt)
      × (contains visited (flop_name nxt) ≡ false)
      × (is_in_domain (lookup (flop_name nxt) ctx.domains) clock ≡ true)

  stage_after-Follows :
      (visited : List String) (b : Bit) (nxt : Flop)
      → stage_after ctx clock visited b ≡ some nxt
      → Follows visited (b ∷ []) nxt
  unfolding stage_after Follows
  stage_after-Follows visited b nxt fires = elim (Option-cases (flop_fed_by ctx b)) [
    | inl none_fed ↦ ground (arith, none_fed, fires)
    | inr (f, fed) ↦
        let same : f ≡ nxt = ground (arith, fed, fires) in
        (
          b,
          refl,
          (nat_eq.beq_iff (readers_of ctx.reader_counts b) 1).0 (ground (arith, fed, fires)),
          fed ∙ ap some same,
          subst (λ g. contains visited (flop_name g) ≡ false) same (ground (arith, fed, fires)),
          subst (λ g. is_in_domain (lookup (flop_name g) ctx.domains) clock ≡ true) same
              (ground (arith, fed, fires)),
        )
  ]

  pub next_stage-Follows :
      (visited : List String) (q d : List Bit) (nxt : Flop)
      → next_stage ctx clock visited q d ≡ some nxt
      → Follows visited q nxt
  unfolding next_stage
  next_stage-Follows visited [] d nxt fires = cc
  next_stage-Follows visited (b ∷ c ∷ q) d nxt fires = cc
  next_stage-Follows visited (b ∷ []) [] nxt fires = cc
  next_stage-Follows visited (b ∷ []) (d ∷ e ∷ ds) nxt fires = cc
  next_stage-Follows visited (b ∷ []) (d ∷ []) nxt fires = stage_after-Follows visited b nxt fires

  stages-length :
      (fuel : ℕ) (visited : List String) (current : Flop) (out : List Flop) (depth : ℕ)
      → depth ≡ length out
      → stage_depth ctx fuel clock visited current depth
        ≡ length (stages ctx fuel clock visited current out)
  unfolding stage_depth stages
  stages-length zero visited current out depth same = same
  stages-length (suc fuel) visited current out depth same =
      elim (Option-cases (next_stage ctx clock visited current.q current.d)) [
        | inl ends ↦ rw (stage_depth, stages, ends) same
        | inr (nxt, goes_on) ↦
            rw (stage_depth, stages, goes_on)
              (stages-length fuel (flop_name nxt ∷ visited) nxt (out ++ nxt ∷ []) (suc depth)
                (omega (arith, same, length-append out (nxt ∷ []))))
      ]

  -- The depth that `_sync_chain_depth` returns is that of a packed register when the head is one, and
  -- otherwise the number of the flops that `_sync_chain_flops` returns.
  pub sync_chain_depth-length :
      (head : Flop)
      → sync_chain_depth ctx head clock
        ≡ get_or (packed_head ctx head) (length (sync_chain_flops ctx head clock))
  unfolding sync_chain_depth sync_chain_flops
  sync_chain_depth-length head = elim (Option-cases (packed_head ctx head)) [
    | inr (depth, packed) ↦ rw (sync_chain_depth, packed) refl
    | inl plain ↦
        rw (sync_chain_depth, plain)
          (stages-length (chain_fuel ctx) (flop_name head ∷ []) head (head ∷ []) 1 refl)
  ]

  -- The names of the flops that a stage can be.
  stage_names : List String
  stage_names =
      map flop_name (values ctx.d_bit_to_single_bit_flop)
      ++ map flop_name (values ctx.srst_mux_data_bit_to_single_bit_flop)

  map-Within : (f : Flop) (fs : List Flop) → Within f fs → Within (flop_name f) (map flop_name fs)
  map-Within f [] w = absurd w
  map-Within f (x ∷ fs) (inl same) = inl (ap flop_name same)
  map-Within f (x ∷ fs) (inr later) = inr (map-Within f fs later)

  flop_fed_by-stage :
      (b : Bit) (f : Flop) → flop_fed_by ctx b ≡ some f → Within (flop_name f) stage_names
  unfolding flop_fed_by stage_names
  flop_fed_by-stage b f fed = elim (Option-cases (lookup b ctx.d_bit_to_single_bit_flop)) [
    | inr (g, direct) ↦
        let here = direct ∙ ground (arith, direct, fed) in
        Within-left (flop_name f) (map flop_name (values ctx.d_bit_to_single_bit_flop))
          (map flop_name (values ctx.srst_mux_data_bit_to_single_bit_flop))
          (map-Within f (values ctx.d_bit_to_single_bit_flop)
            (Within-lookup b f ctx.d_bit_to_single_bit_flop here))
    | inl indirect ↦
        Within-right (flop_name f) (map flop_name (values ctx.d_bit_to_single_bit_flop))
          (map flop_name (values ctx.srst_mux_data_bit_to_single_bit_flop))
          (map-Within f (values ctx.srst_mux_data_bit_to_single_bit_flop) (
            Within-lookup b f ctx.srst_mux_data_bit_to_single_bit_flop
              (ground (arith, indirect, fed))))
  ]

  next_stage-fewer :
      (visited : List String) (current nxt : Flop)
      → next_stage ctx clock visited current.q current.d ≡ some nxt
      → suc (unvisited (flop_name nxt ∷ visited) stage_names) ≤ unvisited visited stage_names
  unfolding Follows
  next_stage-fewer visited current nxt goes_on =
      let (b, output, alone, fed, new, inside) =
        next_stage-Follows visited current.q current.d nxt goes_on in
      unvisited-visit (flop_name nxt) visited stage_names (flop_fed_by-stage b nxt fed) new

  stages-Stages :
      (fuel : ℕ) (visited : List String) (current : Flop) (out : List Flop)
      → unvisited visited stage_names ≤ fuel
      → (later : List Flop) × Stages visited current later
        × (stages ctx fuel clock visited current out ≡ out ++ later)
  unfolding stages
  stages-Stages zero visited current out enough =
      elim (Option-cases (next_stage ctx clock visited current.q current.d)) [
        | inl ends ↦ ([], last visited current ends, sym (append-nil out))
        | inr (nxt, goes_on) ↦
            absurd (omega (arith, enough, next_stage-fewer visited current nxt goes_on))
      ]
  stages-Stages (suc fuel) visited current out enough =
      elim (Option-cases (next_stage ctx clock visited current.q current.d)) [
        | inl ends ↦ ([], last visited current ends, rw (stages, ends) (sym (append-nil out)))
        | inr (nxt, goes_on) ↦
            let (later, walked, all) =
              stages-Stages fuel (flop_name nxt ∷ visited) nxt (out ++ nxt ∷ [])
                (omega (arith, enough, next_stage-fewer visited current nxt goes_on)) in
            (
              nxt ∷ later,
              stage visited current nxt later goes_on walked,
              rw (stages, goes_on) (all ∙ append_assoc out (nxt ∷ []) later),
            )
      ]

  length-map : (fs : List Flop) → length (map flop_name fs) ≡ length fs
  length-map [] = refl
  length-map (f ∷ fs) = omega (arith, length-map fs)

  length-values : (d : Dict Bit Flop) → length (values d) ≡ length d
  unfolding values
  length-values [] = refl
  length-values ((b, f) ∷ d) = omega (arith, length-values d)

  length-stage_names : length stage_names ≡ chain_fuel ctx
  unfolding stage_names
  length-stage_names =
      length-append (map flop_name (values ctx.d_bit_to_single_bit_flop))
        (map flop_name (values ctx.srst_mux_data_bit_to_single_bit_flop))
      ∙ omega (
        arith,
        length-map (values ctx.d_bit_to_single_bit_flop),
        length-map (values ctx.srst_mux_data_bit_to_single_bit_flop),
        length-values ctx.d_bit_to_single_bit_flop,
        length-values ctx.srst_mux_data_bit_to_single_bit_flop,
      )

  -- `_sync_chain_flops` returns the head and, behind it, every stage up to one from which the chain
  -- does not go on, whatever the netlist and the indices are: it has fuel enough.
  pub sync_chain_flops-Stages :
      (head : Flop)
      → (later : List Flop) × Stages (flop_name head ∷ []) head later
        × (sync_chain_flops ctx head clock ≡ head ∷ later)
  unfolding sync_chain_flops
  sync_chain_flops-Stages head =
      stages-Stages (chain_fuel ctx) (flop_name head ∷ []) head (head ∷ [])
        (omega (arith, unvisited-length (flop_name head ∷ []) stage_names, length-stage_names))
