-- ===== src/Rules/Verdict/Renamed.antt =====
-- `run_all` of src/rtl_buddy_cdc/rules.py builds its context without the names that the SDC gives to
-- the clocks, while the crossings carry those names.
use rtl_buddy_cdc.Base.{
  ℕ, zero, suc, String, false, Option, none, some, List, [], ◌∷◌, ◌==◌, ◌≡◌, ◌≢◌, ◌⊎◌, inl, inr,
  refl, ap, arith, nat_eq, string_eq, ltb, Dict, lookup, insert, Within, All, All-insert,
  All-lookup, Bool-cases, Option-cases,
}
use rtl_buddy_cdc.Netlist.{Bit, Module}
use rtl_buddy_cdc.Netlist.Flops.{Flop, flop_name}
use rtl_buddy_cdc.Domain.{FlopDomain, Crossing}
use rtl_buddy_cdc.Domain.Assign.{assign_domains}
use rtl_buddy_cdc.Pulse.{is_in_domain}
use rtl_buddy_cdc.Rules.{RuleContext}
use rtl_buddy_cdc.Rules.Chain.{
  next_stage, stage_depth, chain_fuel, packed_head, sync_chain_depth, effective_sync_chain_depth,
}
use rtl_buddy_cdc.Rules.Chain.Stages.{next_stage-Follows, Follows}
use rtl_buddy_cdc.Rules.Context.{BoundaryFacts, domains_by_name, build_context}
use rtl_buddy_cdc.Rules.Single.{dst_name, exempt_from_001, check_cdc_001}
use rtl_buddy_cdc.Rules.Reported.{Reported}
use rtl_buddy_cdc.Rules.Verdict.Silent.{Unsynchronized, Deferred, Unsynchronized-Reported}

-- No flop of the list has the clock for its domain.
abbrev pub Unclocked : String → List FlopDomain → Type 0
Unclocked clock fds = All (λ fd. fd.clock ≢ some clock) fds

module _ (clock : String) where
  Elsewhere : String × Option String → Type 0
  Elsewhere (name, domain) = domain ≢ some clock

  domains_by_name-Elsewhere :
      (fds : List FlopDomain) (out : Dict String (Option String))
      → Unclocked clock fds
      → All Elsewhere out
      → All Elsewhere (domains_by_name fds out)
  unfolding domains_by_name Elsewhere
  domains_by_name-Elsewhere [] out none_there all = all
  domains_by_name-Elsewhere (fd ∷ fds) out (away, rest) all =
      domains_by_name-Elsewhere fds (insert (flop_name fd.flop) fd.clock out) rest
        (All-insert Elsewhere (flop_name fd.flop) fd.clock out away all)

  no_domain :
      (name : String) (domains : Dict String (Option String))
      → All Elsewhere domains
      → (o : Option (Option String)) → lookup name domains ≡ o
      → is_in_domain o clock ≡ false
  unfolding is_in_domain Elsewhere
  no_domain name domains all none found = refl
  no_domain name domains all (some none) found = refl
  no_domain name domains all (some (some other)) found = elim (Bool-cases (other == clock)) [
    | inr differ ↦ differ
    | inl same ↦ absurd (
        All-lookup Elsewhere name (some other) domains all found
          (ap some ((string_eq.beq_iff other clock).0 same)))
  ]

  module _ (ctx : RuleContext) (away : All Elsewhere ctx.domains) where
    no_next : (visited : List String) (q d : List Bit) → next_stage ctx clock visited q d ≡ none
    unfolding Follows
    no_next visited q d = elim (Option-cases (next_stage ctx clock visited q d)) [
      | inl ends ↦ ends
      | inr (nxt, goes_on) ↦
          let (b, output, alone, fed, new, inside) =
            next_stage-Follows ctx clock visited q d nxt goes_on in
          absurd (
            ground (
              arith,
              inside,
              no_domain (flop_name nxt) ctx.domains away (lookup (flop_name nxt) ctx.domains) refl,
            ))
    ]

    depth_one :
        (fuel : ℕ) (visited : List String) (head : Flop)
        → stage_depth ctx fuel clock visited head 1 ≡ 1
    unfolding stage_depth
    depth_one zero visited head = refl
    depth_one (suc fuel) visited head = rw (stage_depth, no_next visited head.q head.d) refl

    effective_depth_one :
        (head : Flop)
        → lookup (flop_name head) ctx.boundary_sync_depth ≡ none
        → packed_head ctx head ≡ none
        → effective_sync_chain_depth ctx head clock ≡ 1
    unfolding effective_sync_chain_depth sync_chain_depth
    effective_depth_one head unproven plain =
        rw (effective_sync_chain_depth, unproven, sync_chain_depth, plain)
          (depth_one (chain_fuel ctx) (flop_name head ∷ []) head)

-- The rules' own context takes no names of clocks: its domains are input ports. A crossing that
-- CDC-001 does not exempt, into a flop that is no packed register and has no proven depth, is a
-- finding of CDC-001, or of CDC-014 in its place, whenever the crossing's destination clock is not the
-- name of a port that clocks a flop: however many synchronizing stages follow.
pub check_cdc_001-Unclocked :
    (lower : String → String) (boundary : BoundaryFacts) (max_depth : ℕ) (m : Module)
    (cs : List Crossing) (c : Crossing)
    → Within c cs
    → exempt_from_001 (build_context lower boundary none max_depth m) c ≡ false
    → Unclocked c.dst_clock (assign_domains m [] none max_depth)
    → lookup (dst_name c) boundary.sync_depth ≡ none
    → packed_head (build_context lower boundary none max_depth m) c.dst_flop ≡ none
    → Reported c (check_cdc_001 (build_context lower boundary none max_depth m) cs)
      ⊎ Deferred (build_context lower boundary none max_depth m) cs c
unfolding Unsynchronized build_context
check_cdc_001-Unclocked lower boundary max_depth m cs c w tested unclocked unproven plain =
    let ctx = build_context lower boundary none max_depth m in
    Unsynchronized-Reported ctx cs c w (
      tested,
      ap (λ n. ltb n 2)
          (effective_depth_one c.dst_clock ctx
            (domains_by_name-Elsewhere c.dst_clock (assign_domains m [] none max_depth) [] unclocked
              tt)
            c.dst_flop unproven plain),
    )
