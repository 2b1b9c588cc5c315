-- ===== src/Crossings/Find/Sound.antt =====
-- The groups that `find_crossings` (src/rtl_buddy_cdc/domain.py) collects stand for paths of the
-- netlist.
use mathlib.Core.Path.{subst}
use mathlib.Core.Option.{some-injective}
use rtl_buddy_cdc.Base.{
  ℕ, ◌≤◌, String, Bool, false, ◌||◌, Option, none, some, List, [], ◌∷◌, ◌==◌, string_eq, pair_eq,
  ◌≡◌, inl, inr, refl, ap, sym, ◌∙◌, arith, ltb, Dict, lookup, values, Within, All, All-Within,
  Bool-cases, Option-cases,
}
use rtl_buddy_cdc.Netlist.{Bit, bit_eq}
use rtl_buddy_cdc.Netlist.Flops.{Flop, flop_name}
use rtl_buddy_cdc.Domain.{FlopDomain}
use rtl_buddy_cdc.Crossings.Fanout.{lane_fanout, nets}
use rtl_buddy_cdc.Crossings.Walk.{walk}
use rtl_buddy_cdc.Crossings.Walk.Visits.{walk_visits, walk-visits, land_all-ind}
use rtl_buddy_cdc.Crossings.Walk.Reach.{Hops, IsVisit, walk_visits-IsVisit}
use rtl_buddy_cdc.Crossings.Group.{
  from_flop, Group, merge, first_group, known_domain, flops_at, land,
}
use rtl_buddy_cdc.Crossings.Group.Landing.{Admits, land-All}
use rtl_buddy_cdc.Crossings.Prune.{Distances, distances_to, useful}
use rtl_buddy_cdc.Crossings.Find.{Design, flop_search, walk_flop, walk_flops, flop_groups}
use rtl_buddy_cdc.Crossings.Find.Indexed.{IsIndexed}

-- A way of so many cells from one of the sources to a `D` bit of the flop, whose clock is known.
unfoldable pub Reaches : Design → (Bit → List Bit) → List Bit → Flop → String → ℕ → Type 0
Reaches d fanout sources dst clock hops =
    (lookup (flop_name dst) d.domains ≡ some (record { flop = dst; clock = some clock }))
    × (hops ≤ d.max_hops)
    × ((b : Bit) × Hops fanout sources hops b × Within b dst.d)

known_domain-some :
    (o : Option FlopDomain) (f : Flop) (clock : String)
    → known_domain o ≡ some (f, clock)
    → o ≡ some (record { flop = f; clock = some clock })
unfolding known_domain
known_domain-some none f clock known = cc
known_domain-some (some fd) f clock known = elim (Option-cases fd.clock) [
  | inl unclocked ↦ ground (arith, known, unclocked)
  | inr (c, clocked) ↦ ground (arith, known, clocked)
]

pub or-false : (a b : Bool) → (a || b) ≡ false → (a ≡ false) × (b ≡ false)
or-false a b h = (ground (arith, h), ground (arith, h))

-- A landing, seen from the index.
pub landing :
    (d : Design)
    → IsIndexed d
    → (b : Bit) (dst f : Flop) (clock : String) → Within dst (flops_at d.by_d b)
    → known_domain (lookup (flop_name dst) d.domains) ≡ some (f, clock)
    → (dst ≡ f)
      × (lookup (flop_name f) d.domains ≡ some (record { flop = f; clock = some clock }))
      × Within b f.d
unfolding IsIndexed
landing d (indexed, named, listed, kept) b dst f clock w known =
    let (fd, found, same, pin) = indexed b dst w in
    let found' = known_domain-some (lookup (flop_name dst) d.domains) f clock known in
    let fd_is = some-injective fd (record { flop = f; clock = some clock }) (sym found ∙ found') in
    let dst_is : dst ≡ f = sym same ∙ ap (λ (x : FlopDomain). x.flop) fd_is in
    (
      dst_is,
      subst
          (λ (g : Flop).
            lookup (flop_name g) d.domains ≡ some (record { flop = f; clock = some clock }))
          dst_is found',
      subst (λ (g : Flop). Within b g.d) dst_is pin,
    )

pub Reaches-merge :
    (d : Design) (fanout : Bit → List Bit) (sources : List Bit) (hops : ℕ) (b : Bit)
    (fresh g : Group)
    → Reaches d fanout sources g.dst_flop g.dst_clock g.min_hops
    → hops ≤ d.max_hops
    → Hops fanout sources hops b
    → Within b g.dst_flop.d
    → Reaches d fanout sources g.dst_flop g.dst_clock (merge hops b fresh (some g)).min_hops
unfolding Reaches merge
Reaches-merge d fanout sources hops b fresh g (known, within, way) le path pin =
    elim (Bool-cases (ltb hops g.min_hops)) [
      | inl nearer ↦ rw nearer (known, le, (b, path, pin))
      | inr farther ↦ rw farther (known, within, way)
    ]

-- One walk keeps what its landings keep.
pub walk-All :
    {K : Type 0} (P : K × Group → Type 0) (max_hops : ℕ) (fanout : Bit → List Bit)
    (test : Bit → ℕ → Bool) (step : Bit → ℕ → Dict K Group → Dict K Group) (sources : List Bit)
    (groups : Dict K Group)
    → ((b : Bit) (h : ℕ) (gs : Dict K Group)
        → h ≤ max_hops
        → Hops fanout sources h b
        → All P gs
        → All P (step b h gs))
    → All P groups
    → All P (walk max_hops fanout test step sources groups)
unfolding IsVisit
walk-All P max_hops fanout test step sources groups keeps ps =
    let vs = walk_visits max_hops fanout test sources in
    let visit = walk_visits-IsVisit max_hops fanout test sources in
    rw (walk-visits max_hops fanout test step sources groups) (
      land_all-ind step (All P) vs groups
        (λ b h gs w ps'.
          let (le, path) = All-Within (IsVisit max_hops fanout test sources) (b, h) vs visit w in
          keeps b h gs le path ps')
        ps)

-- The crossing starts at a flop and ends at another one, on another clock.
unfoldable pub FlopWay : Design → Flop → String → Flop → String → ℕ → Type 0
FlopWay d src src_clock dst dst_clock hops =
    (lookup (flop_name src) d.domains ≡ some (record { flop = src; clock = some src_clock }))
    × ((flop_name dst == flop_name src) ≡ false)
    × ((dst_clock == src_clock) ≡ false)
    × Reaches d (lane_fanout d.circuit d.consumers) (nets src.q) dst dst_clock hops

abbrev pub FlopEntry : Design → (String × String) × Group → Type 0
FlopEntry d (k, g) =
    (src : Flop) × (g.origin ≡ from_flop src)
    × (k ≡ (flop_name src, flop_name g.dst_flop))
    × FlopWay d src g.src_clock g.dst_flop g.dst_clock g.min_hops

-- A name has one flop.
pub same_entry :
    (domains : Dict String FlopDomain) (f g : Flop) (c k : Option String)
    → flop_name f ≡ flop_name g
    → lookup (flop_name f) domains ≡ some (record { flop = f; clock = c })
    → lookup (flop_name g) domains ≡ some (record { flop = g; clock = k })
    → f ≡ g
same_entry domains f g c k same of_f of_g =
    ap (λ (x : FlopDomain). x.flop)
      (some-injective (record { flop = f; clock = c }) (record { flop = g; clock = k })
        (sym of_f ∙ ap (λ n. lookup n domains) same ∙ of_g))

flop-Admits :
    (d : Design)
    → IsIndexed d
    → (src : Flop) (clock : String)
    → lookup (flop_name src) d.domains ≡ some (record { flop = src; clock = some clock })
    → (b : Bit) (h : ℕ) → h ≤ d.max_hops
    → Hops (lane_fanout d.circuit d.consumers) (nets src.q) h b
    → (dst : Flop) → Within dst (flops_at d.by_d b)
    → Admits
        (FlopEntry d)
        (flop_search d src clock)
        b
        h
        (flop_name dst)
        (known_domain (lookup (flop_name dst) d.domains))
unfolding Admits merge first_group FlopWay Reaches
flop-Admits d indexed src clock of_src b h le path dst w f dst_clock known lands none olds =
    let (same, found, pin) = landing d indexed b dst f dst_clock w known in
    let (other, foreign) = or-false (flop_name dst == flop_name src) (dst_clock == clock) lands in
    (
      src,
      refl,
      ap (λ (g : Flop). (flop_name src, flop_name g)) same,
      (
        of_src,
        subst (λ (g : Flop). (flop_name g == flop_name src) ≡ false) same other,
        foreign,
        (found, le, (b, path, pin)),
      ),
    )
flop-Admits d indexed src clock of_src b h le path dst w f dst_clock known lands (some g) olds =
    let (same, found, pin) = landing d indexed b dst f dst_clock w known in
    let (src', start, key, (from, other, foreign, reaches)) = olds g refl in
    let src_is : src ≡ src' =
      same_entry d.domains src src' (some clock) (some g.src_clock)
        (ap (λ (p : String × String). p.0) key) of_src from in
    let dst_is : f ≡ g.dst_flop =
      same_entry d.domains f g.dst_flop (some dst_clock) (some g.dst_clock)
        (ap (λ (x : Flop). flop_name x) (sym same) ∙ ap (λ (p : String × String). p.1) key) found
        reaches.0 in
    let fresh = first_group (flop_search d src clock) b h f dst_clock in
    let fanout = lane_fanout d.circuit d.consumers in
    (
      src',
      start,
      key,
      (
        from,
        other,
        foreign,
        Reaches-merge d fanout (nets src'.q) h b fresh g reaches le
            (subst (λ (x : Flop). Hops fanout (nets x.q) h b) src_is path)
            (subst (λ (x : Flop). Within b x.d) dst_is pin),
      ),
    )

walk_flop-All :
    (d : Design) (dist : Distances) (fd : FlopDomain) (groups : Dict (String × String) Group)
    → IsIndexed d
    → lookup (flop_name fd.flop) d.domains ≡ some fd
    → All (FlopEntry d) groups
    → All (FlopEntry d) (walk_flop d dist fd groups)
unfolding walk_flop
walk_flop-All d dist fd groups indexed found ps = elim (Option-cases fd.clock) [
  | inl unclocked ↦ rw unclocked ps
  | inr (clock, clocked) ↦
      let of_src =
        subst
          (λ o. lookup (flop_name fd.flop) d.domains ≡ some (record { flop = fd.flop; clock = o }))
          clocked found in
      let s = flop_search d fd.flop clock in
      rw clocked (
        walk-All (FlopEntry d) d.max_hops (lane_fanout d.circuit d.consumers)
          (useful dist d.max_hops clock) (land s) (nets fd.flop.q) groups
          (λ b h gs le path held.
            land-All (FlopEntry d) s b h gs (flop-Admits d indexed fd.flop clock of_src b h le path)
              held)
          ps)
]

walk_flops-All :
    (d : Design) (dist : Distances) (fds : List FlopDomain) (groups : Dict (String × String) Group)
    → IsIndexed d
    → ((fd : FlopDomain) → Within fd fds → lookup (flop_name fd.flop) d.domains ≡ some fd)
    → All (FlopEntry d) groups
    → All (FlopEntry d) (walk_flops d dist fds groups)
unfolding walk_flops
walk_flops-All d dist [] groups indexed found ps = ps
walk_flops-All d dist (fd ∷ fds) groups indexed found ps =
    walk_flops-All d dist fds (walk_flop d dist fd groups) indexed (λ x w. found x (inr w))
      (walk_flop-All d dist fd groups indexed (found fd (inl refl)) ps)

-- The groups of the flops stand for paths.
pub flop_groups-FlopEntry : (d : Design) → IsIndexed d → All (FlopEntry d) (flop_groups d)
unfolding flop_groups IsIndexed
flop_groups-FlopEntry d indexed =
    let (by_bit, named, listed, kept) = indexed in
    walk_flops-All d (distances_to d.circuit d.by_d d.domains d.max_hops) (values d.domains) []
      indexed listed tt
