-- ===== src/Crossings/Group.antt =====
-- What the walks of `find_crossings` (src/rtl_buddy_cdc/domain.py) record where they land on a `D` pin.
pub mod Landing
use mathlib.Core.Option.{get_or}
use rtl_buddy_cdc.Base.{
  ℕ, String, Bool, true, false, ◌||◌, Option, none, some, List, [], ◌∷◌, ◌++◌, ◌==◌, Eq, string_eq,
  ltb, if◌then◌else◌, contains, length, Dict, lookup, insert, values,
}
use rtl_buddy_cdc.Netlist.{Bit, bit_eq, is_net}
use rtl_buddy_cdc.Netlist.Flops.{Flop, flop_name}
use rtl_buddy_cdc.Domain.{FlopDomain, Crossing}

-- Where a crossing starts: a flop, a port, or an instance and its port.
pub data Endpoint : Type 0 where
  from_flop : Flop → Endpoint
  from_port : String → Endpoint
  from_boundary : String → String → Endpoint

-- The three group types of the source, which differ in where the crossing starts. A set of bits is
-- the list of its members.
pub record Group : Type 0 where
  pub origin : Endpoint
  pub src_clock : String
  pub dst_flop : Flop
  pub dst_clock : String
  pub min_hops : ℕ
  pub bits : List Bit

-- `bits.add(bit)`
unfoldable pub add_bit : Bit → List Bit → List Bit
add_bit bit bits = if contains bits bit then bits else bits ++ bit ∷ []

-- The group of a key behind one more landing: `fresh` is the group that a first landing makes.
unfoldable pub merge : ℕ → Bit → Group → Option Group → Group
unfolding add_bit
merge hops bit fresh none = fresh
merge hops bit fresh (some g) = record g {
  min_hops = if ltb hops g.min_hops then hops else g.min_hops;
  bits = add_bit bit g.bits;
}

-- `flop_by_d_bit`
abbrev pub FlopsByBit : Type 0
FlopsByBit = Dict Bit (List Flop)

unfoldable pub flops_at : FlopsByBit → Bit → List Flop
flops_at by_d bit = get_or (lookup bit by_d) []

unfoldable pub index_bits : Flop → List Bit → FlopsByBit → FlopsByBit
unfolding flops_at
index_bits f [] out = out
index_bits f (b ∷ bs) out =
    index_bits f bs (if is_net b then insert b (flops_at out b ++ f ∷ []) out else out)

unfoldable pub index_flops : List FlopDomain → FlopsByBit → FlopsByBit
unfolding index_bits
index_flops [] out = out
index_flops (fd ∷ fds) out = index_flops fds (index_bits fd.flop fd.flop.d out)

-- The clock and the flop of a destination, where it has a clock. Each flop that the index names has
-- its entry: a missing one is a `KeyError` of the source.
unfoldable pub known_domain : Option FlopDomain → Option (Flop × String)
known_domain none = none
known_domain (some fd) = elim fd.clock [ none ↦ none | some clock ↦ some (fd.flop, clock) ]

-- What one walk looks for: the destinations, the groups' key for each of them, where the walk
-- starts, its clock, and the destinations that it passes over.
pub record Search (K : Type 0) : Type 0 where
  pub domains : Dict String FlopDomain
  pub by_d : FlopsByBit
  pub key : String → K
  pub origin : Endpoint
  pub src_clock : String
  pub passes_over : String → String → Bool

module _ {K : Type 0} ⦃e : Eq K⦄ where
  unfoldable pub first_group : Search K → Bit → ℕ → Flop → String → Group
  first_group s bit hops dst dst_clock = record {
    origin = s.origin;
    src_clock = s.src_clock;
    dst_flop = dst;
    dst_clock = dst_clock;
    min_hops = hops;
    bits = bit ∷ [];
  }

  unfoldable pub note_landing :
      Search K → Bit → ℕ → Option (Flop × String) → String → Dict K Group → Dict K Group
  unfolding merge first_group
  note_landing s bit hops none name groups = groups
  note_landing s bit hops (some (dst, dst_clock)) name groups =
      if s.passes_over name dst_clock
      then groups
      else insert (s.key name)
          (merge hops bit (first_group s bit hops dst dst_clock) (lookup (s.key name) groups))
          groups

  unfoldable pub land_flops : Search K → Bit → ℕ → List Flop → Dict K Group → Dict K Group
  unfolding note_landing known_domain
  land_flops s bit hops [] groups = groups
  land_flops s bit hops (dst ∷ dsts) groups = land_flops s bit hops dsts (
      note_landing s bit hops (known_domain (lookup (flop_name dst) s.domains)) (flop_name dst)
        groups)

  -- Did the walk land on any flop's `D` pin?
  unfoldable pub land : Search K → Bit → ℕ → Dict K Group → Dict K Group
  unfolding land_flops flops_at
  land s bit hops groups = land_flops s bit hops (flops_at s.by_d bit) groups

unfoldable pub flop_start : Endpoint → Option Flop
flop_start (from_flop f) = some f
flop_start _ = none

unfoldable pub port_start : Endpoint → Option String
port_start (from_port p) = some p
port_start _ = none

unfoldable pub boundary_start : Endpoint → Option (String × String)
boundary_start (from_boundary inst port) = some (inst, port)
boundary_start _ = none

-- The crossing of a group. `sinks` is `boundary_sink_lookup`.
unfoldable pub crossing_of : Dict String (String × String) → List String → Group → Crossing
unfolding flop_start port_start boundary_start
crossing_of sinks scan_mode_flops g = record {
  src_clock = g.src_clock;
  dst_flop = g.dst_flop;
  dst_clock = g.dst_clock;
  min_hops = g.min_hops;
  width = length g.bits;
  src_flop = flop_start g.origin;
  src_port = port_start g.origin;
  src_boundary = boundary_start g.origin;
  dst_boundary = lookup (flop_name g.dst_flop) sinks;
  scan_mode = contains scan_mode_flops (flop_name g.dst_flop);
}

unfoldable pub crossings_of :
    Dict String (String × String) → List String → List Group → List Crossing
unfolding crossing_of
crossings_of sinks scan_mode_flops [] = []
crossings_of sinks scan_mode_flops (g ∷ gs) =
    crossing_of sinks scan_mode_flops g ∷ crossings_of sinks scan_mode_flops gs
