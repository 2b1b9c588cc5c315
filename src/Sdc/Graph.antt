-- ===== src/Sdc/Graph.antt =====
-- `validate_clock_graph` of src/rtl_buddy_cdc/sdc.py: what the statements of a finished spec make together.
pub mod Cycles
use mathlib.Core.Option.{get_or}
use rtl_buddy_cdc.Base.{
  precedes, sorted, ℕ, zero, suc, String, Bool, true, false, not, ◌&&◌, ◌||◌, Option, none, some,
  List, [], ◌∷◌, ◌++◌, ◌==◌, string_eq, ltb, if◌then◌else◌, all, any, contains, length, Dict, keys,
  values, lookup, insert,
}
use rtl_buddy_cdc.Sdc.Spec.{Clock, ClockSpec}

-- A sentence of the source, as the values that it names. The clock that `clock_for_port` is said to
-- return is the first owner.
pub data Diagnostic : Type 0 where
  shared_port : (port : String) (owners : List String) (first_owner : String) → Diagnostic
  unknown_master : (clock master : String) → Diagnostic
  master_cycle : (members : List String) → Diagnostic

-- `port_owners.setdefault(port, []).append(name)` for each port.
unfoldable pub own_ports :
    String → List String → Dict String (List String) → Dict String (List String)
own_ports name [] owners = owners
own_ports name (p ∷ ps) owners =
    own_ports name ps (insert p (get_or (lookup p owners) [] ++ name ∷ []) owners)

unfoldable pub shared_among : Dict String (List String) → List String → List Diagnostic
unfolding sorted
shared_among owners [] = []
shared_among owners (p ∷ ps) = elim (lookup p owners) [
  | some (first ∷ second ∷ more) ↦
      shared_port p (sorted precedes (first ∷ second ∷ more)) first ∷ shared_among owners ps
  | _ ↦ shared_among owners ps
]

-- `visited[visited.index(cur):]`
unfoldable pub from_first : String → List String → List String
from_first cur [] = []
from_first cur (v ∷ vs) = if v == cur then v ∷ vs else from_first cur vs

-- Two sets, as lists.
abbrev pub same_members : List String → List String → Bool
same_members xs ys = all xs (contains ys) && all ys (contains xs)

module _ {Float : Type 0} where
  unfoldable pub own_all :
      List (Clock Float) → Dict String (List String) → Dict String (List String)
  unfolding own_ports
  own_all [] owners = owners
  own_all (clk ∷ clks) owners = own_all clks (own_ports clk.name clk.ports owners)

  unfoldable pub unknown_masters : List String → List (Clock Float) → List Diagnostic
  unfolding contains
  unknown_masters declared [] = []
  unknown_masters declared (clk ∷ clks) = elim clk.master [
    | none ↦ unknown_masters declared clks
    | some master ↦
        let rest = unknown_masters declared clks in
        if contains declared master then rest else unknown_master clk.name master ∷ rest
  ]

  -- The master of a generated clock.
  unfoldable pub generated_master : Option (Clock Float) → Option String
  generated_master none = none
  generated_master (some clk) = if clk.is_generated then clk.master else none

  -- The walk over the masters. Every round but the last visits another clock of the table, so one
  -- round more than there are clocks is enough.
  unfoldable pub find_cycle :
      ℕ → Dict String (Clock Float) → List String → String → Option (List String)
  unfolding from_first contains generated_master lookup
  find_cycle zero clocks visited cur = none
  find_cycle (suc fuel) clocks visited cur = elim (contains visited cur) [
    | true ↦ some (from_first cur visited)
    | false ↦ elim (generated_master (lookup cur clocks)) [
      | none ↦ none
      | some master ↦ find_cycle fuel clocks (visited ++ cur ∷ []) master
    ]
  ]

  unfoldable pub cycle_from :
      Dict String (Clock Float) → String → Clock Float → Option (List String)
  unfolding find_cycle generated_master
  cycle_from clocks name clk = elim (generated_master (some clk)) [
    | none ↦ none
    | some master ↦ find_cycle (suc (length clocks)) clocks (name ∷ []) master
  ]

  -- The loop over the clocks, with the cycles that are reported.
  unfoldable pub cycles_among :
      Dict String (Clock Float) → Dict String (Clock Float) → List (List String) → List Diagnostic
  unfolding cycle_from any all contains sorted
  cycles_among clocks [] seen = []
  cycles_among clocks ((name, clk) ∷ rest) seen = elim (cycle_from clocks name clk) [
    | none ↦ cycles_among clocks rest seen
    | some members ↦ elim (any seen (same_members members)) [
      | true ↦ cycles_among clocks rest seen
      | false ↦ master_cycle (sorted precedes members) ∷ cycles_among clocks rest (members ∷ seen)
    ]
  ]

  unfoldable pub validate_clock_graph : ClockSpec Float → List Diagnostic
  unfolding shared_among own_all unknown_masters cycles_among keys values sorted
  validate_clock_graph spec =
      let owners = own_all (values spec.clocks) [] in
      shared_among owners (sorted precedes (keys owners))
      ++ unknown_masters (keys spec.clocks) (values spec.clocks)
      ++ cycles_among spec.clocks spec.clocks []
