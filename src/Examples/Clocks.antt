-- ===== src/Examples/Clocks.antt =====
-- Concrete clocks and commands of src/rtl_buddy_cdc/sdc.py.
use rtl_buddy_cdc.Base.{
  ℕ, String, true, false, Option, none, some, List, [], ◌∷◌, ◌≡◌, ◌≢◌, ◌⊎◌, Dict, refl, arith,
  string_eq, lookup, contains, any, find_index,
}
use rtl_buddy_cdc.Sdc.Numbers.{Numbers}
use rtl_buddy_cdc.Sdc.Spec.{
  Clock, ClockSpec, empty, master_of, separates, in_different, resolve, are_async, resolve_from,
}
use rtl_buddy_cdc.Sdc.Spec.Resolve.{Chain, IsEnd, RootIn, resolve_ends, resolve_root}
use rtl_buddy_cdc.Sdc.Spec.Relation.{are_async_of_common_root}
use rtl_buddy_cdc.Sdc.Graph.{master_cycle, generated_master, cycle_from, validate_clock_graph}
use rtl_buddy_cdc.Sdc.Graph.Cycles.{IsCycle, Ends, cycle_from-Outcome}
use rtl_buddy_cdc.Sdc.Commands.Keeps.{Extends}
use rtl_buddy_cdc.Sdc.Parse.{Command, run}
use rtl_buddy_cdc.Sdc.Parse.Stable.{run-Extends, separated_stays_async}

-- Numbers whose floats are counts: every period is 1.
abbrev pub counts : Numbers
counts = record {
  Float = ℕ;
  zero_float = 0;
  parse_float = λ w. some 1;
  parse_int = λ w. none;
  scale = λ p d m. p;
}

abbrev pub clock : String → Option String → Clock ℕ
clock name master = record {
  name = name;
  period = 1;
  ports = [];
  master = master;
  is_generated = false;
}

-- A divider and a second divider behind it, and the divider declared asynchronous to its source.
abbrev pub divided : ClockSpec ℕ
divided = record empty {
  clocks =
      ("clk", clock "clk" none)
      ∷ ("half", clock "half" (some "clk"))
      ∷ ("quarter", clock "quarter" (some "half"))
      ∷ [];
  async_groups = (("clk" ∷ []) ∷ ("half" ∷ []) ∷ []) ∷ [];
}

resolve_ends_example :
    (resolve_from 4 divided.clocks [] "quarter" ≡ some (resolve divided "quarter"))
    × Chain divided.clocks "quarter" (resolve divided "quarter")
    × IsEnd divided.clocks (resolve divided "quarter")
resolve_ends_example = resolve_ends divided "quarter"

pub quarter_root : RootIn divided.clocks "clk" 2 "quarter"
unfolding master_of lookup
quarter_root = ("half", refl, ("clk", refl, (refl, refl)))

pub half_root : RootIn divided.clocks "clk" 1 "half"
unfolding master_of lookup
half_root = ("clk", refl, (refl, refl))

resolve_root_example : resolve divided "quarter" ≡ "clk"
resolve_root_example = resolve_root divided "clk" 2 "quarter" quarter_root

abbrev generated : String → Option String → Clock ℕ
generated name master = record (clock name master) { is_generated = true }

-- Two dividers that name each other, and a third behind them.
abbrev looped : Dict String (Clock ℕ)
looped =
    ("clk", clock "clk" none)
    ∷ ("even", generated "even" (some "odd"))
    ∷ ("odd", generated "odd" (some "even"))
    ∷ ("slow", generated "slow" (some "odd"))
    ∷ []

cycle_from-Outcome_example :
    ((members : List String) × (cycle_from looped "slow" (generated "slow" (some "odd"))
        ≡ some members)
      × IsCycle looped members)
    ⊎ ((cycle_from looped "slow" (generated "slow" (some "odd")) ≡ none) × Ends looped "slow")
unfolding lookup generated_master
cycle_from-Outcome_example =
    cycle_from-Outcome looped "slow" (generated "slow" (some "odd")) "odd" refl refl

looped_reported :
    validate_clock_graph (record divided { clocks = looped })
    ≡ master_cycle ("even" ∷ "odd" ∷ []) ∷ []
unfolding validate_clock_graph
looped_reported = refl

are_async_of_common_root_example :
    are_async divided "quarter" "half" ≡ separates divided.async_groups "quarter" "half"
are_async_of_common_root_example =
    are_async_of_common_root divided "quarter" "half" "clk" 2 1 quarter_root half_root

abbrev redeclare : List Command
redeclare =
    record { words = "create_clock" ∷ "-name" ∷ "half" ∷ "-period" ∷ "4" ∷ "p" ∷ []; line = none }
    ∷ record { words = "set_clock_groups" ∷ "-asynchronous" ∷ []; line = none }
    ∷ []

run-Extends_example : Extends divided (run counts redeclare divided)
run-Extends_example = run-Extends counts redeclare divided

apart : ◌≢◌ {A = String} "clk" "half"
apart e = ground (arith, (string_eq.beq_iff "clk" "half").1 e)

divided_apart : separates divided.async_groups "clk" "half" ≡ true
unfolding separates in_different any find_index contains
divided_apart = refl

separated_stays_async_example : are_async (run counts redeclare divided) "clk" "half" ≡ true
separated_stays_async_example =
    separated_stays_async counts redeclare divided "clk" "half" apart divided_apart
