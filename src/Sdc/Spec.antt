-- ===== src/Sdc/Spec.antt =====
-- `Clock` and `ClockSpec` of src/rtl_buddy_cdc/sdc.py, with the queries on a finished spec. The
-- period is a Python float: its type is the parameter `Float`, which these queries never read.
pub mod Resolve
pub mod Relation
use mathlib.Core.Option.{get_or}
use rtl_buddy_cdc.Base.{
  ℕ, zero, suc, String, Bool, true, false, not, ◌&&◌, ◌||◌, Option, none, some, List, [], ◌∷◌, ◌==◌,
  nat_eq, string_eq, if◌then◌else◌, contains, any, find_index, length, Dict, lookup,
}

abbrev pub unconstrained_sentinel : String
unconstrained_sentinel = "<unconstrained>"

pub record Clock (Float : Type 0) : Type 0 where
  pub name : String
  pub period : Float
  pub ports : List String
  pub master : Option String
  pub is_generated : Bool

-- A diagnostic of the reader. The source appends a sentence for each: what it says varies only in
-- the parts that the constructors carry.
pub data Warning : Type 0 where
  unsupported_command : String → List String → Option ℕ → Warning
  create_clock_filter : String → Warning
  duplicate_clock : String → Bool → Warning
  generated_clock_unnamed : Warning
  generated_clock_filter : String → Warning
  clock_groups_kind_missing : Warning
  clock_groups_too_few : Warning
  false_path_through : Warning
  false_path_endpoints : Warning
  false_path_incomplete : Warning
  delay_filter : Warning
  delay_without_clock : List String → Warning
  tcl_failed : Bool → Warning
  tcl_reported : String → Warning

-- One `set_clock_groups` statement. A group is a set of names, of which only membership is used.
abbrev pub Groups : Type 0
Groups = List (List String)

-- `false_path_pairs` holds unordered pairs: see `is_false_path`.
pub record ClockSpec (Float : Type 0) : Type 0 where
  pub clocks : Dict String (Clock Float)
  pub async_groups : List Groups
  pub exclusive_groups : List Groups
  pub false_path_pairs : List (String × String)
  pub port_clock : Dict String String
  pub pin_clocks : Dict String String
  pub partial_warnings : List Warning

module _ {Float : Type 0} where
  abbrev pub empty : ClockSpec Float
  empty = record {
    clocks = [];
    async_groups = [];
    exclusive_groups = [];
    false_path_pairs = [];
    port_clock = [];
    pin_clocks = [];
    partial_warnings = [];
  }

  -- The scan over `create_clock` port lists.
  unfoldable pub owner_of_port : String → Dict String (Clock Float) → Option String
  owner_of_port port [] = none
  owner_of_port port ((key, clk) ∷ clocks) =
      if contains clk.ports port then some clk.name else owner_of_port port clocks

  unfoldable pub clock_for_port : ClockSpec Float → String → Option String
  unfolding owner_of_port
  clock_for_port spec port = elim (lookup port spec.port_clock) [
    | some clock ↦ some clock
    | none ↦ owner_of_port port spec.clocks
  ]

  abbrev master_field : Option (Clock Float) → Option String
  master_field none = none
  master_field (some clk) = clk.master

  -- `self.clocks[cur].master`, and `none` too where `cur` is no clock: both end the walk.
  unfoldable pub master_of : Dict String (Clock Float) → String → Option String
  master_of clocks name = master_field (lookup name clocks)

  -- The `while` loop of `resolve`. `none` means that the fuel ran out.
  unfoldable pub resolve_from : ℕ → Dict String (Clock Float) → List String → String → Option String
  resolve_from zero clocks seen cur = none
  resolve_from (suc fuel) clocks seen cur = elim (master_of clocks cur) [
    | none ↦ some cur
    | some master ↦ elim (contains seen cur) [
      | true ↦ some cur
      | false ↦ resolve_from fuel clocks (cur ∷ seen) master
    ]
  ]

  -- A round adds a clock to `seen`, so that there are at most as many as clocks, and one more.
  unfoldable pub resolve : ClockSpec Float → String → String
  unfolding resolve_from
  resolve spec name = get_or (resolve_from (suc (length spec.clocks)) spec.clocks [] name) name

-- `next((g for g in groups if p(g)), None)` for both sides, and `ga is not gb`. The groups of a
-- statement are distinct objects, so a group is known by its place.
apart_at : Option ℕ → Option ℕ → Bool
apart_at (some i) (some j) = not (i == j)
apart_at _ _ = false

unfoldable pub in_different : (List String → Bool) → (List String → Bool) → Groups → Bool
unfolding apart_at
in_different p q groups = apart_at (find_index groups p) (find_index groups q)

unfoldable pub separates : List Groups → String → String → Bool
unfolding in_different
separates statements a b = any statements (in_different (λ g. contains g a) (λ g. contains g b))

-- `frozenset({a, b}) in self.false_path_pairs`
unfoldable pub is_false_path : List (String × String) → String → String → Bool
is_false_path pairs a b = any pairs (λ p. (p.0 == a && p.1 == b) || (p.0 == b && p.1 == a))

module _ {Float : Type 0} where
  -- Step 2 of `are_async`, on the resolved roots.
  unfoldable pub roots_async : ClockSpec Float → String → String → String → String → Bool
  unfolding separates is_false_path
  roots_async spec a b ra rb =
      if ra == rb
      then false
      else if is_false_path spec.false_path_pairs ra rb
      then true
      else if is_false_path spec.false_path_pairs a b
      then true
      else separates spec.async_groups ra rb

  unfoldable pub are_async : ClockSpec Float → String → String → Bool
  unfolding roots_async
  are_async spec a b =
      if a == b
      then false
      else if a == unconstrained_sentinel || b == unconstrained_sentinel
      then true
      else if separates spec.async_groups a b
      then true
      else roots_async spec a b (resolve spec a) (resolve spec b)

  unfoldable pub is_unreachable_crossing : ClockSpec Float → String → String → Bool
  unfolding in_different
  is_unreachable_crossing spec a b =
      let ra = resolve spec a in
      let rb = resolve spec b in
      if a == b
      then false
      else if ra == rb
      then false
      else any spec.exclusive_groups
          (in_different (λ g. contains g ra || contains g a) (λ g. contains g rb || contains g b))
