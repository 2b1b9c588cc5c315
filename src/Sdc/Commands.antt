-- ===== src/Sdc/Commands.antt =====
-- The command handlers of src/rtl_buddy_cdc/sdc.py, `_handle_*`. Each returns the new spec.
pub mod Table
pub mod Keeps
use mathlib.Core.Option.{get_or}
use rtl_buddy_cdc.Base.{
  ℕ, String, Bool, true, false, not, ◌&&◌, ◌||◌, Option, none, some, List, [], ◌∷◌, ◌++◌, ◌==◌,
  string_eq, if◌then◌else◌, any, length, ltb, Dict, lookup, insert,
}
use rtl_buddy_cdc.Sdc.Tokenizer.{Text, chars, join}
use rtl_buddy_cdc.Sdc.Names.{
  is_in, starts_with, extract_names, strip_get_clocks, extract_clock_list,
}
use rtl_buddy_cdc.Sdc.Args.{Occurrence, slurped, Parsed, all_of, present, first}
use rtl_buddy_cdc.Sdc.Numbers.{ℤ, pos, Numbers, is_positive, max_one}
use rtl_buddy_cdc.Sdc.Spec.{
  Clock, Warning, create_clock_filter, duplicate_clock, generated_clock_unnamed,
  generated_clock_filter, clock_groups_kind_missing, clock_groups_too_few, false_path_through,
  false_path_endpoints, false_path_incomplete, delay_filter, delay_without_clock, ClockSpec,
  is_false_path,
}

-- The loop `for word in p.tail`, which the handlers share.
unfoldable pub extract_all : List String → List String × Bool
extract_all [] = ([], false)
extract_all (word ∷ words) =
    let (names, sf) = extract_names word in
    let (more, saw) = extract_all words in (names ++ more, sf || saw)

-- `" ".join(words)`
unfoldable pub joined : List String → Text
joined [] = []
joined (w ∷ []) = chars w
joined (w ∷ v ∷ ws) = chars w ++ (" " ∷ joined (v ∷ ws))

-- `name if name is not None else names[0]`, if there is a first name.
abbrev pub or_first : Option String → List String → Option String
or_first (some name) names = some name
or_first none [] = none
or_first none (n ∷ names) = some n

abbrev is_nil : List String → Bool
is_nil [] = true
is_nil (n ∷ ns) = false

module _ {Float : Type 0} where
  abbrev pub warn : Warning → ClockSpec Float → ClockSpec Float
  warn w spec = record spec { partial_warnings = spec.partial_warnings ++ w ∷ [] }

  abbrev pub warn_if : Bool → Warning → ClockSpec Float → ClockSpec Float
  warn_if b w spec = if b then warn w spec else spec

  abbrev is_declared : String → ClockSpec Float → Bool
  is_declared name spec = elim (lookup name spec.clocks) [ some clk ↦ true | none ↦ false ]

  -- `spec.clocks[clk.name] = clk`, with the diagnostic of a second declaration.
  unfoldable pub declare : Bool → Clock Float → ClockSpec Float → ClockSpec Float
  declare generated clk spec =
      let spec' = warn_if (is_declared clk.name spec) (duplicate_clock clk.name generated) spec in
      record spec' { clocks = insert clk.name clk spec'.clocks }

  unfoldable pub set_pin_clocks : List String → String → ClockSpec Float → ClockSpec Float
  set_pin_clocks [] name spec = spec
  set_pin_clocks (t ∷ ts) name spec =
      set_pin_clocks ts name (record spec { pin_clocks = insert t name spec.pin_clocks })

  unfoldable pub set_port_clocks : List String → String → ClockSpec Float → ClockSpec Float
  set_port_clocks [] clock spec = spec
  set_port_clocks (p ∷ ps) clock spec =
      set_port_clocks ps clock (record spec { port_clock = insert p clock spec.port_clock })

  -- `spec.false_path_pairs.add(frozenset({a, b}))` for `a != b`.
  unfoldable pub add_false_path : String → String → ClockSpec Float → ClockSpec Float
  add_false_path a b spec =
      if a == b || is_false_path spec.false_path_pairs a b
      then spec
      else record spec { false_path_pairs = spec.false_path_pairs ++ (a, b) ∷ [] }

  unfoldable pub add_false_paths_from : String → List String → ClockSpec Float → ClockSpec Float
  unfolding add_false_path
  add_false_paths_from a [] spec = spec
  add_false_paths_from a (b ∷ bs) spec = add_false_paths_from a bs (add_false_path a b spec)

  unfoldable pub add_false_paths : List String → List String → ClockSpec Float → ClockSpec Float
  unfolding add_false_paths_from
  add_false_paths [] bs spec = spec
  add_false_paths (a ∷ as') bs spec = add_false_paths as' bs (add_false_paths_from a bs spec)

-- `set_clock_groups`: the groups with a member, in the order of their `-group` clauses.
unfoldable pub clock_groups : List Occurrence → List (List String)
clock_groups [] = []
clock_groups (slurped words ∷ os) = elim (extract_clock_list (join (joined words))) [
  | [] ↦ clock_groups os
  | m ∷ ms ↦ (m ∷ ms) ∷ clock_groups os
]
clock_groups (o ∷ os) = clock_groups os

module _ {Float : Type 0} where
  unfoldable pub add_clock_groups :
      Bool → Bool → List (List String) → ClockSpec Float → ClockSpec Float
  add_clock_groups is_async is_exclusive groups spec =
      if ltb (length groups) 2 then warn clock_groups_too_few spec else record spec {
        async_groups = if is_async then spec.async_groups ++ groups ∷ [] else spec.async_groups;
        exclusive_groups =
            if is_exclusive then spec.exclusive_groups ++ groups ∷ [] else spec.exclusive_groups;
      }

  unfoldable pub handle_set_clock_groups : Parsed → ClockSpec Float → ClockSpec Float
  unfolding add_clock_groups
  handle_set_clock_groups p spec =
      let is_async = present p "-asynchronous" in
      let is_exclusive = present p "-logically_exclusive" || present p "-physically_exclusive" in
      if not (is_async || is_exclusive)
      then warn clock_groups_kind_missing spec
      else add_clock_groups is_async is_exclusive (clock_groups (all_of p "-group")) spec

-- `set_false_path`: the names of one endpoint, and whether it is no clock collection.
unfoldable pub endpoint_names : List Occurrence → List String × Bool
endpoint_names [] = ([], false)
endpoint_names (slurped words ∷ os) =
    let (more, saw) = endpoint_names os in
    let blob = joined words in
    if is_in (chars "get_pins") blob
      || is_in (chars "get_cells") blob
      || is_in (chars "get_ports") blob
    then (more, true)
    else ((extract_all words).0 ++ more, saw)
endpoint_names (o ∷ os) = endpoint_names os

-- The same over several flags, in order.
unfoldable pub flags_names : Parsed → List String → List String × Bool
unfolding endpoint_names
flags_names p [] = ([], false)
flags_names p (flag ∷ flags) =
    let (names, saw) = endpoint_names (all_of p flag) in
    let (more, saw') = flags_names p flags in (names ++ more, saw || saw')

module _ {Float : Type 0} where
  unfoldable pub handle_set_false_path : Parsed → ClockSpec Float → ClockSpec Float
  unfolding add_false_paths
  handle_set_false_path p spec =
      let (from_clocks, from_other) = flags_names p ("-from" ∷ "-rise_from" ∷ "-fall_from" ∷ []) in
      let (to_clocks, to_other) = flags_names p ("-to" ∷ "-rise_to" ∷ "-fall_to" ∷ []) in
      if present p "-through" || present p "-rise_through" || present p "-fall_through"
      then warn false_path_through spec
      else if from_other || to_other
      then warn false_path_endpoints spec
      else if is_nil from_clocks || is_nil to_clocks
      then warn false_path_incomplete spec
      else add_false_paths from_clocks to_clocks spec

abbrev pub strip_master : Option String → Option String
strip_master none = none
strip_master (some word) = some (strip_get_clocks word)

module _ (numbers : Numbers) where
  open numbers use {Float, zero_float, parse_float, parse_int, scale}

  unfoldable pub handle_create_clock : Parsed → ClockSpec Float → ClockSpec Float
  unfolding declare
  handle_create_clock p spec =
      let (ports, saw_filter) = extract_all p.tail in
      elim (first p "-period") [
        | none ↦ spec
        | some word ↦ elim (parse_float word) [
          | none ↦ spec
          | some period ↦ elim (or_first (first p "-name") ports) [
            | none ↦ spec
            | some name ↦
                declare false
                  (record {
                    name = name;
                    period = period;
                    ports = ports;
                    master = none;
                    is_generated = false;
                  })
                  (warn_if saw_filter (create_clock_filter name) spec)
          ]
        ]
      ]

  -- `_safe_int(word, default=1)`
  unfoldable pub safe_int : Option String → ℤ
  safe_int none = pos 1
  safe_int (some word) = get_or (parse_int word) (pos 1)

  master_period : Option (Clock Float) → ℤ → ℤ → Float
  master_period none divide_by multiply_by = zero_float
  master_period (some clk) divide_by multiply_by =
      if is_positive divide_by then scale clk.period divide_by (max_one multiply_by) else zero_float

  -- The placeholder period of a generated clock.
  unfoldable pub generated_period : Option String → ℤ → ℤ → ClockSpec Float → Float
  unfolding master_period
  generated_period none divide_by multiply_by spec = zero_float
  generated_period (some master) divide_by multiply_by spec =
      master_period (lookup master spec.clocks) divide_by multiply_by

  -- The part of the handler behind the choice of the name.
  unfoldable pub declare_generated_clock : Parsed → String → ClockSpec Float → ClockSpec Float
  unfolding declare set_pin_clocks generated_period safe_int
  declare_generated_clock p name spec =
      let (targets, saw_filter) = extract_all p.tail in
      let master = strip_master (first p "-master_clock") in
      let divide_by = safe_int (first p "-divide_by") in
      let multiply_by = safe_int (first p "-multiply_by") in
      let target_is_pin = any p.tail (λ w. is_in (chars "get_pins") (chars w)) in
      let spec' = warn_if saw_filter (generated_clock_filter name) spec in
      declare true
        (record {
          name = name;
          period = generated_period master divide_by multiply_by spec;
          ports = if target_is_pin then [] else targets;
          master = master;
          is_generated = true;
        })
        (if target_is_pin then set_pin_clocks targets name spec' else spec')

  unfoldable pub handle_create_generated_clock : Parsed → ClockSpec Float → ClockSpec Float
  unfolding declare_generated_clock
  handle_create_generated_clock p spec = elim (or_first (first p "-name") (extract_all p.tail).0) [
    | none ↦ warn generated_clock_unnamed spec
    | some name ↦ declare_generated_clock p name spec
  ]

  -- `_looks_numeric`
  unfoldable pub looks_numeric : String → Bool
  looks_numeric word = elim (parse_float word) [ some f ↦ true | none ↦ false ]

  -- Which words of the tail name ports.
  unfoldable pub port_words : List String → List String
  unfolding looks_numeric
  port_words [] = []
  port_words (word ∷ words) =
      let cs = chars word in
      let rest = port_words words in
      if starts_with (chars "[") cs
        || starts_with (chars "{") cs
        || is_in (chars "get_ports") cs
        || not (looks_numeric word)
      then word ∷ rest
      else rest

  unfoldable pub handle_set_delay : Parsed → ClockSpec Float → ClockSpec Float
  unfolding set_port_clocks port_words
  handle_set_delay p spec =
      let (ports, saw_filter) = extract_all (port_words p.tail) in
      let spec' = warn_if saw_filter delay_filter spec in
      if is_nil ports then spec' else elim (strip_master (first p "-clock")) [
        | none ↦ warn (delay_without_clock ports) spec'
        | some clock ↦ set_port_clocks ports clock spec'
      ]
