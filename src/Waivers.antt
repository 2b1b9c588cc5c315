-- ===== src/Waivers.antt =====
-- The waivers of src/rtl_buddy_cdc/waivers.py, and the part of `Violation` (rules.py) that they
-- match. The `re` library is the parameter `Patterns`, and the resolver of source locations is the
-- argument `locate`.
pub mod Parse
pub mod First
pub mod Split
use rtl_buddy_cdc.Base.{
  ℕ, String, Bool, true, false, not, ◌&&◌, ◌||◌, Option, none, some, List, [], ◌∷◌, ◌++◌, ◌==◌,
  string_eq, ltb, if◌then◌else◌, any, lookup,
}
use rtl_buddy_cdc.Sdc.Tokenizer.{chars, join}
use rtl_buddy_cdc.Netlist.Flops.{flop_name}
use rtl_buddy_cdc.Domain.{Crossing, src_name}

-- `re.Pattern[str]`, `re.compile` and `pattern.search`, and `re.escape` of a name.
pub record Patterns : Type 1 where
  pub Pattern : Type 0
  pub compile : String → Option Pattern
  pub search : Pattern → String → Bool
  pub escape : String → String

pub record Violation : Type 0 where
  pub rule_id : String
  pub severity : String
  pub message : String
  pub crossing : Option Crossing
  pub cell_name : Option String
  pub instance_path : List String

pub record Waiver (Pattern : Type 0) : Type 0 where
  pub rule_pattern : String
  pub regex : Pattern
  pub reason : String
  pub source_line : ℕ
  pub origin : Option String
  pub start_line : Option ℕ
  pub end_line : Option ℕ

pub record SuppressedViolation (Pattern : Type 0) : Type 0 where
  pub violation : Violation
  pub waiver : Waiver Pattern

pub record SourceRef : Type 0 where
  pub file : String
  pub line : Option ℕ

abbrev pub legacy_rule_aliases : List (String × String)
legacy_rule_aliases = ("CDC-007", "RDC-001") ∷ []

is_alias : Option String → String → Bool
is_alias none rule_id = false
is_alias (some aliased) rule_id = aliased == rule_id

unfoldable pub rule_pattern_matches : String → String → Bool
unfolding is_alias lookup
rule_pattern_matches pattern rule_id =
    if pattern == rule_id then true else is_alias (lookup pattern legacy_rule_aliases) rule_id

-- `if v.cell_name`: an empty name counts as none.
cell_part : Option String → List String
cell_part none = []
cell_part (some name) = if name == "" then [] else name ∷ []

crossing_part : Option Crossing → List String
unfolding src_name
crossing_part none = []
crossing_part (some c) =
    join (chars (src_name c) ++ chars " -> " ++ chars (flop_name c.dst_flop)) ∷ []

unfoldable pub candidates : Violation → List String
unfolding cell_part crossing_part
candidates v = cell_part v.cell_name ++ crossing_part v.crossing ++ v.message ∷ []

-- `w.end_line is None or line < w.end_line`
before_end : ℕ → Option ℕ → Bool
before_end line none = true
before_end line (some end_line) = ltb line end_line

in_range : Option ℕ → Option ℕ → Option ℕ → Bool
unfolding before_end
in_range none end_line line = true
in_range (some start) end_line none = true
in_range (some start) end_line (some line) =
    if ltb line start then false else before_end line end_line

module _ {Pattern : Type 0} where
  unfoldable pub in_line_scope : Waiver Pattern → Option ℕ → Bool
  unfolding in_range
  in_line_scope w line = in_range w.start_line w.end_line line

module _ (re : Patterns) where
  -- A pragma's waiver matches the place of the violation, if that is known.
  matches_place : Waiver re.Pattern → Option SourceRef → Bool
  unfolding in_line_scope
  matches_place w none = false
  matches_place w (some loc) = re.search w.regex loc.file && in_line_scope w loc.line

  matches_text : Waiver re.Pattern → Option String → Option SourceRef → List String → Bool
  unfolding matches_place
  matches_text w none loc texts = any texts (λ c. re.search w.regex c)
  matches_text w (some origin) loc texts = matches_place w loc

  -- The body of the loop over the waivers: whether it ends the search.
  unfoldable pub matches : Violation → Option SourceRef → Waiver re.Pattern → Bool
  unfolding matches_text rule_pattern_matches candidates
  matches v loc w =
      if not (w.rule_pattern == "*") && not (rule_pattern_matches w.rule_pattern v.rule_id)
      then false
      else matches_text w w.origin loc (candidates v)

  unfoldable pub find_match :
      Violation → Option SourceRef → List (Waiver re.Pattern) → Option (Waiver re.Pattern)
  unfolding matches
  find_match v loc [] = none
  find_match v loc (w ∷ ws) = if matches v loc w then some w else find_match v loc ws

  -- `locate(v) if locate is not None else None`
  unfoldable pub place : Option (Violation → Option SourceRef) → Violation → Option SourceRef
  place none v = none
  place (some locate) v = locate v

  -- What one violation adds to the two lists.
  unfoldable pub sort_out :
      Violation
      → Option (Waiver re.Pattern)
      → List Violation × List (SuppressedViolation re.Pattern)
      → List Violation × List (SuppressedViolation re.Pattern)
  sort_out v none (kept, suppressed) = (v ∷ kept, suppressed)
  sort_out v (some w) (kept, suppressed) = (kept, record { violation = v; waiver = w } ∷ suppressed)

  unfoldable pub apply_each :
      Option (Violation → Option SourceRef)
      → List Violation
      → List (Waiver re.Pattern)
      → List Violation × List (SuppressedViolation re.Pattern)
  unfolding sort_out find_match place
  apply_each locate [] waivers = ([], [])
  apply_each locate (v ∷ vs) waivers =
      sort_out v (find_match v (place locate v) waivers) (apply_each locate vs waivers)

  unfoldable pub apply :
      Option (Violation → Option SourceRef)
      → List Violation
      → List (Waiver re.Pattern)
      → List Violation × List (SuppressedViolation re.Pattern)
  unfolding apply_each
  apply locate violations [] = (violations, [])
  apply locate violations (w ∷ ws) = apply_each locate violations (w ∷ ws)
