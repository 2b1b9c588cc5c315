-- ===== src/Pragma.antt =====
-- The in-RTL pragmas of src/rtl_buddy_cdc/pragma.py. The search of `_PRAGMA_RE` in a line is the
-- argument `find`, which gives the groups of a match.
pub mod Active
pub mod Scan
use rtl_buddy_cdc.Base.{
  ℕ, suc, ◌+◌, String, Bool, true, false, not, ◌||◌, Option, none, some, List, [], ◌∷◌, ◌++◌, ◌==◌,
  map, string_eq, ltb, if◌then◌else◌, Dict, keys, lookup, insert, remove,
}
use rtl_buddy_cdc.Sdc.Tokenizer.{Text, join, chars, is}
use rtl_buddy_cdc.Text.{splitlines, strip, split_on, lstrip, rstrip}
use rtl_buddy_cdc.Waivers.{Patterns, Waiver}

-- The groups `verb`, `rules` and `reason`.
pub record PragmaMatch : Type 0 where
  pub verb : String
  pub rules : Text
  pub reason : Text

-- `reason[:-2].strip()` where the reason ends in `*/`.
without_end : Text → Text
without_end [] = []
without_end (c ∷ []) = c ∷ []
without_end (c ∷ d ∷ []) = if is c b'*' then (if is d b'/' then [] else c ∷ d ∷ []) else c ∷ d ∷ []
without_end (c ∷ d ∷ e ∷ cs) = c ∷ without_end (d ∷ e ∷ cs)

unfoldable pub clean_reason : Text → String
unfolding without_end strip
clean_reason raw = join (strip (without_end (strip raw)))

-- One rule of one pragma.
pub record Event : Type 0 where
  pub line : ℕ
  pub rule : String
  pub disabling : Bool
  pub reason : String

unfoldable pub line_events : ℕ → Option PragmaMatch → List Event
unfolding clean_reason split_on
line_events lineno none = []
line_events lineno (some m) =
    map
      (λ rule. record {
        line = lineno;
        rule = join (strip rule);
        disabling = m.verb == "disable-rule";
        reason = clean_reason m.reason;
      })
      (split_on "," [] m.rules)

unfoldable pub events : (Text → Option PragmaMatch) → ℕ → List Text → List Event
unfolding line_events
events find lineno [] = []
events find lineno (l ∷ ls) = line_events lineno (find l) ++ events find (suc lineno) ls

-- The line that a region opened on, and its reason.
abbrev pub Region : Type 0
Region = ℕ × String

module _ {Pattern : Type 0} (regex : Pattern) (origin : String) where
  abbrev pub region_waiver : String → Region → Option ℕ → Waiver Pattern
  region_waiver rule (start, reason) end_line = record {
    rule_pattern = rule;
    regex = regex;
    reason = reason;
    source_line = start;
    origin = some origin;
    start_line = some start;
    end_line = end_line;
  }

  -- `close`, where the rule is open.
  unfoldable pub close :
      String → Option ℕ → Option Region → List (Waiver Pattern) → List (Waiver Pattern)
  close rule end_line none out = out
  close rule end_line (some region) out = out ++ region_waiver rule region end_line ∷ []

  -- The dictionary `open_regions` and the list `out`.
  abbrev pub State : Type 0
  State = Dict String Region × List (Waiver Pattern)

  unfoldable pub reopen : Event → Dict String Region → Dict String Region
  reopen e regions = if e.disabling then insert e.rule (e.line, e.reason) regions else regions

  unfoldable pub scan_event : Event → State → State
  unfolding close reopen
  scan_event e (regions, out) =
      (reopen e (remove e.rule regions), close e.rule (some e.line) (lookup e.rule regions) out)

  unfoldable pub scan_events : List Event → State → State
  unfolding scan_event
  scan_events [] s = s
  scan_events (e ∷ es) s = scan_events es (scan_event e s)

  -- The loop over what is still open.
  unfoldable pub close_all : Dict String Region → List (Waiver Pattern) → List (Waiver Pattern)
  close_all [] out = out
  close_all ((rule, region) ∷ regions) out =
      close_all regions (out ++ region_waiver rule region none ∷ [])

-- `w.start_line or 0`
start_or_zero : Option ℕ → ℕ
start_or_zero none = 0
start_or_zero (some n) = n

-- `out.sort(key=lambda w: w.start_line or 0)`, which keeps the order of equal keys.
module _ {Pattern : Type 0} where
  unfoldable pub insert_sorted : Waiver Pattern → List (Waiver Pattern) → List (Waiver Pattern)
  unfolding start_or_zero
  insert_sorted w [] = w ∷ []
  insert_sorted w (x ∷ xs) =
      if ltb (start_or_zero x.start_line) (start_or_zero w.start_line)
      then x ∷ insert_sorted w xs
      else w ∷ x ∷ xs

  unfoldable pub sort : List (Waiver Pattern) → List (Waiver Pattern)
  unfolding insert_sorted
  sort [] = []
  sort (w ∷ ws) = insert_sorted w (sort ws)

module _ {Pattern : Type 0} (regex : Pattern) (origin : String) where
  unfoldable pub finish : Dict String Region × List (Waiver Pattern) → List (Waiver Pattern)
  unfolding sort close_all
  finish (regions, out) = sort (close_all regex origin regions out)

-- With `_file_pattern`, `re.compile(re.escape(path.name))`: where that raised an error, which an
-- escaped name does not, there is no waiver here.
module _ (re : Patterns) (find : Text → Option PragmaMatch) where
  unfoldable pub scan_lines : Option re.Pattern → String → List Text → List (Waiver re.Pattern)
  unfolding finish scan_events events
  scan_lines none origin ls = []
  scan_lines (some regex) origin ls =
      finish regex origin (scan_events regex origin (events find 1 ls) ([], []))

  unfoldable pub scan_text : Text → String → String → List (Waiver re.Pattern)
  unfolding scan_lines splitlines
  scan_text text path_name path =
      scan_lines (re.compile (re.escape path_name)) path (splitlines text)
