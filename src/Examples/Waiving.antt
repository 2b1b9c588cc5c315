-- ===== src/Examples/Waiving.antt =====
-- Concrete waivers and pragmas of src/rtl_buddy_cdc/waivers.py and pragma.py.
use rtl_buddy_cdc.Base.{
  String, false, Option, none, some, List, [], ◌∷◌, ◌≡◌, refl, any, ◌==◌, ◌&&◌, string_eq, nat_eq,
  if◌then◌else◌,
}
use rtl_buddy_cdc.Sdc.Tokenizer.{Text, chars, is}
use rtl_buddy_cdc.Sdc.Names.{is_in}
use rtl_buddy_cdc.Text.{splitlines}
use rtl_buddy_cdc.Waivers.{Patterns, Violation, Waiver, apply, in_line_scope}
use rtl_buddy_cdc.Waivers.Split.{Divided, apply-Divided}
use rtl_buddy_cdc.Pragma.{PragmaMatch, events, scan_text}
use rtl_buddy_cdc.Pragma.Active.{disabled_at}
use rtl_buddy_cdc.Pragma.Scan.{scan_text-disabled_at}

-- Patterns that are found as they stand.
abbrev literal : Patterns
literal = record {
  Pattern = String;
  compile = λ s. some s;
  search = λ p s. is_in (chars p) (chars s);
  escape = λ s. s;
}

abbrev violation : String → Violation
violation name = record {
  rule_id = "CDC-001";
  severity = "error";
  message = "crossing";
  crossing = none;
  cell_name = some name;
  instance_path = [];
}

abbrev waiver : Waiver String
waiver = record {
  rule_pattern = "CDC-001";
  regex = "known";
  reason = "reviewed";
  source_line = 1;
  origin = none;
  start_line = none;
  end_line = none;
}

abbrev two_violations : List Violation
two_violations = violation "known_sync" ∷ violation "other" ∷ []

apply-Divided_example :
    Divided literal none
      (waiver ∷ [])
      two_violations
      (apply literal none two_violations (waiver ∷ []))
apply-Divided_example = apply-Divided literal none two_violations (waiver ∷ [])

abbrev pragma : String → Option PragmaMatch
pragma verb = some (record { verb = verb; rules = chars "CDC-001"; reason = [] })

-- The groups of the two pragmas of `text`, by the first letter of the line.
find : Text → Option PragmaMatch
find [] = none
find (c ∷ cs) =
    if is c b'd' then pragma "disable-rule" else if is c b'e' then pragma "enable-rule" else none

abbrev text : Text
text = chars "d\nlogic q;\ne\n"

scan_text-disabled_at_example :
    any
      (scan_text literal find text "top.sv" "rtl/top.sv")
      (λ w. "CDC-001" == w.rule_pattern && in_line_scope w (some 2))
    ≡ disabled_at "CDC-001" 2 false (events find 1 (splitlines text))
scan_text-disabled_at_example =
    scan_text-disabled_at literal find text "top.sv" "rtl/top.sv" "top.sv" "CDC-001" 2 refl
