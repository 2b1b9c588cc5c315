-- ===== src/Waivers/Parse.antt =====
-- `parse` of src/rtl_buddy_cdc/waivers.py, a `ValueError` being a value of `ParseError`.
use rtl_buddy_cdc.Base.{
  ℕ, suc, String, not, Option, none, some, List, [], ◌∷◌, ◌==◌, string_eq, if◌then◌else◌,
  take_while,
}
use rtl_buddy_cdc.Sdc.Tokenizer.{Text, join, is}
use rtl_buddy_cdc.Text.{splitlines, strip, split_at_most}
use rtl_buddy_cdc.Waivers.{Patterns, Waiver}

pub data ParseError : Type 0 where
  malformed : (line : ℕ) (raw : String) → ParseError
  invalid_regex : (line : ℕ) (pattern : String) → ParseError

pub data Result (A : Type 0) : Type 0 where
  ok : A → Result A
  error : ParseError → Result A

-- `raw.split("#", 1)[0].strip()`
unfoldable pub before_comment : Text → Text
unfolding strip
before_comment raw = strip (take_while (λ c. not (is c b'#')) raw)

reason_of : List Text → String
reason_of [] = ""
reason_of (text ∷ _) = join (strip text)

module _ (re : Patterns) where
  compiled :
      ℕ → String → String → List Text → Option re.Pattern → Result (Option (Waiver re.Pattern))
  unfolding reason_of
  compiled lineno rule pattern rest none = Result.error (ParseError.invalid_regex lineno pattern)
  compiled lineno rule pattern rest (some regex) = Result.ok (
      some (record {
        rule_pattern = rule;
        regex = regex;
        reason = reason_of rest;
        source_line = lineno;
        origin = none;
        start_line = none;
        end_line = none;
      }))

  -- The words of one line: no word at all is a blank line.
  parse_words : ℕ → Text → List Text → Result (Option (Waiver re.Pattern))
  unfolding compiled
  parse_words lineno raw [] = Result.ok none
  parse_words lineno raw (head ∷ rule ∷ pattern ∷ rest) =
      if not (join head == "waive")
      then Result.error (ParseError.malformed lineno (join raw))
      else compiled lineno (join rule) (join pattern) rest (re.compile (join pattern))
  parse_words lineno raw _ = Result.error (ParseError.malformed lineno (join raw))

  unfoldable pub parse_line : ℕ → Text → Result (Option (Waiver re.Pattern))
  unfolding parse_words before_comment split_at_most
  parse_line lineno raw = parse_words lineno raw (split_at_most 3 (before_comment raw))

  add_entry :
      Result (Option (Waiver re.Pattern))
      → Result (List (Waiver re.Pattern))
      → Result (List (Waiver re.Pattern))
  add_entry (Result.error e) rest = Result.error e
  add_entry (Result.ok none) rest = rest
  add_entry (Result.ok (some w)) (Result.error e) = Result.error e
  add_entry (Result.ok (some w)) (Result.ok ws) = Result.ok (w ∷ ws)

  unfoldable pub parse_lines : ℕ → List Text → Result (List (Waiver re.Pattern))
  unfolding add_entry parse_line
  parse_lines lineno [] = Result.ok []
  parse_lines lineno (raw ∷ raws) =
      add_entry (parse_line lineno raw) (parse_lines (suc lineno) raws)

  unfoldable pub parse : Text → Result (List (Waiver re.Pattern))
  unfolding parse_lines splitlines
  parse text = parse_lines 1 (splitlines text)
