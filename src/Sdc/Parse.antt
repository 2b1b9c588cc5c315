-- ===== src/Sdc/Parse.antt =====
-- `parse` of src/rtl_buddy_cdc/sdc.py. The Tcl interpreter runs in another process: what it answers
-- to a text is an argument. `note_tokenizer_skip` only logs, and is left out.
pub mod Run
pub mod Stable
pub mod Newlines
use rtl_buddy_cdc.Base.{
  ℕ, Char, String, Bool, true, false, Option, none, some, List, [], ◌∷◌, ◌++◌, map, ◌==◌, nat_eq,
  string_eq, if◌then◌else◌, contains, lookup,
}
use rtl_buddy_cdc.Sdc.Tokenizer.{Text, is, tokenize}
use rtl_buddy_cdc.Sdc.Args.{Parsed, slice}
use rtl_buddy_cdc.Sdc.Numbers.{Numbers}
use rtl_buddy_cdc.Sdc.Spec.{
  Warning, unsupported_command, tcl_failed, tcl_reported, ClockSpec, empty,
}
use rtl_buddy_cdc.Sdc.Commands.{
  warn, handle_create_clock, handle_create_generated_clock, handle_set_clock_groups,
  handle_set_false_path, handle_set_delay,
}
use rtl_buddy_cdc.Sdc.Commands.Table.{arg_specs, unsupported_commands}

pub record Command : Type 0 where
  pub words : List String
  pub line : Option ℕ

-- What `_read_tcl` of the worker process comes to: the commands, or an error, of which the flag
-- says whether a resource limit was hit. Both come with the sentences that the worker reported.
pub data TclOutcome : Type 0 where
  commands_read : List Command → List String → TclOutcome
  read_error : Bool → List String → TclOutcome

-- The effective backend. The Tcl reader is what `_read_tcl` answers to a text.
pub data Backend : Type 0 where
  tokenizer : Backend
  tcl : (Text → TclOutcome) → Backend

-- `_read_tokenizer`
unfoldable pub read_tokenizer : Text → List Command
unfolding tokenize
read_tokenizer text = map (λ ws. record { words = ws; line = none }) (tokenize text)

-- `text.replace("\r\n", "\n").replace("\r", "\n")`
unfoldable pub replace_crlf : Text → Text
replace_crlf [] = []
replace_crlf (c ∷ []) = c ∷ []
replace_crlf (c ∷ d ∷ cs) =
    let joined = d ∷ replace_crlf cs in
    let apart = c ∷ replace_crlf (d ∷ cs) in
    if is c b'\r' then (if is d b'\n' then joined else apart) else apart

unfoldable pub replace_cr : Text → Text
replace_cr [] = []
replace_cr (c ∷ cs) = (if is c b'\r' then "\n" else c) ∷ replace_cr cs

unfoldable pub normalise_newlines : Text → Text
unfolding replace_crlf replace_cr
normalise_newlines text = replace_cr (replace_crlf text)

module _ (numbers : Numbers) where
  open numbers use {Float}

  -- `_DISPATCH[cmd](spec, parsed)`
  unfoldable pub dispatch : String → Parsed → ClockSpec Float → ClockSpec Float
  dispatch cmd p spec =
      if cmd == "create_clock"
      then handle_create_clock numbers p spec
      else if cmd == "create_generated_clock"
      then handle_create_generated_clock numbers p spec
      else if cmd == "set_clock_groups"
      then handle_set_clock_groups p spec
      else if cmd == "set_false_path"
      then handle_set_false_path p spec
      else handle_set_delay numbers p spec

  -- One round of the loop over the commands.
  unfoldable pub run_words : List String → Option ℕ → ClockSpec Float → ClockSpec Float
  unfolding dispatch
  run_words [] line spec = spec
  run_words (cmd ∷ args) line spec =
      if contains unsupported_commands cmd
      then warn (unsupported_command cmd args line) spec
      else elim (lookup cmd arg_specs) [
        | none ↦ spec
        | some spec_for_cmd ↦ dispatch cmd (slice args spec_for_cmd) spec
      ]

  unfoldable pub run : List Command → ClockSpec Float → ClockSpec Float
  unfolding run_words
  run [] spec = spec
  run (c ∷ cs) spec = run cs (run_words c.words c.line spec)

  abbrev warn_all : List String → ClockSpec Float → ClockSpec Float
  warn_all ws spec = record spec { partial_warnings = spec.partial_warnings ++ map tcl_reported ws }

  -- After a Tcl error the commands that were captured are discarded, and the tokenizer reads all.
  unfoldable pub parse_outcome : TclOutcome → Text → ClockSpec Float
  unfolding read_tokenizer
  parse_outcome (commands_read commands ws) text = run commands (warn_all ws empty)
  parse_outcome (read_error limit ws) text =
      run (read_tokenizer text) (warn (tcl_failed limit) (warn_all ws empty))

  unfoldable pub parse_with : Backend → Text → ClockSpec Float
  unfolding read_tokenizer parse_outcome
  parse_with tokenizer text = run (read_tokenizer text) empty
  parse_with (tcl read_tcl) text = parse_outcome (read_tcl text) text

  unfoldable pub parse : Backend → Text → ClockSpec Float
  unfolding parse_with normalise_newlines
  parse backend text = parse_with backend (normalise_newlines text)
