-- ===== src/Examples/Reading.antt =====
-- Concrete sources and words, read by src/rtl_buddy_cdc/tcl_tokenizer.py and sdc.py.
use rtl_buddy_cdc.Base.{
  Char, ◌<◌, code, String, true, false, none, List, [], ◌∷◌, ◌≡◌, refl, arith, map, string_eq,
  contains,
}
use rtl_buddy_cdc.Sdc.Tokenizer.{chars, join, tokenize}
use rtl_buddy_cdc.Sdc.Tokenizer.Source.{
  IsPlain, IsFirst, Balanced, bare, braced, quoted, space, continuation, last_word, comment, Line,
  source_text, source_commands,
}
use rtl_buddy_cdc.Sdc.Tokenizer.RoundTrip.{tokenize-source_text}
use rtl_buddy_cdc.Sdc.Names.{collection_heads, is_space, is_collection_bracket}
use rtl_buddy_cdc.Sdc.Names.Grammar.{
  IsNameChar, Name, Collection, names, braces, getter, get_clocks,
}
use rtl_buddy_cdc.Sdc.Args.Lines.{Arg, flag_with, word, unknown_with}
use rtl_buddy_cdc.Sdc.Spec.{empty, are_async}
use rtl_buddy_cdc.Sdc.Parse.{
  commands_read, Backend, tokenizer, tcl, read_tokenizer, run, run_words, parse,
}
use rtl_buddy_cdc.Sdc.Parse.Newlines.{NoReturn, to_crlf, parse-to_crlf, parse-source_text}
use rtl_buddy_cdc.Sdc.Parse.Run.{async_command, async_command_declares}
use rtl_buddy_cdc.Examples.Clocks.{counts}

-- A small letter.
IsLetter : Char → Type 0
IsLetter c = (92 < code c) × (code c < 123)

letter-IsPlain : (c : Char) → 92 < code c → IsPlain c
letter-IsPlain c h = record {
  not_backslash = omega (arith, h);
  not_newline = omega (arith, h);
  not_space = omega (arith, h);
  not_tab = omega (arith, h);
  not_return = omega (arith, h);
}

letter-IsFirst : (c : Char) → 92 < code c → code c < 123 → IsFirst c
letter-IsFirst c h k = record {
  plain = letter-IsPlain c h;
  not_comment = omega (arith, h);
  not_brace = omega (arith, k);
  not_bracket = omega (arith, h);
  not_quote = omega (arith, h);
}

-- `clk {a b}`, a continuation, `"x\"y"` and the end of the line; a comment; a word at the end of the
-- file.
abbrev source : List Line
source =
    record {
      indent = space ∷ [];
      tokens =
          record {
            token =
                bare "c" (chars "lk") (letter-IsFirst "c" (omega arith) (omega arith))
                  (letter-IsPlain "l" (omega arith), (letter-IsPlain "k" (omega arith), tt));
            gap = space;
            gaps = space ∷ [];
          }
          ∷ record {
            token = braced (chars "a b") (
                Balanced.other "a" (omega arith) (omega arith) (
                  Balanced.other " " (omega arith) (omega arith)
                    (Balanced.other "b" (omega arith) (omega arith) Balanced.done)));
            gap = continuation;
            gaps = [];
          }
          ∷ [];
      ending = last_word (quoted (chars "x\"y"));
    }
    ∷ record { indent = []; tokens = []; ending = comment (chars " clocks") (omega arith) }
    ∷ record {
      indent = [];
      tokens = [];
      ending = last_word (bare "d" [] (letter-IsFirst "d" (omega arith) (omega arith)) tt);
    }
    ∷ []

tokenize-source_text_example : tokenize (source_text source) ≡ source_commands source
tokenize-source_text_example = tokenize-source_text source

source-NoReturn : NoReturn (source_text source)
unfolding source_text
source-NoReturn = omega arith

parse-source_text_example :
    parse counts tokenizer (source_text source)
    ≡ run counts (map (λ ws. record { words = ws; line = none }) (source_commands source)) empty
parse-source_text_example = parse-source_text counts source source-NoReturn

-- A Tcl reader that answers with the words of the text.
abbrev reading : Backend
reading = tcl (λ text. commands_read (read_tokenizer text) [])

parse-to_crlf_example :
    parse counts reading (to_crlf (source_text source)) ≡ parse counts reading (source_text source)
parse-to_crlf_example = parse-to_crlf counts reading (source_text source) source-NoReturn

name_char : (c : Char) → 96 < code c → code c < 123 → IsNameChar c
unfolding is_space is_collection_bracket
name_char c h k = record {
  not_space = ground (arith, h, k);
  not_bracket = ground (arith, h, k);
  not_dash = omega (arith, h);
}

ab_no_head : contains collection_heads (join ("a" ∷ "b" ∷ [])) ≡ false
unfolding contains join
ab_no_head = refl

c_no_head : contains collection_heads (join ("c" ∷ [])) ≡ false
unfolding contains join
c_no_head = refl

abbrev clk_a : Name
clk_a = record {
  first = "a";
  rest = chars "b";
  name_chars =
      (name_char "a" (omega arith) (omega arith), (name_char "b" (omega arith) (omega arith), tt));
  not_head = ab_no_head;
}

b_no_head : contains collection_heads (join ("b" ∷ [])) ≡ false
unfolding contains join
b_no_head = refl

abbrev clk_b : Name
clk_b = record {
  first = "b";
  rest = [];
  name_chars = (name_char "b" (omega arith) (omega arith), tt);
  not_head = b_no_head;
}

abbrev clk_c : Name
clk_c = record {
  first = "c";
  rest = [];
  name_chars = (name_char "c" (omega arith) (omega arith), tt);
  not_head = c_no_head;
}

abbrev collection : Collection
collection = getter get_clocks (clk_a ∷ clk_c ∷ [])

-- `-name clk -period 4 -comment text p`, of which `-comment` is no flag of the table.
abbrev line : List Arg
line =
    flag_with "-name" "clk"
    ∷ flag_with "-period" "4"
    ∷ unknown_with "-unknown" "text"
    ∷ word "p"
    ∷ []

in_ab : contains {A = String} ("ab" ∷ "b" ∷ []) "ab" ≡ true
unfolding contains
in_ab = refl

not_in_ab : contains {A = String} ("ab" ∷ "b" ∷ []) "c" ≡ false
unfolding contains
not_in_ab = refl

in_c : contains {A = String} ("c" ∷ []) "c" ≡ true
unfolding contains
in_c = refl

async_command_declares_example :
    are_async
      (run_words counts (async_command (names clk_a (clk_b ∷ [])) (braces (clk_c ∷ []))) none empty)
      "ab"
      "c"
    ≡ true
unfolding join
async_command_declares_example =
    async_command_declares counts (names clk_a (clk_b ∷ [])) (braces (clk_c ∷ [])) none empty "ab"
      "c" in_ab not_in_ab in_c
