-- ===== src/Sdc/Tokenizer/Source.antt =====
-- How an SDC author writes commands down, independent of the reader: words, what separates them,
-- comments and line ends; and the word lists that are meant.
use rtl_buddy_cdc.Base.{
  Char, code, String, ◌||◌, List, [], ◌∷◌, ◌++◌, ◌≢◌, nat_eq, if◌then◌else◌, All,
}
use rtl_buddy_cdc.Sdc.Tokenizer.{Text, chars, join, is}

-- A character that stands for itself inside a bare word.
pub record IsPlain (c : Char) : Type 0 where
  pub not_backslash : code c ≢ b'\\'
  pub not_newline : code c ≢ b'\n'
  pub not_space : code c ≢ b' '
  pub not_tab : code c ≢ b'\t'
  pub not_return : code c ≢ b'\r'

-- A character that may also begin a bare word.
pub record IsFirst (c : Char) : Type 0 where
  pub plain : IsPlain c
  pub not_comment : code c ≢ b'#'
  pub not_brace : code c ≢ b'{'
  pub not_bracket : code c ≢ b'['
  pub not_quote : code c ≢ b'"'

-- The texts in which every bracket of the pair is closed, by the grammar of nested brackets.
pub data Balanced (opening closing : Char) : Text → Type 0 where
  done : Balanced opening closing []
  other :
      (c : Char) {cs : Text}
      → code c ≢ code opening
      → code c ≢ code closing
      → Balanced opening closing cs
      → Balanced opening closing (c ∷ cs)
  group :
      {inner cs : Text}
      → Balanced opening closing inner
      → Balanced opening closing cs
      → Balanced opening closing (opening ∷ (inner ++ closing ∷ cs))

abbrev pub brace_open : Char
brace_open = "{"

abbrev pub brace_close : Char
brace_close = "}"

abbrev pub bracket_open : Char
bracket_open = "["

abbrev pub bracket_close : Char
bracket_close = "]"

abbrev pub quote : Char
quote = "\""

abbrev pub backslash : Char
backslash = "\\"

abbrev pub newline : Char
newline = "\n"

abbrev pub hash : Char
hash = "#"

-- The four ways to write a word.
pub data Token : Type 0 where
  bare : (c : Char) (cs : Text) → IsFirst c → All IsPlain cs → Token
  braced : (cs : Text) → Balanced brace_open brace_close cs → Token
  bracketed : (cs : Text) → Balanced bracket_open bracket_close cs → Token
  quoted : Text → Token

-- A quoted word may hold anything: a quote and a backslash are written behind a backslash.
unfoldable pub escape : Text → Text
escape [] = []
escape (c ∷ cs) =
    let rest = escape cs in if is c b'"' || is c b'\\' then backslash ∷ c ∷ rest else c ∷ rest

unfoldable pub token_text : Token → Text
unfolding escape
token_text (bare c cs _ _) = c ∷ cs
token_text (braced cs _) = brace_open ∷ (cs ++ brace_close ∷ [])
token_text (bracketed cs _) = bracket_open ∷ (cs ++ bracket_close ∷ [])
token_text (quoted cs) = quote ∷ (escape cs ++ quote ∷ [])

-- The word that a token stands for: the quotes of a quoted word go, the brackets stay.
unfoldable pub token_word : Token → String
token_word (bare c cs _ _) = join (c ∷ cs)
token_word (braced cs _) = join (brace_open ∷ (cs ++ brace_close ∷ []))
token_word (bracketed cs _) = join (bracket_open ∷ (cs ++ bracket_close ∷ []))
token_word (quoted cs) = join cs

pub data Separator : Type 0 where
  space tab continuation : Separator

unfoldable pub separator_text : Separator → Text
separator_text space = chars " "
separator_text tab = chars "\t"
separator_text continuation = chars "\\\n"

unfoldable pub separators_text : List Separator → Text
unfolding separator_text
separators_text [] = []
separators_text (s ∷ ss) = separator_text s ++ separators_text ss

-- The last of a line: nothing behind its last separator, a last word with nothing behind it, or a
-- comment.
pub data LineEnd : Type 0 where
  nothing : LineEnd
  last_word : Token → LineEnd
  comment : (cs : Text) → All (λ c. code c ≢ b'\n') cs → LineEnd

unfoldable pub line_end_text : LineEnd → Text
unfolding token_text
line_end_text nothing = []
line_end_text (last_word t) = token_text t
line_end_text (comment cs _) = hash ∷ cs

-- A word with what separates it from what follows in its line.
pub record Spaced : Type 0 where
  pub token : Token
  pub gap : Separator
  pub gaps : List Separator

-- One logical line: the separators in front, its words that a separator follows, and its end.
pub record Line : Type 0 where
  pub indent : List Separator
  pub tokens : List Spaced
  pub ending : LineEnd

unfoldable pub tokens_text : List Spaced → Text → Text
unfolding token_text separator_text separators_text
tokens_text [] rest = rest
tokens_text (t ∷ ts) rest =
    token_text t.token ++ (separator_text t.gap ++ (separators_text t.gaps ++ tokens_text ts rest))

unfoldable pub line_text : Line → Text → Text
unfolding tokens_text separators_text line_end_text
line_text l rest = separators_text l.indent ++ tokens_text l.tokens (line_end_text l.ending ++ rest)

unfoldable pub end_words : LineEnd → List String
unfolding token_word
end_words nothing = []
end_words (last_word t) = token_word t ∷ []
end_words (comment cs _) = []

unfoldable pub tokens_words : List Spaced → List String
unfolding token_word
tokens_words [] = []
tokens_words (t ∷ ts) = token_word t.token ∷ tokens_words ts

unfoldable pub words_of : Line → List String
unfolding tokens_words end_words
words_of l = tokens_words l.tokens ++ end_words l.ending

-- The lines with a newline between each two; a file that ends with one has an empty last line.
unfoldable pub source_text : List Line → Text
unfolding line_text
source_text [] = []
source_text (l ∷ []) = line_text l []
source_text (l ∷ m ∷ ls) = line_text l (newline ∷ source_text (m ∷ ls))

-- A line without words is no command.
unfoldable pub with_command : List String → List (List String) → List (List String)
with_command [] rest = rest
with_command (w ∷ ws) rest = (w ∷ ws) ∷ rest

unfoldable pub source_commands : List Line → List (List String)
unfolding with_command words_of
source_commands [] = []
source_commands (l ∷ ls) = with_command (words_of l) (source_commands ls)
