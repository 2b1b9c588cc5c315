-- ===== src/Sdc/Tokenizer/RoundTrip.antt =====
-- What `_tokenize` of src/rtl_buddy_cdc/tcl_tokenizer.py reads back from a written source.
use mathlib.Core.List.{append_assoc, append-nil}
use rtl_buddy_cdc.Base.{
  ℕ, code, String, not, List, [], ◌∷◌, ◌++◌, ◌≢◌, ◌≡◌, refl, sym, ap, ◌∙◌, nat_eq, All, length,
  take_while, arith, length-append,
}
use rtl_buddy_cdc.Sdc.Tokenizer.{
  Text, join, is, Reader, flush_word, flush_line, step, read, tokenize,
}
use rtl_buddy_cdc.Sdc.Tokenizer.Source.{
  brace_open, brace_close, bracket_open, bracket_close, quote, newline, hash, Token, bare, braced,
  bracketed, quoted, escape, token_text, token_word, Separator, space, tab, continuation,
  separator_text, separators_text, LineEnd, nothing, last_word, comment, line_end_text, end_words,
  Spaced, Line, tokens_text, tokens_words, line_text, words_of, source_text, with_command,
  source_commands,
}
use rtl_buddy_cdc.Sdc.Tokenizer.Words.{
  at, read-step, step_first, read_plain, step_brace, step_bracket, step-quote, body-close,
  quoted_body-escape,
}

read_separator :
    (r : Reader) (s : Separator) (rest : Text)
    → read r 0 (separator_text s ++ rest) ≡ read (flush_word r) 0 rest
unfolding separator_text read step
read_separator r space rest = refl
read_separator r tab rest = refl
read_separator r continuation rest = refl

module _ (ls : List (List String)) (cur : List String) where
  flush_word_nothing : flush_word (at ls cur []) ≡ at ls cur []
  unfolding flush_word
  flush_word_nothing = refl

  read_separators :
      (ss : List Separator) (rest : Text)
      → read (at ls cur []) 0 (separators_text ss ++ rest) ≡ read (at ls cur []) 0 rest
  unfolding separators_text
  read_separators [] rest = refl
  read_separators (s ∷ ss) rest = rw append_assoc (
      read_separator (at ls cur []) s (separators_text ss ++ rest)
      ∙ (ap (λ r. read r 0 (separators_text ss ++ rest)) flush_word_nothing
          ∙ read_separators ss rest))

  -- The reader behind a word, before it knows that the word is over.
  after_word : Token → Reader
  after_word (bare c cs f p) = at ls cur (c ∷ cs)
  after_word (braced cs b) = at ls (cur ++ token_word (braced cs b) ∷ []) []
  after_word (bracketed cs b) = at ls (cur ++ token_word (bracketed cs b) ∷ []) []
  after_word (quoted cs) = at ls (cur ++ token_word (quoted cs) ∷ []) []

  read_token :
      (t : Token) (rest : Text)
      → read (at ls cur []) 0 (token_text t ++ rest) ≡ read (after_word t) 0 rest
  unfolding token_text token_word after_word
  read_token (bare c cs f p) rest =
      read-step (at ls cur []) (at ls cur (c ∷ [])) c [] (cs ++ rest) (step_first ls cur c _ f)
      ∙ read_plain ls cur cs rest c [] p
  read_token (braced cs b) rest =
      let word = body-close brace_open brace_close rest (omega arith) b in
      read-step (at ls cur []) _ brace_open (cs ++ brace_close ∷ []) rest
        (step_brace ls cur _ ∙ rw word)
  read_token (bracketed cs b) rest =
      let word = body-close bracket_open bracket_close rest (omega arith) b in
      read-step (at ls cur []) _ bracket_open (cs ++ bracket_close ∷ []) rest
        (step_bracket ls cur _ ∙ rw word)
  read_token (quoted cs) rest =
      let word = quoted_body-escape cs rest in
      let ended : ℕ → Reader × ℕ = λ n. (at ls (cur ++ join cs ∷ []) [], n) in
      read-step (at ls cur []) _ quote (escape cs ++ quote ∷ []) rest
        (step-quote ls cur _ ∙ rw (append_assoc, word, length-append) (ap ended (omega arith)))

  flush_word-after_word :
      (t : Token) → flush_word (after_word t) ≡ at ls (cur ++ token_word t ∷ []) []
  unfolding flush_word after_word token_word
  flush_word-after_word (bare c cs f p) = refl
  flush_word-after_word (braced cs b) = refl
  flush_word-after_word (bracketed cs b) = refl
  flush_word-after_word (quoted cs) = refl

  -- A separator ends the word.
  read_spaced :
      (t : Token) (s : Separator) (rest : Text)
      → read (after_word t) 0 (separator_text s ++ rest)
        ≡ read (at ls (cur ++ token_word t ∷ []) []) 0 rest
  read_spaced t s rest =
      read_separator (after_word t) s rest ∙ ap (λ r. read r 0 rest) (flush_word-after_word t)

read_tokens :
    (ls : List (List String)) (cur : List String) (ts : List Spaced) (rest : Text)
    → read (at ls cur []) 0 (tokens_text ts rest) ≡ read (at ls (cur ++ tokens_words ts) []) 0 rest
unfolding tokens_text tokens_words
read_tokens ls cur [] rest = rw append-nil
read_tokens ls cur (t ∷ ts) rest =
    let word = token_word t.token in
    read_token ls cur t.token _
    ∙ (read_spaced ls cur t.token t.gap _
        ∙ (read_separators ls (cur ++ word ∷ []) t.gaps (tokens_text ts rest)
            ∙ (rw append_assoc at (read_tokens ls (cur ++ word ∷ []) ts rest))))

-- The end of the text, or of a line.
abbrev IsLineBreak : Text → Type 0
IsLineBreak [] = Unit
IsLineBreak (c ∷ cs) = code c ≡ b'\n'

take_comment :
    (cs rest : Text)
    → All (λ c. code c ≢ b'\n') cs
    → IsLineBreak rest
    → take_while (λ d. not (is d b'\n')) (cs ++ rest) ≡ cs
unfolding take_while
take_comment [] [] h k = refl
take_comment [] (c ∷ rest) h k = ground (arith, k)
take_comment (c ∷ cs) rest (h, hs) k = ground (arith, take_comment cs rest hs k)

-- What a finished line adds to the commands.
add_command : List (List String) → List String → List (List String)
add_command ls [] = ls
add_command ls (w ∷ ws) = ls ++ (w ∷ ws) ∷ []

flush_line-at :
    (ls : List (List String)) (ws : List String)
    → flush_line (at ls ws []) ≡ at (add_command ls ws) [] []
unfolding flush_line add_command
flush_line-at ls [] = refl
flush_line-at ls (w ∷ ws) = refl

-- A pending word is flushed first.
flush_line-after_word :
    (ls : List (List String)) (cur : List String) (t : Token)
    → flush_line (after_word ls cur t) ≡ at (add_command ls (cur ++ token_word t ∷ [])) [] []
unfolding flush_line after_word token_word
flush_line-after_word ls cur (bare c cs f p) = flush_line-at ls (cur ++ join (c ∷ cs) ∷ [])
flush_line-after_word ls cur (braced cs b) =
    flush_line-at ls (cur ++ join (brace_open ∷ (cs ++ brace_close ∷ [])) ∷ [])
flush_line-after_word ls cur (bracketed cs b) =
    flush_line-at ls (cur ++ join (bracket_open ∷ (cs ++ bracket_close ∷ [])) ∷ [])
flush_line-after_word ls cur (quoted cs) = flush_line-at ls (cur ++ join cs ∷ [])

step-hash :
    (ls : List (List String)) (cur : List String) (rest : Text)
    → step (at ls cur []) hash rest
      ≡ (flush_line (at ls cur []), length (take_while (λ d. not (is d b'\n')) rest))
unfolding step
step-hash ls cur rest = refl

read-newline : (r : Reader) (rest : Text) → read r 0 (newline ∷ rest) ≡ read (flush_line r) 0 rest
unfolding read step
read-newline r rest = refl

read-end : (r : Reader) → read r 0 [] ≡ r
unfolding read
read-end r = refl

-- Where the reader stands behind a line, and that flushing the line adds its command.
Ended : List (List String) → List String → LineEnd → Text → Type 0
Ended ls cur e rest =
    (r : Reader) × (read (at ls cur []) 0 (line_end_text e ++ rest) ≡ read r 0 rest)
    × (flush_line r ≡ at (add_command ls (cur ++ end_words e)) [] [])

read_line_end :
    (ls : List (List String)) (cur : List String) (e : LineEnd) (rest : Text)
    → IsLineBreak rest
    → Ended ls cur e rest
unfolding line_end_text end_words Ended
read_line_end ls cur nothing rest k = (at ls cur [], refl, flush_line-at ls cur ∙ rw append-nil)
read_line_end ls cur (last_word t) rest k =
    (after_word ls cur t, read_token ls cur t rest, flush_line-after_word ls cur t)
read_line_end ls cur (comment cs h) rest k =
    let found = rw flush_line-at at (step-hash ls cur (cs ++ rest)) in
    (
      at (add_command ls cur) [] [],
      read-step (at ls cur []) (at (add_command ls cur) [] []) hash cs rest
          (rw (take_comment cs rest h k) at found),
      flush_line-at (add_command ls cur) [] ∙ (unfold add_command in rw append-nil),
    )

add_command-with_command :
    (ls rest : List (List String)) (ws : List String)
    → add_command ls ws ++ rest ≡ ls ++ with_command ws rest
unfolding add_command with_command
add_command-with_command ls rest [] = refl
add_command-with_command ls rest (w ∷ ws) = rw append_assoc

read_line :
    (ls : List (List String)) (l : Line) (rest : Text)
    → IsLineBreak rest
    → (r : Reader) × (read (at ls [] []) 0 (line_text l rest) ≡ read r 0 rest)
      × (flush_line r ≡ at (add_command ls (words_of l)) [] [])
unfolding line_text words_of Ended
read_line ls l rest k =
    let (r, ended, flushed) = read_line_end ls (tokens_words l.tokens) l.ending rest k in
    (r, read_separators ls [] l.indent _ ∙ (read_tokens ls [] l.tokens _ ∙ ended), flushed)

read_source :
    (ls : List (List String)) (source : List Line)
    → flush_line (read (at ls [] []) 0 (source_text source))
      ≡ at (ls ++ source_commands source) [] []
unfolding source_text source_commands
read_source ls [] = unfold read add_command in (flush_line-at ls [] ∙ rw append-nil)
read_source ls (l ∷ []) =
    let (r, line, flushed) = read_line ls l [] tt in
    ap flush_line (line ∙ read-end r)
    ∙ (flushed
        ∙ ap (λ done. at done [] [])
            (sym (append-nil (add_command ls (words_of l)))
              ∙ add_command-with_command ls [] (words_of l)))
read_source ls (l ∷ m ∷ source) =
    let (r, line, flushed) = read_line ls l (newline ∷ source_text (m ∷ source)) refl in
    ap flush_line
      (line ∙ (read-newline r _ ∙ ap (λ r'. read r' 0 (source_text (m ∷ source))) flushed))
    ∙ (read_source (add_command ls (words_of l)) (m ∷ source)
        ∙ ap (λ done. at done [] [])
            (add_command-with_command ls (source_commands (m ∷ source)) (words_of l)))

-- Whatever lines an author writes down, of words that are bare, in nested braces, in nested brackets
-- or quoted, with blanks, tabs or continuations in front, between any two and behind them or not,
-- with or without a comment behind the last separator, and with or without a newline at the end of
-- the file, the tokenizer returns the words of each line that has any, and nothing else.
pub tokenize-source_text :
    (source : List Line) → tokenize (source_text source) ≡ source_commands source
unfolding tokenize
tokenize-source_text source = ap (λ (r : Reader). r.lines) (read_source [] source)
