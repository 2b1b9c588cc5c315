-- ===== src/Sdc/Args/Lines.antt =====
-- Argument lists as an author means them, and what `_slice` of src/rtl_buddy_cdc/sdc.py makes of
-- them.
use rtl_buddy_cdc.Base.{
  String, true, false, none, some, List, [], ◌∷◌, ◌++◌, length, take_while, lookup, string_eq, All,
  ◌≡◌, refl, ap, ◌∙◌,
}
use rtl_buddy_cdc.Sdc.Names.{is_flag}
use rtl_buddy_cdc.Sdc.Args.{
  Arity, one, greedy, ArgSpec, bare, operand, slurped, Parsed, add_occurrence, operands, take_word,
  slice_from, no_occurrences, slice,
}

-- A flag of the table with what its arity wants, a word on its own, or a flag of another dialect,
-- which may have an operand.
pub data Arg : Type 0 where
  flag : String → Arg
  flag_with : String → String → Arg
  flag_words : String → List String → Arg
  word : String → Arg
  unknown : String → Arg
  unknown_with : String → String → Arg

unfoldable pub arg_words : Arg → List String → List String
arg_words (flag f) rest = f ∷ rest
arg_words (flag_with f w) rest = f ∷ w ∷ rest
arg_words (flag_words f ws) rest = f ∷ (ws ++ rest)
arg_words (word w) rest = w ∷ rest
arg_words (unknown f) rest = f ∷ rest
arg_words (unknown_with f w) rest = f ∷ w ∷ rest

unfoldable pub line_words : List Arg → List String
unfolding arg_words
line_words [] = []
line_words (a ∷ rest) = arg_words a (line_words rest)

-- The end of the line, or a flag.
abbrev pub IsStop : List String → Type 0
IsStop [] = Unit
IsStop (w ∷ ws) = is_flag w ≡ true

-- The argument fits the table, and the next one is not taken for a part of it.
abbrev pub IsArg : ArgSpec → Arg → List String → Type 0
IsArg spec (flag f) rest = lookup f spec.flags ≡ some Arity.zero
IsArg spec (flag_with f w) rest = lookup f spec.flags ≡ some one
IsArg spec (flag_words f ws) rest =
    (lookup f spec.flags ≡ some greedy) × All (λ w. is_flag w ≡ false) ws × IsStop rest
IsArg spec (word w) rest = (lookup w spec.flags ≡ none) × (is_flag w ≡ false)
IsArg spec (unknown f) rest = (lookup f spec.flags ≡ none) × (is_flag f ≡ true) × IsStop rest
IsArg spec (unknown_with f w) rest =
    (lookup f spec.flags ≡ none) × (is_flag f ≡ true) × (is_flag w ≡ false)

abbrev pub IsLine : ArgSpec → List Arg → Type 0
IsLine spec [] = Unit
IsLine spec (a ∷ rest) = IsArg spec a (line_words rest) × IsLine spec rest

-- What an argument means.
unfoldable pub record_arg : Arg → Parsed → Parsed
unfolding add_occurrence
record_arg (flag f) p = add_occurrence f bare p
record_arg (flag_with f w) p = add_occurrence f (operand w) p
record_arg (flag_words f ws) p = add_occurrence f (slurped ws) p
record_arg (word w) p = record p { tail = p.tail ++ w ∷ [] }
record_arg (unknown f) p = p
record_arg (unknown_with f w) p = p

unfoldable pub record_line : List Arg → Parsed → Parsed
unfolding record_arg
record_line [] p = p
record_line (a ∷ rest) p = record_line rest (record_arg a p)

slice_skip :
    (spec : ArgSpec) (p : Parsed) (xs ys : List String)
    → slice_from spec p (length xs) (xs ++ ys) ≡ slice_from spec p 0 ys
unfolding slice_from
slice_skip spec p [] ys = refl
slice_skip spec p (x ∷ xs) ys = slice_skip spec p xs ys

slice_step :
    (spec : ArgSpec) (p q : Parsed) (w : String) (xs ys : List String)
    → take_word spec w (xs ++ ys) p ≡ (q, length xs)
    → slice_from spec p 0 (w ∷ (xs ++ ys)) ≡ slice_from spec q 0 ys
unfolding slice_from
slice_step spec p q w xs ys e = rw (e, slice_from) (slice_skip spec q xs ys)

operands-stop :
    (ws rest : List String)
    → All (λ w. is_flag w ≡ false) ws
    → IsStop rest
    → operands (ws ++ rest) ≡ ws
unfolding operands take_while
operands-stop [] [] h stop = refl
operands-stop [] (r ∷ rest) h stop = rw stop
operands-stop (w ∷ ws) rest (h, hs) stop = rw h (ap (◌∷◌ w) (operands-stop ws rest hs stop))

slice_arg :
    (spec : ArgSpec) (p : Parsed) (a : Arg) (rest : List String)
    → IsArg spec a rest
    → slice_from spec p 0 (arg_words a rest) ≡ slice_from spec (record_arg a p) 0 rest
unfolding arg_words record_arg take_word
slice_arg spec p (flag f) rest h = slice_step spec p _ f [] rest (rw (h, take_word))
slice_arg spec p (flag_with f w) rest h = slice_step spec p _ f (w ∷ []) rest (rw (h, take_word))
slice_arg spec p (flag_words f ws) rest (h, plain, stop) =
    slice_step spec p _ f ws rest (rw (h, take_word) (rw (operands-stop ws rest plain stop)))
slice_arg spec p (word w) rest (h, plain) =
    slice_step spec p _ w [] rest (rw (h, take_word) (rw plain))
slice_arg spec p (unknown f) [] (h, dash, stop) =
    slice_step spec p _ f [] [] (rw (h, take_word) (rw dash))
slice_arg spec p (unknown f) (r ∷ rest) (h, dash, stop) =
    slice_step spec p _ f [] (r ∷ rest) (rw (h, take_word) (rw (dash, stop)))
slice_arg spec p (unknown_with f w) rest (h, dash, plain) =
    slice_step spec p _ f (w ∷ []) rest (rw (h, take_word) (rw (dash, plain)))

slice_from-line_words :
    (spec : ArgSpec) (p : Parsed) (line : List Arg)
    → IsLine spec line
    → slice_from spec p 0 (line_words line) ≡ record_line line p
unfolding line_words record_line slice_from
slice_from-line_words spec p [] h = refl
slice_from-line_words spec p (a ∷ rest) (h, hs) =
    slice_arg spec p a (line_words rest) h ∙ slice_from-line_words spec (record_arg a p) rest hs

abbrev pub unsliced : ArgSpec → Parsed
unsliced spec = record { flags = no_occurrences spec.flags; tail = [] }

pub slice-line_words :
    (spec : ArgSpec) (line : List Arg)
    → IsLine spec line
    → slice (line_words line) spec ≡ record_line line (unsliced spec)
unfolding slice
slice-line_words spec line h = slice_from-line_words spec (unsliced spec) line h
