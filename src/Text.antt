-- ===== src/Text.antt =====
-- Methods of Python's `str` that the waiver and pragma readers use, on lists of characters.
use rtl_buddy_cdc.Base.{
  ℕ, zero, suc, Char, code, Bool, true, not, ◌&&◌, ◌||◌, List, [], ◌∷◌, ◌++◌, ◌==◌, nat_eq, leb,
  if◌then◌else◌, take_while,
}
use rtl_buddy_cdc.Sdc.Tokenizer.{Text}
use rtl_buddy_cdc.Sdc.Names.{is_space}
use rtl_buddy_cdc.Sdc.Parse.{replace_crlf}

-- The characters that end a line for `str.splitlines()`.
unfoldable pub is_line_break : Char → Bool
is_line_break c =
    let n = code c in
    (leb 10 n && leb n 13) || (leb 28 n && leb n 30) || n == 0x85 || n == 0x2028 || n == 0x2029

unfoldable pub last_line : Text → List Text
last_line [] = []
last_line (c ∷ cs) = (c ∷ cs) ∷ []

-- With the characters read of the line.
unfoldable pub break_lines : Text → Text → List Text
unfolding last_line is_line_break
break_lines line [] = last_line line
break_lines line (c ∷ cs) =
    let next = line ∷ break_lines [] cs in
    let longer = break_lines (line ++ c ∷ []) cs in if is_line_break c then next else longer

-- `text.splitlines()`, for which `\r\n` is one end of a line.
unfoldable pub splitlines : Text → List Text
unfolding break_lines
splitlines text = break_lines [] (replace_crlf text)

unfoldable pub lstrip : Text → Text
lstrip [] = []
lstrip (c ∷ cs) = let rest = lstrip cs in if is_space c then rest else c ∷ cs

ends_here : Bool → Char → Text → Text
ends_here true c [] = []
ends_here _ c rest = c ∷ rest

unfoldable pub rstrip : Text → Text
unfolding ends_here
rstrip [] = []
rstrip (c ∷ cs) = ends_here (is_space c) c (rstrip cs)

unfoldable pub strip : Text → Text
unfolding lstrip rstrip
strip text = rstrip (lstrip text)

unfoldable pub after_word : Text → Text
after_word [] = []
after_word (c ∷ cs) = let rest = after_word cs in if is_space c then c ∷ cs else rest

-- `text.split(maxsplit=n)`
unfoldable pub split_at_most : ℕ → Text → List Text
unfolding after_word lstrip
split_at_most zero text = last_part (lstrip text)
  where
    last_part : Text → List Text
    last_part [] = []
    last_part (c ∷ cs) = (c ∷ cs) ∷ []
split_at_most (suc n) text = elim (lstrip text) [
  | [] ↦ []
  | c ∷ cs ↦ take_while (λ x. not (is_space x)) (c ∷ cs) ∷ split_at_most n (after_word (c ∷ cs))
]

-- `text.split(separator)` for one character.
unfoldable pub split_on : Char → Text → Text → List Text
split_on separator part [] = part ∷ []
split_on separator part (c ∷ cs) =
    let next = part ∷ split_on separator [] cs in
    let longer = split_on separator (part ++ c ∷ []) cs in
    if code c == code separator then next else longer
