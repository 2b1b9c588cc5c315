-- ===== src/Sdc/Parse/Newlines.antt =====
-- Line ends in `parse` of src/rtl_buddy_cdc/sdc.py, and the whole way from a written source to the
-- commands that are run.
use text.Mathlib.TextEquality.{Char-path}
use rtl_buddy_cdc.Base.{
  Char, code, true, false, none, List, [], ◌∷◌, map, nat_eq, ◌≡◌, ◌≢◌, refl, sym, ap, ◌∙◌,
  if◌then◌else◌, All, arith, Bool-cases, inl, inr,
}
use rtl_buddy_cdc.Sdc.Tokenizer.{Text, is}
use rtl_buddy_cdc.Sdc.Tokenizer.Source.{Line, source_text, source_commands}
use rtl_buddy_cdc.Sdc.Tokenizer.RoundTrip.{tokenize-source_text}
use rtl_buddy_cdc.Sdc.Numbers.{Numbers}
use rtl_buddy_cdc.Sdc.Spec.{empty}
use rtl_buddy_cdc.Sdc.Parse.{
  Backend, tokenizer, read_tokenizer, replace_crlf, replace_cr, normalise_newlines, run, parse_with,
  parse,
}

abbrev pub NoReturn : Text → Type 0
NoReturn = All (λ c. code c ≢ b'\r')

-- The same text with the line ends of Windows.
unfoldable pub to_crlf : Text → Text
to_crlf [] = []
to_crlf (c ∷ cs) = let rest = to_crlf cs in if is c b'\n' then "\r" ∷ "\n" ∷ rest else c ∷ rest

replace_crlf_plain :
    (c : Char) (cs : Text) → code c ≢ b'\r' → replace_crlf (c ∷ cs) ≡ c ∷ replace_crlf cs
unfolding replace_crlf
replace_crlf_plain c [] h = refl
replace_crlf_plain c (d ∷ cs) h = ground arith

to_crlf_newline :
    (c : Char) (cs : Text) → is c b'\n' ≡ true → to_crlf (c ∷ cs) ≡ "\r" ∷ "\n" ∷ to_crlf cs
unfolding to_crlf
to_crlf_newline c cs e = ground arith

to_crlf_other : (c : Char) (cs : Text) → is c b'\n' ≡ false → to_crlf (c ∷ cs) ≡ c ∷ to_crlf cs
unfolding to_crlf
to_crlf_other c cs e = ground arith

newline_path : (c : Char) → is c b'\n' ≡ true → c ≡ "\n"
newline_path c e = Char-path c "\n" ((nat_eq.beq_iff (code c) b'\n').0 e)

replace_crlf_pair : (cs : Text) → replace_crlf ("\r" ∷ "\n" ∷ cs) ≡ "\n" ∷ replace_crlf cs
unfolding replace_crlf
replace_crlf_pair cs = refl

replace_crlf-to_crlf : (cs : Text) → NoReturn cs → replace_crlf (to_crlf cs) ≡ cs
replace_crlf-to_crlf [] h = unfold replace_crlf to_crlf in refl
replace_crlf-to_crlf (c ∷ cs) (h, hs) = elim (Bool-cases (is c b'\n')) [
  | inl e ↦
      rw (to_crlf_newline c cs e, replace_crlf_pair, newline_path c e)
        (ap (◌∷◌ "\n") (replace_crlf-to_crlf cs hs))
  | inr e ↦
      rw (to_crlf_other c cs e, replace_crlf_plain c (to_crlf cs) h)
        (ap (◌∷◌ c) (replace_crlf-to_crlf cs hs))
]

replace_crlf_id : (cs : Text) → NoReturn cs → replace_crlf cs ≡ cs
replace_crlf_id [] h = unfold replace_crlf in refl
replace_crlf_id (c ∷ cs) (h, hs) = replace_crlf_plain c cs h ∙ ap (◌∷◌ c) (replace_crlf_id cs hs)

replace_cr_id : (cs : Text) → NoReturn cs → replace_cr cs ≡ cs
unfolding replace_cr
replace_cr_id [] h = refl
replace_cr_id (c ∷ cs) (h, hs) = ground (arith, replace_cr_id cs hs)

normalise_id : (cs : Text) → NoReturn cs → normalise_newlines cs ≡ cs
unfolding normalise_newlines
normalise_id cs h = ap replace_cr (replace_crlf_id cs h) ∙ replace_cr_id cs h

normalise-to_crlf : (cs : Text) → NoReturn cs → normalise_newlines (to_crlf cs) ≡ cs
unfolding normalise_newlines
normalise-to_crlf cs h = ap replace_cr (replace_crlf-to_crlf cs h) ∙ replace_cr_id cs h

module _ (numbers : Numbers) where
  -- A text without carriage returns and the same with the line ends of Windows are parsed into the
  -- same spec, by the tokenizer and by any Tcl reader, which is a function of the text that it is given.
  pub parse-to_crlf :
      (backend : Backend) (cs : Text)
      → NoReturn cs
      → parse numbers backend (to_crlf cs) ≡ parse numbers backend cs
  unfolding parse
  parse-to_crlf backend cs h =
      ap (parse_with numbers backend) (normalise-to_crlf cs h ∙ sym (normalise_id cs h))

  -- With the tokenizer, a source that an author has written down runs exactly its commands, in their
  -- order, on the empty spec.
  pub parse-source_text :
      (source : List Line)
      → NoReturn (source_text source)
      → parse numbers tokenizer (source_text source)
        ≡ run numbers
            (map (λ ws. record { words = ws; line = none }) (source_commands source))
            empty
  unfolding parse read_tokenizer
  parse-source_text source h = rw (normalise_id (source_text source) h, tokenize-source_text source)
