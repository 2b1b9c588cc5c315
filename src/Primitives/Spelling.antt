-- ===== src/Primitives/Spelling.antt =====
-- The spellings of a module's name in a netlist, which src/rtl_buddy_cdc/primitives.py undoes.
use mathlib.Core.List.{append_assoc, append-nil}
use rtl_buddy_cdc.Base.{Char, false, [], ◌∷◌, ◌++◌, ◌≡◌, refl, ap, ◌∙◌, nat_eq, All, All-append}
use rtl_buddy_cdc.Sdc.Tokenizer.{Text, chars, join, is}
use rtl_buddy_cdc.Sdc.Names.{starts_with}
use rtl_buddy_cdc.Sdc.Names.Grammar.{chars-join}
use rtl_buddy_cdc.Text.{split_on}
use rtl_buddy_cdc.Primitives.{strip_backslashes, second_part, normalise_text, normalise_type}

abbrev backslash : Char
backslash = "\\"

-- No character of the text is a backslash.
abbrev pub Plain : Text → Type 0
Plain text = All (λ c. is c b'\\' ≡ false) text

abbrev pub paramod : Text
paramod = chars "$paramod"

-- What may follow the name of a derived module: nothing, or its parameters.
pub data Suffix : Text → Type 0 where
  nothing : Suffix []
  parameters : (rest : Text) → Suffix (backslash ∷ rest)

-- A module's own name, its escaped name, or the name of a module derived from it.
pub data Spelling (name : Text) : Text → Type 0 where
  own : starts_with paramod name ≡ false → Spelling name name
  escaped : Spelling name (backslash ∷ name)
  derived :
      (hash suffix : Text)
      → Plain hash
      → Suffix suffix
      → Spelling name (paramod ++ hash ++ backslash ∷ (name ++ suffix))

split_on-first :
    (part text rest : Text)
    → Plain text
    → split_on backslash part (text ++ backslash ∷ rest)
      ≡ (part ++ text) ∷ split_on backslash [] rest
unfolding split_on
split_on-first part [] rest plain = rw append-nil refl
split_on-first part (c ∷ text) rest (other, plain) =
    rw other
      (split_on-first (part ++ c ∷ []) text rest plain ∙ rw (append_assoc part (c ∷ []) text) refl)

split_on-last : (part text : Text) → Plain text → split_on backslash part text ≡ (part ++ text) ∷ []
unfolding split_on
split_on-last part [] plain = rw append-nil refl
split_on-last part (c ∷ text) (other, plain) =
    rw other (split_on-last (part ++ c ∷ []) text plain ∙ rw (append_assoc part (c ∷ []) text) refl)

-- The name is the part behind the first backslash.
second_part-name :
    (first name suffix whole : Text)
    → Plain first
    → Plain name
    → Suffix suffix
    → second_part (split_on backslash [] (first ++ backslash ∷ (name ++ suffix))) whole ≡ name
unfolding second_part
second_part-name first name suffix whole plain_first plain nothing =
    rw
      (
        split_on-first [] first (name ++ []) plain_first,
        append-nil name,
        split_on-last [] name plain,
      )
      refl
second_part-name first name suffix whole plain_first plain (parameters rest) =
    rw
      (
        split_on-first [] first (name ++ backslash ∷ rest) plain_first,
        split_on-first [] name rest plain,
      )
      refl

strip_backslashes-Plain : (name : Text) → Plain name → strip_backslashes name ≡ name
unfolding strip_backslashes
strip_backslashes-Plain [] plain = refl
strip_backslashes-Plain (c ∷ cs) (other, plain) = rw other refl

paramod-Plain : Plain paramod
paramod-Plain = (refl, (refl, (refl, (refl, (refl, (refl, (refl, (refl, tt))))))))

normalise_text-Spelling :
    (name text : Text) → Plain name → Spelling name text → normalise_text text ≡ name
unfolding normalise_text
normalise_text-Spelling name text plain (own other) = rw other (strip_backslashes-Plain name plain)
normalise_text-Spelling name text plain escaped = strip_backslashes-Plain name plain
normalise_text-Spelling name text plain (derived hash suffix plain_hash ends) =
    let first = paramod ++ hash in
    let whole = first ++ backslash ∷ (name ++ suffix) in
    let plain_first = All-append (λ c. is c b'\\' ≡ false) paramod hash paramod-Plain plain_hash in
    ap strip_backslashes (second_part-name first name suffix whole plain_first plain ends)
    ∙ strip_backslashes-Plain name plain

-- Each spelling of a module's name without backslashes is normalised to the name: the name itself,
-- unless it starts with `$paramod`; the name behind a backslash; and the name of a derived module,
-- with a hash or without, and with parameters or without.
pub normalise_type-Spelling :
    (name text : Text) → Plain name → Spelling name text → normalise_type (join text) ≡ join name
unfolding normalise_type
normalise_type-Spelling name text plain spelling =
    rw (chars-join text) (ap join (normalise_text-Spelling name text plain spelling))
