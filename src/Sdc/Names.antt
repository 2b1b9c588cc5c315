-- ===== src/Sdc/Names.antt =====
-- `_extract_names` of src/rtl_buddy_cdc/tcl_tokenizer.py, and the peeling helpers of
-- src/rtl_buddy_cdc/sdc.py that call it.
pub mod Grammar
pub mod Shapes
use Prim.Native.String
use rtl_buddy_cdc.Base.{
  ℕ, Char, code, String, Bool, true, false, not, ◌&&◌, ◌||◌, List, [], ◌∷◌, ◌++◌, map, ◌==◌, nat_eq,
  string_eq, ltb, leb, if◌then◌else◌, contains, take_while,
}
use rtl_buddy_cdc.Sdc.Tokenizer.{Text, chars, join, is}

-- `str.isspace`, the characters at which `str.split()` splits.
unfoldable pub is_space : Char → Bool
is_space c =
    let n = code c in
    (leb 9 n && leb n 13)
    || (leb 28 n && leb n 32)
    || n == 0x85
    || n == 0xa0
    || n == 0x1680
    || (leb 0x2000 n && leb n 0x200a)
    || n == 0x2028
    || n == 0x2029
    || n == 0x202f
    || n == 0x205f
    || n == 0x3000

-- The word that ends here, if it has a character.
unfoldable pub with_part : Text → List Text → List Text
with_part [] parts = parts
with_part (c ∷ cs) parts = (c ∷ cs) ∷ parts

-- `text.split()`, with the characters read of the word that stands at the beginning.
unfoldable pub split_from : Text → Text → List Text
unfolding with_part
split_from word [] = with_part word []
split_from word (c ∷ cs) =
    let apart = with_part word (split_from [] cs) in
    let longer = split_from (word ++ c ∷ []) cs in if is_space c then apart else longer

unfoldable pub split : Text → List Text
split = split_from []

unfoldable pub starts_with : Text → Text → Bool
starts_with [] cs = true
starts_with (p ∷ ps) [] = false
starts_with (p ∷ ps) (c ∷ cs) = code p == code c && starts_with ps cs

-- `pattern in text`
unfoldable pub is_in : Text → Text → Bool
unfolding starts_with
is_in pattern [] = starts_with pattern []
is_in pattern (c ∷ cs) = starts_with pattern (c ∷ cs) || is_in pattern cs

unfoldable pub is_collection_bracket : Char → Bool
is_collection_bracket c = is c b'[' || is c b']' || is c b'{' || is c b'}'

-- The four calls of `replace`.
unfoldable pub without_brackets : Text → Text
without_brackets [] = []
without_brackets (c ∷ cs) = (if is_collection_bracket c then " " else c) ∷ without_brackets cs

-- `word.startswith("-")`
unfoldable pub is_flag : String → Bool
is_flag String.[] = false
is_flag (String.◌∷◌ c s) = is c b'-'

abbrev pub collection_heads : List String
collection_heads = "get_ports" ∷ "get_pins" ∷ "get_clocks" ∷ []

unfoldable pub drop_head : List String → List String
drop_head [] = []
drop_head (p ∷ ps) = if contains collection_heads p then ps else p ∷ ps

-- The loop over `parts`.
unfoldable pub keep_names : List String → List String
keep_names [] = []
keep_names (tok ∷ toks) =
    let rest = keep_names toks in
    if tok == "-include_generated_clocks" then rest else if is_flag tok then rest else tok ∷ rest

unfoldable pub extract_names : String → List String × Bool
unfolding split is_in without_brackets is_collection_bracket drop_head keep_names is_space
extract_names word =
    let saw_filter = is_in (chars "-filter") (chars word) in
    let parts = drop_head (map join (split (without_brackets (chars word)))) in
    let kept = if saw_filter then take_while (λ p. not (p == "-filter")) parts else parts in
    (keep_names kept, saw_filter)

-- `_strip_get_clocks`
abbrev first_or : List String → String → String
first_or [] d = d
first_or (n ∷ ns) d = n

unfoldable pub strip_get_clocks : String → String
strip_get_clocks token = first_or (extract_names token).0 token

-- `_extract_clock_list`
unfoldable pub extract_clock_list : String → List String
extract_clock_list token = (extract_names token).0
