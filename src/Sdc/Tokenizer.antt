-- ===== src/Sdc/Tokenizer.antt =====
-- `_tokenize` of src/rtl_buddy_cdc/tcl_tokenizer.py. A text that is walked is a list of characters,
-- a word of the result is a `String`. The source walks by an index `i`: here `i` stands before the
-- characters that are left, after `skip` of them that an inner loop has read already.
pub mod Source
pub mod Words
pub mod RoundTrip
use Prim.Native.String
use rtl_buddy_cdc.Base.{
  ℕ, zero, suc, ◌+◌, Char, code, String, Bool, true, false, not, ◌&&◌, ◌||◌, List, [], ◌∷◌, ◌++◌,
  ◌==◌, nat_eq, if◌then◌else◌, length, take_while,
}

abbrev pub Text : Type 0
Text = List Char

abbrev pub chars : String → Text
chars String.[] = []
chars (String.◌∷◌ c s) = c ∷ chars s

-- `"".join(word)`
unfoldable pub join : Text → String
join [] = String.[]
join (c ∷ cs) = String.◌∷◌ c (join cs)

abbrev pub is : Char → ℕ → Bool
is c n = code c == n

-- The local variables `lines`, `current` and `word`.
pub record Reader : Type 0 where
  pub lines : List (List String)
  pub current : List String
  pub word : Text

abbrev pub start : Reader
start = record { lines = []; current = []; word = [] }

abbrev push : Reader → String → Reader
push r w = record r { current = r.current ++ w ∷ [] }

flush_word_of : Text → Reader → Reader
flush_word_of [] r = r
flush_word_of (c ∷ cs) r = record r { current = r.current ++ join (c ∷ cs) ∷ []; word = [] }

unfoldable pub flush_word : Reader → Reader
unfolding flush_word_of
flush_word r = flush_word_of r.word r

flush_current_of : List String → Reader → Reader
flush_current_of [] r = r
flush_current_of (w ∷ ws) r = record r { lines = r.lines ++ (w ∷ ws) ∷ []; current = [] }

unfoldable pub flush_line : Reader → Reader
unfolding flush_word flush_current_of
flush_line r = let r' = flush_word r in flush_current_of r'.current r'

-- The loop over a `{…}` or `[…]` word, behind its first bracket: what it reads.
unfoldable pub bracket_body : ℕ → ℕ → ℕ → Text → Text
bracket_body opening closing zero cs = []
bracket_body opening closing (suc depth) [] = []
bracket_body opening closing (suc depth) (c ∷ cs) =
    c
    ∷ bracket_body opening closing
        (if is c opening then suc (suc depth) else if is c closing then depth else suc depth) cs

-- The loop over a `"…"` word, behind its first quote: `buf`, and how many characters it reads, the
-- closing quote among them.
unfoldable pub quoted_body : Text → Text × ℕ
quoted_body [] = ([], 0)
quoted_body (c ∷ []) = if is c b'"' then ([], 1) else (c ∷ [], 1)
quoted_body (c ∷ d ∷ cs) =
    let escaped = quoted_body cs in
    let plain = quoted_body (d ∷ cs) in
    let with_escaped : Text × ℕ = (d ∷ escaped.0, suc (suc escaped.1)) in
    let with_plain : Text × ℕ = (c ∷ plain.0, suc plain.1) in
    if is c b'"' then ([], 1) else if is c b'\\' then with_escaped else with_plain

abbrev is_newline_next : Text → Bool
is_newline_next [] = false
is_newline_next (c ∷ cs) = is c b'\n'

abbrev is_blank : Char → Bool
is_blank c = is c b' ' || is c b'\t' || is c b'\r'

abbrev is_empty : Text → Bool
is_empty [] = true
is_empty (c ∷ cs) = false

-- One round of the outer loop at the character `c`: the new state, and how many characters of the
-- rest the round has read besides `c`.
unfoldable pub step : Reader → Char → Text → Reader × ℕ
unfolding flush_line
step r c cs =
    if is c b'\\' && is_newline_next cs
    then (flush_word r, 1)
    else if is c b'\n'
    then (flush_line r, 0)
    else if is_blank c
    then (flush_word r, 0)
    else if is c b'#' && is_empty r.word
    then (flush_line r, length (take_while (λ d. not (is d b'\n')) cs))
    else if is c b'{' && is_empty r.word
    then (let body = bracket_body b'{' b'}' 1 cs in (push r (join (c ∷ body)), length body))
    else if is c b'[' && is_empty r.word
    then (let body = bracket_body b'[' b']' 1 cs in (push r (join (c ∷ body)), length body))
    else if is c b'"' && is_empty r.word
    then (let (buf, used) = quoted_body cs in (push r (join buf), used))
    else (record r { word = r.word ++ c ∷ [] }, 0)

unfoldable pub read : Reader → ℕ → Text → Reader
read r skip [] = r
read r (suc skip) (c ∷ cs) = read r skip cs
read r zero (c ∷ cs) = let (r', skip) = step r c cs in read r' skip cs

unfoldable pub tokenize : Text → List (List String)
unfolding read step flush_line join bracket_body quoted_body take_while
tokenize text = (flush_line (read start 0 text)).lines
