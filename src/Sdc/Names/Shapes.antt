-- ===== src/Sdc/Names/Shapes.antt =====
-- The shapes in which SDC writes a collection of names, and what `_extract_names` of
-- src/rtl_buddy_cdc/tcl_tokenizer.py makes of them.
use mathlib.Core.List.{append_assoc, append-nil}
use rtl_buddy_cdc.Base.{
  Char, true, false, ◌||◌, List, [], ◌∷◌, ◌++◌, map, ◌==◌, nat_eq, ◌≡◌, ◌≢◌, refl, sym, ap, ◌∙◌,
  string_eq, contains, All, arith, Bool-cases, inl, inr, ne_false,
}
use rtl_buddy_cdc.Sdc.Tokenizer.{Text, chars, join}
use rtl_buddy_cdc.Sdc.Names.{
  is_space, with_part, split_from, split, is_collection_bracket, without_brackets, is_flag,
  drop_head, keep_names, extract_names,
}
use rtl_buddy_cdc.Sdc.Names.Grammar.{
  get_ports, get_pins, get_clocks, chars-join, IsNameChar, Name, name_text, name_word, more_text,
  Head, head_word, Collection, names, braces, getter, collection_text, collection_names,
  is_in-NoDash, NoDash-collection,
}

-- What `split` makes of the text with its brackets blanked.
abbrev clean : Text → Text → List Text
clean w cs = split_from w (without_brackets cs)

clean_name : (w cs rest : Text) → All IsNameChar cs → clean w (cs ++ rest) ≡ clean (w ++ cs) rest
unfolding split_from without_brackets
clean_name w [] rest h = rw append-nil
clean_name w (c ∷ cs) rest (h, hs) =
    rw (h.not_bracket, h.not_space) (rw append_assoc at (clean_name (w ++ c ∷ []) cs rest hs))

blank_is_space : is_space " " ≡ true
unfolding is_space
blank_is_space = refl

clean_gap :
    (w : Text) (c : Char) (rest : Text)
    → (is_space c || is_collection_bracket c) ≡ true
    → clean w (c ∷ rest) ≡ with_part w (clean [] rest)
unfolding split_from without_brackets
clean_gap w c rest h = elim (Bool-cases (is_collection_bracket c)) [
  | inl e ↦ rw (e, blank_is_space)
  | inr e ↦ ground (arith, e)
]

texts : List Name → List Text
texts ns = map name_text ns

with_part_cons :
    (x : Char) (xs : Text) (parts : List Text) → with_part (x ∷ xs) parts ≡ (x ∷ xs) ∷ parts
unfolding with_part
with_part_cons x xs parts = refl

-- Behind a name or a head, up to a closing bracket.
clean_more :
    (x : Char) (xs : Text) (ns : List Name) (close : Char)
    → is_collection_bracket close ≡ true
    → clean (x ∷ xs) (more_text ns ++ close ∷ []) ≡ (x ∷ xs) ∷ texts ns
unfolding more_text texts
clean_more x xs [] close h =
    clean_gap (x ∷ xs) close [] (ground (arith, h))
    ∙ (unfold with_part split_from without_brackets in refl)
clean_more x xs (n ∷ ns) close h =
    let name = clean_name [] (name_text n) (more_text ns ++ close ∷ []) n.name_chars in
    clean_gap (x ∷ xs) " " ((name_text n ++ more_text ns) ++ close ∷ []) (rw blank_is_space)
    ∙ (with_part_cons x xs _
        ∙ ap (◌∷◌ (x ∷ xs)) (rw append_assoc (name ∙ clean_more n.first n.rest ns close h)))

-- The same up to the end of the text.
clean_rest :
    (x : Char) (xs : Text) (ns : List Name) → clean (x ∷ xs) (more_text ns) ≡ (x ∷ xs) ∷ texts ns
unfolding more_text texts
clean_rest x xs [] = unfold with_part split_from without_brackets in refl
clean_rest x xs (n ∷ ns) =
    let name = clean_name [] (name_text n) (more_text ns) n.name_chars in
    clean_gap (x ∷ xs) " " (name_text n ++ more_text ns) (rw blank_is_space)
    ∙ (with_part_cons x xs _ ∙ ap (◌∷◌ (x ∷ xs)) (name ∙ clean_rest n.first n.rest ns))

clean_head :
    (h : Head) (rest : Text)
    → clean [] (chars (head_word h) ++ rest) ≡ clean (chars (head_word h)) rest
unfolding split_from without_brackets is_space is_collection_bracket
clean_head get_ports rest = refl
clean_head get_pins rest = refl
clean_head get_clocks rest = refl

bracket_gap :
    (c : Char) (rest : Text) → is_collection_bracket c ≡ true → clean [] (c ∷ rest) ≡ clean [] rest
bracket_gap c rest h = clean_gap [] c rest (ground (arith, h)) ∙ (unfold with_part in refl)

-- The parts of a collection: a head stands in front.
collection_parts : Collection → List Text
collection_parts (names n ns) = texts (n ∷ ns)
collection_parts (braces ns) = texts ns
collection_parts (getter h ns) = chars (head_word h) ∷ texts ns

more_of_head :
    (h : Head) (ns : List Name)
    → clean (chars (head_word h)) (more_text ns ++ "]" ∷ []) ≡ chars (head_word h) ∷ texts ns
more_of_head get_ports ns = clean_more _ _ ns "]" (unfold is_collection_bracket in refl)
more_of_head get_pins ns = clean_more _ _ ns "]" (unfold is_collection_bracket in refl)
more_of_head get_clocks ns = clean_more _ _ ns "]" (unfold is_collection_bracket in refl)

split-collection : (c : Collection) → clean [] (collection_text c) ≡ collection_parts c
unfolding collection_text collection_parts
split-collection (names n ns) =
    clean_name [] (name_text n) (more_text ns) n.name_chars
    ∙ (clean_rest n.first n.rest ns ∙ (unfold texts in refl))
split-collection (braces []) =
    unfold split_from with_part without_brackets texts is_collection_bracket is_space in refl
split-collection (braces (n ∷ ns)) =
    let name = clean_name [] (name_text n) (more_text ns ++ "}" ∷ []) n.name_chars in
    bracket_gap "{" _ (unfold is_collection_bracket in refl)
    ∙ (rw append_assoc (
        name
        ∙ (clean_more n.first n.rest ns "}" (unfold is_collection_bracket in refl)
            ∙ (unfold texts in refl))))
split-collection (getter h ns) =
    bracket_gap "[" _ (unfold is_collection_bracket in refl)
    ∙ (clean_head h (more_text ns ++ "]" ∷ []) ∙ more_of_head h ns)

pub is_flag-name : (n : Name) → is_flag (name_word n) ≡ false
unfolding is_flag join
is_flag-name n = ground (arith, n.name_chars.0.not_dash)

differ : (n : Name) → name_word n ≢ "-include_generated_clocks"
unfolding is_flag
differ n e = cc (sym (ap is_flag e) ∙ is_flag-name n)

not_include : (n : Name) → (name_word n == "-include_generated_clocks") ≡ false
not_include n = ne_false {a = name_word n} {b = "-include_generated_clocks"} (differ n)

keep_names-names : (ns : List Name) → keep_names (map name_word ns) ≡ map name_word ns
unfolding keep_names
keep_names-names [] = refl
keep_names-names (n ∷ ns) =
    rw (not_include n, is_flag-name n) (ap (◌∷◌ (name_word n)) (keep_names-names ns))

drop_head-names : (ns : List Name) → drop_head (map name_word ns) ≡ map name_word ns
unfolding drop_head
drop_head-names [] = refl
drop_head-names (n ∷ ns) = rw n.not_head

join-texts : (ns : List Name) → map join (texts ns) ≡ map name_word ns
unfolding texts
join-texts [] = refl
join-texts (n ∷ ns) = ap (◌∷◌ (name_word n)) (join-texts ns)

drop_head-collection :
    (c : Collection) → drop_head (map join (collection_parts c)) ≡ collection_names c
unfolding collection_parts
drop_head-collection (names n ns) = rw join-texts (drop_head-names (n ∷ ns))
drop_head-collection (braces ns) = rw join-texts (drop_head-names ns)
drop_head-collection (getter get_ports ns) = unfold drop_head contains join in join-texts ns
drop_head-collection (getter get_pins ns) = unfold drop_head contains join in join-texts ns
drop_head-collection (getter get_clocks ns) = unfold drop_head contains join in join-texts ns

keep_names-collection : (c : Collection) → keep_names (collection_names c) ≡ collection_names c
keep_names-collection (names n ns) = keep_names-names (n ∷ ns)
keep_names-collection (braces ns) = keep_names-names ns
keep_names-collection (getter h ns) = keep_names-names ns

pub extract_names-collection :
    (c : Collection) → extract_names (join (collection_text c)) ≡ (collection_names c, false)
unfolding extract_names split
extract_names-collection c = rw (
  chars-join,
  is_in-NoDash (collection_text c) (NoDash-collection c),
  split-collection c,
  drop_head-collection c,
  keep_names-collection c,
)
