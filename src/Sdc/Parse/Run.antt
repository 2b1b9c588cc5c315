-- ===== src/Sdc/Parse/Run.antt =====
-- What the constraints of a source come to (src/rtl_buddy_cdc/sdc.py): from the words to the queries.
use mathlib.Core.Path.{ap₂}
use mathlib.Core.List.{append-nil}
use rtl_buddy_cdc.Base.{
  ℕ, String, true, false, Option, List, [], ◌∷◌, ◌++◌, map, All, ◌≡◌, refl, ap, ◌∙◌, sym, string_eq,
  any, any-append, contains, find_index, lookup, insert, arith,
}
use rtl_buddy_cdc.Sdc.Tokenizer.{join}
use rtl_buddy_cdc.Sdc.Names.{is_flag, extract_names, extract_clock_list}
use rtl_buddy_cdc.Sdc.Names.Grammar.{
  Name, name_text, name_word, more_text, Collection, names, braces, getter, collection_text,
  collection_names, chars-join,
}
use rtl_buddy_cdc.Sdc.Names.Shapes.{is_flag-name, extract_names-collection}
use rtl_buddy_cdc.Sdc.Args.{no_occurrences, Occurrence, Parsed, slice, present, all_of, slurped}
use rtl_buddy_cdc.Sdc.Args.Lines.{
  Arg, flag, flag_words, line_words, record_line, IsLine, slice-line_words,
}
use rtl_buddy_cdc.Sdc.Numbers.{Numbers}
use rtl_buddy_cdc.Sdc.Spec.{ClockSpec, Groups, in_different, separates, are_async}
use rtl_buddy_cdc.Sdc.Spec.Relation.{are_async_of_separates}
use rtl_buddy_cdc.Sdc.Commands.{clock_groups, joined, handle_set_clock_groups}
use rtl_buddy_cdc.Sdc.Commands.Table.{set_clock_groups_spec}
use rtl_buddy_cdc.Sdc.Parse.{dispatch, run_words}

abbrev pub collection_word : Collection → String
collection_word c = join (collection_text c)

-- The words of a group: bare names are a word each, names in brackets are one word.
abbrev pub group_words : Collection → List String
group_words (names n ns) = map name_word (n ∷ ns)
group_words (braces ns) = collection_word (braces ns) ∷ []
group_words (getter h ns) = collection_word (getter h ns) ∷ []

is_flag-names : (ns : List Name) → All (λ w. is_flag w ≡ false) (map name_word ns)
is_flag-names [] = tt
is_flag-names (n ∷ ns) = (is_flag-name n, is_flag-names ns)

is_flag-group : (c : Collection) → All (λ w. is_flag w ≡ false) (group_words c)
unfolding is_flag collection_text join
is_flag-group (names n ns) = is_flag-names (n ∷ ns)
is_flag-group (braces ns) = (refl, tt)
is_flag-group (getter h ns) = (refl, tt)

joined-names :
    (n : Name) (ns : List Name) → joined (map name_word (n ∷ ns)) ≡ name_text n ++ more_text ns
unfolding joined more_text
joined-names n [] = chars-join (name_text n) ∙ rw append-nil
joined-names n (m ∷ ns) = rw (chars-join, joined-names m ns) refl

joined-group : (c : Collection) → joined (group_words c) ≡ collection_text c
unfolding joined
joined-group (names n ns) = joined-names n ns ∙ (unfold collection_text in refl)
joined-group (braces ns) = chars-join (collection_text (braces ns))
joined-group (getter h ns) = chars-join (collection_text (getter h ns))

abbrev kind_args : Collection → Collection → List Arg
kind_args ca cb =
    flag "-asynchronous"
    ∷ flag_words "-group" (group_words ca)
    ∷ flag_words "-group" (group_words cb)
    ∷ []

-- `set_clock_groups -asynchronous -group ca -group cb`
abbrev pub async_command : Collection → Collection → List String
async_command ca cb = "set_clock_groups" ∷ line_words (kind_args ca cb)

kind_args-IsLine : (ca cb : Collection) → IsLine set_clock_groups_spec (kind_args ca cb)
unfolding lookup line_words is_flag
kind_args-IsLine ca cb =
    (refl, ((refl, is_flag-group ca, refl), ((refl, is_flag-group cb, tt), tt)))

clock_groups_step :
    (words : List String) (m : String) (ms : List String) (os : List Occurrence)
    → extract_clock_list (join (joined words)) ≡ m ∷ ms
    → clock_groups (slurped words ∷ os) ≡ (m ∷ ms) ∷ clock_groups os
unfolding clock_groups
clock_groups_step words m ms os e = rw (e, clock_groups)

extract_clock_list-joined :
    (c : Collection) → extract_clock_list (join (joined (group_words c))) ≡ collection_names c
unfolding joined extract_clock_list
extract_clock_list-joined c =
    ap (λ t. (extract_names (join t)).0) (joined-group c)
    ∙ ap (λ r. r.0) (extract_names-collection c)

-- A `-group` clause with a member is one group.
clock_groups-collection :
    (c : Collection) (m : String) (ms : List String) (os : List Occurrence)
    → collection_names c ≡ m ∷ ms
    → clock_groups (slurped (group_words c) ∷ os) ≡ (m ∷ ms) ∷ clock_groups os
clock_groups-collection c m ms os e =
    clock_groups_step (group_words c) m ms os (extract_clock_list-joined c ∙ e)

contains-cons :
    (xs : List String) (a : String)
    → contains xs a ≡ true
    → (m : String) × (ms : List String) × (xs ≡ m ∷ ms)
unfolding contains
contains-cons [] a h = cc
contains-cons (x ∷ xs) a h = (x, xs, refl)

abbrev sliced : Collection → Collection → Parsed
sliced ca cb = slice (line_words (kind_args ca cb)) set_clock_groups_spec

sliced_groups :
    (ca cb : Collection)
    → all_of (sliced ca cb) "-group" ≡ slurped (group_words ca) ∷ slurped (group_words cb) ∷ []
sliced_groups ca cb =
    rw (slice-line_words set_clock_groups_spec (kind_args ca cb) (kind_args-IsLine ca cb))
      (unfold record_line all_of insert lookup no_occurrences in refl)

sliced_async : (ca cb : Collection) → present (sliced ca cb) "-asynchronous" ≡ true
sliced_async ca cb =
    rw (slice-line_words set_clock_groups_spec (kind_args ca cb) (kind_args-IsLine ca cb))
      (unfold record_line present all_of insert lookup no_occurrences in refl)

clock_groups-kind :
    (ca cb : Collection) (a b : String)
    → contains (collection_names ca) a ≡ true
    → contains (collection_names cb) b ≡ true
    → clock_groups (slurped (group_words ca) ∷ slurped (group_words cb) ∷ [])
      ≡ collection_names ca ∷ collection_names cb ∷ []
clock_groups-kind ca cb a b h k =
    let (m, ms, e) = contains-cons (collection_names ca) a h in
    let (n, ns, f) = contains-cons (collection_names cb) b k in
    clock_groups-collection ca m ms _ e
    ∙ ap₂ ◌∷◌ (sym e)
        (clock_groups-collection cb n ns [] f ∙ (unfold clock_groups in ap (λ g. g ∷ []) (sym f)))

handle-async :
    {Float : Type 0} (p : Parsed) (s : ClockSpec Float) (g h : List String)
    → present p "-asynchronous" ≡ true
    → clock_groups (all_of p "-group") ≡ g ∷ h ∷ []
    → (handle_set_clock_groups p s).async_groups ≡ s.async_groups ++ (g ∷ h ∷ []) ∷ []
unfolding handle_set_clock_groups
handle-async p s g h e f = rw (e, f)

separates-two :
    (statements : List Groups) (g h : List String) (a b : String)
    → contains g a ≡ true
    → contains g b ≡ false
    → contains h b ≡ true
    → separates (statements ++ (g ∷ h ∷ []) ∷ []) a b ≡ true
unfolding separates in_different find_index any
separates-two statements g h a b in_g not_g in_h =
    any-append statements ((g ∷ h ∷ []) ∷ []) _ ∙ ground (arith)

module _ (numbers : Numbers) where
  open numbers use {Float}

  run-async_command :
      (ca cb : Collection) (line : Option ℕ) (s : ClockSpec Float)
      → run_words numbers (async_command ca cb) line s ≡ handle_set_clock_groups (sliced ca cb) s
  unfolding run_words dispatch contains lookup
  run-async_command ca cb line s = refl

  -- `set_clock_groups -asynchronous -group ca -group cb`, whatever came before, makes a clock that
  -- `ca` names and one that `cb` names and `ca` does not asynchronous. Each group is written as one
  -- or more bare names, as names in braces, or as a `get_ports`, `get_pins` or `get_clocks`
  -- expression.
  pub async_command_declares :
      (ca cb : Collection) (line : Option ℕ) (s : ClockSpec Float) (a b : String)
      → contains (collection_names ca) a ≡ true
      → contains (collection_names ca) b ≡ false
      → contains (collection_names cb) b ≡ true
      → are_async (run_words numbers (async_command ca cb) line s) a b ≡ true
  async_command_declares ca cb line s a b in_a not_a in_b =
      let s' = run_words numbers (async_command ca cb) line s in
      let groups = ap clock_groups (sliced_groups ca cb) ∙ clock_groups-kind ca cb a b in_a in_b in
      let added =
        ap (λ (t : ClockSpec Float). t.async_groups) (run-async_command ca cb line s)
        ∙ handle-async (sliced ca cb) s _ _ (sliced_async ca cb) groups in
      let apart = separates-two s.async_groups _ _ a b in_a not_a in_b in
      are_async_of_separates s' a b (λ e. cc (ap (contains (collection_names ca)) e))
        (rw added apart)
