-- ===== src/Sdc/Names/Grammar.antt =====
-- The shapes in which SDC writes a collection of names.
use mathlib.Core.List.{append_assoc, append-nil}
use rtl_buddy_cdc.Base.{
  Char, code, String, false, List, [], ◌∷◌, ◌++◌, map, nat_eq, ◌≡◌, ◌≢◌, refl, ap, string_eq,
  contains, All, arith,
}
use rtl_buddy_cdc.Sdc.Tokenizer.{Text, chars, join}
use rtl_buddy_cdc.Sdc.Names.{is_space, starts_with, is_in, is_collection_bracket, collection_heads}

pub chars-join : (cs : Text) → chars (join cs) ≡ cs
unfolding join
chars-join [] = refl
chars-join (c ∷ cs) = ap (◌∷◌ c) (chars-join cs)

pub join-chars : (s : String) → join (chars s) ≡ s
unfolding join
join-chars String.[] = refl
join-chars (String.◌∷◌ c s) = ap (String.◌∷◌ c) (join-chars s)

-- A character of a design name: no white space, no bracket, no dash.
pub record IsNameChar (c : Char) : Type 0 where
  pub not_space : is_space c ≡ false
  pub not_bracket : is_collection_bracket c ≡ false
  pub not_dash : code c ≢ b'-'

pub record Name : Type 0 where
  pub first : Char
  pub rest : Text
  pub name_chars : All IsNameChar (first ∷ rest)
  pub not_head : contains collection_heads (join (first ∷ rest)) ≡ false

abbrev pub name_text : Name → Text
name_text n = n.first ∷ n.rest

abbrev pub name_word : Name → String
name_word n = join (name_text n)

-- ` b c`, behind a name or a head.
unfoldable pub more_text : List Name → Text
more_text [] = []
more_text (n ∷ ns) = " " ∷ (name_text n ++ more_text ns)

unfoldable pub names_text : List Name → Text
unfolding more_text
names_text [] = []
names_text (n ∷ ns) = name_text n ++ more_text ns

pub data Head : Type 0 where
  get_ports get_pins get_clocks : Head

abbrev pub head_word : Head → String
head_word get_ports = "get_ports"
head_word get_pins = "get_pins"
head_word get_clocks = "get_clocks"

-- `a b`, `{a b}` or `[get_clocks a b]`
pub data Collection : Type 0 where
  names : Name → List Name → Collection
  braces : List Name → Collection
  getter : Head → List Name → Collection

unfoldable pub collection_text : Collection → Text
unfolding names_text
collection_text (names n ns) = name_text n ++ more_text ns
collection_text (braces ns) = "{" ∷ (names_text ns ++ "}" ∷ [])
collection_text (getter h ns) = "[" ∷ (chars (head_word h) ++ (more_text ns ++ "]" ∷ []))

abbrev pub collection_names : Collection → List String
collection_names (names n ns) = name_word n ∷ map name_word ns
collection_names (braces ns) = map name_word ns
collection_names (getter h ns) = map name_word ns

-- No dash, so no `-filter`.
abbrev NoDash : Text → Type 0
NoDash = All (λ c. code c ≢ b'-')

NoDash-append : (xs ys : Text) → NoDash xs → NoDash ys → NoDash (xs ++ ys)
NoDash-append [] ys h k = k
NoDash-append (x ∷ xs) ys (h, hs) k = (h, NoDash-append xs ys hs k)

NoDash-name : (cs : Text) → All IsNameChar cs → NoDash cs
NoDash-name [] h = tt
NoDash-name (c ∷ cs) (h, hs) = (h.not_dash, NoDash-name cs hs)

pub is_in-NoDash : (cs : Text) → NoDash cs → is_in (chars "-filter") cs ≡ false
unfolding is_in starts_with
is_in-NoDash [] h = refl
is_in-NoDash (c ∷ cs) (h, hs) = ground (arith, is_in-NoDash cs hs)

NoDash-more : (ns : List Name) (ys : Text) → NoDash ys → NoDash (more_text ns ++ ys)
unfolding more_text
NoDash-more [] ys h = h
NoDash-more (n ∷ ns) ys h =
    let inner =
      NoDash-append n.rest (more_text ns ++ ys) (NoDash-name n.rest n.name_chars.1)
        (NoDash-more ns ys h) in
    rw append_assoc (omega arith, (n.name_chars.0.not_dash, inner))

head_NoDash : (h : Head) → NoDash (chars (head_word h))
head_NoDash get_ports = omega arith
head_NoDash get_pins = omega arith
head_NoDash get_clocks = omega arith

pub NoDash-collection : (c : Collection) → NoDash (collection_text c)
unfolding collection_text
NoDash-collection (names n ns) =
    let more = rw append-nil at (NoDash-more ns [] tt) in
    NoDash-append (name_text n) (more_text ns) (NoDash-name (name_text n) n.name_chars) more
NoDash-collection (braces []) = omega arith
NoDash-collection (braces (n ∷ ns)) =
    let inner =
      NoDash-append n.rest (more_text ns ++ "}" ∷ []) (NoDash-name n.rest n.name_chars.1)
        (NoDash-more ns ("}" ∷ []) (omega arith)) in
    rw append_assoc (omega arith, (n.name_chars.0.not_dash, inner))
NoDash-collection (getter h ns) = (
  omega arith,
  NoDash-append (chars (head_word h)) (more_text ns ++ "]" ∷ []) (head_NoDash h)
      (NoDash-more ns ("]" ∷ []) (omega arith)),
)
