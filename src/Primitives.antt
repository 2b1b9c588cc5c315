-- ===== src/Primitives.antt =====
-- src/rtl_buddy_cdc/primitives.py: synchroniser macros by name, and their depth parameters. A
-- parameter of a cell is a string here, so that `parse_param_int` has no case for other objects.
pub mod Bits
pub mod Spelling
use rtl_buddy_cdc.Base.{
  ℕ, suc, ◌+◌, Char, code, String, Bool, true, false, not, ◌&&◌, ◌||◌, Option, none, some, List, [],
  ◌∷◌, ◌++◌, ◌==◌, string_eq, nat_eq, if◌then◌else◌, all, any, contains, Dict, lookup, insert,
}
use rtl_buddy_cdc.Sdc.Tokenizer.{Text, chars, join, is}
use rtl_buddy_cdc.Sdc.Names.{starts_with, is_in}
use rtl_buddy_cdc.Text.{strip, split_on}
use rtl_buddy_cdc.Netlist.{Cell}

abbrev pub xpm_cdc_modules : List String
xpm_cdc_modules =
    "xpm_cdc_single" ∷ "xpm_cdc_array_single" ∷ "xpm_cdc_gray" ∷ "xpm_cdc_handshake"
    ∷ "xpm_cdc_pulse" ∷ "xpm_cdc_sync_rst" ∷ "xpm_cdc_async_rst" ∷ []

abbrev pub xpm_depth_params : Dict String (List String)
xpm_depth_params =
    ("xpm_cdc_single", "DEST_SYNC_FF" ∷ [])
    ∷ ("xpm_cdc_array_single", "DEST_SYNC_FF" ∷ [])
    ∷ ("xpm_cdc_gray", "DEST_SYNC_FF" ∷ [])
    ∷ ("xpm_cdc_handshake", "DEST_SYNC_FF" ∷ "SRC_SYNC_FF" ∷ [])
    ∷ ("xpm_cdc_pulse", "DEST_SYNC_FF" ∷ [])
    ∷ ("xpm_cdc_sync_rst", "DEST_SYNC_FF" ∷ [])
    ∷ ("xpm_cdc_async_rst", "DEST_SYNC_FF" ∷ [])
    ∷ []

abbrev pub xpm_default_sync_ff : ℕ
xpm_default_sync_ff = 4

abbrev pub extra_depth_params : List String
extra_depth_params = "DEST_SYNC_FF" ∷ []

-- `text.lstrip("\\")`
unfoldable pub strip_backslashes : Text → Text
strip_backslashes [] = []
strip_backslashes (c ∷ cs) = let rest = strip_backslashes cs in if is c b'\\' then rest else c ∷ cs

-- `parts[1]`, where there is one.
unfoldable pub second_part : List Text → Text → Text
second_part (first ∷ second ∷ parts) whole = second
second_part _ whole = whole

unfoldable pub normalise_text : Text → Text
unfolding strip_backslashes second_part split_on starts_with
normalise_text text =
    strip_backslashes (
      if starts_with (chars "$paramod") text
      then second_part (split_on "\\" [] text) text
      else text)

unfoldable pub normalise_type : String → String
unfolding normalise_text
normalise_type module_type = join (normalise_text (chars module_type))

unfoldable pub is_xpm_primitive : String → Bool
unfolding normalise_type contains
is_xpm_primitive module_type = contains xpm_cdc_modules (normalise_type module_type)

unfoldable pub is_sync_primitive : String → List String → Bool
unfolding normalise_type contains
is_sync_primitive module_type extra =
    let name = normalise_type module_type in contains xpm_cdc_modules name || contains extra name

unfoldable pub port_domain : String → String → String
unfolding is_xpm_primitive normalise_type starts_with
port_domain module_type port =
    if is_xpm_primitive module_type && starts_with (chars "src") (chars (normalise_type port))
    then "src"
    else "dest"

unfoldable pub is_bit : Char → Bool
is_bit c = is c b'0' || is c b'1'

-- `int(s, 2)`, behind the digits that are read.
unfoldable pub read_bits : ℕ → Text → ℕ
read_bits value [] = value
read_bits value (c ∷ cs) = read_bits (value + value + (if is c b'1' then 1 else 0)) cs

-- `len(s) > 1 and set(s) <= {"0", "1"}`
unfoldable pub is_bit_vector : Text → Bool
unfolding is_bit all
is_bit_vector [] = false
is_bit_vector (c ∷ []) = false
is_bit_vector (c ∷ d ∷ cs) = all (c ∷ d ∷ cs) is_bit

unfoldable pub depth_params : String → List String → List String
unfolding normalise_type contains
depth_params module_type extra = elim (lookup (normalise_type module_type) xpm_depth_params) [
  | some params ↦ params
  | none ↦ if contains extra (normalise_type module_type) then extra_depth_params else []
]

-- `str.lower` is an argument.
unfoldable pub clock_pin_role : (Text → Text) → String → Option String
unfolding any is_in
clock_pin_role lower port =
    let low = lower (chars port) in
    if any ("dest" ∷ "dst" ∷ []) (λ h. is_in (chars h) low)
    then some "dest"
    else if any ("src" ∷ []) (λ h. is_in (chars h) low)
    then some "src"
    else none

-- Python's integers, with `int(s, 10)` on a text that is not empty.
module _ {Int : Type 0} (of_nat : ℕ → Int) (decimal : Text → Option Int) where
  unfoldable pub parse_text_int : Text → Option Int
  unfolding is_bit_vector read_bits
  parse_text_int [] = none
  parse_text_int (c ∷ cs) =
      if is_bit_vector (c ∷ cs) then some (of_nat (read_bits 0 (c ∷ cs))) else decimal (c ∷ cs)

  unfoldable pub parse_param_int : String → Option Int
  unfolding parse_text_int strip
  parse_param_int raw = parse_text_int (strip (chars raw))

  unfoldable pub with_depth : String → Option Int → Dict String Int → Dict String Int
  with_depth param none out = out
  with_depth param (some value) out = insert param value out

  -- The depth that one parameter declares, or the default of an XPM macro.
  unfoldable pub add_depth : Bool → String → Option String → Dict String Int → Dict String Int
  unfolding with_depth parse_param_int
  add_depth is_xpm param (some raw) out = with_depth param (parse_param_int raw) out
  add_depth is_xpm param none out =
      if is_xpm then insert param (of_nat xpm_default_sync_ff) out else out

  unfoldable pub add_depths : Bool → Cell → List String → Dict String Int → Dict String Int
  unfolding add_depth
  add_depths is_xpm cell [] out = out
  add_depths is_xpm cell (param ∷ params) out =
      add_depths is_xpm cell params (add_depth is_xpm param (lookup param cell.parameters) out)

  unfoldable pub sync_depths : Cell → List String → Dict String Int
  unfolding add_depths is_xpm_primitive depth_params
  sync_depths cell extra =
      add_depths (is_xpm_primitive cell.type) cell (depth_params cell.type extra) []
