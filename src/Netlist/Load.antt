-- ===== src/Netlist/Load.antt =====
-- The loader of src/rtl_buddy_cdc/netlist.py: `_is_blackbox`, `_parse_module`, `load_with_blackboxes`
-- and `load`, on the objects that `json.loads` makes of the file. A key that may be missing is an
-- option.
pub mod Named
pub mod One
use rtl_buddy_cdc.Base.{
  String, Bool, true, false, not, ◌&&◌, ◌||◌, Option, none, some, List, [], ◌∷◌, ◌++◌, ◌≡◌, ◌⊎◌,
  inl, inr, Dict, keys, lookup, insert, string_eq, if◌then◌else◌,
}
use mathlib.Core.Option.{get_or}
use rtl_buddy_cdc.Sdc.Tokenizer.{is}
use rtl_buddy_cdc.Netlist.{Bit, Port, Cell, Netname, Module}
use rtl_buddy_cdc.Netlist.Flops.{has_prefix}

-- `KeyError` for a key that the loader reads with `[ ]`, and the two `ValueError`s.
pub data LoadError : Type 0 where
  missing_key : LoadError
  no_modules : LoadError
  not_one_module : List String → LoadError

pub record RawPort : Type 0 where
  pub direction : Option String
  pub bits : Option (List Bit)

pub record RawCell : Type 0 where
  pub type : Option String
  pub connections : Option (Dict String (List Bit))
  pub parameters : Option (Dict String String)
  pub attributes : Option (Dict String String)

pub record RawNetname : Type 0 where
  pub bits : Option (List Bit)
  pub attributes : Option (Dict String String)

pub record RawModule : Type 0 where
  pub attributes : Option (Dict String String)
  pub ports : Option (Dict String RawPort)
  pub cells : Option (Dict String RawCell)
  pub netnames : Option (Dict String RawNetname)

abbrev pub Loaded : Type 0 → Type 0
Loaded A = LoadError ⊎ A

unfoldable pub and_then : {A B : Type 0} → Loaded A → (A → Loaded B) → Loaded B
and_then (inl error) f = inl error
and_then (inr a) f = f a

-- `d[key]`
unfoldable pub required : {A : Type 0} → Option A → Loaded A
required none = inl missing_key
required (some a) = inr a

-- `any(ch not in ("0", "") for ch in val)`
unfoldable pub has_set_bit : String → Bool
has_set_bit String.[] = false
has_set_bit (String.◌∷◌ c s) = not (is c b'0') || has_set_bit s

unfoldable pub is_set : Option String → Bool
unfolding has_set_bit
is_set none = false
is_set (some val) = has_set_bit val

unfoldable pub is_blackbox : RawModule → Bool
unfolding is_set
is_blackbox raw = is_set (lookup "blackbox" (get_or raw.attributes []))

-- A dictionary by its entries, of which each may fail.
unfoldable pub parse_entries :
    {A B : Type 0} → (String → A → Loaded B) → Dict String A → Loaded (Dict String B)
unfolding and_then
parse_entries parse [] = inr []
parse_entries parse ((name, a) ∷ entries) =
    and_then (parse name a)
      (λ b. and_then (parse_entries parse entries) (λ rest. inr ((name, b) ∷ rest)))

unfoldable pub parse_port : String → RawPort → Loaded Port
unfolding and_then required
parse_port name raw = and_then (required raw.direction) (λ direction.
    and_then (required raw.bits)
      (λ bits. inr (record { name = name; direction = direction; bits = bits })))

unfoldable pub parse_cell : String → RawCell → Loaded Cell
unfolding and_then required
parse_cell name raw = and_then (required raw.type) (λ type. inr (record {
  name = name;
  type = type;
  connections = get_or raw.connections [];
  parameters = get_or raw.parameters [];
  attributes = get_or raw.attributes [];
}))

unfoldable pub parse_netname : String → RawNetname → Loaded Netname
unfolding and_then required
parse_netname name raw =
    and_then (required raw.bits)
      (λ bits. inr (record { name = name; bits = bits; attributes = get_or raw.attributes [] }))

unfoldable pub parse_module : String → RawModule → Bool → Loaded Module
unfolding and_then parse_entries
parse_module name raw blackbox = and_then (parse_entries parse_port (get_or raw.ports [])) (λ ports.
    and_then (parse_entries parse_cell (get_or raw.cells [])) (λ cells.
      and_then (parse_entries parse_netname (get_or raw.netnames [])) (λ netnames. inr (record {
        name = name;
        ports = ports;
        cells = cells;
        netnames = netnames;
        is_blackbox = blackbox;
        boundary = none;
      }))))

-- `blackboxes` and `top_candidates`.
abbrev pub Found : Type 0
Found = Dict String Module × List String

unfoldable pub scan_module : String → RawModule → Found → Loaded Found
unfolding and_then parse_module is_blackbox
scan_module name raw (blackboxes, tops) =
    if is_blackbox raw
    then and_then (parse_module name raw true) (λ m. inr (insert name m blackboxes, tops))
    else inr (blackboxes, if has_prefix name "$" then tops else tops ++ name ∷ [])

unfoldable pub scan_modules : Dict String RawModule → Found → Loaded Found
unfolding and_then scan_module
scan_modules [] found = inr found
scan_modules ((name, raw) ∷ mods) found = and_then (scan_module name raw found) (scan_modules mods)

-- The one candidate, or a failure that names the modules.
unfoldable pub top_of : Dict String RawModule → Found → Loaded (Module × Dict String Module)
unfolding and_then parse_module required
top_of mods (blackboxes, name ∷ []) =
    and_then (required (lookup name mods))
      (λ raw. and_then (parse_module name raw false) (λ top. inr (top, blackboxes)))
top_of mods (blackboxes, _) = inl (not_one_module (keys mods))

-- `data.get("modules", {})`, of which an absent and an empty one fail alike.
unfoldable pub load_with_blackboxes :
    Option (Dict String RawModule) → Loaded (Module × Dict String Module)
unfolding and_then scan_modules top_of
load_with_blackboxes none = inl no_modules
load_with_blackboxes (some []) = inl no_modules
load_with_blackboxes (some (m ∷ mods)) =
    and_then (scan_modules (m ∷ mods) ([], [])) (top_of (m ∷ mods))

unfoldable pub load : Option (Dict String RawModule) → Loaded Module
unfolding and_then load_with_blackboxes
load modules = and_then (load_with_blackboxes modules) (λ found. inr found.0)
