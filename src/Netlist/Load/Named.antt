-- ===== src/Netlist/Load/Named.antt =====
-- The modules that the loader of src/rtl_buddy_cdc/netlist.py returns.
use mathlib.Core.Path.{subst}
use mathlib.Core.Sum.{inr-injective}
use rtl_buddy_cdc.Base.{
  String, Bool, true, false, Option, none, some, List, [], ◌∷◌, ◌++◌, ◌≡◌, inl, inr, refl, ap, sym,
  ◌∙◌, Dict, lookup, insert, string_eq, if◌then◌else◌, All, All-insert, Bool-cases,
}
use mathlib.Core.Option.{get_or}
use rtl_buddy_cdc.Netlist.{Bit, Port, Cell, Netname, Module}
use rtl_buddy_cdc.Netlist.Flops.{has_prefix}
use rtl_buddy_cdc.Netlist.Load.{
  RawPort, RawCell, RawNetname, RawModule, Loaded, and_then, required, is_blackbox, parse_entries,
  parse_port, parse_cell, parse_netname, parse_module, Found, scan_module, scan_modules, top_of,
  load_with_blackboxes,
}

pub and_then-inr :
    {A B : Type 0} (r : Loaded A) (f : A → Loaded B) (b : B)
    → and_then r f ≡ inr b
    → (a : A) × (r ≡ inr a) × (f a ≡ inr b)
unfolding and_then
and_then-inr (inl error) f b e = cc
and_then-inr (inr a) f b e = (a, refl, e)

-- A property that the parser of an entry guarantees holds of every parsed entry.
parse_entries-All :
    {A B : Type 0} (P : String × B → Type 0) (parse : String → A → Loaded B) (d : Dict String A)
    (out : Dict String B)
    → ((name : String) (a : A) (b : B) → parse name a ≡ inr b → P (name, b))
    → parse_entries parse d ≡ inr out
    → All P out
unfolding parse_entries
parse_entries-All P parse [] out each e = subst (All P) (inr-injective [] out e) tt
parse_entries-All P parse ((name, a) ∷ d) out each e =
    let (b, first, more) =
      and_then-inr (parse name a)
        (λ b. and_then (parse_entries parse d) (λ rest. inr ((name, b) ∷ rest))) out e in
    let (rest, others, done) =
      and_then-inr (parse_entries parse d) (λ rest. inr ((name, b) ∷ rest)) out more in
    subst (All P) (inr-injective ((name, b) ∷ rest) out done)
      (each name a b first, parse_entries-All P parse d rest each others)

parse_port-name :
    (name : String) (raw : RawPort) (p : Port) → parse_port name raw ≡ inr p → name ≡ p.name
unfolding parse_port
parse_port-name name raw p e =
    let (direction, d, e1) =
      and_then-inr (required raw.direction)
        (λ direction.
          and_then (required raw.bits)
            (λ bits. inr (record { name = name; direction = direction; bits = bits })))
        p e in
    let (bits, b, e2) =
      and_then-inr (required raw.bits)
        (λ bits. inr (record { name = name; direction = direction; bits = bits })) p e1 in
    ap (λ (x : Port). x.name)
      (inr-injective (record { name = name; direction = direction; bits = bits }) p e2)

parse_cell-name :
    (name : String) (raw : RawCell) (c : Cell) → parse_cell name raw ≡ inr c → name ≡ c.name
unfolding parse_cell
parse_cell-name name raw c e =
    let make : String → Cell = λ type. record {
      name = name;
      type = type;
      connections = get_or raw.connections [];
      parameters = get_or raw.parameters [];
      attributes = get_or raw.attributes [];
    } in
    let (type, typed, made) = and_then-inr (required raw.type) (λ type. inr (make type)) c e in
    ap (λ (x : Cell). x.name) (inr-injective (make type) c made)

parse_netname-name :
    (name : String) (raw : RawNetname) (n : Netname)
    → parse_netname name raw ≡ inr n
    → name ≡ n.name
unfolding parse_netname
parse_netname-name name raw n e =
    let make : List Bit → Netname =
      λ bits. record { name = name; bits = bits; attributes = get_or raw.attributes [] } in
    let (bits, given, made) = and_then-inr (required raw.bits) (λ bits. inr (make bits)) n e in
    ap (λ (x : Netname). x.name) (inr-injective (make bits) n made)

-- Each port, cell and netname stands under its own name.
unfoldable pub IsNamed : Module → Type 0
IsNamed m =
    All (λ (e : String × Port). e.0 ≡ e.1.name) m.ports
    × All (λ (e : String × Cell). e.0 ≡ e.1.name) m.cells
    × All (λ (e : String × Netname). e.0 ≡ e.1.name) m.netnames

-- What a parsed module is.
unfoldable pub IsParsed : String → Bool → Module → Type 0
IsParsed name blackbox m = (name ≡ m.name) × (m.is_blackbox ≡ blackbox) × IsNamed m

pub parse_module-IsParsed :
    (name : String) (raw : RawModule) (blackbox : Bool) (m : Module)
    → parse_module name raw blackbox ≡ inr m
    → IsParsed name blackbox m
unfolding parse_module IsParsed IsNamed
parse_module-IsParsed name raw blackbox m e =
    let make : Dict String Port → Dict String Cell → Dict String Netname → Module =
      λ ports cells netnames. record {
        name = name;
        ports = ports;
        cells = cells;
        netnames = netnames;
        is_blackbox = blackbox;
        boundary = none;
      } in
    let parse_cells = parse_entries parse_cell (get_or raw.cells []) in
    let parse_netnames = parse_entries parse_netname (get_or raw.netnames []) in
    let (ports, ps, e1) =
      and_then-inr (parse_entries parse_port (get_or raw.ports []))
        (λ ports.
          and_then parse_cells
            (λ cells. and_then parse_netnames (λ netnames. inr (make ports cells netnames))))
        m e in
    let (cells, cs, e2) =
      and_then-inr parse_cells
        (λ cells. and_then parse_netnames (λ netnames. inr (make ports cells netnames))) m e1 in
    let (netnames, ns, e3) =
      and_then-inr parse_netnames (λ netnames. inr (make ports cells netnames)) m e2 in
    subst (IsParsed name blackbox) (inr-injective (make ports cells netnames) m e3) (
      refl,
      refl,
      (
        parse_entries-All (λ (e : String × Port). e.0 ≡ e.1.name) parse_port (get_or raw.ports [])
            ports parse_port-name ps,
        parse_entries-All (λ (e : String × Cell). e.0 ≡ e.1.name) parse_cell (get_or raw.cells [])
            cells parse_cell-name cs,
        parse_entries-All (λ (e : String × Netname). e.0 ≡ e.1.name) parse_netname
            (get_or raw.netnames []) netnames parse_netname-name ns,
      ),
    )

-- The blackboxes that are found.
abbrev AreBlackboxes : Found → Type 0
AreBlackboxes found = All (λ (e : String × Module). IsParsed e.0 true e.1) found.0

pub scan_module-user :
    (name : String) (raw : RawModule) (found : Found)
    → is_blackbox raw ≡ false
    → scan_module name raw found
      ≡ inr (found.0, if has_prefix name "$" then found.1 else found.1 ++ name ∷ [])
unfolding scan_module
scan_module-user name raw (boxes, tops) user = rw user refl

pub scan_module-blackbox :
    (name : String) (raw : RawModule) (found : Found)
    → is_blackbox raw ≡ true
    → scan_module name raw found
      ≡ and_then (parse_module name raw true) (λ m. inr (insert name m found.0, found.1))
unfolding scan_module
scan_module-blackbox name raw (boxes, tops) box = rw box refl

scan_module-AreBlackboxes :
    (name : String) (raw : RawModule) (found out : Found)
    → AreBlackboxes found
    → scan_module name raw found ≡ inr out
    → AreBlackboxes out
scan_module-AreBlackboxes name raw found out ps e = elim (Bool-cases (is_blackbox raw)) [
  | inr user ↦
      let same =
        inr-injective (found.0, if has_prefix name "$" then found.1 else found.1 ++ name ∷ []) out
          (sym (scan_module-user name raw found user) ∙ e) in
      subst AreBlackboxes same ps
  | inl box ↦
      let (m, parsed, done) =
        and_then-inr (parse_module name raw true) (λ m. inr (insert name m found.0, found.1)) out
          (sym (scan_module-blackbox name raw found box) ∙ e) in
      subst AreBlackboxes (inr-injective (insert name m found.0, found.1) out done) (
        All-insert (λ (x : String × Module). IsParsed x.0 true x.1) name m found.0
          (parse_module-IsParsed name raw true m parsed) ps)
]

scan_modules-AreBlackboxes :
    (mods : Dict String RawModule) (found out : Found)
    → AreBlackboxes found
    → scan_modules mods found ≡ inr out
    → AreBlackboxes out
unfolding scan_modules
scan_modules-AreBlackboxes [] found out ps e = subst AreBlackboxes (inr-injective found out e) ps
scan_modules-AreBlackboxes ((name, raw) ∷ mods) found out ps e =
    let (next, scanned, rest) =
      and_then-inr (scan_module name raw found) (scan_modules mods) out e in
    scan_modules-AreBlackboxes mods next out
      (scan_module-AreBlackboxes name raw found next ps scanned) rest

top_of-IsParsed :
    (mods : Dict String RawModule) (found : Found) (top : Module) (boxes : Dict String Module)
    → top_of mods found ≡ inr (top, boxes)
    → IsParsed top.name false top × (found.0 ≡ boxes)
unfolding top_of IsParsed
top_of-IsParsed mods (boxes, []) top out e = cc
top_of-IsParsed mods (boxes, name ∷ more ∷ names) top out e = cc
top_of-IsParsed mods (boxes, name ∷ []) top out e =
    let (raw, found, e1) =
      and_then-inr (required (lookup name mods))
        (λ raw. and_then (parse_module name raw false) (λ m. inr (m, boxes))) (top, out) e in
    let (m, parsed, e2) =
      and_then-inr (parse_module name raw false) (λ m. inr (m, boxes)) (top, out) e1 in
    let (named, user, entries) = parse_module-IsParsed name raw false m parsed in
    let same = inr-injective (m, boxes) (top, out) e2 in
    (
      subst (λ (x : Module). IsParsed x.name false x)
          (ap (λ (p : Module × Dict String Module). p.0) same) (refl, user, entries),
      ap (λ (p : Module × Dict String Module). p.1) same,
    )

-- Of what the loader returns, the top module is no blackbox and has its ports, cells and netnames
-- under their names, and every other module is a blackbox that stands under its own name and has
-- its ports, cells and netnames under theirs.
pub load_with_blackboxes-IsParsed :
    (modules : Option (Dict String RawModule)) (top : Module) (blackboxes : Dict String Module)
    → load_with_blackboxes modules ≡ inr (top, blackboxes)
    → IsParsed top.name false top × All (λ (e : String × Module). IsParsed e.0 true e.1) blackboxes
unfolding load_with_blackboxes
load_with_blackboxes-IsParsed none top boxes e = cc
load_with_blackboxes-IsParsed (some []) top boxes e = cc
load_with_blackboxes-IsParsed (some (m ∷ mods)) top boxes e =
    let (found, scanned, rest) =
      and_then-inr (scan_modules (m ∷ mods) ([], [])) (top_of (m ∷ mods)) (top, boxes) e in
    let (parsed, same) = top_of-IsParsed (m ∷ mods) found top boxes rest in
    (
      parsed,
      subst (All (λ (e : String × Module). IsParsed e.0 true e.1)) same
          (scan_modules-AreBlackboxes (m ∷ mods) ([], []) found tt scanned),
    )
