-- ===== src/Netlist/Load/One.antt =====
-- When the loader of src/rtl_buddy_cdc/netlist.py fails.
use mathlib.Core.Path.{subst}
use mathlib.Core.Option.{get_or}
use rtl_buddy_cdc.Base.{
  String, Bool, true, false, not, ◌&&◌, Option, none, some, List, [], ◌∷◌, ◌++◌, ◌==◌, ◌≡◌, ◌≢◌,
  ◌⊎◌, inl, inr, refl, ap, sym, ◌∙◌, Dict, keys, lookup, insert, string_eq, if◌then◌else◌, All,
  All-lookup, Within, Bool-cases, length, arith,
}
use mathlib.Core.List.{append_assoc, append-nil}
use rtl_buddy_cdc.Netlist.{Port, Cell, Netname, Module}
use rtl_buddy_cdc.Netlist.Flops.{has_prefix}
use rtl_buddy_cdc.Netlist.Load.{
  not_one_module, RawPort, RawCell, RawNetname, RawModule, Loaded, and_then, required, is_blackbox,
  parse_entries, parse_port, parse_cell, parse_netname, parse_module, Found, scan_module,
  scan_modules, top_of, load_with_blackboxes,
}
use rtl_buddy_cdc.Netlist.Load.Named.{
  scan_module-user, scan_module-blackbox, IsParsed, parse_module-IsParsed, IsNamed,
}

abbrev pub Given : {A : Type 0} → Option A → Type 0
Given {A} o = (a : A) × (o ≡ some a)

-- The keys that Yosys writes for every port, cell and netname.
unfoldable pub HasKeys : RawModule → Type 0
HasKeys raw =
    All (λ (e : String × RawPort). Given e.1.direction × Given e.1.bits) (get_or raw.ports [])
    × All (λ (e : String × RawCell). Given e.1.type) (get_or raw.cells [])
    × All (λ (e : String × RawNetname). Given e.1.bits) (get_or raw.netnames [])

-- A user module is no blackbox, and its name does not start with `$`.
unfoldable pub is_user : String → RawModule → Bool
is_user name raw = not (is_blackbox raw) && not (has_prefix name "$")

unfoldable pub user_modules : Dict String RawModule → List String
user_modules [] = []
user_modules ((name, raw) ∷ mods) =
    let rest = user_modules mods in if is_user name raw then name ∷ rest else rest

parse_entries-total :
    {A B : Type 0} (P : String × A → Type 0) (parse : String → A → Loaded B) (d : Dict String A)
    → ((name : String) (a : A) → P (name, a) → (b : B) × (parse name a ≡ inr b))
    → All P d
    → (out : Dict String B) × (parse_entries parse d ≡ inr out)
unfolding parse_entries and_then
parse_entries-total P parse [] each ps = ([], refl)
parse_entries-total P parse ((name, a) ∷ d) each (p, ps) =
    let (b, first) = each name a p in
    let (rest, others) = parse_entries-total P parse d each ps in
    ((name, b) ∷ rest, rw (first, others) refl)

parse_port-total :
    (name : String) (raw : RawPort)
    → Given raw.direction × Given raw.bits
    → (p : Port) × (parse_port name raw ≡ inr p)
unfolding parse_port and_then required
parse_port-total name raw ((direction, d), (bits, b)) =
    (record { name = name; direction = direction; bits = bits }, rw (d, b) refl)

parse_cell-total :
    (name : String) (raw : RawCell) → Given raw.type → (c : Cell) × (parse_cell name raw ≡ inr c)
unfolding parse_cell and_then required
parse_cell-total name raw (type, t) = (
  record {
    name = name;
    type = type;
    connections = get_or raw.connections [];
    parameters = get_or raw.parameters [];
    attributes = get_or raw.attributes [];
  },
  rw t refl,
)

parse_netname-total :
    (name : String) (raw : RawNetname)
    → Given raw.bits
    → (n : Netname) × (parse_netname name raw ≡ inr n)
unfolding parse_netname and_then required
parse_netname-total name raw (bits, b) =
    (record { name = name; bits = bits; attributes = get_or raw.attributes [] }, rw b refl)

parse_module-total :
    (name : String) (raw : RawModule) (blackbox : Bool)
    → HasKeys raw
    → (m : Module) × (parse_module name raw blackbox ≡ inr m)
unfolding parse_module and_then HasKeys
parse_module-total name raw blackbox (ps, cs, ns) =
    let (ports, e1) =
      parse_entries-total (λ (e : String × RawPort). Given e.1.direction × Given e.1.bits)
        parse_port (get_or raw.ports []) (λ n p given. parse_port-total n p given) ps in
    let (cells, e2) =
      parse_entries-total (λ (e : String × RawCell). Given e.1.type) parse_cell
        (get_or raw.cells []) (λ n c given. parse_cell-total n c given) cs in
    let (netnames, e3) =
      parse_entries-total (λ (e : String × RawNetname). Given e.1.bits) parse_netname
        (get_or raw.netnames []) (λ n p given. parse_netname-total n p given) ns in
    (
      record {
        name = name;
        ports = ports;
        cells = cells;
        netnames = netnames;
        is_blackbox = blackbox;
        boundary = none;
      },
      rw (e1, e2, e3) refl,
    )

abbrev AllHaveKeys : Dict String RawModule → Type 0
AllHaveKeys mods = All (λ (e : String × RawModule). HasKeys e.1) mods

scan_module-total :
    (name : String) (raw : RawModule) (found : Found)
    → HasKeys raw
    → (out : Found) × (scan_module name raw found ≡ inr out)
      × (out.1 ≡ (if is_user name raw then found.1 ++ name ∷ [] else found.1))
unfolding is_user and_then
scan_module-total name raw found has = elim (Bool-cases (is_blackbox raw)) [
  | inr user ↦ (
    (found.0, if has_prefix name "$" then found.1 else found.1 ++ name ∷ []),
    scan_module-user name raw found user,
    elim (Bool-cases (has_prefix name "$")) [
      | inl stub ↦ rw (user, stub) refl
      | inr named ↦ rw (user, named) refl
    ],
  )
  | inl box ↦
      let (m, parsed) = parse_module-total name raw true has in
      (
        (insert name m found.0, found.1),
        scan_module-blackbox name raw found box ∙ rw parsed refl,
        rw box refl,
      )
]

scan_modules-total :
    (mods : Dict String RawModule) (found : Found)
    → AllHaveKeys mods
    → (out : Found) × (scan_modules mods found ≡ inr out) × (out.1 ≡ found.1 ++ user_modules mods)
unfolding scan_modules user_modules and_then
scan_modules-total [] found has = (found, refl, sym (append-nil found.1))
scan_modules-total ((name, raw) ∷ mods) found (has, more) =
    let (next, scanned, tops) = scan_module-total name raw found has in
    let (out, rest, all) = scan_modules-total mods next more in
    (
      out,
      rw (scanned, rest) refl,
      elim (Bool-cases (is_user name raw)) [
        | inl user ↦ all ∙ rw (tops, user) (append_assoc found.1 (name ∷ []) (user_modules mods))
        | inr other ↦ all ∙ rw (tops, other) refl
      ],
    )

ne_true : {a b : String} → (a == b) ≡ false → a ≡ b → ⊥
ne_true {a} {b} other same = ground (arith, other, string_eq.beq_iff a b, same)

parse_module-parts :
    (name : String) (raw : RawModule) (blackbox : Bool) (m : Module)
    → parse_module name raw blackbox ≡ inr m
    → (name ≡ m.name) × (m.is_blackbox ≡ blackbox) × IsNamed m
unfolding IsParsed
parse_module-parts name raw blackbox m e = parse_module-IsParsed name raw blackbox m e

lookup-total :
    (name : String) (mods : Dict String RawModule)
    → Within name (user_modules mods)
    → (raw : RawModule) × (lookup name mods ≡ some raw)
unfolding lookup user_modules
lookup-total name [] w = absurd w
lookup-total name ((j, raw) ∷ mods) w = elim (Bool-cases (name == j)) [
  | inl hit ↦ (raw, rw hit refl)
  | inr other ↦
      let later : Within name (user_modules mods) = elim (Bool-cases (is_user j raw)) [
        | inr stub ↦ subst (Within name) {y = user_modules mods} (rw stub refl) w
        | inl user ↦ elim (subst (Within name) {y = j ∷ user_modules mods} (rw user refl) w) [
          | inl same ↦ absurd (ne_true other same)
          | inr rest ↦ rest
        ]
      ] in
      let (found, at) = lookup-total name mods later in (found, rw (other, at) refl)
]

-- What becomes of the candidates.
Outcome : Dict String RawModule → List String → Loaded (Module × Dict String Module) → Type 0
Outcome mods users result =
    ((found : Module × Dict String Module) × (result ≡ inr found) × (users ≡ found.0.name ∷ []))
    ⊎ ((result ≡ inl (not_one_module (keys mods))) × (length users ≢ 1))

top_of-Outcome :
    (mods : Dict String RawModule) (boxes : Dict String Module) (users : List String)
    → AllHaveKeys mods
    → users ≡ user_modules mods
    → Outcome mods users (top_of mods (boxes, users))
unfolding Outcome top_of and_then required
top_of-Outcome mods boxes [] has same = inr (refl, λ e. absurd (omega (arith, e)))
top_of-Outcome mods boxes (a ∷ b ∷ users) has same = inr (refl, λ e. absurd (omega (arith, e)))
top_of-Outcome mods boxes (name ∷ []) has same =
    let (raw, found) = lookup-total name mods (subst (Within name) same (inl refl)) in
    let keys_there = All-lookup (λ (e : String × RawModule). HasKeys e.1) name raw mods has found in
    let (m, parsed) = parse_module-total name raw false keys_there in
    let (named, user, entries) = parse_module-parts name raw false m parsed in
    inl ((m, boxes), rw (found, parsed) refl, ap (λ n. n ∷ []) named)

-- For a file with modules, each with the keys that the loader reads, loading gives a module exactly
-- where the file has one user module, which is then the module of that name; and otherwise it fails
-- with the names of all modules.
pub load_with_blackboxes-Outcome :
    (first : String × RawModule) (mods : Dict String RawModule)
    → All (λ (e : String × RawModule). HasKeys e.1) (first ∷ mods)
    → ((found : Module × Dict String Module) × (load_with_blackboxes (some (first ∷ mods))
          ≡ inr found)
        × (user_modules (first ∷ mods) ≡ found.0.name ∷ []))
      ⊎ ((load_with_blackboxes (some (first ∷ mods)) ≡ inl (not_one_module (keys (first ∷ mods))))
          × (length (user_modules (first ∷ mods)) ≢ 1))
unfolding load_with_blackboxes Outcome and_then
load_with_blackboxes-Outcome first mods has =
    let ((boxes, users), scanned, all) = scan_modules-total (first ∷ mods) ([], []) has in
    let users_are : users ≡ user_modules (first ∷ mods) = all in
    subst
      (λ us.
        Outcome (first ∷ mods) us
          (and_then (scan_modules (first ∷ mods) ([], [])) (top_of (first ∷ mods))))
      users_are (rw scanned (top_of-Outcome (first ∷ mods) boxes users has users_are))
