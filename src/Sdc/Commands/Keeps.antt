-- ===== src/Sdc/Commands/Keeps.antt =====
-- No handler of src/rtl_buddy_cdc/sdc.py withdraws an asynchronous or exclusive declaration.
use mathlib.Core.List.{append_assoc, append-nil}
use rtl_buddy_cdc.Base.{
  String, Bool, true, false, ◌||◌, Option-cases, List, [], ◌∷◌, ◌++◌, ◌==◌, ◌≡◌, refl, string_eq,
  if◌then◌else◌, length, ltb, arith, Bool-cases, inl, inr, sym,
}
use rtl_buddy_cdc.Sdc.Args.{Parsed, first}
use rtl_buddy_cdc.Sdc.Numbers.{Numbers}
use rtl_buddy_cdc.Sdc.Spec.{Clock, Warning, ClockSpec, Groups, is_false_path}
use rtl_buddy_cdc.Sdc.Commands.{
  warn, declare, set_pin_clocks, set_port_clocks, add_false_path, add_false_paths_from,
  add_false_paths, add_clock_groups, handle_set_clock_groups, handle_set_false_path,
  handle_create_clock, handle_create_generated_clock, handle_set_delay, declare_generated_clock,
  or_first, strip_master, extract_all,
}

-- `ys` is `xs` with something behind it.
pub record Longer {ℓ} {A : Type ℓ} (xs ys : List A) : Type ℓ where
  pub more : List A
  pub appended : ys ≡ xs ++ more

module _ {ℓ} {A : Type ℓ} where
  pub Longer-refl : (xs : List A) → Longer xs xs
  Longer-refl xs = record { more = []; appended = sym (append-nil xs) }

  pub Longer-trans : {xs ys zs : List A} → Longer xs ys → Longer ys zs → Longer xs zs
  Longer-trans {xs} h k = record {
    more = h.more ++ k.more;
    appended = rw (k.appended, h.appended) (append_assoc xs h.more k.more);
  }

  pub Longer-append : (xs ys : List A) → Longer xs (xs ++ ys)
  Longer-append xs ys = record { more = ys; appended = refl }

  pub Longer-of_eq : {xs ys : List A} → ys ≡ xs → Longer xs ys
  Longer-of_eq {xs} e = rw e (Longer-refl xs)

  Longer-if : (b : Bool) (xs ys : List A) → Longer xs (if b then xs ++ ys else xs)
  Longer-if true xs ys = Longer-append xs ys
  Longer-if false xs ys = Longer-refl xs

-- What was declared about pairs of clocks is still declared, in its place.
pub record Extends {Float : Type 0} (s t : ClockSpec Float) : Type 0 where
  pub async : Longer s.async_groups t.async_groups
  pub exclusive : Longer s.exclusive_groups t.exclusive_groups
  pub false_paths : Longer s.false_path_pairs t.false_path_pairs

module _ {Float : Type 0} where
  pub Extends-refl : (s : ClockSpec Float) → Extends s s
  Extends-refl s = record {
    async = Longer-refl s.async_groups;
    exclusive = Longer-refl s.exclusive_groups;
    false_paths = Longer-refl s.false_path_pairs;
  }

  pub Extends-trans : {s t u : ClockSpec Float} → Extends s t → Extends t u → Extends s u
  Extends-trans h k = record {
    async = Longer-trans h.async k.async;
    exclusive = Longer-trans h.exclusive k.exclusive;
    false_paths = Longer-trans h.false_paths k.false_paths;
  }

  -- The three fields are as they were.
  abbrev Same : ClockSpec Float → ClockSpec Float → Type 0
  Same s t =
      (t.async_groups ≡ s.async_groups)
      × (t.exclusive_groups ≡ s.exclusive_groups)
      × (t.false_path_pairs ≡ s.false_path_pairs)

  Extends-of_Same : {s t : ClockSpec Float} → Same s t → Extends s t
  Extends-of_Same (a, e, f) = record {
    async = Longer-of_eq a;
    exclusive = Longer-of_eq e;
    false_paths = Longer-of_eq f;
  }

  declare-Same : (g : Bool) (clk : Clock Float) (s : ClockSpec Float) → Same s (declare g clk s)
  unfolding declare
  declare-Same g clk s = ground arith

  set_pin_clocks-Same :
      (ts : List String) (name : String) (s : ClockSpec Float) → Same s (set_pin_clocks ts name s)
  unfolding set_pin_clocks
  set_pin_clocks-Same [] name s = (refl, refl, refl)
  set_pin_clocks-Same (t ∷ ts) name s = set_pin_clocks-Same ts name (record s { pin_clocks = _ })

  set_port_clocks-Same :
      (ps : List String) (clock : String) (s : ClockSpec Float)
      → Same s (set_port_clocks ps clock s)
  unfolding set_port_clocks
  set_port_clocks-Same [] clock s = (refl, refl, refl)
  set_port_clocks-Same (p ∷ ps) clock s =
      set_port_clocks-Same ps clock (record s { port_clock = _ })

  add_false_path-Extends : (a b : String) (s : ClockSpec Float) → Extends s (add_false_path a b s)
  unfolding add_false_path
  add_false_path-Extends a b s =
      elim (Bool-cases (a == b || is_false_path s.false_path_pairs a b)) [
        | inl known ↦ rw known (Extends-refl s)
        | inr new ↦ rw new (record {
          async = Longer-refl s.async_groups;
          exclusive = Longer-refl s.exclusive_groups;
          false_paths = Longer-append s.false_path_pairs ((a, b) ∷ []);
        })
      ]

  add_false_paths_from-Extends :
      (a : String) (bs : List String) (s : ClockSpec Float)
      → Extends s (add_false_paths_from a bs s)
  unfolding add_false_paths_from
  add_false_paths_from-Extends a [] s = Extends-refl s
  add_false_paths_from-Extends a (b ∷ bs) s =
      Extends-trans (add_false_path-Extends a b s)
        (add_false_paths_from-Extends a bs (add_false_path a b s))

  add_false_paths-Extends :
      (as' bs : List String) (s : ClockSpec Float) → Extends s (add_false_paths as' bs s)
  unfolding add_false_paths
  add_false_paths-Extends [] bs s = Extends-refl s
  add_false_paths-Extends (a ∷ as') bs s =
      Extends-trans (add_false_paths_from-Extends a bs s)
        (add_false_paths-Extends as' bs (add_false_paths_from a bs s))

  add_clock_groups-Extends :
      (x y : Bool) (groups : Groups) (s : ClockSpec Float)
      → Extends s (add_clock_groups x y groups s)
  unfolding add_clock_groups
  add_clock_groups-Extends x y groups s = elim (Bool-cases (ltb (length groups) 2)) [
    | inl few ↦ rw few (Extends-of_Same (refl, refl, refl))
    | inr enough ↦ rw enough (record {
      async = Longer-if x s.async_groups (groups ∷ []);
      exclusive = Longer-if y s.exclusive_groups (groups ∷ []);
      false_paths = Longer-refl s.false_path_pairs;
    })
  ]

  pub Extends-if :
      (b : Bool) {s t u : ClockSpec Float}
      → Extends s t
      → Extends s u
      → Extends s (if b then t else u)
  Extends-if true h k = h
  Extends-if false h k = k

  module _ {s t : ClockSpec Float} (h : Extends s t) where
    pub Extends-warn : (w : Warning) → Extends s (warn w t)
    Extends-warn w = Extends-trans h (Extends-of_Same (refl, refl, refl))

    Extends-declare : (g : Bool) (clk : Clock Float) → Extends s (declare g clk t)
    Extends-declare g clk = Extends-trans h (Extends-of_Same (declare-Same g clk t))

    Extends-set_pin_clocks :
        (ts : List String) (name : String) → Extends s (set_pin_clocks ts name t)
    Extends-set_pin_clocks ts name =
        Extends-trans h (Extends-of_Same (set_pin_clocks-Same ts name t))

    Extends-set_port_clocks :
        (ps : List String) (clock : String) → Extends s (set_port_clocks ps clock t)
    Extends-set_port_clocks ps clock =
        Extends-trans h (Extends-of_Same (set_port_clocks-Same ps clock t))

ruleset extends_rules = (
  Extends-if, Extends-refl, Extends-warn, Extends-declare, Extends-set_pin_clocks,
  Extends-set_port_clocks, add_clock_groups-Extends, add_false_paths-Extends,
)

module _ {Float : Type 0} (p : Parsed) (s : ClockSpec Float) where
  pub handle_set_clock_groups-Extends : Extends s (handle_set_clock_groups p s)
  unfolding handle_set_clock_groups
  handle_set_clock_groups-Extends = search extends_rules

  pub handle_set_false_path-Extends : Extends s (handle_set_false_path p s)
  unfolding handle_set_false_path
  handle_set_false_path-Extends = search extends_rules

module _ (numbers : Numbers) (p : Parsed) where
  open numbers use {Float}

  pub handle_create_clock-Extends :
      (s : ClockSpec Float) → Extends s (handle_create_clock numbers p s)
  unfolding handle_create_clock
  handle_create_clock-Extends s = Extends-of_Same (ground arith, ground arith, ground arith)

  declare_generated_clock-Extends :
      (name : String) (s : ClockSpec Float) → Extends s (declare_generated_clock numbers p name s)
  unfolding declare_generated_clock
  declare_generated_clock-Extends name s = search extends_rules depth 8

  pub handle_create_generated_clock-Extends :
      (s : ClockSpec Float) → Extends s (handle_create_generated_clock numbers p s)
  unfolding handle_create_generated_clock
  handle_create_generated_clock-Extends s =
      elim (Option-cases (or_first (first p "-name") (extract_all p.tail).0)) [
        | inl unnamed ↦ rw (unnamed, handle_create_generated_clock) (search extends_rules)
        | inr (name, e) ↦
            rw (e, handle_create_generated_clock) (declare_generated_clock-Extends name s)
      ]

  pub handle_set_delay-Extends : (s : ClockSpec Float) → Extends s (handle_set_delay numbers p s)
  unfolding handle_set_delay
  handle_set_delay-Extends s = elim (Option-cases (strip_master (first p "-clock"))) [
    | inl missing ↦ rw missing (search extends_rules depth 8)
    | inr (clock, e) ↦ rw e (search extends_rules depth 8)
  ]
