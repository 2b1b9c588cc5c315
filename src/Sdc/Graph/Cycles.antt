-- ===== src/Sdc/Graph/Cycles.antt =====
-- The cycles of masters that `validate_clock_graph` of src/rtl_buddy_cdc/sdc.py reports.
use mathlib.Core.Path.{subst}
use mathlib.Core.Option.{none-ne-some}
use rtl_buddy_cdc.Base.{
  ℕ, zero, suc, ◌≤◌, String, true, none, some, List, [], ◌∷◌, ◌++◌, ◌==◌, ◌≡◌, ◌⊎◌, inl, inr, refl,
  sym, ap, ◌∙◌, arith, string_eq, contains, contains-append, length, Dict, keys, lookup, Within,
  Bool-cases, Option-cases, unvisited, unvisited-length, unvisited-visit, unvisited-same,
}
use rtl_buddy_cdc.Sdc.Spec.{Clock}
use rtl_buddy_cdc.Sdc.Graph.{from_first, generated_master, find_cycle, cycle_from}

module _ {Float : Type 0} (clocks : Dict String (Clock Float)) where
  -- The first clock of a list, or the one behind it.
  abbrev head_or : List String → String → String
  head_or [] next = next
  head_or (x ∷ xs) next = x

  -- Each clock of the list is generated from the one after it, and the last from the one behind it.
  pub LeadsOn : List String → String → Type 0
  LeadsOn [] next = Unit
  LeadsOn (x ∷ xs) next =
      (generated_master (lookup x clocks) ≡ some (head_or xs next)) × LeadsOn xs next

  -- Generated clocks each of which has the next one for its master, and the last one the first.
  pub IsCycle : List String → Type 0
  IsCycle [] = ⊥
  IsCycle (x ∷ xs) = LeadsOn (x ∷ xs) x

  -- The masters of a clock end at one that is not generated from another.
  pub Ends : String → Type 0
  Ends start =
      (later : List String) × (end : String) × LeadsOn (start ∷ later) end
      × (generated_master (lookup end clocks) ≡ none)

  LeadsOn-append :
      (xs : List String) (cur next : String)
      → LeadsOn xs cur
      → generated_master (lookup cur clocks) ≡ some next
      → LeadsOn (xs ++ cur ∷ []) next
  unfolding LeadsOn
  LeadsOn-append [] cur next leads by = (by, tt)
  LeadsOn-append (x ∷ []) cur next (here, leads) by = (here, LeadsOn-append [] cur next leads by)
  LeadsOn-append (x ∷ y ∷ xs) cur next (here, leads) by =
      (here, LeadsOn-append (y ∷ xs) cur next leads by)

  from_first-IsCycle :
      (visited : List String) (cur : String)
      → contains visited cur ≡ true
      → LeadsOn visited cur
      → IsCycle (from_first cur visited)
  unfolding from_first contains LeadsOn IsCycle
  from_first-IsCycle [] cur old leads = cc
  from_first-IsCycle (v ∷ vs) cur old (here, leads) = elim (Bool-cases (v == cur)) [
    | inl same ↦
        rw (from_first, same)
          (subst (λ c. LeadsOn (v ∷ vs) c) (sym ((string_eq.beq_iff v cur).0 same)) (here, leads))
    | inr other ↦
        rw (from_first, other)
          (from_first-IsCycle vs cur
            (ground (arith, old, other, string_eq.beq_iff v cur, string_eq.beq_iff cur v)) leads)
  ]

  Within-keys :
      (cur : String) (clk : Clock Float) (d : Dict String (Clock Float))
      → lookup cur d ≡ some clk
      → Within cur (keys d)
  unfolding lookup keys
  Within-keys cur clk [] found = cc
  Within-keys cur clk ((k, c) ∷ d) found = elim (Bool-cases (cur == k)) [
    | inl same ↦ inl ((string_eq.beq_iff cur k).0 same)
    | inr other ↦ inr (Within-keys cur clk d (ground (arith, other, found)))
  ]

  length-keys : (d : Dict String (Clock Float)) → length (keys d) ≡ length d
  unfolding keys
  length-keys [] = refl
  length-keys (kv ∷ d) = ap suc (length-keys d)

  generated_master-Within :
      (cur master : String)
      → generated_master (lookup cur clocks) ≡ some master
      → Within cur (keys clocks)
  unfolding generated_master
  generated_master-Within cur master by = elim (Option-cases (lookup cur clocks)) [
    | inl missing ↦ absurd (none-ne-some master (sym (ap generated_master missing) ∙ by))
    | inr (clk, found) ↦ Within-keys cur clk clocks found
  ]

  later_first :
      (start : String) (later : List String) (cur x : String)
      → contains ((start ∷ later) ++ cur ∷ []) x ≡ contains (cur ∷ start ∷ later) x
  unfolding contains
  later_first start later cur x = ground (arith, contains-append later (cur ∷ []) x)

  find_cycle-Outcome :
      (fuel : ℕ) (start : String) (later : List String) (cur : String)
      → suc (unvisited (start ∷ later) (keys clocks)) ≤ fuel
      → LeadsOn (start ∷ later) cur
      → ((members : List String) × (find_cycle fuel clocks (start ∷ later) cur ≡ some members)
          × IsCycle members)
        ⊎ ((find_cycle fuel clocks (start ∷ later) cur ≡ none) × Ends start)
  unfolding find_cycle Ends
  find_cycle-Outcome zero start later cur enough leads = absurd (omega (arith, enough))
  find_cycle-Outcome (suc fuel) start later cur enough leads =
      elim (Bool-cases (contains (start ∷ later) cur)) [
        | inl old ↦ inl (
          from_first cur (start ∷ later),
          rw (find_cycle, old) refl,
          from_first-IsCycle (start ∷ later) cur old leads,
        )
        | inr new ↦ elim (Option-cases (generated_master (lookup cur clocks))) [
          | inl ends ↦ inr (rw (find_cycle, new, ends) refl, (later, cur, leads, ends))
          | inr (master, by) ↦
              let fewer =
                unvisited-visit cur (start ∷ later) (keys clocks)
                  (generated_master-Within cur master by) new in
              let same =
                unvisited-same ((start ∷ later) ++ cur ∷ []) (cur ∷ start ∷ later) (keys clocks)
                  (λ x. later_first start later cur x) in
              rw (find_cycle, new, by)
                (find_cycle-Outcome fuel start (later ++ cur ∷ []) master
                  (omega (arith, enough, fewer, same))
                  (LeadsOn-append (start ∷ later) cur master leads by))
        ]
      ]

  -- For a clock of the table that is generated from another, the walk over the masters either finds
  -- a cycle, which is a chain of generated clocks that leads back to its first one, or finds none,
  -- and then the masters end at a name that stands for no generated clock with a master.
  pub cycle_from-Outcome :
      (name : String) (clk : Clock Float) (master : String)
      → lookup name clocks ≡ some clk
      → generated_master (some clk) ≡ some master
      → ((members : List String) × (cycle_from clocks name clk ≡ some members) × IsCycle members)
        ⊎ ((cycle_from clocks name clk ≡ none) × Ends name)
  unfolding cycle_from LeadsOn
  cycle_from-Outcome name clk master found by =
      let bound = unvisited-length (name ∷ []) (keys clocks) in
      rw (cycle_from, by)
        (find_cycle-Outcome (suc (length clocks)) name [] master
          (omega (arith, bound, length-keys clocks)) (ap generated_master found ∙ by, tt))
