-- ===== src/Sdc/Spec/Resolve.antt =====
-- `ClockSpec.resolve` of src/rtl_buddy_cdc/sdc.py: where the walk along the masters ends.
use rtl_buddy_cdc.Base.{
  ℕ, zero, suc, ◌≤◌, ◌<◌, String, true, false, none, some, List, [], ◌∷◌, ◌==◌, string_eq, ◌≡◌,
  refl, ap, ◌⊎◌, inl, inr, if◌then◌else◌, contains, length, Dict, lookup, arith, Bool-cases,
  Option-cases,
}
use rtl_buddy_cdc.Sdc.Spec.{Clock, ClockSpec, master_of, resolve_from, resolve}

module _ {Float : Type 0} where
  -- The clocks whose names the walk has not met.
  unmet : List String → Dict String (Clock Float) → ℕ
  unmet seen [] = 0
  unmet seen ((k, c) ∷ d) = if contains seen k then unmet seen d else suc (unmet seen d)

  unmet-le : (seen : List String) (d : Dict String (Clock Float)) → unmet seen d ≤ length d
  unfolding unmet
  unmet-le seen [] = omega arith
  unmet-le seen ((k, c) ∷ d) = ground (arith, unmet-le seen d)

  unmet-cons-le :
      (seen : List String) (cur : String) (d : Dict String (Clock Float))
      → unmet (cur ∷ seen) d ≤ unmet seen d
  unfolding unmet contains
  unmet-cons-le seen cur [] = omega arith
  unmet-cons-le seen cur ((k, c) ∷ d) = ground (arith, unmet-cons-le seen cur d)

  unmet-cons-lt :
      (seen : List String) (cur : String) (d : Dict String (Clock Float)) (clk : Clock Float)
      → lookup cur d ≡ some clk
      → contains seen cur ≡ false
      → unmet (cur ∷ seen) d < unmet seen d
  unfolding unmet contains lookup
  unmet-cons-lt seen cur [] clk h n = cc
  unmet-cons-lt seen cur ((k, c) ∷ d) clk h n = ground (
    arith,
    unmet-cons-le seen cur d,
    unmet-cons-lt seen cur d clk,
    string_eq.beq_iff cur k,
    string_eq.beq_iff k cur,
  )

  -- Zero or more steps from a clock to its master.
  pub data Chain (clocks : Dict String (Clock Float)) : String → String → Type 0 where
    here : {a : String} → Chain clocks a a
    next : {a b c : String} → master_of clocks a ≡ some b → Chain clocks b c → Chain clocks a c

  -- At least one step, so that `Above a a` says that the masters lead from `a` back to `a`.
  abbrev pub Above : Dict String (Clock Float) → String → String → Type 0
  Above clocks a c = (b : String) × (master_of clocks a ≡ some b) × Chain clocks b c

  Chain-snoc :
      {clocks : Dict String (Clock Float)} {a b c : String}
      → Chain clocks a b
      → master_of clocks b ≡ some c
      → Chain clocks a c
  Chain-snoc here e = next e here
  Chain-snoc (next f ch) e = next f (Chain-snoc ch e)

  -- What the walk knows of the clocks that it has met.
  abbrev Met : Dict String (Clock Float) → List String → String → Type 0
  Met clocks seen cur = (s : String) → contains seen s ≡ true → Above clocks s cur

  -- Where the walk may stop.
  abbrev pub IsEnd : Dict String (Clock Float) → String → Type 0
  IsEnd clocks r = (master_of clocks r ≡ none) ⊎ Above clocks r r

  Met-cons :
      (clocks : Dict String (Clock Float)) (seen : List String) (cur master : String)
      → master_of clocks cur ≡ some master
      → Met clocks seen cur
      → Met clocks (cur ∷ seen) master
  unfolding contains
  Met-cons clocks seen cur master e met s h = elim (Bool-cases (s == cur)) [
    | inl same ↦ rw ((string_eq.beq_iff s cur).0 same) (master, e, here)
    | inr differ ↦ let (b, f, ch) = met s (ground arith) in (b, f, Chain-snoc ch e)
  ]

  is_clock :
      (clocks : Dict String (Clock Float)) (cur master : String)
      → master_of clocks cur ≡ some master
      → (clk : Clock Float) × (lookup cur clocks ≡ some clk)
  unfolding master_of
  is_clock clocks cur master e = elim (Option-cases (lookup cur clocks)) [
    | inl n ↦ ground arith
    | inr found ↦ found
  ]

  -- With fuel for every clock not met, the walk ends at an end of the chain.
  resolve_from_ends :
      (fuel : ℕ) (clocks : Dict String (Clock Float)) (seen : List String) (cur : String)
      → unmet seen clocks < fuel
      → Met clocks seen cur
      → (r : String) × (resolve_from fuel clocks seen cur ≡ some r)
        × Chain clocks cur r
        × IsEnd clocks r
  unfolding resolve_from
  resolve_from_ends zero clocks seen cur h met = absurd (omega arith)
  resolve_from_ends (suc fuel) clocks seen cur h met = elim (Option-cases (master_of clocks cur)) [
    | inl top ↦ (cur, rw (top, resolve_from), here, inl top)
    | inr (master, e) ↦ elim (Bool-cases (contains seen cur)) [
      | inl again ↦ (cur, rw (e, resolve_from) (rw again), here, inr (met cur again))
      | inr fresh ↦
          let (clk, found) = is_clock clocks cur master e in
          let (r, ends, ch, stop) =
            resolve_from_ends fuel clocks (cur ∷ seen) master
              (omega (arith, unmet-cons-lt seen cur clocks clk found fresh))
              (Met-cons clocks seen cur master e met) in
          (r, rw (e, resolve_from) (rw fresh ends), next e ch, stop)
    ]
  ]

  resolve_walk :
      (spec : ClockSpec Float) (name : String)
      → (r : String) × (resolve_from (suc (length spec.clocks)) spec.clocks [] name ≡ some r)
        × Chain spec.clocks name r
        × IsEnd spec.clocks r
  resolve_walk spec name =
      resolve_from_ends (suc (length spec.clocks)) spec.clocks [] name
        (omega (arith, unmet-le [] spec.clocks)) (λ s h. unfold contains in cc)

  -- The walk of `resolve` never runs out of fuel, whatever the masters are: it ends at a clock to
  -- which the masters lead, and which has no declared master or is on a cycle of masters.
  pub resolve_ends :
      (spec : ClockSpec Float) (name : String)
      → (resolve_from (suc (length spec.clocks)) spec.clocks [] name ≡ some (resolve spec name))
        × Chain spec.clocks name (resolve spec name)
        × IsEnd spec.clocks (resolve spec name)
  unfolding resolve
  resolve_ends spec name = let (r, e, ch, stop) = resolve_walk spec name in rw e (refl, ch, stop)

  -- The masters lead from the clock to `root` in so many steps, and `root` has no declared master.
  abbrev pub RootIn : Dict String (Clock Float) → String → ℕ → String → Type 0
  RootIn clocks root zero a = (a ≡ root) × (master_of clocks a ≡ none)
  RootIn clocks root (suc n) a =
      (b : String) × (master_of clocks a ≡ some b) × RootIn clocks root n b

  RootIn-unique :
      (clocks : Dict String (Clock Float)) (root : String) (n m : ℕ) (a : String)
      → RootIn clocks root n a
      → RootIn clocks root m a
      → n ≡ m
  RootIn-unique clocks root zero zero a h k = refl
  RootIn-unique clocks root zero (suc m) a (e, top) (b, f, k) = cc
  RootIn-unique clocks root (suc n) zero a (b, f, h) (e, top) = cc
  RootIn-unique clocks root (suc n) (suc m) a (b, f, h) (c, g, k) =
      let same : b ≡ c = cc in ap suc (RootIn-unique clocks root n m b h (rw same k))

  -- Everything met stands deeper than the clock at hand.
  abbrev Deeper : Dict String (Clock Float) → String → List String → ℕ → Type 0
  Deeper clocks root seen n =
      (s : String) → contains seen s ≡ true → (m : ℕ) × (n < m) × RootIn clocks root m s

  Deeper-cons :
      (clocks : Dict String (Clock Float)) (root : String) (seen : List String) (n : ℕ)
      (cur : String)
      → RootIn clocks root (suc n) cur
      → Deeper clocks root seen (suc n)
      → Deeper clocks root (cur ∷ seen) n
  unfolding contains
  Deeper-cons clocks root seen n cur h deep s k = elim (Bool-cases (s == cur)) [
    | inl same ↦ (suc n, omega arith, rw ((string_eq.beq_iff s cur).0 same) h)
    | inr differ ↦ let (m, lt, r) = deep s (ground arith) in (m, omega arith, r)
  ]

  not_met :
      (clocks : Dict String (Clock Float)) (root : String) (seen : List String) (n : ℕ)
      (cur : String)
      → RootIn clocks root n cur
      → Deeper clocks root seen n
      → contains seen cur ≡ false
  not_met clocks root seen n cur h deep = elim (Bool-cases (contains seen cur)) [
    | inl again ↦
        let (m, lt, r) = deep cur again in
        absurd (omega (arith, RootIn-unique clocks root n m cur h r))
    | inr fresh ↦ fresh
  ]

  resolve_from_root :
      (fuel n : ℕ) (clocks : Dict String (Clock Float)) (root : String) (seen : List String)
      (cur r : String)
      → RootIn clocks root n cur
      → Deeper clocks root seen n
      → resolve_from fuel clocks seen cur ≡ some r
      → r ≡ root
  unfolding resolve_from
  resolve_from_root zero n clocks root seen cur r h deep e = cc
  resolve_from_root (suc fuel) zero clocks root seen cur r (same, top) deep e = ground arith
  resolve_from_root (suc fuel) (suc n) clocks root seen cur r (b, f, h) deep e =
      resolve_from_root fuel n clocks root (cur ∷ seen) b r h
        (Deeper-cons clocks root seen n cur (b, f, h) deep)
        (ground (arith, not_met clocks root seen (suc n) cur (b, f, h) deep))

  -- A clock whose masters lead in any number of steps to a clock with no declared master resolves
  -- to that clock.
  pub resolve_root :
      (spec : ClockSpec Float) (root : String) (n : ℕ) (name : String)
      → RootIn spec.clocks root n name
      → resolve spec name ≡ root
  resolve_root spec root n name h =
      let (e, ch, stop) = resolve_ends spec name in
      resolve_from_root (suc (length spec.clocks)) n spec.clocks root [] name (resolve spec name) h
        (λ s k. unfold contains in cc) e
