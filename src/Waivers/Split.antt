-- ===== src/Waivers/Split.antt =====
-- How `apply` (src/rtl_buddy_cdc/waivers.py) divides the violations.
use mathlib.Core.Option.{some-injective}
use rtl_buddy_cdc.Base.{
  Bool, true, false, not, Option, none, some, List, [], ◌∷◌, ◌≡◌, ◌⊎◌, inl, inr, refl, ap,
  if◌then◌else◌, map, any, All,
}
use rtl_buddy_cdc.Waivers.{
  Patterns, Violation, Waiver, SuppressedViolation, SourceRef, matches, find_match, place, sort_out,
  apply_each, apply,
}
use rtl_buddy_cdc.Waivers.First.{First, find_match-First}

-- The items that pass the test, in their order.
unfoldable pub select : {A : Type 0} → (A → Bool) → List A → List A
select test [] = []
select test (x ∷ xs) = if test x then x ∷ select test xs else select test xs

module _ (re : Patterns) (locate : Option (Violation → Option SourceRef))
    (ws : List (Waiver re.Pattern)) where
  unfoldable pub is_waived : Violation → Bool
  unfolding any
  is_waived v = any ws (matches re v (place re locate v))

  -- The two lists are the violations that no waiver matches and those that one does, each in the
  -- order of the input; and each suppressed violation carries the first waiver that matches it.
  pub Divided : List Violation → List Violation × List (SuppressedViolation re.Pattern) → Type 0
  Divided vs (kept, suppressed) =
      (kept ≡ select (λ v. not (is_waived v)) vs)
      × (map (λ s. s.violation) suppressed ≡ select is_waived vs)
      × All (λ s. First (matches re s.violation (place re locate s.violation)) ws s.waiver)
          suppressed

  select-Divided :
      (v : Violation) (vs : List Violation) (o : Option (Waiver re.Pattern))
      (rest : List Violation × List (SuppressedViolation re.Pattern))
      → Divided vs rest
      → ((o ≡ none) × (is_waived v ≡ false))
        ⊎ ((w : Waiver re.Pattern) × (o ≡ some w)
            × (is_waived v ≡ true)
            × First (matches re v (place re locate v)) ws w)
      → Divided (v ∷ vs) (sort_out re v o rest)
  unfolding Divided sort_out select
  select-Divided v vs none (kept, suppressed) (a, b, c) (inl (e, n)) =
      (rw n (ap (λ ks. v ∷ ks) a), rw n b, c)
  select-Divided v vs none (kept, suppressed) (a, b, c) (inr (w, e, y, f)) = cc
  select-Divided v vs (some x) (kept, suppressed) (a, b, c) (inl (e, n)) = cc
  select-Divided v vs (some x) (kept, suppressed) (a, b, c) (inr (w, e, y, f)) =
      (rw y a, rw y (ap (λ ks. v ∷ ks) b), (rw (some-injective x w e) f, c))

  apply_each-Divided : (vs : List Violation) → Divided vs (apply_each re locate vs ws)
  unfolding Divided apply_each select is_waived any
  apply_each-Divided [] = (refl, refl, tt)
  apply_each-Divided (v ∷ vs) =
      select-Divided v vs (find_match re v (place re locate v) ws) (apply_each re locate vs ws)
        (apply_each-Divided vs) (find_match-First re v (place re locate v) ws)

module _ (re : Patterns) (locate : Option (Violation → Option SourceRef)) where
  nothing_waived :
      (vs : List Violation)
      → (vs ≡ select (λ v. not (is_waived re locate [] v)) vs)
        × ([] ≡ select (is_waived re locate []) vs)
  unfolding select is_waived
  nothing_waived [] = (refl, refl)
  nothing_waived (v ∷ vs) =
      let (kept, none_suppressed) = nothing_waived vs in (ap (λ ks. v ∷ ks) kept, none_suppressed)

  -- `apply` loses no violation and invents none: the kept ones are those that no waiver matches and
  -- the suppressed ones are those that some waiver matches, each in the order of the input, and
  -- each suppressed violation carries the first of the waivers that matches it.
  pub apply-Divided :
      (vs : List Violation) (ws : List (Waiver re.Pattern))
      → Divided re locate ws vs (apply re locate vs ws)
  unfolding Divided apply
  apply-Divided vs [] =
      let (kept, none_suppressed) = nothing_waived vs in (kept, none_suppressed, tt)
  apply-Divided vs (w ∷ ws) = apply_each-Divided re locate (w ∷ ws) vs
