-- ===== src/Waivers/First.antt =====
-- Which waiver suppresses a violation: the loop over the waivers in `apply`
-- (src/rtl_buddy_cdc/waivers.py).
use rtl_buddy_cdc.Base.{
  Bool, true, false, Option, none, some, List, [], ◌∷◌, ◌≡◌, ◌⊎◌, inl, inr, refl, ◌∙◌, arith, any,
  Bool-cases,
}
use rtl_buddy_cdc.Waivers.{Patterns, Violation, Waiver, SourceRef, matches, find_match}

-- The first of the items that passes the test.
pub data First {A : Type 0} (test : A → Bool) : List A → A → Type 0 where
  here : {x : A} {xs : List A} → test x ≡ true → First test (x ∷ xs) x
  later : {x y : A} {xs : List A} → test x ≡ false → First test xs y → First test (x ∷ xs) y

module _ (re : Patterns) (v : Violation) (loc : Option SourceRef) where
  take_first :
      (w : Waiver re.Pattern) (ws : List (Waiver re.Pattern))
      → matches re v loc w ≡ true
      → find_match re v loc (w ∷ ws) ≡ some w
  unfolding find_match
  take_first w ws e = rw e

  pass_over :
      (w : Waiver re.Pattern) (ws : List (Waiver re.Pattern))
      → matches re v loc w ≡ false
      → find_match re v loc (w ∷ ws) ≡ find_match re v loc ws
  unfolding find_match
  pass_over w ws e = rw e

  pub find_match-First :
      (ws : List (Waiver re.Pattern))
      → ((find_match re v loc ws ≡ none) × (any ws (matches re v loc) ≡ false))
        ⊎ ((w : Waiver re.Pattern) × (find_match re v loc ws ≡ some w)
            × (any ws (matches re v loc) ≡ true)
            × First (matches re v loc) ws w)
  unfolding any find_match
  find_match-First [] = inl (refl, refl)
  find_match-First (w ∷ ws) = elim (Bool-cases (matches re v loc w)) [
    | inl hit ↦ inr (w, take_first w ws hit, ground (arith, hit), First.here hit)
    | inr miss ↦ elim (find_match-First ws) [
      | inl (missed, nothing) ↦ inl (pass_over w ws miss ∙ missed, ground (arith, miss, nothing))
      | inr (x, found, something, first) ↦
          inr (
            x,
            pass_over w ws miss ∙ found,
            ground (arith, miss, something),
            First.later miss first,
          )
    ]
  ]
