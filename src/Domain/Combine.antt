-- ===== src/Domain/Combine.antt =====
-- `_pick_combining_root` of src/rtl_buddy_cdc/domain.py: the clock root of a gate or a latch. The
-- recorder `on_decline` observes the choice, and is left out.
pub mod Choice
pub mod Decline
use rtl_buddy_cdc.Base.{
  String, Bool, true, false, not, Option, none, some, List, [], ◌∷◌, ◌++◌, ◌==◌, string_eq,
  if◌then◌else◌, contains,
}

-- `list(dict.fromkeys(roots))`, behind the roots that were met before.
unfoldable pub distinct_after : List String → List String → List String
distinct_after met [] = []
distinct_after met (r ∷ rs) =
    let again = distinct_after met rs in
    let fresh = r ∷ distinct_after (r ∷ met) rs in if contains met r then again else fresh

unfoldable pub distinct : List String → List String
unfolding distinct_after contains
distinct = distinct_after []

-- `clock_identity`, where the caller has one.
abbrev pub Identity : Type 0
Identity = String → Option String

unfoldable pub add_identity : Option String → List String → List String
unfolding contains
add_identity none met = met
add_identity (some cid) met = if contains met cid then met else cid ∷ met

-- `{cid for (_, cid) in ids if cid is not None}`, with what was met before.
unfoldable pub identities : Identity → List String → List String → List String
unfolding add_identity
identities identity met [] = met
identities identity met (r ∷ rs) = identities identity (add_identity (identity r) met) rs

-- `for r, cid in ids: if cid is not None: return r`
unfoldable pub first_declared : Identity → List String → Option String
first_declared identity [] = none
first_declared identity (r ∷ rs) = elim (identity r) [
  | none ↦ first_declared identity rs
  | some cid ↦ some r
]

unfoldable pub pick_among : Identity → List String → List String → Option String
pick_among identity (c ∷ d ∷ real) roots = none
pick_among identity (c ∷ []) roots = first_declared identity roots
pick_among identity [] [] = none
pick_among identity [] (r ∷ rs) = some r

unfoldable pub pick_distinct : Option Identity → List String → Option String
unfolding pick_among identities first_declared
pick_distinct identity [] = none
pick_distinct none (r ∷ rs) = some r
pick_distinct (some identity) (r ∷ rs) =
    pick_among identity (identities identity [] (r ∷ rs)) (r ∷ rs)

unfoldable pub pick_combining_root : Option Identity → List String → Option String
unfolding pick_distinct distinct
pick_combining_root identity roots = pick_distinct identity (distinct roots)
