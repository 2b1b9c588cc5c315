-- ===== src/Sdc/Args.antt =====
-- The argument slicer of src/rtl_buddy_cdc/sdc.py: `Arity`, `ArgSpec`, `Parsed` and `_slice`.
pub mod Lines
use mathlib.Core.Option.{get_or}
use rtl_buddy_cdc.Base.{
  ℕ, String, Bool, true, false, not, Option, none, some, List, [], ◌∷◌, ◌++◌, length, take_while,
  if◌then◌else◌, Dict, lookup, insert, string_eq,
}
use rtl_buddy_cdc.Sdc.Names.{is_flag}

pub data Arity : Type 0 where
  zero one greedy : Arity

-- `repeated` is documentation in the source: nothing reads it.
pub record ArgSpec : Type 0 where
  pub flags : Dict String Arity
  pub repeated : List String

-- One occurrence of a flag: `True`, the operand word, or the slurped words.
pub data Occurrence : Type 0 where
  bare : Occurrence
  operand : String → Occurrence
  slurped : List String → Occurrence

pub record Parsed : Type 0 where
  pub flags : Dict String (List Occurrence)
  pub tail : List String

-- `self.flags.get(flag, []) or []`
unfoldable pub all_of : Parsed → String → List Occurrence
all_of p flag = get_or (lookup flag p.flags) []

abbrev is_nonempty : List Occurrence → Bool
is_nonempty [] = false
is_nonempty (o ∷ os) = true

unfoldable pub present : Parsed → String → Bool
unfolding all_of
present p flag = is_nonempty (all_of p flag)

abbrev first_operand : List Occurrence → Option String
first_operand (operand w ∷ os) = some w
first_operand _ = none

-- `p.first(flag)` of a flag of arity `ONE`.
unfoldable pub first : Parsed → String → Option String
unfolding all_of
first p flag = first_operand (all_of p flag)

-- `flags[w].append(occurrence)`
unfoldable pub add_occurrence : String → Occurrence → Parsed → Parsed
unfolding all_of
add_occurrence w o p = record p { flags = insert w (all_of p w ++ o ∷ []) p.flags }

abbrev add_tail : String → Parsed → Parsed
add_tail w p = record p { tail = p.tail ++ w ∷ [] }

unfoldable pub operands : List String → List String
operands = take_while (λ w. not (is_flag w))

-- A flag of the table: the new state, and how many of the words behind it are taken.
take_flag : Arity → String → List String → Parsed → Parsed × ℕ
unfolding add_occurrence
take_flag zero w rest p = (add_occurrence w bare p, 0)
take_flag one w [] p = (p, 0)
take_flag one w (next ∷ rest) p = (add_occurrence w (operand next) p, 1)
take_flag greedy w rest p =
    let slurp = operands rest in (add_occurrence w (slurped slurp) p, length slurp)

-- How many words an unknown flag takes.
skip_unknown : List String → ℕ
skip_unknown [] = 0
skip_unknown (next ∷ rest) = if is_flag next then 0 else 1

take_other : String → List String → Parsed → Parsed × ℕ
unfolding skip_unknown
take_other w rest p = if is_flag w then (p, skip_unknown rest) else (add_tail w p, 0)

-- One round of the loop at the word `w`.
unfoldable pub take_word : ArgSpec → String → List String → Parsed → Parsed × ℕ
unfolding take_flag take_other
take_word spec w rest p = elim (lookup w spec.flags) [
  | some arity ↦ take_flag arity w rest p
  | none ↦ take_other w rest p
]

-- The loop: `i` stands behind `skip` more words, which a round before has taken.
unfoldable pub slice_from : ArgSpec → Parsed → ℕ → List String → Parsed
slice_from spec p skip [] = p
slice_from spec p (ℕ.suc skip) (w ∷ ws) = slice_from spec p skip ws
slice_from spec p ℕ.zero (w ∷ ws) =
    let (p', skip) = take_word spec w ws p in slice_from spec p' skip ws

unfoldable pub no_occurrences : Dict String Arity → Dict String (List Occurrence)
no_occurrences [] = []
no_occurrences ((f, arity) ∷ fs) = (f, []) ∷ no_occurrences fs

unfoldable pub slice : List String → ArgSpec → Parsed
unfolding slice_from take_word no_occurrences operands take_while lookup insert
slice words spec = slice_from spec (record { flags = no_occurrences spec.flags; tail = [] }) 0 words
