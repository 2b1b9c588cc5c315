-- ===== src/Domain/Filter.antt =====
-- `filter_async` of src/rtl_buddy_cdc/domain.py: the crossings that the rules see.
pub mod Derived
use rtl_buddy_cdc.Base.{String, Option, none, some, List, [], ◌∷◌, ◌==◌, string_eq, if◌then◌else◌}
use rtl_buddy_cdc.Sdc.Spec.{ClockSpec, clock_for_port, are_async, is_unreachable_crossing}
use rtl_buddy_cdc.Domain.{Crossing}

-- `spec.clock_for_port(name) or name`: an empty name counts as none.
abbrev pub or_name : Option String → String → String
or_name none name = name
or_name (some clock) name = if clock == "" then name else clock

module _ {Float : Type 0} (spec : ClockSpec Float) where
  unfoldable pub clock_of : String → String
  clock_of name = or_name (clock_for_port spec name) name

  unfoldable pub filter_async : List Crossing → List Crossing
  unfolding clock_of
  filter_async [] = []
  filter_async (c ∷ cs) =
      let rest = filter_async cs in
      let a = clock_of c.src_clock in
      let b = clock_of c.dst_clock in
      if is_unreachable_crossing spec a b
      then rest
      else if are_async spec a b
      then c ∷ rest
      else rest
