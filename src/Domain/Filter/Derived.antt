-- ===== src/Domain/Filter/Derived.antt =====
-- Crossings between the clocks of one master, in `filter_async` (src/rtl_buddy_cdc/domain.py).
use rtl_buddy_cdc.Base.{ℕ, String, false, List, [], ◌∷◌, ◌==◌, ◌≡◌, refl, arith, string_eq, All}
use rtl_buddy_cdc.Sdc.Spec.{ClockSpec, are_async, separates, unconstrained_sentinel}
use rtl_buddy_cdc.Sdc.Spec.Resolve.{RootIn}
use rtl_buddy_cdc.Sdc.Spec.Relation.{are_async_of_common_root}
use rtl_buddy_cdc.Domain.{Crossing}
use rtl_buddy_cdc.Domain.Filter.{clock_of, filter_async}

module _ {Float : Type 0} (spec : ClockSpec Float) (root : String) where
  -- Both clocks derive from the root, however long the chains of masters are; neither is that of an
  -- untyped port, and no `set_clock_groups -asynchronous` statement separates them.
  unfoldable pub IsDerived : Crossing → Type 0
  IsDerived c =
      (n m : ℕ) × RootIn spec.clocks root n (clock_of spec c.src_clock)
      × RootIn spec.clocks root m (clock_of spec c.dst_clock)
      × ((clock_of spec c.src_clock == unconstrained_sentinel) ≡ false)
      × ((clock_of spec c.dst_clock == unconstrained_sentinel) ≡ false)
      × (separates spec.async_groups (clock_of spec c.src_clock) (clock_of spec c.dst_clock)
          ≡ false)

  derived_synchronous :
      (c : Crossing)
      → IsDerived c
      → are_async spec (clock_of spec c.src_clock) (clock_of spec c.dst_clock) ≡ false
  unfolding IsDerived
  derived_synchronous c (n, m, src, dst, src_typed, dst_typed, together) = ground (
    arith,
    src_typed,
    dst_typed,
    together,
    are_async_of_common_root spec (clock_of spec c.src_clock) (clock_of spec c.dst_clock) root n m
        src dst,
  )

  -- Where the clocks of every crossing derive from one master, are not of untyped ports and are not
  -- separated by `set_clock_groups`, the rules see no crossing, also where a false path is declared
  -- between the clocks.
  pub filter_async-IsDerived : (cs : List Crossing) → All IsDerived cs → filter_async spec cs ≡ []
  unfolding filter_async
  filter_async-IsDerived [] h = refl
  filter_async-IsDerived (c ∷ cs) (derived, rest) =
      ground (arith, derived_synchronous c derived, filter_async-IsDerived cs rest)
