-- ===== src/Sdc/Spec/Relation.antt =====
-- The asynchrony relation of `ClockSpec` (src/rtl_buddy_cdc/sdc.py): `are_async` and
-- `is_unreachable_crossing`.
use rtl_buddy_cdc.Base.{
  ℕ, String, Bool, true, false, ◌||◌, List, [], ◌∷◌, ◌==◌, string_eq, nat_eq, eq_comm, eq_self, ◌≡◌,
  ◌≢◌, refl, ap, if◌then◌else◌, contains, any, arith,
}
use rtl_buddy_cdc.Sdc.Spec.{
  ClockSpec, Groups, unconstrained_sentinel, resolve, in_different, separates, is_false_path,
  roots_async, are_async,
}
use rtl_buddy_cdc.Sdc.Spec.Resolve.{RootIn, resolve_root}

in_different_comm :
    (p q : List String → Bool) (groups : Groups) → in_different p q groups ≡ in_different q p groups
unfolding in_different
in_different_comm p q groups = ground arith

separates_comm :
    (statements : List Groups) (a b : String) → separates statements a b ≡ separates statements b a
unfolding separates any
separates_comm [] a b = refl
separates_comm (g ∷ gs) a b =
    ground
      (arith, separates_comm gs a b, in_different_comm (λ s. contains s a) (λ s. contains s b) g)

is_false_path_comm :
    (pairs : List (String × String)) (a b : String)
    → is_false_path pairs a b ≡ is_false_path pairs b a
unfolding is_false_path any
is_false_path_comm [] a b = refl
is_false_path_comm (p ∷ ps) a b = ground (arith, is_false_path_comm ps a b)

module _ {Float : Type 0} (spec : ClockSpec Float) (a b : String) where
  roots_async_comm : (ra rb : String) → roots_async spec a b ra rb ≡ roots_async spec b a rb ra
  unfolding roots_async
  roots_async_comm ra rb = ground (
    arith,
    eq_comm ra rb,
    is_false_path_comm spec.false_path_pairs ra rb,
    is_false_path_comm spec.false_path_pairs a b,
    separates_comm spec.async_groups ra rb,
  )

  -- Which of two clocks is the source does not matter.
  pub are_async_comm : are_async spec a b ≡ are_async spec b a
  unfolding are_async
  are_async_comm = ground (
    arith,
    eq_comm a b,
    separates_comm spec.async_groups a b,
    roots_async_comm (resolve spec a) (resolve spec b),
  )

  -- Two clocks whose masters lead to one root, however long the two chains are, are asynchronous
  -- exactly if they differ and one is the sentinel of an untyped port or one `set_clock_groups
  -- -asynchronous` statement names them in different groups. A declared false path between them
  -- changes nothing.
  pub are_async_of_common_root :
      (root : String) (n m : ℕ)
      → RootIn spec.clocks root n a
      → RootIn spec.clocks root m b
      → are_async spec a b ≡ (
          if a == b
          then false
          else ((a == unconstrained_sentinel || b == unconstrained_sentinel)
              || separates spec.async_groups a b))
  unfolding are_async roots_async
  are_async_of_common_root root n m h k =
      rw (resolve_root spec root n a h, resolve_root spec root m b k) (ground (arith, eq_self root))

  pub are_async_of_separates :
      a ≢ b → separates spec.async_groups a b ≡ true → are_async spec a b ≡ true
  unfolding are_async
  are_async_of_separates n h = ground (arith, string_eq.beq_iff a b)

  pub are_async_of_false_path :
      resolve spec a ≢ resolve spec b
      → is_false_path spec.false_path_pairs a b ≡ true
      → are_async spec a b ≡ true
  unfolding are_async roots_async
  are_async_of_false_path n h =
      let distinct : a ≢ b = λ e. n (ap (resolve spec) e) in
      ground (arith, string_eq.beq_iff a b, string_eq.beq_iff (resolve spec a) (resolve spec b))
